-- ===== src/Value/Masked.antt =====
-- src/info.c: the bytes of a word that a value of some size has.
use native.Mathlib.Nat.{pow-le-pow_right, mod-eq_of_lt}
use spray.Base.{
  ℕ, zero, suc, ◌+◌, ◌*◌, ◌-◌, ◌%◌, ◌^◌, ◌<◌, ◌≤◌, ◌≡◌, refl, sym, ◌∙◌, arith, bit_and,
}
use spray.Base.Bits.{and_low}
use spray.Magic.Format.{FormatFilter, fmt_none, fmt_hex, fmt_bits, fmt_addr, fmt_dec, fmt_bytes}
use spray.Magic.{word_mod}
use spray.VarType.{SdBasetype}
use spray.Value.{mask_of, mask_var_value_, Floats, print_base_type}

many_bytes : (n : ℕ) → 2 ^ 64 ≤ 256 ^ (n + 8)
many_bytes n = pow-le-pow_right (omega arith) {i = 8} (omega arith)

large_mask : (n : ℕ) → mask_of ((n + 8) * 8) ≡ word_mod - 1
unfolding mask_of
large_mask n = ground arith

-- All bytes of a word, where the size is 8 or more.
whole_word : (n v : ℕ) → v < word_mod → bit_and v (mask_of ((n + 8) * 8)) ≡ v % 256 ^ (n + 8)
whole_word n v h =
    rw (large_mask n, mod-eq_of_lt {n = v} {m = 256 ^ (n + 8)} (omega (arith, many_bytes n)))
      (omega (arith, and_low 64 v))

mask_of_lem : (n v : ℕ) → v < word_mod → bit_and v (mask_of (n * 8)) ≡ v % 256 ^ n
unfolding mask_of
mask_of_lem zero v h = omega (arith, and_low 0 v)
mask_of_lem (suc zero) v h = omega (arith, and_low 8 v)
mask_of_lem (suc (suc zero)) v h = omega (arith, and_low 16 v)
mask_of_lem (suc (suc (suc zero))) v h = omega (arith, and_low 24 v)
mask_of_lem (suc (suc (suc (suc zero)))) v h = omega (arith, and_low 32 v)
mask_of_lem (suc (suc (suc (suc (suc zero))))) v h = omega (arith, and_low 40 v)
mask_of_lem (suc (suc (suc (suc (suc (suc zero)))))) v h = omega (arith, and_low 48 v)
mask_of_lem (suc (suc (suc (suc (suc (suc (suc zero))))))) v h = omega (arith, and_low 56 v)
mask_of_lem (suc (suc (suc (suc (suc (suc (suc (suc n)))))))) v h =
    let e : suc (suc (suc (suc (suc (suc (suc (suc n))))))) ≡ n + 8 = omega arith in
    rw e (whole_word n v h)

-- The masked value is the number in the lowest bytes of a word, as many as the type has.
pub mask_var_value__lem :
    (base_type : SdBasetype) (value : ℕ)
    → value < word_mod
    → mask_var_value_ base_type value ≡ value % 256 ^ base_type.size
unfolding mask_var_value_
mask_var_value__lem base_type value h = mask_of_lem base_type.size value h

-- Two words that agree in the bytes of a base type are printed alike, with every filter: the bytes
-- behind the variable in memory are not shown.
pub print_base_type-bytes :
    (F : Floats) (base_type : SdBasetype) (v w : ℕ) (filter : FormatFilter)
    → v < word_mod
    → w < word_mod
    → v % 256 ^ base_type.size ≡ w % 256 ^ base_type.size
    → print_base_type F base_type v filter ≡ print_base_type F base_type w filter
unfolding print_base_type
print_base_type-bytes F base_type v w filter hv hw e = same filter
  where
    masked : mask_var_value_ base_type v ≡ mask_var_value_ base_type w
    masked = mask_var_value__lem base_type v hv ∙ e ∙ sym (mask_var_value__lem base_type w hw)

    same : (f : FormatFilter) → print_base_type F base_type v f ≡ print_base_type F base_type w f
    same fmt_none = rw masked refl
    same fmt_hex = rw masked refl
    same fmt_bits = rw masked refl
    same fmt_addr = rw masked refl
    same fmt_dec = rw masked refl
    same fmt_bytes = rw masked refl
