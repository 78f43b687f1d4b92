-- ===== src/Number/Printed.antt =====
-- What the debugger prints, read back by the debugger.
use mathlib.Core.List.{append-nil}
use native.Mathlib.Decide.{dec_lt}
use spray.Base.{
  ℕ, suc, ◌-◌, ◌^◌, ◌≤◌, ◌<◌, ◌≡◌, refl, sym, ap, ◌∙◌, Bool, true, false, some, [], ◌∷◌, CString,
  arith, ltb, if◌then◌else◌,
}
use spray.Base.Int.{signed64, unsigned64, pos, negsuc}
use spray.Magic.{word_mod}
use spray.Magic.Format.{digit_char, digits, print_nat, print_signed, print_format, fmt_hex, fmt_dec}
use spray.Number.{
  Scan, Strtol, skip_space, read_sign, skip_prefix, scan, strtol, clamp_long, parse_num,
  parse_base16, parse_base10,
}
use spray.Number.Digits.{bound, digit_value-digit_char, digits-head, scan-digits}

-- The end of `strtol`.
abbrev finish : CString → Bool → Scan → Strtol
finish str negative r =
    if r.seen
    then record { value = clamp_long negative r.value; end = r.rest }
    else record { value = pos 0; end = str }

module _ (d : ℕ) (cs : CString) (small : d < 16) where
  plain : skip_space (digit_char d ∷ cs) ≡ digit_char d ∷ cs
  unfolding skip_space digit_char
  plain = ground arith

  unsigned : read_sign (digit_char d ∷ cs) ≡ record { negative = false; rest = digit_char d ∷ cs }
  unfolding read_sign digit_char
  unsigned = ground arith

skip_prefix_ten : (cs : CString) → skip_prefix 10 cs ≡ cs
unfolding skip_prefix
skip_prefix_ten [] = refl
skip_prefix_ten (a ∷ []) = refl
skip_prefix_ten (a ∷ b ∷ []) = refl
skip_prefix_ten (a ∷ b ∷ c ∷ cs) = refl

abbrev hex_prefix : CString → CString
hex_prefix cs = b'0' ∷ b'x' ∷ cs

skip_prefix_hex :
    (d : ℕ) (cs : CString)
    → d < 16
    → skip_prefix 16 (hex_prefix (digit_char d ∷ cs)) ≡ digit_char d ∷ cs
unfolding skip_prefix
skip_prefix_hex d cs h = rw (digit_value-digit_char 16 d h (omega arith), skip_prefix)

module _ (d : ℕ) (cs : CString) where
  strtol_ten :
      d < 10
      → strtol (digit_char d ∷ cs) 10
        ≡ finish (digit_char d ∷ cs) false (scan 10 0 false (digit_char d ∷ cs))
  unfolding strtol
  strtol_ten h = rw (strtol, plain d cs (omega arith), unsigned d cs (omega arith), skip_prefix_ten)

  strtol_minus :
      strtol (b'-' ∷ digit_char d ∷ cs) 10
      ≡ finish (b'-' ∷ digit_char d ∷ cs) true (scan 10 0 false (digit_char d ∷ cs))
  unfolding strtol skip_space read_sign
  strtol_minus = rw (strtol, skip_prefix_ten)

  strtol_hex :
      d < 16
      → strtol (hex_prefix (digit_char d ∷ cs)) 16
        ≡ finish (hex_prefix (digit_char d ∷ cs)) false (scan 16 0 false (digit_char d ∷ cs))
  unfolding strtol skip_space read_sign
  strtol_hex h = rw (strtol, skip_prefix_hex d cs h)

abbrev all_of : ℕ → Scan
all_of n = record { value = n; seen = true; rest = [] }

module _ (base n : ℕ) (two : 2 ≤ base) (sixteen : base ≤ 16) (fits : n < bound base 20) where
  scan-print_nat : scan base 0 false (print_nat base n) ≡ all_of n
  scan-print_nat =
      ap (scan base 0 false) (sym (append-nil (print_nat base n)))
      ∙ scan-digits base two sixteen 20 n [] (omega arith) fits
      ∙ (unfold scan in refl)

  -- With the first digit at hand.
  scan_head :
      (d : ℕ) (cs : CString)
      → digits base 20 n ≡ digit_char d ∷ cs
      → scan base 0 false (digit_char d ∷ cs) ≡ all_of n
  scan_head d cs e = rw (← e) scan-print_nat

parse_positive : (n : ℕ) → n < 2 ^ 63 → parse_base10 (print_signed (pos n)) ≡ some n
unfolding parse_base10 parse_num print_signed
parse_positive n small =
    let (d, cs, digit, e) = digits-head 10 19 n (omega arith) in
    let read = scan_head 10 n (omega arith) (omega arith) (omega arith) d cs e in
    rw (e, parse_num, strtol_ten d cs digit, read) (ground arith)

parse_negative :
    (n : ℕ) → n < 2 ^ 63 → parse_base10 (print_signed (negsuc n)) ≡ some (unsigned64 (negsuc n))
unfolding parse_base10 parse_num print_signed
parse_negative n small =
    let (d, cs, digit, e) = digits-head 10 19 (suc n) (omega arith) in
    let read = scan_head 10 (suc n) (omega arith) (omega arith) (omega arith) d cs e in
    rw (e, parse_num, strtol_minus d cs, read) (ground arith)

-- A value printed as a signed decimal number, which is also the default format, is read back
-- as the same 64-bit value.
pub parse_base10-print_dec : (v : ℕ) → v < word_mod → parse_base10 (print_format v fmt_dec) ≡ some v
unfolding print_format
parse_base10-print_dec v h = elim (dec_lt v (2 ^ 63)) [
  | yes low ↦
      let e : signed64 v ≡ pos v = ground arith in rw (e, print_format) (parse_positive v low)
  | no high ↦
      let e : signed64 v ≡ negsuc (2 ^ 64 - v - 1) = ground arith in
      rw (e, print_format) (parse_negative (2 ^ 64 - v - 1) (omega arith) ∙ ap some (omega arith))
]

-- A value printed as a hexadecimal number is read back as it was if it is below 2 ^ 63, and as
-- 2 ^ 63 - 1 if not: `parse_num` takes what strtol(3) makes of a number that is out of its range.
pub parse_base16-print_hex :
    (v : ℕ)
    → v < word_mod
    → parse_base16 (print_format v fmt_hex) ≡ some (if ltb v (2 ^ 63) then v else 2 ^ 63 - 1)
unfolding parse_base16 parse_num print_format
parse_base16-print_hex v h =
    let (d, cs, digit, e) = digits-head 16 19 v (omega arith) in
    let read = scan_head 16 v (omega arith) (omega arith) (omega arith) d cs e in
    rw (e, parse_num, strtol_hex d cs digit, read) (ground arith)
