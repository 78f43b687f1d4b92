-- ===== src/Number.antt =====
-- src/debugger.c: how the commands read numbers, with strtol(3) written out.
pub mod Digits
pub mod Printed
mod Tests
use spray.Base.{
  ℕ, zero, suc, ◌+◌, ◌-◌, ◌*◌, ◌%◌, ◌^◌, Bool, true, false, ◌&&◌, ◌||◌, Option, none, some, List,
  [], ◌∷◌, CString, ltb, leb, ◌==◌, if◌then◌else◌,
}
use spray.Base.Int.{ℤ, pos, negsuc, unsigned64}
use spray.Magic.{SprayResult, sp_ok, sp_err}

-- `isspace`
abbrev pub is_space : ℕ → Bool
is_space c = (c == 32) || (leb 9 c && leb c 13)

unfoldable pub skip_space : CString → CString
skip_space [] = []
skip_space (c ∷ cs) = if is_space c then skip_space cs else c ∷ cs

-- The value of a digit in a base of at most 36.
unfoldable pub digit_value : ℕ → ℕ → Option ℕ
digit_value base c =
    let v =
      (if leb 48 c && leb c 57
        then c - 48
        else if leb 97 c && leb c 122
        then c - 87
        else if leb 65 c && leb c 90
        then c - 55
        else base) in
    if ltb v base then some v else none

-- The digits at the head of a string: their value on top of `acc`, whether there is one (`seen`
-- before them), and the rest.
pub record Scan : Type 0 where
  pub value : ℕ
  pub seen : Bool
  pub rest : CString

unfoldable pub scan : ℕ → ℕ → Bool → CString → Scan
unfolding digit_value
scan base acc seen [] = record { value = acc; seen = seen; rest = [] }
scan base acc seen (c ∷ cs) = elim (digit_value base c) [
  | none ↦ record { value = acc; seen = seen; rest = c ∷ cs }
  | some v ↦ scan base (acc * base + v) true cs
]

-- `0x` or `0X` in front of a hexadecimal digit
unfoldable pub skip_prefix : ℕ → CString → CString
unfolding digit_value
skip_prefix base (z ∷ x ∷ d ∷ cs) =
    if (base == 16) && (z == b'0') && ((x == b'x') || (x == b'X'))
    then elim (digit_value base d) [ none ↦ z ∷ x ∷ d ∷ cs | some _ ↦ d ∷ cs ]
    else z ∷ x ∷ d ∷ cs
skip_prefix base cs = cs

-- The sign, and the string behind it.
unfoldable pub read_sign : CString → record { negative : Bool; rest : CString }
read_sign [] = record { negative = false; rest = [] }
read_sign (c ∷ cs) =
    if c == b'-'
    then record { negative = true; rest = cs }
    else if c == b'+'
    then record { negative = false; rest = cs }
    else record { negative = false; rest = c ∷ cs }

-- `LONG_MIN` and `LONG_MAX` bound the result.
abbrev pub clamp_long : Bool → ℕ → ℤ
clamp_long false n = if ltb n (2 ^ 63) then pos n else pos (2 ^ 63 - 1)
clamp_long true zero = pos 0
clamp_long true (suc n) = if ltb n (2 ^ 63) then negsuc n else negsuc (2 ^ 63 - 1)

pub record Strtol : Type 0 where
  pub value : ℤ
  pub end : CString

-- strtol(3): the value, and what `str_end` points at.
unfoldable pub strtol : CString → ℕ → Strtol
strtol str base =
    let sign = read_sign (skip_space str) in
    let r = scan base 0 false (skip_prefix base sign.rest) in
    if r.seen
    then record { value = clamp_long sign.negative r.value; end = r.rest }
    else record { value = pos 0; end = str }

abbrev pub is_empty : CString → Bool
is_empty [] = true
is_empty (c ∷ cs) = false

-- `none` is `SP_ERR`, which leaves `*store` alone.
unfoldable pub parse_num : CString → ℕ → Option ℕ
parse_num str base =
    let r = strtol str base in
    if is_empty str then none else if is_empty r.end then some (unsigned64 r.value) else none

unfoldable pub parse_base16 : CString → Option ℕ
parse_base16 str = parse_num str 16

unfoldable pub parse_base10 : CString → Option ℕ
parse_base10 str = parse_num str 10

-- `line_buf <= UINT_MAX`, and the conversion of `line_buf` to `unsigned`.
abbrev pub to_unsigned : ℤ → Option ℕ
to_unsigned (pos n) = if ltb n (2 ^ 32) then some n else none
to_unsigned (negsuc n) = some (2 ^ 32 - 1 - n % 2 ^ 32)

unfoldable pub parse_lineno : CString → Option ℕ
parse_lineno line_str =
    let r = strtol line_str 10 in
    if is_empty line_str then none else if is_empty r.end then to_unsigned r.value else none
