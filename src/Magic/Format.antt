-- ===== src/Magic/Format.antt =====
-- src/magic.c: the filters that format a value, and `print_format`. The conversions of printf(3) that
-- it uses are written out.
use spray.Base.{
  ℕ, zero, suc, ◌+◌, ◌-◌, ◌/◌, ◌%◌, ◌^◌, Option, none, some, [], ◌∷◌, ◌++◌, CString, bytes, ltb,
  ◌==◌, if◌then◌else◌, bit_and, length, map, ◌≡◌, refl,
}
use spray.Base.Int.{ℤ, pos, negsuc, signed64}
use spray.Magic.{str_eq}

pub data FormatFilter : Type 0 where
  fmt_none fmt_hex fmt_bits fmt_addr fmt_dec fmt_bytes : FormatFilter

-- The case of a string that is not `NULL`.
unfoldable pub parse_format_str : CString → FormatFilter
unfolding str_eq
parse_format_str str =
    if str_eq str (bytes "hex")
    then fmt_hex
    else if str_eq str (bytes "bits")
    then fmt_bits
    else if str_eq str (bytes "addr")
    then fmt_addr
    else if str_eq str (bytes "dec")
    then fmt_dec
    else if str_eq str (bytes "bytes")
    then fmt_bytes
    else fmt_none

-- `none` is `NULL`.
unfoldable pub parse_format : Option CString → FormatFilter
unfolding parse_format_str
parse_format none = fmt_none
parse_format (some str) = parse_format_str str

unfoldable pub default_format : FormatFilter → FormatFilter → FormatFilter
default_format fmt_none default = default
default_format current default = current

-- The character of a digit below 16.
unfoldable pub digit_char : ℕ → ℕ
digit_char d = if ltb d 10 then 48 + d else 87 + d

-- The digits of a number in a base, the first digit first, `fuel` of them at most.
unfoldable pub digits : (base fuel n : ℕ) → CString
unfolding digit_char
digits base zero n = []
digits base (suc fuel) n =
    let rest = digits base fuel (n / base) in
    if ltb n base then digit_char n ∷ [] else rest ++ digit_char (n % base) ∷ []

-- `%lx` and `%lu` of 64 bits: 20 digits are enough for both bases.
abbrev pub print_nat : ℕ → ℕ → CString
print_nat base n = digits base 20 n

-- `%ld`
unfoldable pub print_signed : ℤ → CString
unfolding digits
print_signed (pos n) = print_nat 10 n
print_signed (negsuc n) = b'-' ∷ print_nat 10 (suc n)

abbrev pub zeros : ℕ → CString
zeros zero = []
zeros (suc n) = b'0' ∷ zeros n

-- `%016lx`, and `%02hx` of a byte
abbrev pub print_padded : ℕ → ℕ → CString
print_padded width n = let ds = print_nat 16 n in zeros (width - length ds) ++ ds

-- `PRINTF_BITS_INT8 (i)`
unfoldable pub print_bits8 : ℕ → CString
print_bits8 i =
    bit 0x80 ∷ bit 0x40 ∷ bit 0x20 ∷ bit 0x10 ∷ bit 0x08 ∷ bit 0x04 ∷ bit 0x02 ∷ bit 0x01 ∷ []
  where
    bit : ℕ → ℕ
    bit mask = if bit_and i mask == 0 then b'0' else b'1'

-- Eight groups for the bytes of a word, the highest byte first, with spaces between them:
-- `PRINTF_BITS_INT64` and `PRINTF_BYTES_INT64`.
abbrev pub print_groups : (ℕ → CString) → ℕ → CString
print_groups group i = at 56 (at 48 (at 40 (at 32 (at 24 (at 16 (at 8 (group i)))))))
  where
    at : ℕ → CString → CString
    at k rest = group (i / 2 ^ k) ++ (b' ' ∷ rest)

-- `(uint8_t) i & 0xff` under `%02hx`
unfoldable pub print_byte : ℕ → CString
unfolding digits
print_byte i = print_padded 2 (i % 256)

unfoldable pub print_format : ℕ → FormatFilter → CString
unfolding print_signed digits print_bits8 print_byte
print_format value fmt_none = print_signed (signed64 value)
print_format value fmt_dec = print_signed (signed64 value)
print_format value fmt_hex = b'0' ∷ b'x' ∷ print_nat 16 value
print_format value fmt_bits = print_groups print_bits8 value
print_format value fmt_addr = b'0' ∷ b'x' ∷ print_padded 16 value
print_format value fmt_bytes = print_groups print_byte value

-- The formats of one value.
run_formats :
    map (print_format 0xffff_ffff_ffff_fffe) (fmt_dec ∷ fmt_hex ∷ fmt_addr ∷ fmt_bytes ∷ [])
    ≡ bytes "-2"
      ∷ bytes "0xfffffffffffffffe"
      ∷ bytes "0xfffffffffffffffe"
      ∷ bytes "ff ff ff ff ff ff ff fe"
      ∷ []
unfolding print_format
run_formats = refl

run_bits :
    print_format 0xa5 fmt_bits
    ≡ bytes "00000000 00000000 00000000 00000000 00000000 00000000 00000000 10100101"
unfolding print_format
run_bits = refl
