-- ===== src/Number/Tests.antt =====
-- Numbers as a user types them.
use spray.Base.{◌≡◌, refl, none, some, [], ◌∷◌, arith, map, bytes, ◌-◌, ◌^◌}
use spray.Magic.Format.{print_format, fmt_dec, fmt_hex}
use spray.Number.Printed.{parse_base10-print_dec, parse_base16-print_hex}
use spray.Number.{
  skip_space, read_sign, skip_prefix, scan, strtol, parse_num, parse_base16, parse_base10,
  parse_lineno,
}

run_base16 :
    map (λ s. parse_base16 (bytes s)) ("ff" ∷ "0xff" ∷ "0x" ∷ "-1" ∷ " 10" ∷ "" ∷ "1g" ∷ [])
    ≡ some 255 ∷ some 255 ∷ none ∷ some 0xffff_ffff_ffff_ffff ∷ some 16 ∷ none ∷ none ∷ []
unfolding parse_base16 parse_num strtol skip_space read_sign skip_prefix scan
run_base16 = refl

run_base10 :
    map (λ s. parse_base10 (bytes s)) ("12" ∷ "-12" ∷ "1a" ∷ "99999999999999999999" ∷ [])
    ≡ some 12 ∷ some (2 ^ 64 - 12) ∷ none ∷ some (2 ^ 63 - 1) ∷ []
unfolding parse_base10 parse_num strtol skip_space read_sign skip_prefix scan
run_base10 = refl

run_lineno :
    map (λ s. parse_lineno (bytes s)) ("12" ∷ "4294967296" ∷ "12a" ∷ [])
    ≡ some 12 ∷ none ∷ none ∷ []
unfolding parse_lineno strtol skip_space read_sign skip_prefix scan
run_lineno = refl

parse_base10-print_dec_example :
    parse_base10 (print_format 0xffff_ffff_ffff_fffe fmt_dec) ≡ some 0xffff_ffff_ffff_fffe
parse_base10-print_dec_example = parse_base10-print_dec 0xffff_ffff_ffff_fffe (omega arith)

parse_base16-print_hex_example :
    parse_base16 (print_format 0xffff_ffff_ffff_fffe fmt_hex) ≡ some 0x7fff_ffff_ffff_ffff
parse_base16-print_hex_example = parse_base16-print_hex 0xffff_ffff_ffff_fffe (omega arith)
