-- ===== src/Commands/Place.antt =====
-- src/debugger.c: the places that break, delete, print and set are given. regexec(3) is written out
-- for the two expressions.
use spray.Base.{
  ℕ, Bool, true, false, ◌&&◌, ◌||◌, Option, none, some, [], ◌∷◌, CString, leb, ◌==◌, if◌then◌else◌,
}
use spray.Number.{parse_base16, parse_lineno}
use spray.Info.{DebugInfo, DebugSymbol, sym_by_name, function_start_addr, addr_at}

-- `[a-zA-Z_]`, `[a-zA-Z_0-9]` and `[0-9]`
abbrev is_letter : ℕ → Bool
is_letter c = (leb b'a' c && leb c b'z') || (leb b'A' c && leb c b'Z') || (c == b'_')

abbrev is_digit : ℕ → Bool
is_digit c = leb b'0' c && leb c b'9'

unfoldable pub all_of : (ℕ → Bool) → CString → Bool
all_of test [] = true
all_of test (c ∷ s) = test c && all_of test s

-- `^[a-zA-Z_][a-zA-Z_0-9]*$`
unfoldable pub is_valid_identifier : CString → Bool
unfolding all_of
is_valid_identifier [] = false
is_valid_identifier (c ∷ ident) = is_letter c && all_of (λ d. is_letter d || is_digit d) ident

-- What is before the first colon, and what is behind it; a text without a colon has nothing behind.
unfoldable pub before_colon : CString → CString
before_colon [] = []
before_colon (c ∷ s) = if c == b':' then [] else c ∷ before_colon s

unfoldable pub behind_colon : CString → CString
behind_colon [] = []
behind_colon (c ∷ s) = if c == b':' then s else behind_colon s

abbrev is_some_of : (ℕ → Bool) → CString → Bool
is_some_of test [] = false
is_some_of test (c ∷ s) = all_of test (c ∷ s)

abbrev is_not_empty : CString → Bool
is_not_empty [] = false
is_not_empty (c ∷ s) = true

-- `^[^:]+:[0-9]+$`
unfoldable pub is_file_with_line : CString → Bool
unfolding before_colon behind_colon all_of
is_file_with_line file_line =
    is_not_empty (before_colon file_line) && is_some_of is_digit (behind_colon file_line)

abbrev symbol_start : DebugInfo → Option DebugSymbol → Option ℕ
symbol_start info none = none
symbol_start info (some func) = function_start_addr func info

abbrev line_start : DebugInfo → CString → Option ℕ → Option ℕ
line_start info filepath none = none
line_start info filepath (some lineno) = addr_at filepath lineno info

-- A function's name, an address, or a file with a line; `none` is `SP_ERR`.
unfoldable pub parse_break_location : DebugInfo → CString → Option ℕ
unfolding is_valid_identifier is_file_with_line before_colon behind_colon
parse_break_location info location =
    if is_valid_identifier location
    then symbol_start info (sym_by_name location info)
    else elim (parse_base16 location) [
      | some addr ↦ some addr
      | none ↦
          if is_file_with_line location
          then line_start info (before_colon location) (parse_lineno (behind_colon location))
          else none
    ]
