-- ===== src/Commands/Tests.antt =====
-- Some command lines: runs, and the theorems at some.
use mathlib.Core.Option
use spray.Base.{
  ◌≡◌, refl, ◌↔◌, true, false, none, some, List, [], ◌∷◌, CString, bytes, map, eq_bytes,
}
use spray.Magic.{str_eq}
use spray.Magic.Format.{FormatFilter, parse_format_str}
use spray.History.{init_history}
use spray.Commands.{
  get_command_tokens, read_tokens, end_token, is_delim, next_token, end_of_tokens, is_command, pf,
  pf_deref, parse_filter, default_filter,
}
use spray.Commands.Tokens.{Spelled, get_command_tokens_lem}
use spray.Commands.Repeat.{choose_commands, repeat_last, choose_commands_lem}

abbrev words : List CString
words = bytes "print" ∷ bytes "x" ∷ []

run_tokens : get_command_tokens (bytes "  print   x ") ≡ words
unfolding get_command_tokens read_tokens end_token is_delim
run_tokens = refl

run_next : map (next_token words) (1 ∷ 2 ∷ []) ≡ (some (bytes "x"), 2) ∷ (none, 2) ∷ []
unfolding next_token
run_next = refl

run_end : map (end_of_tokens words) (1 ∷ 2 ∷ []) ≡ false ∷ true ∷ []
unfolding end_of_tokens
run_end = refl

run_is_command :
    map
      (λ s. is_command (some s) 112 (bytes "print"))
      (bytes "p" ∷ bytes "print" ∷ bytes "pr" ∷ [] ∷ [])
    ≡ true ∷ true ∷ false ∷ false ∷ []
unfolding is_command str_eq eq_bytes
run_is_command = refl

run_filters :
    map
      (λ s. default_filter (parse_filter (some s)) pf_deref)
      (bytes "*" ∷ bytes "hex" ∷ bytes "he" ∷ [])
    ≡ pf_deref ∷ pf FormatFilter.fmt_hex ∷ pf_deref ∷ []
unfolding parse_filter default_filter parse_format_str str_eq eq_bytes
run_filters = refl

get_command_tokens_lem_example :
    (get_command_tokens (bytes "  print   x ") ≡ words) ↔ Spelled (bytes "  print   x ") words
get_command_tokens_lem_example = get_command_tokens_lem (bytes "  print   x ") words

abbrev lines : List CString
lines = [] ∷ bytes "print x" ∷ bytes " " ∷ bytes "c" ∷ [] ∷ []

choose_commands_lem_example :
    choose_commands init_history lines
    ≡ repeat_last
        (Option.map get_command_tokens init_history.command)
        (map get_command_tokens lines)
choose_commands_lem_example = choose_commands_lem init_history lines

run_repeat :
    repeat_last none (map get_command_tokens lines)
    ≡ none ∷ some words ∷ some words ∷ some (bytes "c" ∷ []) ∷ some (bytes "c" ∷ []) ∷ []
unfolding repeat_last get_command_tokens read_tokens end_token is_delim
run_repeat = refl
