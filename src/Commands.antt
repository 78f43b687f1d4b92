-- ===== src/Commands.antt =====
-- src/debugger.c: a command line's tokens, the filters of the print commands, and the choice of the
-- command to execute. The array of tokens with its `NULL` at the end is a list; strtok(3) is written
-- out. The parts below read the arguments and execute the command.
pub mod Tokens
pub mod Repeat
pub mod Place
pub mod Handlers
pub mod Resume
pub mod Arguments
pub mod Dispatch
pub mod Session
pub mod LoadAddress
pub mod Read
pub mod Rejected
pub mod SetMemory
pub mod Leaves
pub mod SetRegister
pub mod Unharmed
mod Tests
mod DispatchTests
mod SessionTests
use spray.Base.{
  ℕ, suc, Bool, true, false, ◌||◌, ◌&&◌, Option, none, some, List, [], ◌∷◌, ◌++◌, CString, bytes,
  ◌==◌, if◌then◌else◌, get_elem?, length,
}
use spray.Magic.{str_eq}
use spray.Magic.Format.{FormatFilter, parse_format_str}
use spray.History.{History, save_command, read_command}

-- A space or a tab, where `strtok` splits.
unfoldable pub is_delim : ℕ → Bool
is_delim c = (c == 32) || (c == 9)

-- The token that is being read, if it has begun, before the others.
unfoldable pub end_token : CString → List CString → List CString
end_token [] tokens = tokens
end_token (c ∷ token) tokens = (c ∷ token) ∷ tokens

-- `token` is what was read of the current token.
unfoldable pub read_tokens : (token line : CString) → List CString
read_tokens token [] = end_token token []
read_tokens token (c ∷ line) = elim (is_delim c) [
  | true ↦ end_token token (read_tokens [] line)
  | false ↦ read_tokens (token ++ c ∷ []) line
]

unfoldable pub get_command_tokens : CString → List CString
get_command_tokens line = read_tokens [] line

-- The token at `i`, and the index after it.
unfoldable pub next_token : List CString → ℕ → Option CString × ℕ
next_token tokens i = elim (get_elem? tokens i) [
  | none ↦ (none, i)
  | some token ↦ (some token, suc i)
]

unfoldable pub end_of_tokens : List CString → ℕ → Bool
end_of_tokens tokens i = elim (get_elem? tokens i) [ none ↦ true | some token ↦ false ]

unfoldable pub is_command : Option CString → ℕ → CString → Bool
is_command none short_form long_form = false
is_command (some []) short_form long_form = str_eq [] long_form
is_command (some (c ∷ s)) short_form long_form =
    ((length s == 0) && (c == short_form)) || str_eq (c ∷ s) long_form

pub data PrintFilter : Type 0 where
  pf : FormatFilter → PrintFilter
  pf_deref : PrintFilter

unfoldable pub parse_filter : Option CString → PrintFilter
parse_filter none = pf FormatFilter.fmt_none
parse_filter (some str) =
    if str_eq str (bytes "deref") || str_eq str (bytes "*")
    then pf_deref
    else pf (parse_format_str str)

unfoldable pub default_filter : PrintFilter → PrintFilter → PrintFilter
default_filter (pf FormatFilter.fmt_none) default = default
default_filter current default = current

-- The tokens that `handle_debug_command` executes, `none` where it returns before that, and the
-- history it leaves.
unfoldable pub choose_command : History → CString → Option (List CString) × History
choose_command history line =
    let tokens = get_command_tokens line in
    elim (next_token tokens 0).0 [
      | none ↦ elim (read_command history) [
        | none ↦ (none, history)
        | some last_command ↦ (some (get_command_tokens last_command), history)
      ]
      | some first_token ↦ (some tokens, save_command history line)
    ]
