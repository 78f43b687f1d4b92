-- ===== src/Args.antt =====
-- src/args.h and src/args.c: the command line. A null pointer is `none`; `argc` is the length of
-- the list, and an index outside of it reads `none`.
pub mod Parsed
mod Tests
use spray.Base.{
  ℕ, zero, suc, ◌+◌, ◌-◌, Bool, true, false, ◌&&◌, Option, none, some, List, [], ◌∷◌, CString,
  bytes, ltb, ◌==◌, if◌then◌else◌, length, get_elem?,
}
use spray.Magic.{str_eq}

pub record Flags : Type 0 where
  pub no_color : Bool

pub record Args : Type 0 where
  pub flags : Flags
  pub file : Option CString
  pub args : Option (List CString)
  pub n_args : ℕ

unfoldable pub prog_name_arg : List CString → Option CString
prog_name_arg argv = get_elem? argv 0

-- `none` is -1.
unfoldable pub parse_short_flag : CString → Flags → Option Flags
parse_short_flag flag flags =
    if str_eq (bytes "-c") flag then some (record flags { no_color = true }) else none

unfoldable pub parse_long_flag : CString → Flags → Option Flags
parse_long_flag flag flags =
    if str_eq (bytes "--no-color") flag then some (record flags { no_color = true }) else none

-- `strncmp (s, prefix, strlen (prefix)) == 0`
unfoldable pub starts_with : CString → CString → Bool
starts_with [] s = true
starts_with (c ∷ prefix) [] = false
starts_with (c ∷ prefix) (d ∷ s) = (c == d) && starts_with prefix s

-- The arguments from index `i` on.
unfoldable pub parse_flags_from : List CString → ℕ → Flags → Option (ℕ × Flags)
parse_flags_from [] i flags = none
parse_flags_from (arg ∷ argv) i flags = elim (starts_with (bytes "--") arg) [
  | true ↦ elim (parse_long_flag arg flags) [
    | none ↦ none
    | some flags' ↦ parse_flags_from argv (suc i) flags'
  ]
  | false ↦ elim (starts_with (bytes "-") arg) [
    | true ↦ elim (parse_short_flag arg flags) [
      | none ↦ none
      | some flags' ↦ parse_flags_from argv (suc i) flags'
    ]
    | false ↦ some (i, flags)
  ]
]

-- Without any arguments `i == argc` does not hold either, and the index is 1.
unfoldable pub parse_flags : List CString → Option (ℕ × Flags)
parse_flags [] = some (1, record { no_color = false })
parse_flags (me ∷ argv) = parse_flags_from argv 1 (record { no_color = false })

-- `argv + n`
unfoldable pub drop_args : ℕ → List CString → List CString
drop_args zero argv = argv
drop_args (suc n) [] = []
drop_args (suc n) (arg ∷ argv) = drop_args n argv

-- The part of `parse_args` that has the flags. The arguments stay as they were where there are none
-- for the debugged program.
abbrev pub store_args : List CString → Args → Option (ℕ × Flags) → Option Args
store_args argv args none = none
store_args argv args (some r) =
    let file_idx = r.0 in
    some (
      if ltb (file_idx + 1) (length argv)
      then record {
        flags = r.1;
        file = get_elem? argv file_idx;
        args = some (drop_args file_idx argv);
        n_args = length argv - file_idx;
      }
      else record args { flags = r.1; file = get_elem? argv file_idx })

unfoldable pub parse_args : List CString → Args → Option Args
parse_args argv args = store_args argv args (parse_flags argv)

unfoldable pub take_args : ℕ → List CString → List CString
take_args zero argv = []
take_args (suc n) [] = []
take_args (suc n) (arg ∷ argv) = arg ∷ take_args n argv

abbrev pub args_list : Option (List CString) → List CString
args_list none = []
args_list (some argv) = argv

-- `GLOBAL_ARGS` after the call. Its `n_args` is not set.
unfoldable pub set_args : Args → Args → Args
set_args global_args args = record {
  flags = args.flags;
  file = args.file;
  args = some (take_args args.n_args (args_list args.args));
  n_args = global_args.n_args;
}
