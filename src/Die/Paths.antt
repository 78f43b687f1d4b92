-- ===== src/Die/Paths.antt =====
-- src/spray_dwarf.c: whether a unit is from a source file. basename(3) and dirname(3) are written
-- out, as the GNU C library has them, the buffer that they share included;
-- realpath(3) asks the file system and is a parameter.
use spray.Base.{
  Bool, false, ◌&&◌, Option, none, some, [], ◌∷◌, CString, bytes, ℕ, ◌==◌, if◌then◌else◌,
}
use spray.Magic.{str_eq}
use spray.Die.{Libdwarf, sd_get_filepath}

-- The text without slashes at its end.
unfoldable pub put_before : ℕ → CString → CString
put_before c [] = if c == b'/' then [] else c ∷ []
put_before c (d ∷ s) = c ∷ d ∷ s

unfoldable pub trim : CString → CString
unfolding put_before
trim [] = []
trim (c ∷ s) = put_before c (trim s)

-- What is behind the last slash; `part` is what is behind the last one before `s`.
unfoldable pub behind_slash : (part s : CString) → CString
behind_slash part [] = part
behind_slash part (c ∷ s) = behind_slash (if c == b'/' then s else part) s

-- What is before the last slash, if there is one.
unfoldable pub before_slash : CString → Option CString
before_slash [] = none
before_slash (c ∷ s) = elim (before_slash s) [
  | some dir ↦ some (c ∷ dir)
  | none ↦ if c == b'/' then some [] else none
]

abbrev name_of : CString → CString
name_of [] = bytes "/"
name_of (c ∷ s) = behind_slash (c ∷ s) (c ∷ s)

unfoldable pub basename : CString → CString
unfolding trim behind_slash
basename [] = bytes "."
basename (c ∷ path) = name_of (trim (c ∷ path))

pub record SplitPath : Type 0 where
  pub file_name : CString
  pub dir_name : CString

-- A path that is all slashes.
abbrev split_root : CString → SplitPath
split_root (c ∷ d ∷ []) = record { file_name = bytes "/"; dir_name = bytes "//" }
split_root path = record { file_name = bytes "/"; dir_name = bytes "/" }

-- A file in the root directory, from the slashes before the last one and the name. The `NUL` that
-- dirname writes behind one slash, or behind two if there are no more, is where the name begins.
abbrev split_at_root : (slashes name : CString) → SplitPath
split_at_root [] name = record { file_name = []; dir_name = bytes "/" }
split_at_root (c ∷ []) name = record { file_name = []; dir_name = bytes "//" }
split_at_root (c ∷ d ∷ slashes) name = record { file_name = name; dir_name = bytes "/" }

-- From what is before the last slash, the same without slashes at its end, and the name.
abbrev split_behind : (before dir name : CString) → SplitPath
split_behind before [] name = split_at_root before name
split_behind before (c ∷ dir) name = record { file_name = name; dir_name = c ∷ dir }

abbrev split_at : Option CString → (name : CString) → SplitPath
split_at none name = record { file_name = name; dir_name = bytes "." }
split_at (some before) name = split_behind before (trim before) name

abbrev split_trimmed : (path trimmed : CString) → SplitPath
split_trimmed path [] = split_root path
split_trimmed path (c ∷ s) = split_at (before_slash (c ∷ s)) (behind_slash (c ∷ s) (c ∷ s))

-- `basename (path)` and then `dirname (path)`, as they read when both are done: dirname writes into the
-- text that the name stands in.
unfoldable pub split_path : CString → SplitPath
unfolding trim before_slash behind_slash
split_path [] = record { file_name = bytes "."; dir_name = bytes "." }
split_path (c ∷ path) = split_trimmed (c ∷ path) (trim (c ∷ path))

-- The path that was found, `NULL` with ENOENT, and `NULL` with another error number.
pub data RealPath : Type 0 where
  resolved : CString → RealPath
  not_there unreadable : RealPath

abbrev same_path : SplitPath → SplitPath → Bool
same_path die expect = str_eq die.file_name expect.file_name && str_eq die.dir_name expect.dir_name

abbrev same_file : SplitPath → CString → RealPath → Bool
same_file die filepath not_there = str_eq (basename filepath) die.file_name
same_file die filepath (resolved full_filepath) = same_path die (split_path full_filepath)
-- basename and dirname of `NULL`
same_file die filepath unreadable =
    same_path die (record { file_name = bytes "."; dir_name = bytes "." })

module _ ⦃W : Libdwarf⦄ (realpath : CString → RealPath) where
  unfoldable pub sd_is_die_from_file : W.Die → CString → Bool
  unfolding sd_get_filepath basename split_path
  sd_is_die_from_file die filepath = elim (sd_get_filepath die) [
    | none ↦ false
    | some die_filepath ↦ same_file (split_path die_filepath) filepath (realpath filepath)
  ]
