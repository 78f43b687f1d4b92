-- ===== src/Magic/FilePath.antt =====
-- src/magic.c: a path as it is shown. The working directory that getcwd(3) gives is an argument.
use spray.Base.{
  ℕ, Bool, true, false, Option, none, some, [], ◌∷◌, ◌++◌, ◌≡◌, refl, CString, bytes, ◌==◌, ==_refl,
}

-- What is behind the characters that the two paths share, with their next characters; 0 is the end.
-- Where the paths are the same, the loop reads behind their ends: `none`.
unfoldable pub skip_shared : CString → CString → Option CString
skip_shared [] [] = none
skip_shared [] (c ∷ path) = some (c ∷ path)
skip_shared (d ∷ cwd) [] = some []
skip_shared (d ∷ cwd) (c ∷ path) = elim (d == c) [
  | true ↦ skip_shared cwd path
  | false ↦ some (c ∷ path)
]

pub data RelativePath : Type 0 where
  null out_of_bounds : RelativePath
  path : CString → RelativePath

-- The character behind the shared ones is left out, too.
abbrev behind_next : Option CString → RelativePath
behind_next none = out_of_bounds
behind_next (some []) = out_of_bounds
behind_next (some (c ∷ rest)) = path rest

abbrev starts_shared : CString → CString → Bool
starts_shared [] [] = true
starts_shared [] (c ∷ s) = false
starts_shared (d ∷ cwd) [] = false
starts_shared (d ∷ cwd) (c ∷ s) = d == c

-- The first argument is `none` where getcwd(3) fails.
unfoldable pub relative_filepath : Option CString → Option CString → RelativePath
unfolding skip_shared
relative_filepath cwd none = null
relative_filepath none (some abs_filepath) = null
relative_filepath (some cwd) (some abs_filepath) = elim (starts_shared cwd abs_filepath) [
  | false ↦ path abs_filepath
  | true ↦ behind_next (skip_shared cwd abs_filepath)
]

skip_shared-append :
    (cwd : CString) (c : ℕ) (rest : CString) → skip_shared cwd (cwd ++ c ∷ rest) ≡ some (c ∷ rest)
unfolding skip_shared
skip_shared-append [] c rest = refl
skip_shared-append (d ∷ cwd) c rest = rw (==_refl d, skip_shared) (skip_shared-append cwd c rest)

-- A path below the working directory is shown from there on.
pub relative_filepath-inside :
    (d : ℕ) (cwd rest : CString)
    → relative_filepath (some (d ∷ cwd)) (some ((d ∷ cwd) ++ b'/' ∷ rest)) ≡ path rest
unfolding relative_filepath
relative_filepath-inside d cwd rest =
    rw (==_refl d, relative_filepath, skip_shared-append (d ∷ cwd) b'/' rest) refl

-- Beside the working directory the start of the path is lost.
run_beside :
    relative_filepath (some (bytes "/home/a/spray")) (some (bytes "/home/a/lib/x.c"))
    ≡ path (bytes "ib/x.c")
unfolding relative_filepath
run_beside = refl
