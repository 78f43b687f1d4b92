-- ===== src/Commands/LoadAddress.antt =====
-- src/debugger.c: the address that the executable was loaded at. The text of /proc/<pid>/maps is an
-- argument; getdelim(3) is written out.
use spray.Base.{ℕ, Option, none, some, [], ◌∷◌, CString, ◌==◌, if◌then◌else◌}
use spray.Number.{parse_base16}
use spray.Info.{DebugInfo, is_dyn_exec}

-- The line up to the delimiter, which is kept; `none` is -1, at the end of the file.
unfoldable pub up_to_delim : ℕ → CString → CString
up_to_delim delim [] = []
up_to_delim delim (c ∷ text) = if c == delim then c ∷ [] else c ∷ up_to_delim delim text

unfoldable pub getdelim : ℕ → CString → Option CString
unfolding up_to_delim
getdelim delim [] = none
getdelim delim (c ∷ text) = some (up_to_delim delim (c ∷ text))

-- `none` is an assertion that fails.
abbrev first_address : Option CString → Option ℕ
first_address none = none
first_address (some addr) = parse_base16 addr

unfoldable pub init_load_address : DebugInfo → Option CString → Option ℕ
unfolding is_dyn_exec getdelim
init_load_address info none = if is_dyn_exec info then none else some 0
init_load_address info (some proc_map) =
    if is_dyn_exec info then first_address (getdelim b'-' proc_map) else some 0
