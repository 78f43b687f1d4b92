-- ===== src/LineTable.antt =====
-- src/spray_dwarf.h and src/spray_dwarf.c: the searches in the line table of a source file. What
-- they need of the debug information is the interface `Dwarf`.
pub mod Search
pub mod Entry
pub mod Visit
mod Tests
use spray.Base.{
  ℕ, zero, suc, ◌+◌, Bool, true, false, ◌&&◌, Option, none, some, List, [], ◌∷◌, CString, ltb, leb,
  ◌==◌, if◌then◌else◌, get_elem?,
}
use spray.Magic.{SprayResult, sp_ok, sp_err}

pub record LineEntry : Type 0 where
  pub is_ok : Bool
  pub new_statement : Bool
  pub prologue_end : Bool
  pub is_exact : Bool
  pub ln : ℕ
  pub cl : ℕ
  pub addr : ℕ

pub record SubprogPcRange : Type 0 where
  pub lowpc : ℕ
  pub highpc : ℕ

-- `sd_filepath_from_pc`, `sd_get_line_table`, `sd_get_subprog_pc_range` and `sd_get_filepaths`;
-- `none` is a null pointer, or `is_set = false`. A function's name is its place in the ELF file.
pub record Dwarf : Type 0 where
  pub filepath_from_pc : ℕ → Option CString
  pub line_table : CString → Option (List LineEntry)
  pub subprog_pc_range : ℕ → Option SubprogPcRange
  pub filepaths : List CString

-- `while (i < n_lines && test (lines[i])) i++;` from `i = 0`
unfoldable pub count_while : (LineEntry → Bool) → List LineEntry → ℕ
count_while test [] = 0
count_while test (line ∷ lines) =
    let rest = count_while test lines in if test line then suc rest else 0

-- The last condition of the search by PC, on the line behind the one found.
unfoldable pub next_is_above : ℕ → Option LineEntry → Bool
next_is_above pc none = true
next_is_above pc (some next) = ltb pc next.addr

-- `none` is `SP_ERR`.
unfoldable pub get_line_table_index_of_pc : List LineEntry → ℕ → Option ℕ
get_line_table_index_of_pc lines pc =
    let i = count_while (λ line. ltb line.addr pc) lines in
    elim (get_elem? lines i) [
      | none ↦ none
      | some line ↦
          if leb pc line.addr && next_is_above pc (get_elem? lines (suc i)) then some i else none
    ]

unfoldable pub get_line_table_index_of_line : List LineEntry → ℕ → Option ℕ
get_line_table_index_of_line lines lineno =
    let i = count_while (λ line. ltb line.ln lineno) lines in
    elim (get_elem? lines i) [
      | none ↦ none
      | some line ↦ if leb lineno line.ln then some i else none
    ]

-- The first line at exactly the address.
unfoldable pub find_exact : List LineEntry → ℕ → Option LineEntry
find_exact [] pc = none
find_exact (line ∷ lines) pc =
    let rest = find_exact lines pc in
    if line.addr == pc then some (record line { is_exact = true }) else rest

-- The entry that was found, marked if it matches exactly.
abbrev pub mark_exact : ℕ → LineEntry → LineEntry
mark_exact pc ret = if ret.is_ok && (ret.addr == pc) then record ret { is_exact = true } else ret

-- The part of `sd_line_entry_from_pc` that has the table. `none` is an entry with `is_ok = false`.
unfoldable pub entry_from_table : List LineEntry → ℕ → Option LineEntry
entry_from_table lines pc = elim (find_exact lines pc) [
  | some ret ↦ some ret
  | none ↦ elim (get_line_table_index_of_pc lines pc) [
    | none ↦ none
    | some i ↦ elim (get_elem? lines i) [ none ↦ none | some line ↦ some (mark_exact pc line) ]
  ]
]

-- The part of `sd_line_entry_at` that has the table.
unfoldable pub entry_at_line : List LineEntry → ℕ → Option LineEntry
entry_at_line lines lineno = elim (get_line_table_index_of_line lines lineno) [
  | none ↦ none
  | some i ↦ get_elem? lines i
]

unfoldable pub drop_lines : ℕ → List LineEntry → List LineEntry
drop_lines zero lines = lines
drop_lines (suc n) [] = []
drop_lines (suc n) (line ∷ lines) = drop_lines n lines

-- The loop goes on if the callback succeeds.
abbrev pub after_callback {ℓ} :
    {S : Type ℓ} → SprayResult × S → (S → SprayResult × S) → SprayResult × S
after_callback (sp_err, s) go_on = (sp_err, s)
after_callback (sp_ok, s) go_on = go_on s

-- The loop over the lines of a function, with the callback and its data.
unfoldable pub visit_lines {ℓ} :
    {S : Type ℓ} → (LineEntry → S → SprayResult × S) → ℕ → List LineEntry → S → SprayResult × S
visit_lines callback highpc [] s = (sp_ok, s)
visit_lines callback highpc (line ∷ lines) s = elim (leb line.addr highpc) [
  | false ↦ (sp_ok, s)
  | true ↦ elim line.new_statement [
    | false ↦ visit_lines callback highpc lines s
    | true ↦ after_callback (callback line s) (visit_lines callback highpc lines)
  ]
]

-- The loop of `sd_effective_start_addr` that looks for the end of the prologue.
unfoldable pub find_prologue_end : ℕ → List LineEntry → Option ℕ
find_prologue_end function_end [] = none
find_prologue_end function_end (line ∷ lines) =
    let rest = find_prologue_end function_end lines in
    if leb line.addr function_end
    then (if line.prologue_end then some line.addr else rest)
    else none

-- The address at an index of the table; it is in range where it is used.
abbrev pub addr_of : Option LineEntry → Option ℕ
addr_of none = none
addr_of (some line) = some line.addr

-- The start of the function whose first line is at an index of the table.
unfoldable pub start_in_table : List LineEntry → ℕ → ℕ → Option ℕ
start_in_table lines first_line function_end =
    elim (find_prologue_end function_end (drop_lines first_line lines)) [
      | some addr ↦ some addr
      | none ↦ elim (get_elem? lines (suc first_line)) [
        | some next ↦ some next.addr
        | none ↦ addr_of (get_elem? lines first_line)
      ]
    ]

module _ (dwarf : Dwarf) where
  unfoldable pub sd_line_entry_from_pc : ℕ → Option LineEntry
  sd_line_entry_from_pc pc = elim (dwarf.filepath_from_pc pc) [
    | none ↦ none
    | some filepath ↦ elim (dwarf.line_table filepath) [
      | none ↦ none
      | some lines ↦ entry_from_table lines pc
    ]
  ]

  unfoldable pub sd_line_entry_at : CString → ℕ → Option LineEntry
  sd_line_entry_at filepath lineno = elim (dwarf.line_table filepath) [
    | none ↦ none
    | some lines ↦ entry_at_line lines lineno
  ]

  unfoldable pub sd_for_each_line {ℓ} :
      {S : Type ℓ} → ℕ → CString → (LineEntry → S → SprayResult × S) → S → SprayResult × S
  sd_for_each_line fn_name filepath callback s = elim (dwarf.subprog_pc_range fn_name) [
    | none ↦ (sp_err, s)
    | some attr ↦ elim (dwarf.line_table filepath) [
      | none ↦ (sp_err, s)
      | some lines ↦ elim (get_line_table_index_of_pc lines attr.lowpc) [
        | none ↦ (sp_err, s)
        | some i ↦ visit_lines callback attr.highpc (drop_lines i lines) s
      ]
    ]
  ]

  -- The loop over the source files.
  unfoldable pub start_in_files : List CString → ℕ → ℕ → Option ℕ
  start_in_files [] prologue_start function_end = none
  start_in_files (filepath ∷ filepaths) prologue_start function_end =
      let rest = start_in_files filepaths prologue_start function_end in
      elim (dwarf.line_table filepath) [
        | none ↦ rest
        | some lines ↦ elim (get_line_table_index_of_pc lines prologue_start) [
          | none ↦ rest
          | some first_line ↦ start_in_table lines first_line function_end
        ]
      ]

  unfoldable pub sd_effective_start_addr : ℕ → ℕ → Option ℕ
  sd_effective_start_addr prologue_start function_end =
      start_in_files dwarf.filepaths prologue_start function_end
