-- ===== src/LineTable/Entry.antt =====
-- What `sd_line_entry_from_pc` of src/spray_dwarf.c tells of an address.
use spray.Base.{
  ℕ, zero, suc, ◌≤◌, ◌≡◌, ◌↔◌, true, false, none, some, List, [], ◌∷◌, arith, CString, ◌==◌,
  get_elem?, Option-cases, Bool-cases, inl, inr,
}
use spray.LineTable.{
  LineEntry, Dwarf, find_exact, entry_from_table, get_line_table_index_of_pc, sd_line_entry_from_pc,
}
use spray.LineTable.Search.{get_line_table_index_of_pc-some}

-- How `sd_get_line_table` makes its lines.
pub record IsFresh (lines : List LineEntry) : Type 0 where
  pub line_ok : (i : ℕ) (line : LineEntry) → get_elem? lines i ≡ some line → line.is_ok ≡ true
  pub line_inexact :
      (i : ℕ) (line : LineEntry) → get_elem? lines i ≡ some line → line.is_exact ≡ false

-- What is known of an entry for an address: it is marked exact if and only if it is at the
-- address, and it never begins before it.
pub record IsEntryFor (pc : ℕ) (e : LineEntry) : Type 0 where
  pub exact : (e.is_exact ≡ true) ↔ (e.addr ≡ pc)
  pub reaches : pc ≤ e.addr

find_exact-some :
    (lines : List LineEntry) (pc : ℕ) (e : LineEntry)
    → find_exact lines pc ≡ some e
    → (e.is_exact ≡ true) × (e.addr ≡ pc)
unfolding find_exact
find_exact-some [] pc e h = cc
find_exact-some (line ∷ lines) pc e h = elim (Bool-cases (line.addr == pc)) [
  | inl same ↦ ground arith
  | inr other ↦ find_exact-some lines pc e (ground arith)
]

find_exact-none :
    (lines : List LineEntry) (pc : ℕ)
    → find_exact lines pc ≡ none
    → (i : ℕ) (line : LineEntry) → get_elem? lines i ≡ some line
    → (line.addr == pc) ≡ false
unfolding find_exact
find_exact-none [] pc h i line e = cc
find_exact-none (l ∷ lines) pc h zero line e = ground arith
find_exact-none (l ∷ lines) pc h (suc i) line e = find_exact-none lines pc (ground arith) i line e

entry_from_table_lem :
    (lines : List LineEntry) (pc : ℕ) (e : LineEntry)
    → IsFresh lines
    → entry_from_table lines pc ≡ some e
    → IsEntryFor pc e
unfolding entry_from_table
entry_from_table_lem lines pc e fresh h = elim (Option-cases (find_exact lines pc)) [
  | inr (r, f) ↦
      let (marked, same) = find_exact-some lines pc e (ground arith) in
      record { exact = (λ h. same, λ h. marked); reaches = omega arith }
  | inl f ↦ elim (Option-cases (get_line_table_index_of_pc lines pc)) [
    | inl g ↦ ground arith
    | inr (i, g) ↦
        let (line, l) = get_line_table_index_of_pc-some lines pc i g in
        let differs = find_exact-none lines pc f i line l.here in
        let plain = fresh.line_inexact i line l.here in
        let same : e ≡ line = ground (arith, l.here) in
        rw same (record { exact = ground arith; reaches = l.reaches })
  ]
]

module _ (dwarf : Dwarf)
    (fresh : (f : CString) (lines : List LineEntry)
      → dwarf.line_table f ≡ some lines
      → IsFresh lines) where
  -- Where the tables are fresh, an entry that `sd_line_entry_from_pc` returns is marked exact if and
  -- only if its address is the PC, and its address is never below the PC.
  pub sd_line_entry_from_pc_lem :
      (pc : ℕ) (e : LineEntry) → sd_line_entry_from_pc dwarf pc ≡ some e → IsEntryFor pc e
  unfolding sd_line_entry_from_pc
  sd_line_entry_from_pc_lem pc e h = elim (Option-cases (dwarf.filepath_from_pc pc)) [
    | inl missing ↦ ground arith
    | inr (f, g) ↦ elim (Option-cases (dwarf.line_table f)) [
      | inl missing ↦ ground arith
      | inr (lines, k) ↦ entry_from_table_lem lines pc e (fresh f lines k) (ground arith)
    ]
  ]
