-- ===== src/LineTable/Visit.antt =====
-- What the callback of `sd_for_each_line` in src/spray_dwarf.c keeps, the whole loop keeps.
use spray.Base.{ℕ, List, [], ◌∷◌, leb, CString, Bool-cases, Option-cases, inl, inr}
use spray.Magic.{SprayResult, sp_ok, sp_err}
use spray.LineTable.{
  LineEntry, Dwarf, visit_lines, drop_lines, after_callback, sd_for_each_line,
  get_line_table_index_of_pc,
}

module _ {ℓ} {S : Type ℓ} (callback : LineEntry → S → SprayResult × S) (P : S → Type 0)
    (keeps : (line : LineEntry) (s : S) → P s → P (callback line s).1) where
  after_callback-P :
      (highpc : ℕ) (lines : List LineEntry) (r : SprayResult × S)
      → ((s : S) → P s → P (visit_lines callback highpc lines s).1)
      → P r.1
      → P (after_callback r (visit_lines callback highpc lines)).1
  after_callback-P highpc lines (sp_err, s) rest p = p
  after_callback-P highpc lines (sp_ok, s) rest p = rest s p

  visit_lines-P :
      (highpc : ℕ) (lines : List LineEntry) (s : S)
      → P s
      → P (visit_lines callback highpc lines s).1
  unfolding visit_lines
  visit_lines-P highpc [] s p = p
  visit_lines-P highpc (line ∷ lines) s p = elim (Bool-cases (leb line.addr highpc)) [
    | inr above ↦ rw (above, visit_lines) p
    | inl inside ↦ elim (Bool-cases line.new_statement) [
      | inr other ↦ rw (inside, visit_lines) (rw other (visit_lines-P highpc lines s p))
      | inl statement ↦
          rw (inside, visit_lines)
            (rw statement (
              after_callback-P highpc lines (callback line s) (visit_lines-P highpc lines)
                (keeps line s p)))
    ]
  ]

  pub sd_for_each_line-P :
      (dwarf : Dwarf) (fn_name : ℕ) (filepath : CString) (s : S)
      → P s
      → P (sd_for_each_line dwarf fn_name filepath callback s).1
  unfolding sd_for_each_line
  sd_for_each_line-P dwarf fn_name filepath s p =
      elim (Option-cases (dwarf.subprog_pc_range fn_name)) [
        | inl missing ↦ rw (missing, sd_for_each_line) p
        | inr (range, e) ↦ elim (Option-cases (dwarf.line_table filepath)) [
          | inl missing ↦ rw (e, sd_for_each_line) (rw missing p)
          | inr (lines, f) ↦ elim (Option-cases (get_line_table_index_of_pc lines range.lowpc)) [
            | inl missing ↦ rw (e, sd_for_each_line) (rw f (rw missing p))
            | inr (i, g) ↦
                rw (e, sd_for_each_line)
                  (rw f (rw g (visit_lines-P range.highpc (drop_lines i lines) s p)))
          ]
        ]
      ]
