-- ===== src/Die/FirstTable.antt =====
-- src/spray_dwarf.c: which line table `sd_get_line_table` returns.
use spray.Base.{
  ℕ, suc, ◌+◌, ◌<◌, true, false, Bool-cases, Option, none, some, List, [], ◌∷◌, ◌++◌, ◌≡◌, inl, inr,
  refl, CString, length, if◌then◌else◌, ◌&&◌,
}
use spray.Die.{Libdwarf, tag_compile_unit, sd_has_tag}
use spray.Die.Search.{Outcome, dlv_ok, dlv_no_entry, dlv_error}
use spray.Die.Preorder.{Visited, failure, die_at, first_found, after_visit}
use spray.Die.Units.{UnitDies, Walk, AllFit, dies_of, sd_search_dwarf_dbg_lem}
use spray.Die.Lookup.{found_by}
use spray.Die.Paths.{RealPath, sd_is_die_from_file}
use spray.Die.Lines.{
  read_lines, store_lines, sd_get_line_context, callback__get_srclines, sd_get_line_table,
}
use spray.LineTable.{LineEntry}

abbrev pub or_table : Option (List LineEntry) → Option (List LineEntry) → Option (List LineEntry)
or_table none other = other
or_table (some line_table) other = some line_table

module _ ⦃W : Libdwarf⦄ (realpath : CString → RealPath) (filepath : CString) where
  -- The lines of a unit's DIE, if it is from the file and all of them can be read.
  abbrev pub lines_of : W.Die → Option (List LineEntry)
  lines_of die =
      if sd_has_tag die tag_compile_unit && sd_is_die_from_file realpath die filepath
      then read_lines (sd_get_line_context die)
      else none

  -- The first of these, as far as the DIEs can be read.
  abbrev pub first_table : List (Visited W.Die) → Option (List LineEntry)
  first_table [] = none
  first_table (failure ∷ rest) = none
  first_table (die_at die level ∷ rest) = or_table (lines_of die) (first_table rest)

  abbrev of_outcome : Outcome × Option (List LineEntry) → Option (List LineEntry)
  of_outcome (dlv_ok, line_table) = line_table
  of_outcome (dlv_no_entry, line_table) = none
  of_outcome (dlv_error, line_table) = none

  callback_lem :
      (die : W.Die) (level : ℕ) (line_table : Option (List LineEntry))
      → callback__get_srclines realpath filepath die level line_table
        ≡ store_lines (lines_of die) line_table
  unfolding callback__get_srclines
  callback_lem die level line_table = elim (Bool-cases (sd_has_tag die tag_compile_unit)) [
    | inr e ↦ rw (e, callback__get_srclines) refl
    | inl e ↦ elim (Bool-cases (sd_is_die_from_file realpath die filepath)) [
      | inr k ↦ rw (e, callback__get_srclines, k) refl
      | inl k ↦ rw (e, callback__get_srclines, k) refl
    ]
  ]

  after_visit_lem :
      (o line_table r : Option (List LineEntry))
      (k : Option (List LineEntry) → Outcome × Option (List LineEntry))
      → of_outcome (k line_table) ≡ r
      → of_outcome (after_visit (store_lines o line_table) k) ≡ or_table o r
  after_visit_lem none line_table r k h = h
  after_visit_lem (some found) line_table r k h = refl

  first_found_lem :
      (vs : List (Visited W.Die)) (line_table : Option (List LineEntry))
      → of_outcome (first_found (callback__get_srclines realpath filepath) vs line_table)
        ≡ first_table vs
  unfolding first_found
  first_found_lem [] line_table = refl
  first_found_lem (failure ∷ vs) line_table = refl
  first_found_lem (die_at die level ∷ vs) line_table =
      rw (callback_lem die level line_table, first_found)
        (after_visit_lem (lines_of die) line_table (first_table vs)
          (first_found (callback__get_srclines realpath filepath) vs)
          (first_found_lem vs line_table))

  found_by_lem :
      (o : Outcome × Option (List LineEntry)) (dbg : W.Debug)
      → found_by
          (λ line_table. line_table)
          none
          (some (record { res = o.0; dbg = dbg; findings = o.1 }))
        ≡ some (of_outcome o, dbg)
  found_by_lem (dlv_ok, line_table) dbg = refl
  found_by_lem (dlv_no_entry, line_table) dbg = refl
  found_by_lem (dlv_error, line_table) dbg = refl

  -- Where the units and their DIEs are finitely many, sd_get_line_table has a result with fuel for the
  -- DIEs of each unit and for the headers: the lines of the first DIE in the file that is a
  -- compilation unit's, that is from the source file, and whose lines can all be read; and no table
  -- if there is none, or none before the first place that cannot be read.
  pub sd_get_line_table_lem :
      (fuel n : ℕ) (us vs : List UnitDies) (dbg mid last : W.Debug)
      → Walk true dbg us mid
      → Walk false mid vs last
      → AllFit fuel us
      → AllFit fuel vs
      → length us + suc (length vs) < n
      → (dbg' : W.Debug) × (sd_get_line_table realpath fuel n dbg filepath
          ≡ some (first_table (dies_of us ++ dies_of vs), dbg'))
  unfolding sd_get_line_table
  sd_get_line_table_lem fuel n us vs dbg mid last wu wv fu fv lt =
      let visited = dies_of us ++ dies_of vs in
      let search_callback = callback__get_srclines realpath filepath in
      let e =
        sd_search_dwarf_dbg_lem fuel search_callback us vs n dbg mid last none wu wv fu fv lt in
      (
        e.0,
        rw (e.1, sd_get_line_table, ← first_found_lem visited none)
            (found_by_lem (first_found search_callback visited none) e.0),
      )
