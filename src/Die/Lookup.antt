-- ===== src/Die/Lookup.antt =====
-- src/spray_dwarf.c: the callbacks of the searches, and the searches. Each has the fuel of
-- `sd_search_dwarf_dbg` and gives the place of the walk over the units beside its result.
use spray.Base.{
  ℕ, Bool, true, false, Option, none, some, List, [], ◌++◌, CString, bytes, if◌then◌else◌,
}
use spray.Die.{
  DwarfResult, ok, no_entry, error, Libdwarf, FormClass, tag_compile_unit, at_producer, strstr,
  sd_has_tag, sd_check_pc_in_die, sd_get_filepath, sd_is_subprog_with_name, sd_get_high_and_low_pc,
}
use spray.Die.Search.{
  Outcome, dlv_ok, dlv_no_entry, dlv_error, SearchCallback, Searched, sd_search_dwarf_dbg,
}
use spray.LineTable.{SubprogPcRange}

-- Whether a unit's compiler could not be confirmed to be Clang.
abbrev pub is_other_compiler : DwarfResult CString → Bool
is_other_compiler (ok die_compiler) = if strstr die_compiler (bytes "clang") then false else true
is_other_compiler no_entry = true
is_other_compiler error = true

abbrev pub is_no_entry : Outcome → Bool
is_no_entry dlv_ok = false
is_no_entry dlv_no_entry = true
is_no_entry dlv_error = false

module _ ⦃W : Libdwarf⦄ where
  unfoldable pub callback__is_valid_compiler : SearchCallback (Unit {0})
  unfolding sd_has_tag strstr
  callback__is_valid_compiler die level findings = (
    (if sd_has_tag die tag_compile_unit
        then is_other_compiler (W.die_text die at_producer)
        else false),
    findings,
  )

  unfoldable pub sd_is_valid_compiler : ℕ → ℕ → W.Debug → Option (Bool × W.Debug)
  unfolding sd_search_dwarf_dbg callback__is_valid_compiler
  sd_is_valid_compiler fuel n dbg =
      elim (sd_search_dwarf_dbg fuel n dbg callback__is_valid_compiler tt) [
        | none ↦ none
        | some r ↦ some (is_no_entry r.res, r.dbg)
      ]

  -- The findings of a search that succeeded.
  abbrev pub found_by : {S A : Type 0} → (S → A) → A → Option (Searched S) → Option (A × W.Debug)
  found_by take otherwise none = none
  found_by take otherwise (some r) = elim (r.res) [
    | dlv_ok ↦ some (take r.findings, r.dbg)
    | dlv_no_entry ↦ some (otherwise, r.dbg)
    | dlv_error ↦ some (otherwise, r.dbg)
  ]

  unfoldable pub callback__find_filepath_by_pc : ℕ → SearchCallback (Option CString)
  unfolding sd_check_pc_in_die sd_get_filepath
  callback__find_filepath_by_pc pc die level filepath = elim (sd_check_pc_in_die die pc) [
    | ok found_pc ↦ if found_pc then (true, sd_get_filepath die) else (false, filepath)
    | no_entry ↦ (false, filepath)
    | error ↦ (false, filepath)
  ]

  -- `none` inside is the null pointer.
  unfoldable pub sd_filepath_from_pc : ℕ → ℕ → W.Debug → ℕ → Option (Option CString × W.Debug)
  unfolding sd_search_dwarf_dbg callback__find_filepath_by_pc
  sd_filepath_from_pc fuel n dbg pc =
      found_by (λ filepath. filepath) none
        (sd_search_dwarf_dbg fuel n dbg (callback__find_filepath_by_pc pc) none)

  abbrev pub store_range :
      DwarfResult (record { lowpc : ℕ; highpc : ℕ })
      → Option SubprogPcRange
      → Bool × Option SubprogPcRange
  store_range (ok r) range = (true, some (record { lowpc = r.lowpc; highpc = r.highpc }))
  store_range no_entry range = (false, range)
  store_range error range = (false, range)

  unfoldable pub callback__find_subprog_pc_range_by_subprog_name :
      CString → SearchCallback (Option SubprogPcRange)
  unfolding sd_is_subprog_with_name sd_get_high_and_low_pc
  callback__find_subprog_pc_range_by_subprog_name fn_name die level range =
      if sd_is_subprog_with_name die fn_name
      then store_range (sd_get_high_and_low_pc die) range
      else (false, range)

  -- `none` inside is `is_set = false`.
  unfoldable pub sd_get_subprog_pc_range :
      ℕ → ℕ → W.Debug → CString → Option (Option SubprogPcRange × W.Debug)
  unfolding sd_search_dwarf_dbg callback__find_subprog_pc_range_by_subprog_name
  sd_get_subprog_pc_range fuel n dbg fn_name =
      found_by (λ range. range) none
        (sd_search_dwarf_dbg fuel n dbg (callback__find_subprog_pc_range_by_subprog_name fn_name)
          none)

  unfoldable pub callback__get_filepaths : SearchCallback (List CString)
  unfolding sd_has_tag
  callback__get_filepaths cu_die level filepaths =
      if sd_has_tag cu_die tag_compile_unit
      then elim (W.srcfiles cu_die) [
        | ok srcfiles ↦ (false, filepaths ++ srcfiles)
        | no_entry ↦ (false, filepaths)
        | error ↦ (false, filepaths)
      ]
      else (false, filepaths)

  -- `none` inside is the null pointer.
  unfoldable pub sd_get_filepaths : ℕ → ℕ → W.Debug → Option (Option (List CString) × W.Debug)
  unfolding sd_search_dwarf_dbg callback__get_filepaths
  sd_get_filepaths fuel n dbg = elim (sd_search_dwarf_dbg fuel n dbg callback__get_filepaths []) [
    | none ↦ none
    | some r ↦ elim (r.res) [
      | dlv_ok ↦ some (some r.findings, r.dbg)
      | dlv_no_entry ↦ some (some r.findings, r.dbg)
      | dlv_error ↦ some (none, r.dbg)
    ]
  ]

  -- The form of a location attribute that `dwarf_get_loclist_c` can read; `none` is `SP_ERR`.
  unfoldable pub sd_init_loc_attr : W.Die → W.Attribute → Option W.Attribute
  sd_init_loc_attr die loc = elim (W.version_of_die die) [
    | no_entry ↦ none
    | error ↦ none
    | ok v ↦ elim (W.whatform loc) [
      | no_entry ↦ none
      | error ↦ none
      | ok form ↦ elim (W.whatattr loc) [
        | no_entry ↦ none
        | error ↦ none
        | ok num ↦ elim (W.form_class v.version num v.offset_size form) [
          | FormClass.class_other ↦ none
          | _ ↦ some loc
        ]
      ]
    ]
  ]

  abbrev pub store_attr :
      W.Die → DwarfResult W.Attribute → Option W.Attribute → Bool × Option W.Attribute
  store_attr die (ok attr) loc_attr = elim (sd_init_loc_attr die attr) [
    | none ↦ (false, loc_attr)
    | some a ↦ (true, some a)
  ]
  store_attr die no_entry loc_attr = (false, loc_attr)
  store_attr die error loc_attr = (false, loc_attr)

  unfoldable pub callback_find_subprog_loc_attr_by_subprog_name :
      CString → ℕ → SearchCallback (Option W.Attribute)
  unfolding sd_is_subprog_with_name sd_init_loc_attr
  callback_find_subprog_loc_attr_by_subprog_name subprog_name attr_num die level loc_attr =
      if sd_is_subprog_with_name die subprog_name
      then store_attr die (W.attr die attr_num) loc_attr
      else (false, loc_attr)

  -- `none` inside is `SP_ERR`.
  unfoldable pub sd_get_subprog_loc_attr :
      ℕ → ℕ → W.Debug → CString → ℕ → Option (Option W.Attribute × W.Debug)
  unfolding sd_search_dwarf_dbg callback_find_subprog_loc_attr_by_subprog_name
  sd_get_subprog_loc_attr fuel n dbg subprog_name attr_num =
      found_by (λ attr. attr) none
        (sd_search_dwarf_dbg fuel n dbg
          (callback_find_subprog_loc_attr_by_subprog_name subprog_name attr_num) none)
