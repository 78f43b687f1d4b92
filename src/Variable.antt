-- ===== src/Variable.antt =====
-- src/spray_dwarf.c and src/info.c: the search for a variable by its name, the location list that
-- is read from its DIE, and the variable that the commands get. Fuel is that of the search, and for
-- the chain of types of a DIE.
pub mod Loclist
pub mod Scope
mod Tests
use spray.Base.{
  ℕ, suc, ◌-◌, ◌%◌, ◌^◌, Bool, true, false, ◌&&◌, ◌||◌, not, Option, none, some, List, [], ◌∷◌,
  CString, ltb, ◌==◌, if◌then◌else◌, get_elem?,
}
use spray.Magic.{str_eq}
use spray.Die.{
  DwarfResult, ok, no_entry, error, Libdwarf, tag_formal_parameter, tag_subprogram, tag_variable,
  at_location, at_decl_file, at_decl_line, sd_has_tag, sd_has_at, sd_check_pc_in_die,
  sd_get_die_source_files,
}
use spray.Die.Search.{
  Outcome, dlv_ok, dlv_no_entry, dlv_error, SearchCallback, Searched, sd_search_dwarf_dbg,
}
use spray.Die.Lookup.{sd_init_loc_attr}
use spray.VarType.{SdType, sd_variable_type}

pub record VarattrSearchFor : Type 0 where
  pub pc : ℕ
  pub use_scope : Bool
  pub var_name : CString

module _ ⦃W : Libdwarf⦄ where
  -- What is stored for a variable that was found.
  pub record Variable : Type 0 where
    pub loc_attr : W.Attribute
    pub type : SdType
    pub decl_file : Option CString
    pub decl_line : ℕ

  pub record VarattrSearchFindings : Type 0 where
    pub in_scope : Bool
    pub scope_level : ℕ
    pub found : Option Variable

  abbrev pub attr_of : DwarfResult W.Attribute → Option W.Attribute
  attr_of (ok a) = some a
  attr_of no_entry = none
  attr_of error = none

  -- An attribute's number, or 0.
  abbrev pub number_of : DwarfResult ℕ → ℕ
  number_of (ok n) = n
  number_of no_entry = 0
  number_of error = 0

  abbrev pub file_at : Option (List CString) → ℕ → Option CString
  file_at none idx = none
  file_at (some files) idx = get_elem? files idx

  -- File numbers start at 1.
  unfoldable pub decl_file_of : W.Die → Option CString
  unfolding sd_get_die_source_files
  decl_file_of die =
      let num = number_of (W.formudata (attr_of (W.attr die at_decl_file))) in
      if num == 0 then none else file_at (sd_get_die_source_files die) (num - 1)

  unfoldable pub decl_line_of : W.Die → ℕ
  decl_line_of die = number_of (W.formudata (attr_of (W.attr die at_decl_line))) % 2 ^ 32

  -- `die_type` is the variable's type; `some none` is a variable that cannot be described.
  abbrev pub describe : W.Die → Option (Option SdType) → Option (Option Variable)
  describe die none = none
  describe die (some none) = some none
  describe die (some (some type)) = elim (W.attr die at_location) [
    | no_entry ↦ some none
    | error ↦ some none
    | ok loc_attr ↦ elim (sd_init_loc_attr die loc_attr) [
      | none ↦ some none
      | some attr ↦ some (
          some (record {
            loc_attr = attr;
            type = type;
            decl_file = decl_file_of die;
            decl_line = decl_line_of die;
          }))
    ]
  ]

  abbrev pub is_named : CString → DwarfResult CString → Bool
  is_named var_name (ok die_var_name) = str_eq var_name die_var_name
  is_named var_name no_entry = false
  is_named var_name error = false

  -- Whether a DIE is a variable or a parameter with a location and this name.
  unfoldable pub is_variable : CString → W.Die → Bool
  unfolding sd_has_tag sd_has_at
  is_variable var_name die =
      (sd_has_tag die tag_variable || sd_has_tag die tag_formal_parameter)
      && sd_has_at die at_location
      && is_named var_name (W.diename die)

  -- The scope ends where the level is not below that of its subprogram.
  unfoldable pub leave_scope : ℕ → VarattrSearchFindings → VarattrSearchFindings
  leave_scope level findings =
      if ltb findings.scope_level level then findings else record findings { in_scope = false }

  abbrev pub enter_scope : ℕ → DwarfResult Bool → VarattrSearchFindings → VarattrSearchFindings
  enter_scope level (ok true) findings = record findings { in_scope = true; scope_level = level }
  enter_scope level (ok false) findings = record findings { in_scope = false }
  enter_scope level no_entry findings = findings
  enter_scope level error findings = findings

  -- The findings with a variable. A type that the fuel does not suffice for ends the search, too,
  -- and leaves `none`.
  abbrev pub store_variable :
      VarattrSearchFindings → Option (Option Variable) → Bool × Option VarattrSearchFindings
  store_variable findings none = (true, none)
  store_variable findings (some none) = (false, some findings)
  store_variable findings (some (some var)) = (true, some (record findings { found = some var }))

  unfoldable pub look_for_variable :
      ℕ → CString → W.Die → VarattrSearchFindings → Bool × Option VarattrSearchFindings
  unfolding is_variable
  look_for_variable fuel var_name die findings = elim (is_variable var_name die) [
    | true ↦ store_variable findings (describe die (sd_variable_type fuel die))
    | false ↦ (false, some findings)
  ]

  -- With the scope: a subprogram is entered or not, any other DIE is looked at in scope only.
  unfoldable pub look_in_scope :
      ℕ → VarattrSearchFor → W.Die → ℕ → VarattrSearchFindings → Bool × Option VarattrSearchFindings
  unfolding sd_has_tag sd_check_pc_in_die look_for_variable
  look_in_scope fuel search_for die level findings = elim (sd_has_tag die tag_subprogram) [
    | true ↦ (false, some (enter_scope level (sd_check_pc_in_die die search_for.pc) findings))
    | false ↦ elim (findings.in_scope) [
      | true ↦ look_for_variable fuel search_for.var_name die findings
      | false ↦ (false, some findings)
    ]
  ]

  unfoldable pub callback__find_runtime_variable :
      ℕ → VarattrSearchFor → SearchCallback (Option VarattrSearchFindings)
  unfolding leave_scope look_in_scope look_for_variable
  callback__find_runtime_variable fuel search_for die level none = (true, none)
  callback__find_runtime_variable fuel search_for die level (some findings) =
      elim (search_for.use_scope) [
        | true ↦ look_in_scope fuel search_for die level (leave_scope level findings)
        | false ↦ look_for_variable fuel search_for.var_name die findings
      ]

  pub record VariableSearched : Type 0 where
    pub res : Outcome
    pub dbg : W.Debug
    pub findings : VarattrSearchFindings

  -- What a search that had enough fuel for the types has found.
  abbrev pub searched_variable :
      Option (Searched (Option VarattrSearchFindings)) → Option VariableSearched
  searched_variable none = none
  searched_variable (some r) = elim (r.findings) [
    | none ↦ none
    | some f ↦ some (record { res = r.res; dbg = r.dbg; findings = f })
  ]

  -- A search with the callback; `none` where fuel ran out.
  unfoldable pub search_variable :
      ℕ → ℕ → ℕ → W.Debug → VarattrSearchFor → VarattrSearchFindings → Option VariableSearched
  unfolding sd_search_dwarf_dbg callback__find_runtime_variable
  search_variable type_fuel fuel n dbg search_for findings = searched_variable (
      sd_search_dwarf_dbg fuel n dbg (callback__find_runtime_variable type_fuel search_for)
        (some findings))

  -- First in the scope of the PC, then everywhere. `none` inside is `SP_ERR`.
  unfoldable pub sd_runtime_variable :
      (type_fuel fuel n : ℕ) → W.Debug → ℕ → CString → Option (Option Variable × W.Debug)
  unfolding search_variable
  sd_runtime_variable type_fuel fuel n dbg pc var_name =
      let scoped : VarattrSearchFor = record { pc = pc; use_scope = true; var_name = var_name } in
      let everywhere : VarattrSearchFor = record {
        pc = pc;
        use_scope = false;
        var_name = var_name;
      } in
      elim (search_variable type_fuel fuel n dbg scoped
        (record { in_scope = false; scope_level = 0; found = none })) [
          | none ↦ none
          | some r ↦ elim (r.res) [
            | dlv_ok ↦ some (r.findings.found, r.dbg)
            | dlv_error ↦ some (none, r.dbg)
            | dlv_no_entry ↦ elim (search_variable type_fuel fuel n r.dbg everywhere r.findings) [
              | none ↦ none
              | some again ↦ elim (again.res) [
                | dlv_ok ↦ some (again.findings.found, again.dbg)
                | dlv_error ↦ some (none, again.dbg)
                | dlv_no_entry ↦ some (none, again.dbg)
              ]
            ]
          ]
        ]
