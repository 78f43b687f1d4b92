-- ===== src/Variable/Tests.antt =====
-- The variables of the sample, and the theorem at one.
use spray.Base.{
  ℕ, ◌≡◌, inl, inr, refl, true, false, none, some, [], ◌∷◌, ◌++◌, ◌==◌, ==_iff, Bool-cases, arith,
  bytes, eq_bytes, map,
}
use spray.Magic.{str_eq}
use spray.DieSample.{sample, units, units_walk, units_fit}
use spray.Die.{
  sd_has_tag, sd_has_at, sd_check_pc_in_die, sd_get_high_and_low_pc, dwarf_bool_to_bool,
}
use spray.Die.Units.{dies_of}
use spray.Die.Lookup.{sd_init_loc_attr}
use spray.Die.Search.{
  sd_search_dwarf_dbg, search_units, search_unit, sd_search_dwarf_die, search_loop, search_self,
  search_siblings,
}
use spray.VarType.{
  SdTypenode, BaseTypeTag, node_base_type, node_modifier, type_mod_pointer, sd_variable_type,
  sd_build_type, sd_build_base_type, base_type_tag, next_type, sd_type_die, type_kind,
}
use spray.VarType.Shape.{Chain}
use spray.Variable.{
  search_variable, sd_runtime_variable, VarattrSearchFor, VarattrSearchFindings,
  callback__find_runtime_variable, leave_scope, look_in_scope, look_for_variable, is_variable,
  decl_file_of, decl_line_of,
}
use spray.Variable.Scope.{Scoped, search_variable-Scoped}

x_chain : Chain 2 3
unfolding next_type sd_type_die type_kind
x_chain = inr (6, 0x0f, refl, inr (inr (5, 0x24, refl, inl refl)))

chains : (die : ℕ) → Chain 2 die
unfolding next_type sd_type_die type_kind
chains die = elim (Bool-cases (3 == die)) [
  | inl e ↦ rw (← (==_iff 3 die).0 e) (inr (6, 0x0f, refl, inr (inr (5, 0x24, refl, inl refl))))
  | inr e ↦ elim (Bool-cases (4 == die)) [
    | inl k ↦ rw (← (==_iff 4 die).0 k) (inr (5, 0x24, refl, inl refl))
    | inr k ↦ elim (Bool-cases (6 == die)) [
      | inl l ↦ rw (← (==_iff 6 die).0 l) (inr (5, 0x24, refl, inl refl))
      | inr l ↦ inl (ground arith)
    ]
  ]
]

abbrev int_node : SdTypenode
int_node = node_base_type (record { tag = BaseTypeTag.base_type_int; size = 4 })

abbrev x_for : VarattrSearchFor
x_for = record { pc = 0x14; use_scope = true; var_name = bytes "x" }

abbrev no_findings : VarattrSearchFindings
no_findings = record { in_scope = false; scope_level = 0; found = none }

search_variable-Scoped_example :
    Scoped 2 0x14
      (bytes "x")
      chains
      (dies_of units ++ [])
      (search_variable 2 9 3 0 x_for no_findings)
search_variable-Scoped_example =
    search_variable-Scoped 2 0x14 (bytes "x") chains 9 3 units [] 0 0 0 units_walk refl units_fit tt
      (omega arith)

-- `x` in and out of the range of its function, and `g`, which is in no function.
run_variables :
    map (sd_runtime_variable 3 9 3 0 0x14) (bytes "x" ∷ bytes "g" ∷ bytes "y" ∷ [])
    ≡ some (
      some (record {
        loc_attr = 3;
        type = node_modifier type_mod_pointer ∷ int_node ∷ [];
        decl_file = none;
        decl_line = 0;
      }),
      0,
    )
      ∷ some
          (some (record { loc_attr = 4; type = int_node ∷ []; decl_file = none; decl_line = 0 }), 0)
      ∷ some (none, 0)
      ∷ []
unfolding sd_runtime_variable search_variable sd_search_dwarf_dbg search_units search_unit
    sd_search_dwarf_die search_loop search_self search_siblings callback__find_runtime_variable
    leave_scope look_in_scope look_for_variable is_variable decl_file_of decl_line_of sd_has_tag
    sd_has_at sd_check_pc_in_die sd_get_high_and_low_pc dwarf_bool_to_bool sd_variable_type
    sd_build_type sd_build_base_type base_type_tag next_type sd_type_die type_kind sd_init_loc_attr
    str_eq eq_bytes
run_variables = refl
