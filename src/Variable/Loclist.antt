-- ===== src/Variable/Loclist.antt =====
-- src/spray_dwarf.c: location lists read through libdwarf, and src/info.c: the variable that is made
-- of what the search found and of its place.
use spray.Base.{ℕ, zero, suc, Option, none, some, List, [], ◌∷◌, CString}
use spray.Die.{DwarfResult, ok, no_entry, error, Libdwarf, dwarf_bool_to_bool}
use spray.Ptrace.{Ptrace}
use spray.Location.{
  SdOperation, SdLocdesc, SdLoclist, SdLocEvalCtx, LocResult, located, failed, unset, no_fuel,
  sd_init_loc_range, sd_eval_loclist,
}
use spray.Variable.{Variable, sd_runtime_variable}
use spray.Value.{RuntimeVariable}

abbrev and_then : {A B : Type 0} → DwarfResult A → (A → DwarfResult B) → DwarfResult B
and_then (ok a) f = f a
and_then no_entry f = no_entry
and_then error f = error

module _ ⦃W : Libdwarf⦄ where
  -- The loop over the operations from `i` on, `left` of them.
  unfoldable pub read_operations : W.Locdesc → (left i : ℕ) → DwarfResult (List SdOperation)
  read_operations entry zero i = ok []
  read_operations entry (suc left) i = and_then (W.get_location_op_value entry i) (λ op.
      and_then (read_operations entry left (suc i))
        (λ ops. ok (record { opcode = op.opcode; operand1 = op.operand1 } ∷ ops)))

  unfoldable pub sd_init_loc_expression : W.Locdesc → ℕ → DwarfResult (List SdOperation)
  unfolding read_operations
  sd_init_loc_expression locdesc_entry locexpr_op_count =
      read_operations locdesc_entry locexpr_op_count 0

  -- The entry at `i`: its range and its operations.
  unfoldable pub read_entry : W.LocHead → ℕ → DwarfResult SdLocdesc
  unfolding sd_init_loc_range sd_init_loc_expression dwarf_bool_to_bool
  read_entry head i = and_then (W.get_locdesc_entry head i) (λ e.
      and_then (sd_init_loc_expression e.entry e.op_count) (λ ops. ok (record {
        range = sd_init_loc_range (dwarf_bool_to_bool e.debug_addr_missing) e.low_pc e.high_pc;
        operations = ops;
      })))

  unfoldable pub read_entries : W.LocHead → (left i : ℕ) → DwarfResult SdLoclist
  unfolding read_entry
  read_entries head zero i = ok []
  read_entries head (suc left) i =
      and_then (read_entry head i)
        (λ entry. and_then (read_entries head left (suc i)) (λ entries. ok (entry ∷ entries)))

  -- `none` is `SP_ERR`.
  unfoldable pub sd_init_loclist : W.Attribute → Option SdLoclist
  unfolding read_entries
  sd_init_loclist loc_attr = elim (W.get_loclist loc_attr) [
    | no_entry ↦ none
    | error ↦ none
    | ok l ↦ elim (read_entries l.head l.count 0) [
      | no_entry ↦ none
      | error ↦ none
      | ok loclist ↦ some loclist
    ]
  ]

-- A variable, the null pointer, one with a location that nothing was stored in, and a run that had
-- not enough fuel.
pub data InitVar : Type 0 where
  var : RuntimeVariable → InitVar
  null undefined out_of_fuel : InitVar

module _ ⦃K : Ptrace⦄ ⦃W : Libdwarf⦄ where
  abbrev located_var : Variable → LocResult → InitVar
  located_var v (located loc) =
      var (record { loc = loc; decl_file = v.decl_file; decl_line = v.decl_line; type = v.type })
  located_var v failed = null
  located_var v unset = undefined
  located_var v no_fuel = out_of_fuel

  abbrev eval_var : ℕ → SdLocEvalCtx → Variable → Option SdLoclist → InitVar
  eval_var loc_fuel ctx v none = null
  eval_var loc_fuel ctx v (some loclist) = located_var v (sd_eval_loclist loc_fuel ctx loclist)

  -- The PC, the load address and the ELF file are in the context; `loc_fuel` is for the frame bases.
  unfoldable pub init_var :
      (loc_fuel type_fuel fuel n : ℕ) → W.Debug → SdLocEvalCtx → CString → InitVar
  unfolding sd_runtime_variable sd_init_loclist sd_eval_loclist
  init_var loc_fuel type_fuel fuel n dbg ctx var_name =
      elim (sd_runtime_variable type_fuel fuel n dbg ctx.pc var_name) [
        | none ↦ out_of_fuel
        | some (none, dbg') ↦ null
        | some (some v, dbg') ↦ eval_var loc_fuel ctx v (sd_init_loclist v.loc_attr)
      ]
