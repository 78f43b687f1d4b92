-- ===== src/Stepping/Users.antt =====
-- `step_out` and `step_over` of src/debugger.c leave the user's breakpoints as they were.
use spray.Base.{
  ℕ, refl, Bool, arith, Bool-cases, Option-cases, inl, inr, [], not, ◌&&◌, ◌==◌, ◌+◌, ◌-◌, ◌%◌,
}
use spray.Magic.{word_mod}
use spray.Ptrace.{Ptrace}
use spray.Ptrace.Memory.{IsPtrace}
use spray.Breakpoints.{Table, Target, lookup_breakpoint}
use spray.LineTable.{LineEntry}
use spray.Info.{DebugInfo, sym_by_addr}
use spray.Stepping.{set_return_address_breakpoint, step_out, get_dbg_pc}
use spray.Stepping.Lines.{
  CallbackData, callback__set_dwarf_line_breakpoint, set_step_over_breakpoints, delete_breakpoints,
  step_over, single_step_line,
}
use spray.Stepping.Callback.{set_step_over_breakpoints-P}
use spray.Stepping.Stable.{Every, ends, open_ended, Every-map, single_step_line-R}
use spray.Stepping.Access.{IsSteady, IsMapped}
use spray.Stepping.Restored.{
  SameBreakpoints, Restored-IsStable, Extended, Extended-start, Extended-enable,
  set_return_address_breakpoint-Extended, leave_scope-SameBreakpoints,
}

module _ ⦃K : Ptrace⦄ ⦃H : Table⦄ (L : IsPtrace K) (access : ℕ → Bool) (A : IsSteady K access) where
  unchanged : (t : Target K H) → IsMapped access A t → SameBreakpoints L access A t t
  unchanged t m = record { still_mapped = m; lookups = λ b. refl }

  -- Where the addresses that can be accessed stay the same and include those of all breakpoints in
  -- force, exactly the same breakpoints are in force after `step_out` as before it.
  pub step_out-SameBreakpoints :
      (fuel : ℕ) (t : Target K H)
      → IsMapped access A t
      → Every (SameBreakpoints L access A t) (step_out fuel t)
  unfolding step_out delete_breakpoints
  step_out-SameBreakpoints fuel t m = elim (Option-cases (set_return_address_breakpoint t)) [
    | inl missing ↦ rw (missing, step_out) open_ended
    | inr (b, e) ↦
        rw (e, step_out)
          (leave_scope-SameBreakpoints L access A fuel t b [] (
            set_return_address_breakpoint-Extended L access A t b e
              (Extended-start L access A t m)))
  ]

  module _ (info : DebugInfo) (load_address : ℕ) where
    callback-Extended :
        (t : Target K H) (skip_line : ℕ) (line : LineEntry) (found : CallbackData)
        → Extended L access A t found.to_del found.target
        → Extended L access A t
            (callback__set_dwarf_line_breakpoint load_address skip_line line found).1.to_del
            (callback__set_dwarf_line_breakpoint load_address skip_line line found).1.target
    unfolding callback__set_dwarf_line_breakpoint
    callback-Extended t skip_line line found x =
        let a = (line.addr + word_mod - load_address) % word_mod in
        elim (Bool-cases (not (skip_line == line.ln) && not (lookup_breakpoint found.target a))) [
          | inl set ↦
              rw (set, callback__set_dwarf_line_breakpoint)
                (Extended-enable L access A a (ground arith) x)
          | inr skip ↦ rw (skip, callback__set_dwarf_line_breakpoint) x
        ]

    -- The same holds of `step_over`, which sets breakpoints all over the function.
    pub step_over-SameBreakpoints :
        (fuel : ℕ) (t : Target K H)
        → IsMapped access A t
        → Every (SameBreakpoints L access A t) (step_over info load_address fuel t)
    unfolding step_over
    step_over-SameBreakpoints fuel t m =
        elim (Option-cases (sym_by_addr (get_dbg_pc load_address t) info)) [
          | inl lost ↦ rw (lost, step_over) (ends (unchanged t m))
          | inr (func, e) ↦
              elim (Option-cases (set_step_over_breakpoints info load_address func t)) [
                | inl failed ↦ rw (e, step_over) (rw failed (ends (unchanged t m)))
                | inr (found, f) ↦
                    let set =
                      set_step_over_breakpoints-P info load_address
                        (λ found'. Extended L access A t found'.to_del found'.target)
                        (callback-Extended t) func t found f (Extended-start L access A t m) in
                    elim (Option-cases (set_return_address_breakpoint found.target)) [
                      | inl missing ↦ rw (e, step_over) (rw f (rw missing open_ended))
                      | inr (b, g) ↦
                          rw (e, step_over)
                            (rw f (
                              rw g (
                                leave_scope-SameBreakpoints L access A fuel t b found.to_del (
                                  set_return_address_breakpoint-Extended L access A found.target b g
                                    set))))
                    ]
              ]
        ]

    -- And of `single_step_line`, which takes a breakpoint out and puts it back at each step from one.
    pub single_step_line-SameBreakpoints :
        (fuel : ℕ) (t : Target K H)
        → IsMapped access A t
        → Every (SameBreakpoints L access A t) (single_step_line info load_address fuel t)
    single_step_line-SameBreakpoints fuel t m =
        Every-map (λ t' r. r.restored m)
          (single_step_line-R (Restored-IsStable L access A) info load_address fuel t)
