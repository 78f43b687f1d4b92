-- ===== src/Stepping/Text.antt =====
-- The commands of src/debugger.c that step the tracee keep the program's text.
use spray.Base.{
  ℕ, ◌≡◌, Bool, true, false, some, arith, Bool-cases, Option-cases, inl, inr, List, [], ◌∷◌, not,
  ◌&&◌, ◌==◌, ◌+◌, ◌-◌, ◌%◌,
}
use spray.Magic.{word_mod}
use spray.Ptrace.{Ptrace}
use spray.Ptrace.Memory.{IsPtrace}
use spray.Registers.{rbp, get_register_value}
use spray.Breakpoints.{Table, Target, lookup_breakpoint, enable_breakpoint}
use spray.LineTable.{LineEntry}
use spray.Info.{DebugInfo, sym_by_addr}
use spray.Stepping.{
  then_run, Transient, return_address, set_return_address_breakpoint, remove_transient, step_out,
  continue_and_wait, get_dbg_pc,
}
use spray.Stepping.Lines.{
  CallbackData, callback__set_dwarf_line_breakpoint, set_step_over_breakpoints, delete_breakpoints,
  step_over, single_step_line,
}
use spray.Stepping.Callback.{set_step_over_breakpoints-P}
use spray.Stepping.Stable.{
  Every, ends, open_ended, Every-then_run, Every-after, single_step_line-R, continue_and_wait-R,
}
use spray.Stepping.Safety.{
  KeepsText, Safe, Safe-refl, Safe-trans, Safe-IsStable, enable_breakpoint-Safe,
  disable_breakpoint-Safe,
}

module _ ⦃K : Ptrace⦄ ⦃H : Table⦄ (L : IsPtrace K) (text : ℕ → Bool) (T : KeepsText L text) where
  set_return_address_breakpoint-Safe :
      (t : Target K H) (b : Transient)
      → set_return_address_breakpoint t ≡ some b
      → Safe L text t b.target
  unfolding set_return_address_breakpoint
  set_return_address_breakpoint-Safe t b h = elim (Option-cases (get_register_value t.sys rbp)) [
    | inl missing ↦ ground arith
    | inr (fp, e) ↦ elim (Bool-cases (lookup_breakpoint t (return_address t fp))) [
      | inl on ↦ let same : b.target ≡ t = ground arith in rw same (Safe-refl L text t)
      | inr off ↦
          let set : b.target ≡ (enable_breakpoint t (return_address t fp)).1 = ground arith in
          rw set (enable_breakpoint-Safe L text t (return_address t fp))
    ]
  ]

  remove_transient-Safe :
      (remove : Bool) (a : ℕ) (t : Target K H) → Safe L text t (remove_transient remove a t)
  unfolding remove_transient
  remove_transient-Safe true a t = disable_breakpoint-Safe L text t a
  remove_transient-Safe false a t = Safe-refl L text t

  -- `step_out` keeps the text, in the sense that is stated of `step_over` below.
  pub step_out-Safe : (fuel : ℕ) (t : Target K H) → Every (Safe L text t) (step_out fuel t)
  unfolding step_out
  step_out-Safe fuel t = elim (Option-cases (set_return_address_breakpoint t)) [
    | inl missing ↦ rw (missing, step_out) open_ended
    | inr (b, e) ↦
        rw (e, step_out)
          (Every-then_run
            (Every-after (Safe-IsStable L text T) (set_return_address_breakpoint-Safe t b e)
              (continue_and_wait-R (Safe-IsStable L text T) fuel b.target))
            (λ res t' h. ends (Safe-trans L text h (remove_transient-Safe b.remove b.address t'))))
  ]

  delete_breakpoints-Safe :
      (addrs : List ℕ) (t : Target K H) → Safe L text t (delete_breakpoints addrs t)
  unfolding delete_breakpoints
  delete_breakpoints-Safe [] t = Safe-refl L text t
  delete_breakpoints-Safe (a ∷ addrs) t =
      Safe-trans L text (delete_breakpoints-Safe addrs t) (disable_breakpoint-Safe L text _ a)

  -- The end of `step_over`: on to the next stop, and the breakpoints out.
  leave_scope :
      (fuel : ℕ) (t : Target K H) (b : Transient) (to_del : List ℕ)
      → Safe L text t b.target
      → Every (Safe L text t) (
          then_run (continue_and_wait fuel b.target) (λ res t'.
            some (res, remove_transient b.remove b.address (delete_breakpoints to_del t'))))
  leave_scope fuel t b to_del h =
      Every-then_run
        (Every-after (Safe-IsStable L text T) h
          (continue_and_wait-R (Safe-IsStable L text T) fuel b.target))
        (λ res t' k. ends (
          Safe-trans L text k (
            Safe-trans L text (delete_breakpoints-Safe to_del t')
              (remove_transient-Safe b.remove b.address _))))

  module _ (info : DebugInfo) (load_address : ℕ) where
    callback-Safe :
        (t : Target K H) (skip_line : ℕ) (line : LineEntry) (found : CallbackData)
        → Safe L text t found.target
        → Safe L text t
            (callback__set_dwarf_line_breakpoint load_address skip_line line found).1.target
    unfolding callback__set_dwarf_line_breakpoint
    callback-Safe t skip_line line found h =
        let a = (line.addr + word_mod - load_address) % word_mod in
        elim (Bool-cases (not (skip_line == line.ln) && not (lookup_breakpoint found.target a))) [
          | inl set ↦
              rw (set, callback__set_dwarf_line_breakpoint)
                (Safe-trans L text h (enable_breakpoint-Safe L text found.target a))
          | inr skip ↦ rw (skip, callback__set_dwarf_line_breakpoint) h
        ]

    -- Where the tracee does not write to its text itself, each breakpoint in force in it has its trap
    -- after `step_over` if that was so before, each breakpoint in force has its saved byte, and the
    -- program's own bytes in the text are the same.
    pub step_over-Safe :
        (fuel : ℕ) (t : Target K H) → Every (Safe L text t) (step_over info load_address fuel t)
    unfolding step_over
    step_over-Safe fuel t = elim (Option-cases (sym_by_addr (get_dbg_pc load_address t) info)) [
      | inl lost ↦ rw (lost, step_over) (ends (Safe-refl L text t))
      | inr (func, e) ↦ elim (Option-cases (set_step_over_breakpoints info load_address func t)) [
        | inl failed ↦ rw (e, step_over) (rw failed (ends (Safe-refl L text t)))
        | inr (found, f) ↦
            let set =
              set_step_over_breakpoints-P info load_address (λ found'. Safe L text t found'.target)
                (callback-Safe t) func t found f (Safe-refl L text t) in
            elim (Option-cases (set_return_address_breakpoint found.target)) [
              | inl missing ↦ rw (e, step_over) (rw f (rw missing open_ended))
              | inr (b, g) ↦
                  rw (e, step_over)
                    (rw f (
                      rw g (
                        leave_scope fuel t b found.to_del (
                          Safe-trans L text set
                            (set_return_address_breakpoint-Safe found.target b g)))))
            ]
      ]
    ]

    -- And of `single_step_line`.
    pub single_step_line-Safe :
        (fuel : ℕ) (t : Target K H)
        → Every (Safe L text t) (single_step_line info load_address fuel t)
    single_step_line-Safe fuel t =
        single_step_line-R (Safe-IsStable L text T) info load_address fuel t
