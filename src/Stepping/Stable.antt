-- ===== src/Stepping/Stable.antt =====
-- Relations between a process and a later one that the moves of src/debugger.c respect: they hold
-- across every run that is made of these moves.
use spray.Base.{ℕ, zero, suc, ◌≡◌, true, none, some, Bool-cases, Option-cases, inl, inr, ◌==◌, ◌||◌}
use spray.Magic.{SprayResult, sp_ok, sp_err}
use spray.Ptrace.{Ptrace, Siginfo, pt_get_signal_info}
use spray.Breakpoints.{Table, Target, lookup_breakpoint, enable_breakpoint, disable_breakpoint}
use spray.Info.{DebugInfo, Position}
use spray.Stepping.{
  Run, then_run, with_sys, get_pc, set_pc, step_tracee, single_step_breakpoint, resume,
  continue_execution, handle_sigtrap, handle_stop, handle_status, wait_for_signal,
  single_step_instruction, continue_and_wait, WaitStatus, exited, signaled, continued, stopped,
  invalid, wait_status, sigtrap, sigwinch, siginfo_of,
}
use spray.Stepping.Lines.{after_step, step_lines, single_step_line, position_here, same_line}

module _ ⦃K : Ptrace⦄ ⦃H : Table⦄ where
  -- Where a run has a result, the process that it leaves has the property.
  pub data Every (P : Target K H → Type 0) : Run → Type 0 where
    ends : {res : SprayResult} {t : Target K H} → P t → Every P (some (res, t))
    open_ended : Every P none

  pub Every-then_run :
      {P Q : Target K H → Type 0} {r : Run} {f : SprayResult → Target K H → Run}
      → Every P r
      → ((res : SprayResult) (t : Target K H) → P t → Every Q (f res t))
      → Every Q (then_run r f)
  unfolding then_run
  Every-then_run (ends {res} {t} p) q = q res t p
  Every-then_run open_ended q = open_ended

  pub Every-map :
      {P Q : Target K H → Type 0} {r : Run} → ((t : Target K H) → P t → Q t) → Every P r → Every Q r
  Every-map f (ends {res} {t} p) = ends (f t p)
  Every-map f open_ended = open_ended

  pub record IsStable (R : Target K H → Target K H → Type 0) : Type 0 where
    pub same : (t : Target K H) → R t t
    pub then_also : {t t' t'' : Target K H} → R t t' → R t' t'' → R t t''
    pub waited : (t : Target K H) → R t (with_sys t (K.waitpid t.sys).sys)
    pub stepped : (t : Target K H) → R t (step_tracee t)
    pub resumed : (t : Target K H) → R t (resume t).1
    pub moved : (t : Target K H) (pc : ℕ) → R t (set_pc t pc)
    -- a step with the breakpoint at `a` taken out meanwhile
    pub over :
        (t t' : Target K H) (a : ℕ)
        → lookup_breakpoint t a ≡ true
        → R (step_tracee (disable_breakpoint t a).1) t'
        → R t (enable_breakpoint t' a).1

module _ ⦃K : Ptrace⦄ ⦃H : Table⦄ {R : Target K H → Target K H → Type 0} (S : IsStable R) where
  open S use {same, then_also, waited, stepped, resumed, moved, over}

  pub Every-after : {t t' : Target K H} {r : Run} → R t t' → Every (R t') r → Every (R t) r
  Every-after h (ends k) = ends (then_also h k)
  Every-after h open_ended = open_ended

  module _ (wait : Target K H → Run) (waits : (t : Target K H) → Every (R t) (wait t)) where
    single_step_breakpoint-R : (t : Target K H) → Every (R t) (single_step_breakpoint wait t)
    unfolding single_step_breakpoint
    single_step_breakpoint-R t = elim (Bool-cases (lookup_breakpoint t (get_pc t))) [
      | inr off ↦ rw (off, single_step_breakpoint) (ends (same t))
      | inl on ↦
          rw (on, single_step_breakpoint)
            (Every-then_run (waits (step_tracee (disable_breakpoint t (get_pc t)).1))
              (λ res t' h. ends (over t t' (get_pc t) on h)))
    ]

    pub continue_execution-R : (t : Target K H) → Every (R t) (continue_execution wait t)
    unfolding continue_execution
    continue_execution-R t =
        Every-then_run (single_step_breakpoint-R t) (λ res t' h. ends (then_also h (resumed t')))

    handle_sigtrap-R : (t : Target K H) (siginfo : Siginfo) → R t (handle_sigtrap t siginfo)
    unfolding handle_sigtrap
    handle_sigtrap-R t siginfo =
        elim (Bool-cases ((siginfo.si_code == 0x80) || (siginfo.si_code == 1))) [
          | inl trap ↦ rw (trap, handle_sigtrap) (moved t _)
          | inr other ↦ rw (other, handle_sigtrap) (same t)
        ]

    handle_stop-R : (siginfo : Siginfo) (t : Target K H) → Every (R t) (handle_stop wait siginfo t)
    unfolding handle_stop
    handle_stop-R siginfo t = elim (Bool-cases (siginfo.si_signo == sigtrap)) [
      | inl trap ↦ rw (trap, handle_stop) (ends (handle_sigtrap-R t siginfo))
      | inr other ↦ elim (Bool-cases (siginfo.si_signo == sigwinch)) [
        | inl winch ↦
            rw (other, handle_stop)
              (rw winch
                (Every-then_run (continue_execution-R t) (λ res t' h. Every-after h (waits t'))))
        | inr more ↦ rw (other, handle_stop) (rw more (ends (same t)))
      ]
    ]

    handle_status-R :
        (status : WaitStatus) (t : Target K H) → Every (R t) (handle_status wait status t)
    handle_status-R exited t = ends (same t)
    handle_status-R signaled t = ends (same t)
    handle_status-R continued t = ends (same t)
    handle_status-R stopped t = handle_stop-R (siginfo_of (pt_get_signal_info t.sys)) t
    handle_status-R invalid t = ends (same t)

  pub wait_for_signal-R : (fuel : ℕ) (t : Target K H) → Every (R t) (wait_for_signal fuel t)
  unfolding wait_for_signal
  wait_for_signal-R zero t = open_ended
  wait_for_signal-R (suc fuel) t = Every-after (waited t) (
      handle_status-R (wait_for_signal fuel) (wait_for_signal-R fuel)
        (wait_status (K.waitpid t.sys).status) _)

  pub single_step_instruction-R :
      (fuel : ℕ) (t : Target K H) → Every (R t) (single_step_instruction fuel t)
  unfolding single_step_instruction
  single_step_instruction-R fuel t = elim (Bool-cases (lookup_breakpoint t (get_pc t))) [
    | inl on ↦
        rw (on, single_step_instruction)
          (Every-then_run
            (single_step_breakpoint-R (wait_for_signal fuel) (wait_for_signal-R fuel) t)
            (λ res t' h. ends h))
    | inr off ↦
        rw (off, single_step_instruction)
          (Every-after (stepped t) (wait_for_signal-R fuel (step_tracee t)))
  ]

  pub continue_and_wait-R : (fuel : ℕ) (t : Target K H) → Every (R t) (continue_and_wait fuel t)
  unfolding continue_and_wait
  continue_and_wait-R fuel t =
      Every-then_run (continue_execution-R (wait_for_signal fuel) (wait_for_signal-R fuel) t)
        (λ res t' h. Every-after h (wait_for_signal-R fuel t'))

  module _ (info : DebugInfo) (load_address fuel : ℕ) where
    after_step-R :
        (go_on : Position → Target K H → Run)
        → ((pos : Position) (t : Target K H) → Every (R t) (go_on pos t))
        → (res : SprayResult) (t : Target K H)
        → Every (R t) (after_step info load_address fuel go_on res t)
    unfolding after_step
    after_step-R go_on goes sp_err t = ends (same t)
    after_step-R go_on goes sp_ok t = elim (Option-cases (position_here info load_address fuel t)) [
      | inl lost ↦ rw (lost, after_step) (ends (same t))
      | inr (pos, here) ↦ rw (here, after_step) (goes pos t)
    ]

    step_lines-R :
        (left init_line : ℕ) (pos : Position) (t : Target K H)
        → Every (R t) (step_lines info load_address fuel left init_line pos t)
    unfolding step_lines
    step_lines-R zero init_line pos t = ends (same t)
    step_lines-R (suc left) init_line pos t = elim (Bool-cases (same_line init_line pos)) [
      | inr other ↦ rw (other, step_lines) (ends (same t))
      | inl here ↦
          rw (here, step_lines)
            (Every-then_run (single_step_instruction-R fuel t)
              (λ res t' h. Every-after h (after_step-R _ (step_lines-R left init_line) res t')))
    ]

    pub single_step_line-R :
        (t : Target K H) → Every (R t) (single_step_line info load_address fuel t)
    unfolding single_step_line
    single_step_line-R t = elim (Option-cases (position_here info load_address fuel t)) [
      | inl lost ↦ rw (lost, single_step_line) (ends (same t))
      | inr (pos, here) ↦ rw (here, single_step_line) (step_lines-R _ pos.line pos t)
    ]
