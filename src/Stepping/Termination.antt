-- ===== src/Stepping/Termination.antt =====
-- How much fuel waiting in src/debugger.c takes: more than there are stops by SIGWINCH to come.
use spray.Base.{
  ℕ, zero, suc, ◌≤◌, ◌<◌, ◌≡◌, refl, Option, some, none, arith, Bool-cases, Option-cases, inl, inr,
  List, set, ==_iff, ◌==◌, ◌||◌,
}
use spray.Magic.{SprayResult, sp_ok, sp_err}
use spray.Ptrace.{
  Ptrace, Siginfo, pt_get_signal_info, pt_read_memory, pt_single_step, pt_continue_execution,
  pt_write_memory, pt_write_registers, pt_read_registers,
}
use spray.Registers.{rip, index, set_register_value}
use spray.Breakpoints.{
  Breakpoint, Table, Target, get_breakpoint, lookup_breakpoint, ensure_breakpoint,
  enable_breakpoint, enable_entry, disable_breakpoint, disable_entry, patch,
}
use spray.Breakpoints.Lookup.{sys-ensure}
use spray.Stepping.{
  Run, then_run, with_sys, get_pc, set_pc, step_tracee, single_step_breakpoint, resume,
  continue_execution, handle_sigtrap, handle_stop, handle_status, wait_for_signal,
  single_step_instruction, WaitStatus, exited, signaled, continued, stopped, invalid, wait_status,
  sigtrap, sigwinch, siginfo_of,
}

-- A number of stops by SIGWINCH still to come. A wait takes one off where it sees such a stop and the
-- tracee was running; of a tracee that is still stopped it says nothing. No request adds any.
pub record IsQuiet (K : Ptrace) (runs : K.Sys → Type 0) (winches : K.Sys → ℕ) : Type 0 where
  pub waitpid_le : (s : K.Sys) → winches (K.waitpid s).sys ≤ winches s
  pub waitpid_lt :
      (s : K.Sys) (i : Siginfo)
      → runs s
      → K.get_siginfo (K.waitpid s).sys ≡ some i
      → i.si_signo ≡ sigwinch
      → winches (K.waitpid s).sys < winches s
  -- After these requests the tracee is in no stop; they are refused where it was in none.
  pub cont_runs : (s : K.Sys) → runs (K.cont s).sys
  pub single_step_runs : (s s' : K.Sys) → K.single_step s ≡ some s' → runs s'
  pub single_step_refused : (s : K.Sys) → K.single_step s ≡ none → runs s
  pub single_step_le : (s s' : K.Sys) → K.single_step s ≡ some s' → winches s' ≤ winches s
  pub cont_le : (s : K.Sys) → winches (K.cont s).sys ≤ winches s
  pub poke_le :
      (s : K.Sys) (a v : ℕ) (s' : K.Sys) → K.poke_data s a v ≡ some s' → winches s' ≤ winches s
  pub set_regs_le :
      (s : K.Sys) (regs : List ℕ) (s' : K.Sys)
      → K.set_regs s regs ≡ some s'
      → winches s' ≤ winches s

module _ ⦃K : Ptrace⦄ ⦃H : Table⦄ where
  -- The run has a result, and the process that it leaves has the property.
  pub record Finishes (P : Target K H → Type 0) (r : Run) : Type 0 where
    pub result : SprayResult
    pub target : Target K H
    pub ran : r ≡ some (result, target)
    pub holds : P target

  pub finished :
      {P : Target K H → Type 0} (res : SprayResult) (t : Target K H)
      → P t
      → Finishes P (some (res, t))
  finished res t p = record { result = res; target = t; ran = refl; holds = p }

  pub Finishes-map :
      {P Q : Target K H → Type 0} {r : Run}
      → ((t : Target K H) → P t → Q t)
      → Finishes P r
      → Finishes Q r
  Finishes-map f x = record {
    result = x.result;
    target = x.target;
    ran = x.ran;
    holds = f x.target x.holds;
  }

  pub Finishes-then_run :
      {P Q : Target K H → Type 0} {r : Run} {f : SprayResult → Target K H → Run}
      → Finishes P r
      → ((res : SprayResult) (t : Target K H) → P t → Finishes Q (f res t))
      → Finishes Q (then_run r f)
  unfolding then_run
  Finishes-then_run x q = rw (x.ran, then_run) (q x.result x.target x.holds)

module _ ⦃K : Ptrace⦄ ⦃H : Table⦄ (runs : K.Sys → Type 0) (winches : K.Sys → ℕ)
    (Q : IsQuiet K runs winches) where
  open Q use {
    waitpid_le, waitpid_lt, cont_runs, single_step_runs, single_step_refused, single_step_le,
    cont_le, poke_le, set_regs_le,
  }

  -- At most as many stops to come as after `n`.
  abbrev pub AtMost : ℕ → Target K H → Type 0
  AtMost n t = winches t.sys ≤ n

  patch-le :
      (t : Target K H) (a v : ℕ) (u : Breakpoint) → winches (patch t a v u).1.sys ≤ winches t.sys
  unfolding patch pt_write_memory
  patch-le t a v u = elim (Option-cases (K.poke_data t.sys a v)) [
    | inl failed ↦ rw (failed, patch, pt_write_memory) (omega arith)
    | inr (s, poked) ↦ rw (poked, patch, pt_write_memory) (poke_le t.sys a v s poked)
  ]

  enable_entry-le :
      (t : Target K H) (e : Breakpoint) → winches (enable_entry t e).1.sys ≤ winches t.sys
  unfolding enable_entry
  enable_entry-le t e = elim (Bool-cases e.is_enabled) [
    | inl on ↦ rw (on, enable_entry) (omega arith)
    | inr off ↦ elim (Option-cases (pt_read_memory t.sys e.addr)) [
      | inl failed ↦ rw (off, enable_entry) (rw failed (omega arith))
      | inr (word, read) ↦ rw (off, enable_entry) (rw read (patch-le t e.addr _ _))
    ]
  ]

  disable_entry-le :
      (t : Target K H) (e : Breakpoint) → winches (disable_entry t e).1.sys ≤ winches t.sys
  unfolding disable_entry
  disable_entry-le t e = elim (Bool-cases e.is_enabled) [
    | inr off ↦ rw (off, disable_entry) (omega arith)
    | inl on ↦ elim (Option-cases (pt_read_memory t.sys e.addr)) [
      | inl failed ↦ rw (on, disable_entry) (rw failed (omega arith))
      | inr (word, read) ↦ rw (on, disable_entry) (rw read (patch-le t e.addr _ _))
    ]
  ]

  ensure_breakpoint-le :
      (t : Target K H) (a : ℕ) → winches (ensure_breakpoint t a).sys ≤ winches t.sys
  ensure_breakpoint-le t a = rw sys-ensure (omega arith)

  enable_breakpoint-le :
      (t : Target K H) (a : ℕ) → winches (enable_breakpoint t a).1.sys ≤ winches t.sys
  unfolding enable_breakpoint
  enable_breakpoint-le t a = elim (Option-cases (get_breakpoint (ensure_breakpoint t a) a)) [
    | inl missing ↦ rw (missing, enable_breakpoint) (ensure_breakpoint-le t a)
    | inr (e, found) ↦
        rw (found, enable_breakpoint)
          (omega (arith, ensure_breakpoint-le t a, enable_entry-le (ensure_breakpoint t a) e))
  ]

  disable_breakpoint-le :
      (t : Target K H) (a : ℕ) → winches (disable_breakpoint t a).1.sys ≤ winches t.sys
  unfolding disable_breakpoint
  disable_breakpoint-le t a = elim (Option-cases (get_breakpoint t a)) [
    | inl missing ↦ rw (missing, disable_breakpoint) (omega arith)
    | inr (e, found) ↦ rw (found, disable_breakpoint) (disable_entry-le t e)
  ]

  step_tracee-le : (t : Target K H) → winches (step_tracee t).sys ≤ winches t.sys
  unfolding step_tracee pt_single_step
  step_tracee-le t = elim (Option-cases (K.single_step t.sys)) [
    | inl failed ↦ rw (failed, step_tracee, pt_single_step) (omega arith)
    | inr (s, stepped) ↦ rw (stepped, step_tracee, pt_single_step) (single_step_le t.sys s stepped)
  ]

  step_tracee-runs : (t : Target K H) → runs (step_tracee t).sys
  unfolding step_tracee pt_single_step
  step_tracee-runs t = elim (Option-cases (K.single_step t.sys)) [
    | inl failed ↦ rw (failed, step_tracee, pt_single_step) (single_step_refused t.sys failed)
    | inr (s, stepped) ↦
        rw (stepped, step_tracee, pt_single_step) (single_step_runs t.sys s stepped)
  ]

  resume-runs : (t : Target K H) → runs (resume t).1.sys
  unfolding resume pt_continue_execution
  resume-runs t = elim (Bool-cases ((K.cont t.sys).errno == 0)) [
    | inl done ↦ rw (done, resume, pt_continue_execution) (cont_runs t.sys)
    | inr failed ↦ rw (failed, resume, pt_continue_execution) (cont_runs t.sys)
  ]

  resume-le : (t : Target K H) → winches (resume t).1.sys ≤ winches t.sys
  unfolding resume pt_continue_execution
  resume-le t = ground (arith, cont_le t.sys)

  set_pc-le : (t : Target K H) (pc : ℕ) → winches (set_pc t pc).sys ≤ winches t.sys
  unfolding set_pc set_register_value pt_read_registers pt_write_registers
  set_pc-le t pc = elim (Option-cases (K.get_regs t.sys)) [
    | inl unread ↦ rw (unread, set_register_value, pt_read_registers) (omega arith)
    | inr (regs, read) ↦ elim (Option-cases (K.set_regs t.sys (set regs (index rip) pc))) [
      | inl failed ↦
          rw (read, set_register_value, pt_read_registers)
            (rw (failed, pt_write_registers) (omega arith))
      | inr (s, written) ↦
          rw (read, set_register_value, pt_read_registers)
            (rw (written, pt_write_registers) (set_regs_le t.sys _ s written))
    ]
  ]

  -- Where `wait` finishes with at most `n` stops to come, so does what it is used in.
  module _ (n : ℕ) (wait : Target K H → Run)
      (waits : (t : Target K H)
        → runs t.sys
        → winches t.sys < n
        → Finishes (AtMost (winches t.sys)) (wait t)) where
    wait-from :
        (t : Target K H) (k : ℕ)
        → runs t.sys
        → winches t.sys ≤ k
        → k < n
        → Finishes (AtMost k) (wait t)
    wait-from t k on h small =
        let w = waits t on (omega arith) in
        record { result = w.result; target = w.target; ran = w.ran; holds = omega (arith, w.holds) }

    single_step_breakpoint-Finishes :
        (t : Target K H)
        → winches t.sys < n
        → Finishes (AtMost (winches t.sys)) (single_step_breakpoint wait t)
    unfolding single_step_breakpoint
    single_step_breakpoint-Finishes t small = elim (Bool-cases (lookup_breakpoint t (get_pc t))) [
      | inr off ↦ rw (off, single_step_breakpoint) (finished sp_ok t (omega arith))
      | inl on ↦
          let out = (disable_breakpoint t (get_pc t)).1 in
          rw (on, single_step_breakpoint)
            (Finishes-then_run
              (wait-from (step_tracee out) (winches t.sys) (step_tracee-runs out)
                (omega (arith, step_tracee-le out, disable_breakpoint-le t (get_pc t))) small)
              (λ res t' h. finished res _ (omega (arith, enable_breakpoint-le t' (get_pc t), h))))
    ]

    -- The tracee runs again afterwards.
    continue_execution-Finishes :
        (t : Target K H)
        → winches t.sys < n
        → Finishes (λ t'. runs t'.sys × AtMost (winches t.sys) t') (continue_execution wait t)
    unfolding continue_execution
    continue_execution-Finishes t small =
        Finishes-then_run (single_step_breakpoint-Finishes t small)
          (λ res t' h. finished _ _ (resume-runs t', omega (arith, resume-le t', h)))

    handle_sigtrap-le :
        (t : Target K H) (i : Siginfo) → winches (handle_sigtrap t i).sys ≤ winches t.sys
    unfolding handle_sigtrap
    handle_sigtrap-le t i = elim (Bool-cases ((i.si_code == 0x80) || (i.si_code == 1))) [
      | inl trap ↦ rw (trap, handle_sigtrap) (set_pc-le t _)
      | inr other ↦ rw (other, handle_sigtrap) (omega arith)
    ]

    -- The fuel only matters for a stop by SIGWINCH.
    handle_stop-Finishes :
        (i : Siginfo) (t : Target K H)
        → (i.si_signo ≡ sigwinch → winches t.sys < n)
        → Finishes (AtMost (winches t.sys)) (handle_stop wait i t)
    unfolding handle_stop
    handle_stop-Finishes i t small = elim (Bool-cases (i.si_signo == sigtrap)) [
      | inl trap ↦ rw (trap, handle_stop) (finished sp_ok _ (handle_sigtrap-le t i))
      | inr other ↦ elim (Bool-cases (i.si_signo == sigwinch)) [
        | inr more ↦ rw (other, handle_stop) (rw more (finished sp_ok t (omega arith)))
        | inl winch ↦
            let less = small ((==_iff i.si_signo sigwinch).0 winch) in
            rw (other, handle_stop)
              (rw winch (
                Finishes-then_run (continue_execution-Finishes t less)
                  (λ res t' h. wait-from t' (winches t.sys) h.0 h.1 less)))
      ]
    ]

    signal_info : (s : K.Sys) → K.get_siginfo s ≡ pt_get_signal_info s
    unfolding pt_get_signal_info
    signal_info s = ground arith

    siginfo-small :
        (t : Target K H)
        → ((i : Siginfo) → K.get_siginfo t.sys ≡ some i → i.si_signo ≡ sigwinch → winches t.sys < n)
        → (o : Option Siginfo) → K.get_siginfo t.sys ≡ o
        → (siginfo_of o).si_signo ≡ sigwinch
        → winches t.sys < n
    siginfo-small t small none e winch = absurd (omega arith)
    siginfo-small t small (some i) e winch = small i e winch

    handle_status-Finishes :
        (status : WaitStatus) (t : Target K H)
        → ((i : Siginfo) → K.get_siginfo t.sys ≡ some i → i.si_signo ≡ sigwinch → winches t.sys < n)
        → Finishes (AtMost (winches t.sys)) (handle_status wait status t)
    unfolding pt_get_signal_info
    handle_status-Finishes exited t small = finished sp_err t (omega arith)
    handle_status-Finishes signaled t small = finished sp_err t (omega arith)
    handle_status-Finishes continued t small = finished sp_ok t (omega arith)
    handle_status-Finishes invalid t small = finished sp_err t (omega arith)
    handle_status-Finishes stopped t small =
        handle_stop-Finishes (siginfo_of (pt_get_signal_info t.sys)) t
          (siginfo-small t small (pt_get_signal_info t.sys) (signal_info t.sys))

  -- For a tracee that runs, `wait_for_signal` has a result if the fuel is more than the number of
  -- stops by SIGWINCH to come, each of which is passed over by letting the tracee run again.
  pub wait_for_signal-Finishes :
      (fuel : ℕ) (t : Target K H)
      → runs t.sys
      → winches t.sys < fuel
      → Finishes (AtMost (winches t.sys)) (wait_for_signal fuel t)
  unfolding wait_for_signal
  wait_for_signal-Finishes zero t on h = absurd (omega arith)
  wait_for_signal-Finishes (suc fuel) t on h =
      Finishes-map (λ t' k. omega (arith, waitpid_le t.sys, k))
        (handle_status-Finishes fuel (wait_for_signal fuel) (wait_for_signal-Finishes fuel)
          (wait_status (K.waitpid t.sys).status) (with_sys t (K.waitpid t.sys).sys)
          (λ i e winch. omega (arith, waitpid_lt t.sys i on e winch)))

  -- So have `continue_execution` and `single_step_instruction`, which wait at most once, from a
  -- tracee that is stopped, too.
  pub continue_execution_lem :
      (fuel : ℕ) (t : Target K H)
      → winches t.sys < fuel
      → Finishes
          (λ t'. runs t'.sys × AtMost (winches t.sys) t')
          (continue_execution (wait_for_signal fuel) t)
  continue_execution_lem fuel t h =
      continue_execution-Finishes fuel (wait_for_signal fuel) (wait_for_signal-Finishes fuel) t h

  pub single_step_instruction-Finishes :
      (fuel : ℕ) (t : Target K H)
      → winches t.sys < fuel
      → Finishes (AtMost (winches t.sys)) (single_step_instruction fuel t)
  unfolding single_step_instruction
  single_step_instruction-Finishes fuel t h = elim (Bool-cases (lookup_breakpoint t (get_pc t))) [
    | inl on ↦
        rw (on, single_step_instruction)
          (Finishes-then_run
            (single_step_breakpoint-Finishes fuel (wait_for_signal fuel)
              (wait_for_signal-Finishes fuel) t h)
            (λ res t' k. finished sp_ok t' k))
    | inr off ↦
        rw (off, single_step_instruction)
          (Finishes-map (λ t' k. omega (arith, step_tracee-le t, k))
            (wait_for_signal-Finishes fuel (step_tracee t) (step_tracee-runs t)
              (omega (arith, step_tracee-le t, h))))
  ]
