-- ===== src/Stepping/Trap.antt =====
-- The stop at a breakpoint in src/debugger.c: the PC goes back to the address of the breakpoint.
use spray.Base.{
  ℕ, suc, ◌+◌, ◌-◌, ◌%◌, ◌<◌, ◌≡◌, refl, Bool, true, false, ◌||◌, ◌==◌, some, none, arith,
  Option-cases, List, set, Bool-cases, inl, inr,
}
use spray.Magic.{SprayResult, sp_ok, sp_err, word_mod}
use spray.Ptrace.{Ptrace, Siginfo, pt_get_signal_info, pt_read_registers, pt_write_registers}
use spray.Ptrace.Memory.{IsPtrace}
use spray.Registers.{rip, index, get_register_value, set_register_value}
use spray.Registers.Values.{RegisterSet, RegisterWritten, done, failed, set_register_value_lem}
use spray.Breakpoints.{Table, Target, get_breakpoint, lookup_breakpoint}
use spray.Stepping.{
  Run, with_sys, get_pc, set_pc, is_user_breakpoint, handle_sigtrap, handle_stop, wait_for_signal,
  wait_status, stopped, sigtrap,
}

abbrev pub at_breakpoint : Siginfo → Bool
at_breakpoint i = (i.si_code == 0x80) || (i.si_code == 1)

module _ ⦃K : Ptrace⦄ ⦃H : Table⦄ (L : IsPtrace K) where
  -- The request for the registers fails, or the one that would change the PC alone.
  pub data Refused (s : K.Sys) (pc : ℕ) : Type 0 where
    unread : K.get_regs s ≡ none → Refused s pc
    unwritten :
        (regs : List ℕ)
        → K.get_regs s ≡ some regs
        → K.set_regs s (set regs (index rip) pc) ≡ none
        → Refused s pc

  failed-Refused : (s : K.Sys) (pc : ℕ) → (set_register_value s rip pc).0 ≡ sp_err → Refused s pc
  unfolding set_register_value pt_read_registers pt_write_registers
  failed-Refused s pc e = elim (Option-cases (K.get_regs s)) [
    | inl missing ↦ unread missing
    | inr (regs, read) ↦ elim (Option-cases (K.set_regs s (set regs (index rip) pc))) [
      | inl refused ↦ unwritten regs read refused
      | inr (s', written) ↦ absurd (ground arith)
    ]
  ]

  -- What becomes of a process stopped by SIGTRAP.
  pub data TrapHandled (t : Target K H) (i : Siginfo) : Target K H → Type 0 where
    -- the PC is one less, and no other register, no byte and no breakpoint differs
    rewound :
        {t' : Target K H}
        → at_breakpoint i ≡ true
        → get_pc t' ≡ (get_pc t + (word_mod - 1)) % word_mod
        → ((b : ℕ) → lookup_breakpoint t' b ≡ lookup_breakpoint t b)
        → RegisterSet L t.sys rip ((get_pc t + (word_mod - 1)) % word_mod) t'.sys
        → TrapHandled t i t'
    -- the registers could not be read, or not be written with the PC one less
    stuck :
        at_breakpoint i ≡ true
        → Refused t.sys ((get_pc t + (word_mod - 1)) % word_mod)
        → TrapHandled t i t
    -- the trap is that of a single step
    untouched : at_breakpoint i ≡ false → TrapHandled t i t

  lookup-with_sys :
      (t : Target K H) (s : K.Sys) (b : ℕ)
      → lookup_breakpoint (with_sys t s) b ≡ lookup_breakpoint t b
  unfolding lookup_breakpoint get_breakpoint
  lookup-with_sys t s b = refl

  TrapHandled-written :
      (t : Target K H) (i : Siginfo) {r : SprayResult × K.Sys}
      → at_breakpoint i ≡ true
      → (r.0 ≡ sp_err → Refused t.sys ((get_pc t + (word_mod - 1)) % word_mod))
      → RegisterWritten L t.sys rip ((get_pc t + (word_mod - 1)) % word_mod) r
      → TrapHandled t i (with_sys t r.1)
  unfolding get_pc
  TrapHandled-written t i trap e (done {s'} w) =
      let now : get_register_value s' rip ≡ some ((get_pc t + (word_mod - 1)) % word_mod) =
        ground (arith, w.registers rip) in
      rewound trap (rw (now, get_pc) refl) (lookup-with_sys t s') w
  TrapHandled-written t i trap e failed = stuck trap (e refl)

  handle_sigtrap_lem : (t : Target K H) (i : Siginfo) → TrapHandled t i (handle_sigtrap t i)
  unfolding handle_sigtrap set_pc
  handle_sigtrap_lem t i = elim (Bool-cases (at_breakpoint i)) [
    | inl trap ↦
        rw (trap, handle_sigtrap)
          (TrapHandled-written t i trap (failed-Refused t.sys _)
            (set_register_value_lem L t.sys rip _))
    | inr other ↦ rw (other, handle_sigtrap) (untouched other)
  ]

  handle_stop-trap :
      (wait : Target K H → Run) (i : Siginfo) (t : Target K H)
      → i.si_signo ≡ sigtrap
      → handle_stop wait i t ≡ some (sp_ok, handle_sigtrap t i)
  unfolding handle_stop
  handle_stop-trap wait i t g = ground arith

  -- If the tracee is stopped by SIGTRAP, `wait_for_signal` succeeds. After a breakpoint the PC is
  -- the one before and no other register, no byte and no breakpoint differs; or the request for
  -- the registers fails, or the one that would write them with that PC, and the process is as the
  -- wait left it. After any other trap it is as the wait left it.
  pub wait_for_signal-trap :
      (fuel : ℕ) (t : Target K H) (i : Siginfo)
      → wait_status (K.waitpid t.sys).status ≡ stopped
      → pt_get_signal_info (K.waitpid t.sys).sys ≡ some i
      → i.si_signo ≡ sigtrap
      → (t' : Target K H) × (wait_for_signal (suc fuel) t ≡ some (sp_ok, t'))
        × TrapHandled (with_sys t (K.waitpid t.sys).sys) i t'
  unfolding wait_for_signal
  wait_for_signal-trap fuel t i e f g = (
    handle_sigtrap (with_sys t (K.waitpid t.sys).sys) i,
    rw (e, wait_for_signal) (rw f (handle_stop-trap _ i _ g)),
    handle_sigtrap_lem (with_sys t (K.waitpid t.sys).sys) i,
  )

  -- Where the PC stood behind the `int3` of a breakpoint of the user, the rewound process is at that
  -- breakpoint.
  pub rewound-is_user_breakpoint :
      (t t' : Target K H) (a : ℕ)
      → suc a < word_mod
      → get_pc t ≡ suc a
      → lookup_breakpoint t a ≡ true
      → get_pc t' ≡ (get_pc t + (word_mod - 1)) % word_mod
      → ((b : ℕ) → lookup_breakpoint t' b ≡ lookup_breakpoint t b)
      → is_user_breakpoint t' ≡ true
  unfolding is_user_breakpoint
  rewound-is_user_breakpoint t t' a small here on back same =
      let at : get_pc t' ≡ a = omega arith in rw at (ground (arith, same a, on))
