-- ===== src/Stepping/Resized.antt =====
-- The sample process in a terminal that is resized: it is stopped by SIGWINCH some times before the
-- next trap. While it is stopped, waiting shows the same stop again and again.
use spray.Base.{
  ℕ, ◌+◌, ◌*◌, if◌then◌else◌, zero, suc, ◌≤◌, ◌<◌, ◌≡◌, refl, Bool, true, false, some, none, arith,
  Option, [], ◌∷◌, map,
}
use spray.Magic.{SprayResult, sp_ok}
use spray.Ptrace.{
  Ptrace, pt_get_signal_info, pt_continue_execution, pt_read_registers, pt_write_registers,
}
use spray.Registers.{set_register_value}
use spray.Sample.{Machine, machine, table}
use spray.Breakpoints.{Target, init_breakpoints, lookup_breakpoint, get_breakpoint}
use spray.Stepping.{
  Run, sigwinch, wait_for_signal, wait_status, handle_stop, then_run, continue_execution,
  single_step_breakpoint, resume, handle_sigtrap, set_pc,
}
use spray.Stepping.Termination.{IsQuiet, Finishes, AtMost, wait_for_signal-Finishes}
use spray.Stepping.Tests.{program}

pub record Resized : Type 0 where
  pub tracee : Machine
  pub running : Bool
  pub winches : ℕ
  pub signal : ℕ

abbrev stop_status : ℕ → ℕ
stop_status signal = signal * 256 + 0x7f

-- The next stop of a tracee that runs.
abbrev next_stop : Machine → ℕ → record { status : ℕ; sys : Resized }
next_stop m zero = record {
  status = 0x057f;
  sys = record { tracee = m; running = false; winches = 0; signal = 5 };
}
next_stop m (suc n) = record {
  status = 0x1c7f;
  sys = record { tracee = m; running = false; winches = n; signal = 28 };
}

abbrev wait_resized : Resized → record { status : ℕ; sys : Resized }
wait_resized s =
    if s.running
    then next_stop s.tracee s.winches
    else record { status = stop_status s.signal; sys = s }

abbrev with_tracee : Resized → Option Machine → Option Resized
with_tracee s none = none
with_tracee s (some m) = some (record s { tracee = m })

abbrev pub resized : Ptrace
resized = record {
  Sys = Resized;
  peek_data = λ s a. machine.peek_data s.tracee a;
  poke_data = λ s a w. with_tracee s (machine.poke_data s.tracee a w);
  get_regs = λ s. machine.get_regs s.tracee;
  set_regs = λ s regs. with_tracee s (machine.set_regs s.tracee regs);
  cont = λ s. record { errno = 0; sys = record s { running = true } };
  single_step = λ s. some (record s { running = true });
  get_siginfo = λ s. some (record { si_signo = s.signal; si_code = 0x80 });
  waitpid = wait_resized;
}

with_tracee-winches :
    (s s' : Resized) (o : Option Machine) → with_tracee s o ≡ some s' → s'.winches ≤ s.winches
with_tracee-winches s s' none e = absurd (ground arith)
with_tracee-winches s s' (some m) e = ground arith

next_stop-le : (m : Machine) (n : ℕ) → (next_stop m n).sys.winches ≤ n
next_stop-le m zero = omega arith
next_stop-le m (suc n) = omega arith

next_stop-lt :
    (m : Machine) (n : ℕ) → (next_stop m n).sys.signal ≡ sigwinch → (next_stop m n).sys.winches < n
next_stop-lt m zero e = absurd (omega arith)
next_stop-lt m (suc n) e = omega arith

abbrev pub IsRunning : Resized → Type 0
IsRunning s = s.running ≡ true

abbrev pub winches_left : Resized → ℕ
winches_left s = s.winches

pub resized-IsQuiet : IsQuiet resized IsRunning winches_left
resized-IsQuiet = record {
  waitpid_le = λ s. ground (arith, next_stop-le s.tracee s.winches);
  waitpid_lt = λ s i on e winch. ground (arith, next_stop-lt s.tracee s.winches);
  cont_runs = λ s. refl;
  single_step_runs = λ s s' e. ground arith;
  single_step_refused = λ s e. absurd (ground arith);
  single_step_le = λ s s' e. ground arith;
  cont_le = λ s. omega arith;
  poke_le = λ s a v s' e. with_tracee-winches s s' (machine.poke_data s.tracee a v) e;
  set_regs_le = λ s regs s' e. with_tracee-winches s s' (machine.set_regs s.tracee regs) e;
}

-- A tracee that runs, with two stops by SIGWINCH before the trap.
abbrev running : Target resized table
running =
    init_breakpoints ⦃K = resized⦄
      (record { tracee = program; running = true; winches = 2; signal = 5 })

wait_for_signal-Finishes_example :
    Finishes ⦃K = resized⦄
      (AtMost ⦃K = resized⦄ IsRunning winches_left resized-IsQuiet 2)
      (wait_for_signal ⦃K = resized⦄ 3 running)
unfolding init_breakpoints
wait_for_signal-Finishes_example =
    wait_for_signal-Finishes ⦃K = resized⦄ IsRunning winches_left resized-IsQuiet 3 running refl
      (omega arith)

abbrev left_after : Run ⦃K = resized⦄ → Option (SprayResult × ℕ × ℕ)
left_after none = none
left_after (some (res, t)) = some (res, t.sys.winches, t.sys.signal)

-- The trap is reached with the fuel that the theorem asks for, and not with less.
run_wait :
    map (λ fuel. left_after (wait_for_signal ⦃K = resized⦄ fuel running)) (3 ∷ 2 ∷ [])
    ≡ some (sp_ok, 0, 5) ∷ none ∷ []
unfolding wait_for_signal init_breakpoints wait_status handle_stop pt_get_signal_info then_run
    continue_execution single_step_breakpoint lookup_breakpoint get_breakpoint resume
    pt_continue_execution handle_sigtrap set_pc set_register_value pt_read_registers
    pt_write_registers
run_wait = refl
