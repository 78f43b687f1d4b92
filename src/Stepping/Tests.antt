-- ===== src/Stepping/Tests.antt =====
-- A small process that is run and stepped: runs, and the theorems at them.
use spray.Base.{
  ℕ, ◌%◌, ◌≡◌, refl, Bool, true, false, Option, none, some, List, [], ◌∷◌, map, arith, ltb,
}
use spray.Magic.{SprayResult, sp_ok, sp_err}
use spray.Ptrace.{
  pt_read_memory, pt_write_memory, pt_read_registers, pt_write_registers, pt_single_step,
  pt_continue_execution, pt_get_signal_info, Siginfo,
}
use spray.Sample.{Machine, machine, machine-IsPtrace, poked, table, limit}
use spray.Registers.{get_register_value, set_register_value}
use spray.Breakpoints.{
  Target, init_breakpoints, get_breakpoint, lookup_breakpoint, ensure_breakpoint, enable_entry,
  enable_breakpoint, disable_entry, disable_breakpoint, patch, breakpoint_compare,
}
use spray.Stepping.{
  Run, then_run, get_pc, set_pc, step_tracee, single_step_breakpoint, resume, continue_execution,
  handle_sigtrap, handle_stop, wait_for_signal, wait_status, stopped, single_step_instruction,
  return_address, set_return_address_breakpoint, remove_transient, continue_and_wait, step_out,
  with_sys,
}
use spray.Stepping.Access.{IsSteady}
use spray.Stepping.Trap.{TrapHandled, wait_for_signal-trap}

-- The PC is behind a breakpoint, and the frame at 0x7000 returns to 0x1234.
abbrev pub program : Machine
program = record {
  mem = λ b. elim (ltb b 0x7000) [
    | true ↦ b % 251
    | false ↦ elim (ltb b 0x7008) [
      | true ↦ 0
      | false ↦ elim (ltb b 0x7009) [
        | true ↦ 0x34
        | false ↦ elim (ltb b 0x700a) [ true ↦ 0x12 | false ↦ 0 ]
      ]
    ]
  ];
  regs =
      0 ∷ 0 ∷ 0 ∷ 0 ∷ 0x7000 ∷ 0 ∷ 0 ∷ 0 ∷ 0 ∷ 0 ∷ 0 ∷ 0 ∷ 0 ∷ 0 ∷ 0 ∷ 0 ∷ 0x1001 ∷ 0 ∷ 0 ∷ 0 ∷ 0
      ∷ 0 ∷ 0 ∷ 0 ∷ 0 ∷ 0 ∷ 0 ∷ [];
  statuses = 0x057f ∷ 0x057f ∷ 0x0000 ∷ [];
  code = 0x80;
}

abbrev start : Target machine table
start = (enable_breakpoint (init_breakpoints program) 0x1000).1

abbrev summary : Run → Option (SprayResult × ℕ × List Bool)
summary none = none
summary (some (res, t)) = some (res, get_pc t, map (lookup_breakpoint t) (0x1000 ∷ 0x1234 ∷ []))

-- The runs with all that they call.
abbrev stepping : List (Option (SprayResult × ℕ × List Bool))
unfolding init_breakpoints enable_breakpoint disable_breakpoint ensure_breakpoint get_breakpoint
    enable_entry disable_entry patch pt_read_memory pt_write_memory lookup_breakpoint
    breakpoint_compare pt_read_registers pt_write_registers pt_single_step pt_continue_execution
    pt_get_signal_info get_register_value set_register_value then_run get_pc set_pc step_tracee
    single_step_breakpoint resume continue_execution handle_sigtrap handle_stop wait_for_signal
    wait_status single_step_instruction return_address set_return_address_breakpoint
    remove_transient continue_and_wait step_out
stepping =
    summary (wait_for_signal 1 start)
    ∷ summary (step_out 4 start)
    ∷ summary (continue_and_wait 4 (init_breakpoints (record program { statuses = 0x0100 ∷ [] })))
    ∷ summary (wait_for_signal 0 start)
    ∷ []

run_stepping :
    stepping
    ≡ some (sp_ok, 0x1000, true ∷ false ∷ [])
      ∷ some (sp_ok, 0x1000, true ∷ false ∷ [])
      ∷ some (sp_err, 0x1001, false ∷ false ∷ [])
      ∷ none
      ∷ []
unfolding stepping
run_stepping = refl

abbrev pub access : ℕ → Bool
access a = ltb a limit

pub machine-IsSteady : IsSteady machine access
machine-IsSteady = record {
  peek_access = λ s a. ground arith;
  poke_access = λ s a w h. (poked s a w, ground arith);
}

abbrev trap_info : Siginfo
trap_info = record { si_signo = 5; si_code = 0x80 }

stopped_start : wait_status (machine.waitpid start.sys).status ≡ stopped
unfolding wait_status stepping
stopped_start = refl

start_info : pt_get_signal_info (machine.waitpid start.sys).sys ≡ some trap_info
unfolding stepping
start_info = refl

wait_for_signal-trap_example :
    (t' : Target machine table) × (wait_for_signal 1 start ≡ some (sp_ok, t'))
    × TrapHandled machine-IsPtrace (with_sys start (machine.waitpid start.sys).sys) trap_info t'
wait_for_signal-trap_example =
    wait_for_signal-trap machine-IsPtrace 0 start trap_info stopped_start start_info refl
