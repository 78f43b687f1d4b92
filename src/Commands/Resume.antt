-- ===== src/Commands/Resume.antt =====
-- src/debugger.c: the execution of the commands that let the process run and of those that set or
-- delete a breakpoint, and what is said of where it stopped.
use spray.Base.{ℕ, Option, none, some, [], ◌∷◌, CString}
use spray.Magic.{SprayResult, sp_ok, sp_err}
use spray.Ptrace.{Ptrace}
use spray.Breakpoints.{Table, Target, enable_breakpoint, disable_breakpoint}
use spray.Info.{DebugInfo, Position, sym_by_addr, sym_position, sym_filepath}
use spray.Backtrace.{CallFrame, init_backtrace}
use spray.Stepping.{
  Run, get_dbg_pc, is_user_breakpoint, then_run, continue_execution, wait_for_signal,
  single_step_instruction, step_out,
}
use spray.Stepping.Lines.{single_step_line, step_over}
use spray.Commands.Handlers.{
  Reply, no_backtrace, source_shown, no_source, backtrace_shown, Replies, says, Handled,
}

module _ ⦃K : Ptrace⦄ ⦃H : Table⦄ (info : DebugInfo) (load_address : ℕ) where
  abbrev source_of : Target K H → Option Position → Option CString → Reply
  source_of t (some pos) (some filepath) = source_shown (is_user_breakpoint t) filepath pos.line
  source_of t (some pos) none = no_source (get_dbg_pc load_address t)
  source_of t none filepath = no_source (get_dbg_pc load_address t)

  -- The lines that are read from the file are left out.
  unfoldable pub print_current_source : Target K H → Reply
  unfolding get_dbg_pc is_user_breakpoint
  print_current_source t = elim (sym_by_addr (get_dbg_pc load_address t) info) [
    | none ↦ no_source (get_dbg_pc load_address t)
    | some sym ↦ source_of t (sym_position sym info) (sym_filepath sym info)
  ]

  abbrev pub show_source : Run → Handled
  show_source none = none
  show_source (some (sp_ok, t)) = some (print_current_source t ∷ [], t)
  show_source (some (sp_err, t)) = some ([], t)

  unfoldable pub exec_break : Target K H → ℕ → Target K H
  unfolding enable_breakpoint
  exec_break t addr = (enable_breakpoint t addr).1

  unfoldable pub exec_delete : Target K H → ℕ → Target K H
  unfolding disable_breakpoint
  exec_delete t addr = (disable_breakpoint t addr).1

  abbrev pub go_on : ℕ → SprayResult → Target K H → Run
  go_on fuel sp_ok t = wait_for_signal fuel t
  go_on fuel sp_err t = some (sp_err, t)

  unfoldable pub exec_continue : ℕ → Target K H → Handled
  unfolding continue_execution wait_for_signal then_run print_current_source
  exec_continue fuel t =
      show_source (then_run (continue_execution (wait_for_signal fuel) t) (go_on fuel))

  unfoldable pub exec_inst : ℕ → Target K H → Handled
  unfolding single_step_instruction print_current_source
  exec_inst fuel t = show_source (single_step_instruction fuel t)

  unfoldable pub exec_leave : ℕ → Target K H → Handled
  unfolding step_out print_current_source
  exec_leave fuel t = show_source (step_out fuel t)

  unfoldable pub exec_step : ℕ → Target K H → Handled
  unfolding single_step_line print_current_source
  exec_step fuel t = show_source (single_step_line info load_address fuel t)

  unfoldable pub exec_next : ℕ → Target K H → Handled
  unfolding step_over print_current_source
  exec_next fuel t = show_source (step_over info load_address fuel t)

  abbrev show_backtrace : Option (Option CallFrame) → Replies
  show_backtrace none = none
  show_backtrace (some none) = says no_backtrace
  show_backtrace (some (some backtrace)) = some (backtrace_shown backtrace ∷ [])

  unfoldable pub exec_backtrace : ℕ → Target K H → Replies
  unfolding init_backtrace get_dbg_pc
  exec_backtrace fuel t =
      show_backtrace (init_backtrace fuel (get_dbg_pc load_address t) t.sys info)
