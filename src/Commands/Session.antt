-- ===== src/Commands/Session.antt =====
-- src/debugger.c: a session, from the start of the program to the last line that is typed. The lines
-- are a list, which ends where linenoise returns `NULL`.
use spray.Base.{ℕ, Option, none, some, List, [], ◌∷◌, ◌++◌, CString, bytes}
use spray.Magic.{sp_ok, sp_err, dbg_to_real}
use spray.Ptrace.{Ptrace}
use spray.Breakpoints.{Table, Target, enable_breakpoint, disable_breakpoint}
use spray.Info.{DebugInfo, sym_by_name, function_start_addr}
use spray.Value.{Floats}
use spray.Stepping.{Run, then_run, continue_execution, wait_for_signal}
use spray.Commands.Handlers.{Reply, VariableSource}
use spray.Commands.Resume.{print_current_source, go_on}
use spray.Commands.Dispatch.{Session, handle_debug_command}

module _ ⦃K : Ptrace⦄ ⦃H : Table⦄ where
  -- What was said, and the debugger afterwards.
  abbrev pub SessionRun : Type 0
  SessionRun = Option (List Reply × Session)

  abbrev pub with_replies : List Reply → SessionRun → SessionRun
  with_replies before none = none
  with_replies before (some (replies, dbg)) = some (before ++ replies, dbg)

  abbrev pub then_lines : SessionRun → (Session → SessionRun) → SessionRun
  then_lines none f = none
  then_lines (some (replies, dbg)) f = with_replies replies (f dbg)

  abbrev pub with_target : Session → Target K H → Session
  with_target dbg t = record dbg { target = t }

module _ ⦃K : Ptrace⦄ ⦃H : Table⦄ (F : Floats) (cwd : Option CString) (vars : VariableSource)
    (info : DebugInfo) (load_address fuel : ℕ) where
  unfoldable pub run_lines : List CString → Session → SessionRun
  unfolding handle_debug_command
  run_lines [] dbg = some ([], dbg)
  run_lines (line ∷ lines) dbg =
      then_lines (handle_debug_command F cwd vars info load_address fuel dbg line) (run_lines lines)

  unfoldable pub take_commands : List CString → Session → SessionRun
  unfolding run_lines print_current_source
  take_commands lines dbg =
      with_replies (print_current_source info load_address dbg.target ∷ []) (run_lines lines dbg)

  -- `start_main` was reached, or not.
  abbrev pub at_main : List CString → Session → ℕ → Run → SessionRun
  at_main lines dbg addr none = none
  at_main lines dbg addr (some (sp_err, t)) = some ([], with_target dbg t)
  at_main lines dbg addr (some (sp_ok, t)) =
      take_commands lines (with_target dbg (disable_breakpoint t addr).1)

  unfoldable pub run_debugger : List CString → Session → SessionRun
  unfolding take_commands continue_execution wait_for_signal then_run enable_breakpoint
      disable_breakpoint sym_by_name function_start_addr
  run_debugger lines dbg = elim (sym_by_name (bytes "main") info) [
    | none ↦ some ([], dbg)
    | some main ↦ elim (function_start_addr main info) [
      | none ↦ take_commands lines dbg
      | some start_main ↦
          let addr = dbg_to_real load_address start_main in
          at_main lines dbg addr (
            then_run
              (continue_execution (wait_for_signal fuel) (enable_breakpoint dbg.target addr).1)
              (go_on info load_address fuel))
    ]
  ]
