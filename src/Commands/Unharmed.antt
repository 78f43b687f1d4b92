-- ===== src/Commands/Unharmed.antt =====
-- A session of src/debugger.c without the setting of memory keeps the program's text.
use mathlib.Core.Option
use mathlib.Core.Path.{subst}
use spray.Base.{
  ◌⊎◌, ◌≡◌, ℕ, ◌≢◌, refl, Bool, Option, none, some, Option-cases, inl, inr, List, [], ◌∷◌, CString,
  bytes,
}
use spray.Magic.{SprayResult, sp_ok, sp_err, dbg_to_real}
use spray.Ptrace.{Ptrace}
use spray.Ptrace.Memory.{IsPtrace}
use spray.Breakpoints.{Table, Target, disable_breakpoint}
use spray.Info.{DebugInfo, sym_by_name, function_start_addr}
use spray.Value.{Floats}
use spray.Stepping.{Run, then_run, continue_execution, wait_for_signal}
use spray.Stepping.Stable.{
  Every, ends, open_ended, Every-then_run, Every-after, continue_execution-R, wait_for_signal-R,
  single_step_instruction-R,
}
use spray.Stepping.Safety.{
  KeepsText, Safe, Safe-refl, Safe-trans, Safe-IsStable, enable_breakpoint-Safe,
  disable_breakpoint-Safe,
}
use spray.Stepping.Text.{step_out-Safe, step_over-Safe, single_step_line-Safe}
use spray.History.{save_command}
use spray.Commands.{get_command_tokens, next_token, PrintFilter}
use spray.Commands.Repeat.{choose_command_blank, choose_command_token, Tokens-cases}
use spray.Commands.Handlers.{VariableSource}
use spray.Commands.Resume.{
  print_current_source, go_on, exec_break, exec_delete, exec_continue, exec_inst, exec_leave,
  exec_step, exec_next,
}
use spray.Commands.Arguments.{Argument, argument, rejected, Subject, read_location, read_print}
use spray.Commands.Dispatch.{
  Command, cmd_continue, cmd_break, cmd_delete, cmd_print, cmd_set, cmd_inst, cmd_leave, cmd_step,
  cmd_next, cmd_backtrace, cmd_unknown, command_of, Session, on_print, execute_chosen,
  handle_command, handle_debug_command_tokens, handle_debug_command,
}
use spray.Commands.SetRegister.{set_register-Leaves}
use spray.Commands.Session.{run_lines, take_commands, at_main, run_debugger, with_target}
use spray.Commands.Leaves.{
  SetsNoMemory, AllSetNoMemory, SetNoMemoryBefore, Leaves, leaves, show_source-Leaves,
  if_at_end-Leaves, on_location-Leaves, unchanged-Leaves, Leaves-map, AllLeave, all_leave,
  all_unknown, with_replies-AllLeave, then_lines-AllLeave, with_history-AllLeave,
}

set-cases : (c : Command) → (c ≡ cmd_set) ⊎ (c ≢ cmd_set)
set-cases cmd_set = inl refl
set-cases cmd_continue = inr (λ e. cc)
set-cases cmd_break = inr (λ e. cc)
set-cases cmd_delete = inr (λ e. cc)
set-cases cmd_print = inr (λ e. cc)
set-cases cmd_inst = inr (λ e. cc)
set-cases cmd_leave = inr (λ e. cc)
set-cases cmd_step = inr (λ e. cc)
set-cases cmd_next = inr (λ e. cc)
set-cases cmd_backtrace = inr (λ e. cc)
set-cases cmd_unknown = inr (λ e. cc)

module _ ⦃K : Ptrace⦄ ⦃H : Table⦄ (L : IsPtrace K) (text : ℕ → Bool) (T : KeepsText L text)
    (F : Floats) (cwd : Option CString) (vars : VariableSource) (info : DebugInfo)
    (load_address fuel : ℕ) where
  go_on-Safe :
      (t : Target K H) (res : SprayResult) (t' : Target K H)
      → Safe L text t t'
      → Every (Safe L text t) (go_on info load_address fuel res t')
  go_on-Safe t sp_ok t' h =
      Every-after (Safe-IsStable L text T) h (wait_for_signal-R (Safe-IsStable L text T) fuel t')
  go_on-Safe t sp_err t' h = ends h

  continue-Safe :
      (t : Target K H)
      → Every
          (Safe L text t)
          (then_run (continue_execution (wait_for_signal fuel) t) (go_on info load_address fuel))
  continue-Safe t =
      Every-then_run
        (continue_execution-R (Safe-IsStable L text T) (wait_for_signal fuel)
          (wait_for_signal-R (Safe-IsStable L text T) fuel) t)
        (go_on-Safe t)

  handle_command-Safe :
      (c : Command) (tokens : List CString) (i : ℕ) (t : Target K H)
      → c ≢ cmd_set
      → Leaves (Safe L text t) (handle_command F cwd vars info load_address fuel c tokens i t)
  unfolding handle_command exec_continue exec_inst exec_leave exec_step exec_next exec_break
      exec_delete
  handle_command-Safe cmd_continue tokens i t n =
      if_at_end-Leaves tokens i t (Safe-refl L text t)
        (show_source-Leaves info load_address (continue-Safe t))
  handle_command-Safe cmd_break tokens i t n =
      on_location-Leaves load_address (exec_break info load_address) t (read_location info tokens i)
        (Safe-refl L text t) (enable_breakpoint-Safe L text t)
  handle_command-Safe cmd_delete tokens i t n =
      on_location-Leaves load_address (exec_delete info load_address) t
        (read_location info tokens i) (Safe-refl L text t) (disable_breakpoint-Safe L text t)
  handle_command-Safe cmd_print tokens i t n = print-Safe (read_print tokens i) t
    where
      print-Safe :
          (a : Argument (Subject × PrintFilter)) (t : Target K H)
          → Leaves (Safe L text t) (on_print F cwd vars info load_address fuel t a)
      print-Safe (rejected m) t = leaves (Safe-refl L text t)
      print-Safe (argument (subject, filter)) t = unchanged-Leaves t _ (Safe-refl L text t)
  handle_command-Safe cmd_set tokens i t n = absurd (n refl)
  handle_command-Safe cmd_inst tokens i t n = if_at_end-Leaves tokens i t (Safe-refl L text t) (
      show_source-Leaves info load_address
        (single_step_instruction-R (Safe-IsStable L text T) fuel t))
  handle_command-Safe cmd_leave tokens i t n =
      if_at_end-Leaves tokens i t (Safe-refl L text t)
        (show_source-Leaves info load_address (step_out-Safe L text T fuel t))
  handle_command-Safe cmd_step tokens i t n = if_at_end-Leaves tokens i t (Safe-refl L text t) (
      show_source-Leaves info load_address
        (single_step_line-Safe L text T info load_address fuel t))
  handle_command-Safe cmd_next tokens i t n =
      if_at_end-Leaves tokens i t (Safe-refl L text t)
        (show_source-Leaves info load_address (step_over-Safe L text T info load_address fuel t))
  handle_command-Safe cmd_backtrace tokens i t n = unchanged-Leaves t _ (Safe-refl L text t)
  handle_command-Safe cmd_unknown tokens i t n = leaves (Safe-refl L text t)

  handle_debug_command_tokens-Safe :
      (tokens : List CString) (t : Target K H)
      → SetsNoMemory tokens
      → Leaves
          (Safe L text t)
          (handle_debug_command_tokens F cwd vars info load_address fuel tokens t)
  unfolding handle_debug_command_tokens next_token command_of
  handle_debug_command_tokens-Safe [] t n = leaves (Safe-refl L text t)
  handle_debug_command_tokens-Safe (cmd ∷ []) t n = elim (set-cases (command_of (some cmd))) [
    | inl e ↦ rw e (leaves (Safe-refl L text t))
    | inr ne ↦ handle_command-Safe (command_of (some cmd)) (cmd ∷ []) 1 t ne
  ]
  handle_debug_command_tokens-Safe (cmd ∷ loc ∷ rest) t (inl ne) =
      handle_command-Safe (command_of (some cmd)) (cmd ∷ loc ∷ rest) 1 t ne
  handle_debug_command_tokens-Safe (cmd ∷ loc ∷ rest) t (inr named) =
      elim (set-cases (command_of (some cmd))) [
        | inl e ↦
            rw e (set_register-Leaves L text F cwd vars info load_address fuel cmd loc rest t named)
        | inr ne ↦ handle_command-Safe (command_of (some cmd)) (cmd ∷ loc ∷ rest) 1 t ne
      ]

  -- After `t`, with nothing to repeat that sets memory.
  abbrev SafeAfter : Target K H → Session → Type 0
  SafeAfter t dbg = Safe L text t dbg.target × SetNoMemoryBefore dbg.history.command

  repeat-Safe :
      (t : Target K H) (dbg : Session) (last : Option CString)
      → SafeAfter t dbg
      → SetNoMemoryBefore last
      → AllLeave (SafeAfter t) (
          execute_chosen F cwd vars info load_address fuel dbg
            (Option.map get_command_tokens last, dbg.history))
  repeat-Safe t dbg none (h, q) n = with_history-AllLeave dbg.history q (leaves h)
  repeat-Safe t dbg (some last) (h, q) n = with_history-AllLeave dbg.history q (
      Leaves-map (λ t'. Safe-trans L text h)
        (handle_debug_command_tokens-Safe (get_command_tokens last) dbg.target n))

  handle_debug_command-Safe :
      (t : Target K H) (dbg : Session) (line : CString)
      → SetsNoMemory (get_command_tokens line)
      → SafeAfter t dbg
      → AllLeave (SafeAfter t) (handle_debug_command F cwd vars info load_address fuel dbg line)
  unfolding handle_debug_command save_command
  handle_debug_command-Safe t dbg line n (h, q) = elim (Tokens-cases (get_command_tokens line)) [
    | inl e ↦
        rw (choose_command_blank dbg.history line e, handle_debug_command)
          (repeat-Safe t dbg dbg.history.command (h, q) q)
    | inr (token, tokens, e) ↦
        rw (choose_command_token dbg.history line token tokens e, handle_debug_command)
          (with_history-AllLeave (save_command dbg.history line) n (
            Leaves-map (λ t'. Safe-trans L text h)
              (handle_debug_command_tokens-Safe (token ∷ tokens) dbg.target
                (subst SetsNoMemory e n))))
  ]

  run_lines-Safe :
      (lines : List CString) (t : Target K H) (dbg : Session)
      → AllSetNoMemory lines
      → SafeAfter t dbg
      → AllLeave (SafeAfter t) (run_lines F cwd vars info load_address fuel lines dbg)
  unfolding run_lines
  run_lines-Safe [] t dbg n h = all_leave h
  run_lines-Safe (line ∷ lines) t dbg (n, ns) h =
      then_lines-AllLeave (handle_debug_command-Safe t dbg line n h)
        (λ dbg' h'. run_lines-Safe lines t dbg' ns h')

  take_commands-Safe :
      (lines : List CString) (t : Target K H) (dbg : Session)
      → AllSetNoMemory lines
      → SafeAfter t dbg
      → AllLeave (SafeAfter t) (take_commands F cwd vars info load_address fuel lines dbg)
  unfolding take_commands
  take_commands-Safe lines t dbg n h =
      with_replies-AllLeave (print_current_source info load_address dbg.target ∷ [])
        (run_lines-Safe lines t dbg n h)

  at_main-Safe :
      (lines : List CString) (t : Target K H) (dbg : Session) (addr : ℕ) {r : Run}
      → AllSetNoMemory lines
      → SetNoMemoryBefore dbg.history.command
      → Every (Safe L text t) r
      → AllLeave (SafeAfter t) (at_main F cwd vars info load_address fuel lines dbg addr r)
  at_main-Safe lines t dbg addr n q open_ended = all_unknown
  at_main-Safe lines t dbg addr n q (ends {res = sp_err} h) = all_leave (h, q)
  at_main-Safe lines t dbg addr n q (ends {res = sp_ok} {t = t'} h) =
      take_commands-Safe lines t (with_target dbg (disable_breakpoint t' addr).1) n
        (Safe-trans L text h (disable_breakpoint-Safe L text t' addr), q)

  -- A session of lines that are not the command set, except for a register or with nothing behind it,
  -- from a history without another such command, keeps the program's text, also where lines are empty
  -- and repeat a command: where the tracee does not write to it itself, each breakpoint in force in it
  -- has its trap at the end if that was so at the start, each breakpoint in force has a saved byte,
  -- and the program's own bytes are the same; and the history is without such a command again.
  pub run_debugger-Safe :
      (lines : List CString) (dbg : Session)
      → AllSetNoMemory lines
      → SetNoMemoryBefore dbg.history.command
      → AllLeave
          (λ dbg'. Safe L text dbg.target dbg'.target × SetNoMemoryBefore dbg'.history.command)
          (run_debugger F cwd vars info load_address fuel lines dbg)
  unfolding run_debugger
  run_debugger-Safe lines dbg n q = elim (Option-cases (sym_by_name (bytes "main") info)) [
    | inl lost ↦ rw (lost, run_debugger) (all_leave (Safe-refl L text dbg.target, q))
    | inr (main, e) ↦ elim (Option-cases (function_start_addr main info)) [
      | inl lost ↦
          rw (e, run_debugger, lost)
            (take_commands-Safe lines dbg.target dbg n (Safe-refl L text dbg.target, q))
      | inr (start_main, k) ↦
          rw (e, run_debugger, k)
            (at_main-Safe lines dbg.target dbg _ n q (
              Every-after (Safe-IsStable L text T)
                (enable_breakpoint-Safe L text dbg.target (dbg_to_real load_address start_main))
                (continue-Safe _)))
    ]
  ]
