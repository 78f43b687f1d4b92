-- ===== src/Commands/Dispatch.antt =====
-- src/debugger.c: which command is executed for a line, with which arguments. The variables come
-- from a `VariableSource`.
use spray.Base.{ℕ, Option, none, some, List, [], ◌∷◌, CString, bytes, if◌then◌else◌}
use spray.Magic.{dbg_to_real}
use spray.Ptrace.{Ptrace}
use spray.Registers.{get_register_from_name}
use spray.Breakpoints.{Table, Target}
use spray.Info.{DebugInfo}
use spray.Value.{Floats}
use spray.Stepping.{get_dbg_pc, with_sys}
use spray.Variable.Loclist.{InitVar}
use spray.History.{History}
use spray.Commands.{PrintFilter, next_token, end_of_tokens, is_command, choose_command}
use spray.Commands.Handlers.{
  Message, Reply, VariableSource, repl_err, name_conflict, trailing_characters, unknown_command,
  no_command_to_repeat, Replies, Executed, Handled, exec_print_memory, exec_set_memory,
  exec_print_register, exec_set_register, exec_print_variable, exec_set_variable, says_first,
}
use spray.Commands.Resume.{
  exec_break, exec_delete, exec_continue, exec_inst, exec_leave, exec_step, exec_next,
  exec_backtrace,
}
use spray.Commands.Arguments.{
  Argument, argument, rejected, Subject, a_register, a_variable, a_memory, read_print, read_set,
  read_location,
}

pub data Command : Type 0 where
  cmd_continue cmd_break cmd_delete cmd_print cmd_set cmd_inst cmd_leave : Command
  cmd_step cmd_next cmd_backtrace cmd_unknown : Command

unfoldable pub command_of : Option CString → Command
unfolding is_command
command_of cmd =
    if is_command cmd b'c' (bytes "continue")
    then cmd_continue
    else if is_command cmd b'b' (bytes "break")
    then cmd_break
    else if is_command cmd b'd' (bytes "delete")
    then cmd_delete
    else if is_command cmd b'p' (bytes "print")
    then cmd_print
    else if is_command cmd b't' (bytes "set")
    then cmd_set
    else if is_command cmd b'i' (bytes "inst")
    then cmd_inst
    else if is_command cmd b'l' (bytes "leave")
    then cmd_leave
    else if is_command cmd b's' (bytes "step")
    then cmd_step
    else if is_command cmd b'n' (bytes "next")
    then cmd_next
    else if is_command cmd b'a' (bytes "backtrace")
    then cmd_backtrace
    else cmd_unknown

unfoldable pub warn_register_name_conflict : CString → List Reply
warn_register_name_conflict ident = elim (get_register_from_name ident) [
  | none ↦ []
  | some reg ↦ name_conflict ident ∷ []
]

module _ ⦃K : Ptrace⦄ ⦃H : Table⦄ where
  abbrev pub unchanged : Target K H → Replies → Handled
  unchanged t none = none
  unchanged t (some replies) = some (replies, t)

  abbrev pub rejects : Target K H → Message → Handled
  rejects t m = some (repl_err m ∷ [], t)

  abbrev pub with_result : Target K H → Executed → Handled
  with_result t none = none
  with_result t (some (replies, s)) = some (replies, with_sys t s)

  abbrev pub on_location : ℕ → (Target K H → ℕ → Target K H) → Target K H → Argument ℕ → Handled
  on_location load_address f t (rejected m) = rejects t m
  on_location load_address f t (argument addr) = some ([], f t (dbg_to_real load_address addr))

  abbrev pub if_at_end : List CString → ℕ → Target K H → Handled → Handled
  if_at_end tokens i t run = if end_of_tokens tokens i then run else rejects t trailing_characters

  pub record Session : Type 0 where
    pub target : Target K H
    pub history : History

  abbrev pub with_history : History → Handled → Option (List Reply × Session)
  with_history history none = none
  with_history history (some (replies, t)) =
      some (replies, record { target = t; history = history })

module _ ⦃K : Ptrace⦄ ⦃H : Table⦄ (F : Floats) (cwd : Option CString) (vars : VariableSource)
    (info : DebugInfo) (load_address fuel : ℕ) where
  abbrev variable_here : Target K H → CString → InitVar
  variable_here t var_name = vars.find_var t.sys (get_dbg_pc load_address t) var_name

  unfoldable pub print_subject : Target K H → Subject → PrintFilter → Replies
  unfolding warn_register_name_conflict exec_print_register exec_print_variable exec_print_memory
      get_dbg_pc
  print_subject t (a_register reg reg_name) filter =
      exec_print_register F cwd t.sys reg reg_name filter
  print_subject t (a_variable var_name) filter =
      says_first (warn_register_name_conflict var_name)
        (exec_print_variable F cwd t.sys var_name (variable_here t var_name) filter)
  print_subject t (a_memory addr) filter = exec_print_memory F cwd t.sys addr filter

  unfoldable pub set_subject : Target K H → Subject → ℕ → PrintFilter → Executed
  unfolding exec_set_register exec_set_variable exec_set_memory get_dbg_pc
  set_subject t (a_register reg reg_name) value filter =
      exec_set_register F cwd t.sys reg reg_name value filter
  set_subject t (a_variable var_name) value filter =
      exec_set_variable F cwd t.sys var_name (variable_here t var_name) value filter
  set_subject t (a_memory addr) value filter = exec_set_memory F cwd t.sys addr value filter

  abbrev pub on_print : Target K H → Argument (Subject × PrintFilter) → Handled
  on_print t (rejected m) = rejects t m
  on_print t (argument (subject, filter)) = unchanged t (print_subject t subject filter)

  abbrev pub on_set : Target K H → Argument (Subject × ℕ × PrintFilter) → Handled
  on_set t (rejected m) = rejects t m
  on_set t (argument (subject, value, filter)) = with_result t (set_subject t subject value filter)

  -- The branches, for the tokens from `i` on.
  unfoldable pub handle_command : Command → List CString → ℕ → Target K H → Handled
  unfolding end_of_tokens read_location read_print read_set print_subject set_subject exec_break
      exec_delete exec_continue exec_inst exec_leave exec_step exec_next exec_backtrace
  handle_command cmd_continue tokens i t =
      if_at_end tokens i t (exec_continue info load_address fuel t)
  handle_command cmd_break tokens i t =
      on_location load_address (exec_break info load_address) t (read_location info tokens i)
  handle_command cmd_delete tokens i t =
      on_location load_address (exec_delete info load_address) t (read_location info tokens i)
  handle_command cmd_print tokens i t = on_print t (read_print tokens i)
  handle_command cmd_set tokens i t = on_set t (read_set tokens i)
  handle_command cmd_inst tokens i t = if_at_end tokens i t (exec_inst info load_address fuel t)
  handle_command cmd_leave tokens i t = if_at_end tokens i t (exec_leave info load_address fuel t)
  handle_command cmd_step tokens i t = if_at_end tokens i t (exec_step info load_address fuel t)
  handle_command cmd_next tokens i t = if_at_end tokens i t (exec_next info load_address fuel t)
  handle_command cmd_backtrace tokens i t = unchanged t (exec_backtrace info load_address fuel t)
  handle_command cmd_unknown tokens i t = rejects t unknown_command

  unfoldable pub handle_debug_command_tokens : List CString → Target K H → Handled
  unfolding next_token command_of handle_command
  handle_debug_command_tokens tokens t =
      let (cmd, i) = next_token tokens 0 in handle_command (command_of cmd) tokens i t

  -- What was chosen, with the history that is left.
  abbrev pub execute_chosen :
      Session → Option (List CString) × History → Option (List Reply × Session)
  execute_chosen dbg (none, history) =
      with_history history (rejects dbg.target no_command_to_repeat)
  execute_chosen dbg (some tokens, history) =
      with_history history (handle_debug_command_tokens tokens dbg.target)

  unfoldable pub handle_debug_command : Session → CString → Option (List Reply × Session)
  unfolding choose_command handle_debug_command_tokens
  handle_debug_command dbg line = execute_chosen dbg (choose_command dbg.history line)
