-- ===== src/Commands/SessionTests.antt =====
-- A short session on the sample process: a run, and the theorem at it.
use spray.Base.{
  inl, inr, ◌≡◌, ◌≢◌, refl, Bool, true, false, none, some, List, [], ◌∷◌, CString, bytes, eq_bytes,
  length,
}
use spray.Magic.{str_eq, dbg_to_real}
use spray.Sample.{machine, machine-IsPtrace, table}
use spray.History.{init_history}
use spray.Stepping.Safety.{Safe}
use spray.Stepping.SampleText.{text, machine-KeepsText}
use spray.Commands.{get_command_tokens, read_tokens, end_token, is_delim, next_token, is_command}
use spray.Commands.Dispatch.{Command, cmd_set, command_of, Session}
use spray.Info.{is_dyn_exec}
use spray.Commands.LoadAddress.{init_load_address, getdelim, up_to_delim}
use spray.Commands.Session.{run_debugger}
use spray.Commands.Leaves.{SetNoMemoryBefore, AllSetNoMemory, AllLeave}
use spray.Commands.Unharmed.{run_debugger-Safe}
use spray.Commands.DispatchTests.{floats, variables, info, start}
use spray.Commands.Session.{run_lines, take_commands}
use spray.Commands.Dispatch.{
  handle_debug_command, handle_debug_command_tokens, handle_command, print_subject,
}
use spray.Commands.{choose_command, end_of_tokens, parse_filter, default_filter}
use spray.History.{save_command, read_command}
use spray.Commands.Resume.{print_current_source, exec_break, exec_delete, exec_continue}
use spray.Info.{sym_by_name, function_start_addr, sym_by_addr}
use spray.Stepping.{
  is_user_breakpoint, then_run, get_pc, get_dbg_pc, set_pc, step_tracee, single_step_breakpoint,
  resume, continue_execution, handle_sigtrap, handle_stop, wait_for_signal, wait_status,
}
use spray.Elf.Symbols.{
  se_symbol_from_name, symbol_has_name, se_symbol_type, se_symbol_from_addr, se_symbol_start_addr,
  se_symbol_end_addr, se_symbol_name, symbol, n_symbols, search_symbols, symbol_has_addr,
}
use spray.Breakpoints.{
  init_breakpoints, enable_breakpoint, disable_breakpoint, ensure_breakpoint, get_breakpoint,
  enable_entry, disable_entry, patch, lookup_breakpoint, breakpoint_compare,
}
use spray.Ptrace.{
  pt_read_memory, pt_write_memory, pt_read_registers, pt_write_registers, pt_continue_execution,
  pt_get_signal_info,
}
use spray.Registers.{get_register_from_name, get_register_value, set_register_value}
use spray.Magic.{real_to_dbg}
use spray.Elf.{shdr_at, symtab_at, string_at}
use spray.Commands.Arguments.{
  read_print, read_location, read_filter, read_value, read_subject, is_filter_delim,
}
use spray.Magic.Format.{parse_format_str}
use spray.Commands.Place.{parse_break_location, is_valid_identifier, all_of}
use spray.Number.{
  parse_base16, parse_base10, parse_num, strtol, scan, skip_prefix, read_sign, skip_space,
}

abbrev dbg : Session
dbg = record { target = start; history = init_history }

abbrev lines : List CString
lines = bytes "break 0x10" ∷ bytes "continue" ∷ [] ∷ bytes "set %rax 7" ∷ bytes "delete 0x10" ∷ []

abbrev is_set : Command → Bool
is_set cmd_set = true
is_set _ = false

other_command : (c : Command) → is_set c ≡ false → c ≢ cmd_set
other_command c h e = let k : is_set c ≡ true = rw e refl in cc

no_memory_set : AllSetNoMemory lines
unfolding get_command_tokens read_tokens end_token is_delim next_token command_of is_command str_eq
    eq_bytes
no_memory_set =
    (inl (other_command _ refl), (tt, (tt, (inr refl, (inl (other_command _ refl), tt)))))

run_debugger-Safe_example :
    AllLeave
      (λ dbg'.
        Safe machine-IsPtrace text start dbg'.target × SetNoMemoryBefore dbg'.history.command)
      (run_debugger floats none variables info 0 2 lines dbg)
unfolding init_history
run_debugger-Safe_example =
    run_debugger-Safe machine-IsPtrace text machine-KeepsText floats none variables info 0 2 lines
      dbg no_memory_set tt

-- What the session says: where it stands, twice where it stopped, and the register.
run_session :
    elim (run_debugger floats none variables info 0 2 lines dbg) [
      | none ↦ none
      | some (replies, dbg') ↦ some (length replies)
    ]
    ≡ some 4
unfolding dbg_to_real run_debugger run_lines take_commands handle_debug_command choose_command
    init_history save_command read_command print_current_source exec_break exec_delete exec_continue
    sym_by_name function_start_addr is_user_breakpoint se_symbol_from_name symbol_has_name
    se_symbol_type init_breakpoints enable_breakpoint disable_breakpoint ensure_breakpoint
    get_breakpoint enable_entry disable_entry patch pt_read_memory pt_write_memory lookup_breakpoint
    breakpoint_compare pt_read_registers pt_write_registers pt_continue_execution pt_get_signal_info
    get_register_value set_register_value then_run get_pc get_dbg_pc set_pc step_tracee
    single_step_breakpoint resume continue_execution handle_sigtrap handle_stop wait_for_signal
    wait_status real_to_dbg shdr_at symtab_at string_at se_symbol_from_addr se_symbol_start_addr
    se_symbol_end_addr se_symbol_name symbol n_symbols search_symbols symbol_has_addr sym_by_addr
    handle_debug_command_tokens handle_command command_of get_command_tokens read_tokens end_token
    is_delim next_token end_of_tokens is_command str_eq eq_bytes read_print read_location
    read_filter read_value read_subject is_filter_delim parse_filter default_filter parse_format_str
    parse_break_location is_valid_identifier all_of parse_base16 parse_base10 parse_num strtol scan
    skip_prefix read_sign skip_space print_subject get_register_from_name
run_session = refl

-- The delimiter is read with the address of a position-independent executable, which is not parsed then.
run_load_address :
    init_load_address info (some (bytes "555555554000-555555556000 r--p"))
      ∷ parse_base16 (bytes "555555554000")
      ∷ []
    ≡ none ∷ some 0x555555554000 ∷ []
unfolding init_load_address is_dyn_exec getdelim up_to_delim parse_base16 parse_num strtol scan
    skip_prefix read_sign skip_space
run_load_address = refl
