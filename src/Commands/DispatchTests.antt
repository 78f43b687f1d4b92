-- ===== src/Commands/DispatchTests.antt =====
-- Some command lines on the sample process: what is said, and the theorems at some.
use spray.Base.{
  arith, ◌%◌, ◌≡◌, ◌⊎◌, refl, Option, none, some, List, [], ◌∷◌, CString, bytes, map, eq_bytes,
}
use spray.Ptrace.{pt_read_registers, pt_write_registers}
use spray.Magic.{real_to_dbg}
use spray.Stepping.{get_pc}
use spray.Sample.{Machine, machine, machine-IsPtrace, table}
use spray.Breakpoints.{Target, init_breakpoints}
use spray.Value.{Floats}
use spray.Variable.Loclist.{init_var}
use spray.DieSample.{sample}
use spray.Elf.Image.{elf}
use spray.Info.{DebugInfo}
use spray.Commands.Handlers.{
  Reply, exec_set_memory, VariableSource, repl_err, trailing_characters, unknown_command,
  invalid_filter, missing_value, no_variable, value_shown, reg_read_confirm, mem_read_confirm,
}
use spray.Magic.{str_eq}
use spray.Magic.Format.{fmt_dec, parse_format_str}
use spray.Number.{
  parse_base16, parse_base10, parse_num, strtol, scan, skip_prefix, read_sign, skip_space,
}
use spray.Registers.{get_register_from_name}
use spray.Commands.{
  pf, get_command_tokens, read_tokens, end_token, is_delim, next_token, end_of_tokens, is_command,
  parse_filter, default_filter,
}
use spray.Commands.Place.{parse_break_location, is_valid_identifier, all_of}
use spray.Commands.Arguments.{
  read_print, read_set, read_location, read_filter, read_value, read_subject, is_filter_delim,
}
use spray.Commands.Dispatch.{
  handle_debug_command_tokens, handle_command, command_of, print_subject, set_subject,
}
use spray.Commands.SetMemory.{MemorySet, exec_set_memory_lem}
use spray.Commands.Rejected.{WellFormed, IsRejected, handle_debug_command_tokens-rejects}

-- The unit of the sample, without a line table.
abbrev pub info : DebugInfo
info = record {
  elf = elf;
  dbg = record {
    filepath_from_pc = λ pc. none;
    line_table = λ f. none;
    subprog_pc_range = λ name. none;
    filepaths = [];
  };
}

abbrev program : Machine
program = record {
  mem = λ b. b % 251;
  regs =
      0 ∷ 0 ∷ 0 ∷ 0 ∷ 0x7000 ∷ 0 ∷ 0 ∷ 0 ∷ 0 ∷ 0 ∷ 0 ∷ 0 ∷ 0 ∷ 0 ∷ 0 ∷ 0 ∷ 0x14 ∷ 0 ∷ 0 ∷ 0 ∷ 0 ∷ 0
      ∷ 0 ∷ 0 ∷ 0 ∷ 0 ∷ 0 ∷ [];
  statuses = [];
  code = 0x80;
}

abbrev pub start : Target machine table
start = init_breakpoints program

abbrev pub floats : Floats
floats = record { print_float = λ w. []; print_double = λ w. []; print_long_double = λ w. [] }

-- `init_var` on the sample of debug information.
abbrev pub variables : VariableSource ⦃K = machine⦄
variables = record {
  find_var = λ s pc name.
      init_var 1 3 9 3 0
        (record { pc = pc; load_address = 0; elf = info.elf; sys = s; frame_base = λ name. none })
        name;
}

abbrev delete_x : List CString
delete_x = bytes "delete" ∷ bytes "0x10" ∷ bytes "x" ∷ []

handle_debug_command_tokens-rejects_example :
    WellFormed info delete_x
    ⊎ IsRejected start (handle_debug_command_tokens floats none variables info 0 1 delete_x start)
handle_debug_command_tokens-rejects_example =
    handle_debug_command_tokens-rejects floats none variables info 0 1 delete_x start

-- What is said for lines that are not well-formed, and for a register, a word of memory and a variable
-- that are set.
abbrev said : CString → Option (List Reply)
unfolding handle_debug_command_tokens handle_command command_of get_command_tokens read_tokens
    end_token is_delim next_token end_of_tokens is_command str_eq eq_bytes read_print read_set
    read_location read_filter read_value read_subject is_filter_delim parse_filter default_filter
    parse_format_str parse_break_location is_valid_identifier all_of parse_base16 parse_base10
    parse_num strtol scan skip_prefix read_sign skip_space get_register_from_name print_subject
    set_subject
said line =
    elim (handle_debug_command_tokens floats none variables info 0 1 (get_command_tokens line)
      start) [ none ↦ none | some (replies, t) ↦ some replies ]

run_rejected :
    map said (
      bytes "go"
      ∷ bytes "inst 1"
      ∷ bytes "delete 0x10 x"
      ∷ bytes "print %rip |"
      ∷ bytes "print %rdx | bin"
      ∷ bytes "set 0x10"
      ∷ [])
    ≡ map
        (λ m. some (repl_err m ∷ []))
        (unknown_command ∷ trailing_characters ∷ trailing_characters ∷ invalid_filter
          ∷ invalid_filter ∷ missing_value ∷ [])
unfolding said
run_rejected = refl

-- A register and a word of memory that are set and read back, and a variable that no function has.
run_executed :
    map said
      (bytes "set %rax 7 | dec" ∷ bytes "set 0x10 0x41 | dec" ∷ bytes "p y" ∷ bytes "p g * x" ∷ [])
    ≡ some (value_shown reg_read_confirm (bytes "7") (some (bytes "rax")) ∷ [])
      ∷ some (value_shown mem_read_confirm (bytes "65") none ∷ [])
      ∷ some (repl_err (no_variable (bytes "y")) ∷ [])
      ∷ some (repl_err trailing_characters ∷ [])
      ∷ []
unfolding said pt_read_registers pt_write_registers init_breakpoints init_var real_to_dbg get_pc
run_executed = refl

exec_set_memory_lem_example :
    MemorySet machine-IsPtrace floats none program 0x10 0x41 fmt_dec
      (exec_set_memory floats none program 0x10 0x41 (pf fmt_dec))
exec_set_memory_lem_example =
    exec_set_memory_lem machine-IsPtrace floats none program 0x10 0x41 fmt_dec (omega arith)
