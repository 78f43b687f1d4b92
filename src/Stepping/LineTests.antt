-- ===== src/Stepping/LineTests.antt =====
-- Stepping by lines in a small program: runs, and the theorems at them.
use spray.Base.{
  ℕ, ◌%◌, ◌≡◌, refl, Bool, true, false, Option, none, some, List, [], ◌∷◌, map, arith, bytes,
}
use spray.Magic.{SprayResult, sp_ok, real_to_dbg}
use spray.Ptrace.{
  pt_read_memory, pt_write_memory, pt_read_registers, pt_write_registers, pt_single_step,
  pt_continue_execution, pt_get_signal_info,
}
use spray.Sample.{Machine, machine, machine-IsPtrace, table}
use spray.Registers.{get_register_value, set_register_value}
use spray.Breakpoints.{
  Target, init_breakpoints, get_breakpoint, lookup_breakpoint, ensure_breakpoint, enable_entry,
  enable_breakpoint, disable_entry, disable_breakpoint, patch, breakpoint_compare,
}
use spray.Elf.{shdr_at, symtab_at, string_at}
use spray.Elf.Image.{elf}
use spray.Elf.Symbols.{
  se_symbol_from_addr, se_symbol_start_addr, se_symbol_end_addr, se_symbol_name, symbol, n_symbols,
  search_symbols, symbol_has_addr,
}
use spray.LineTable.{
  LineEntry, sd_line_entry_from_pc, entry_from_table, find_exact, get_line_table_index_of_pc,
  count_while, next_is_above, sd_for_each_line, visit_lines, drop_lines,
}
use spray.Info.{
  DebugInfo, Position, sym_by_addr, sym_addr, sym_start_addr, sym_position, sym_filepath, sym_name,
  addr_position,
}
use spray.Stepping.{
  Run, then_run, get_pc, get_dbg_pc, set_pc, step_tracee, single_step_breakpoint, resume,
  continue_execution, handle_sigtrap, handle_stop, wait_for_signal, wait_status,
  single_step_instruction, return_address, set_return_address_breakpoint, remove_transient,
  continue_and_wait,
}
use spray.Stepping.Lines.{
  after_step, step_lines, single_step_line, callback__set_dwarf_line_breakpoint,
  set_step_over_breakpoints, delete_breakpoints, step_over, position_here,
}
use spray.Stepping.Stable.{Every}
use spray.Breakpoints.Restore.{init_breakpoints-IsPatched}
use spray.Stepping.Access.{IsMapped}
use spray.Stepping.Restored.{SameBreakpoints}
use spray.Stepping.Users.{step_over-SameBreakpoints}
use spray.Stepping.Termination.{Finishes, AtMost}
use spray.Stepping.Loops.{OnNewLine, single_step_line-Finishes, single_step_line-OnNewLine}
use spray.Stepping.Tests.{access, machine-IsSteady}
use spray.Stepping.Resized.{resized, IsRunning, winches_left, resized-IsQuiet}

abbrev line : (ln addr : ℕ) → LineEntry
line ln addr = record {
  is_ok = true;
  new_statement = true;
  prologue_end = false;
  is_exact = false;
  ln = ln;
  cl = 1;
  addr = addr;
}

-- The function `main` from 0x1100 to 0x1120, loaded at 0.
abbrev info : DebugInfo
info = record {
  elf = elf;
  dbg = record {
    filepath_from_pc = λ pc. some (bytes "main.c");
    line_table = λ f. some (line 3 0x1100 ∷ line 4 0x1103 ∷ line 6 0x1110 ∷ []);
    subprog_pc_range = λ name. some (record { lowpc = 0x1100; highpc = 0x1120 });
    filepaths = bytes "main.c" ∷ [];
  };
}

abbrev program : Machine
program = record {
  mem = λ b. b % 251;
  regs =
      0 ∷ 0 ∷ 0 ∷ 0 ∷ 0x7000 ∷ 0 ∷ 0 ∷ 0 ∷ 0 ∷ 0 ∷ 0 ∷ 0 ∷ 0 ∷ 0 ∷ 0 ∷ 0 ∷ 0x1100 ∷ 0 ∷ 0 ∷ 0 ∷ 0
      ∷ 0 ∷ 0 ∷ 0 ∷ 0 ∷ 0 ∷ 0 ∷ [];
  statuses = [];
  code = 0x80;
}

abbrev start : Target machine table
start = init_breakpoints program

abbrev summary : Run → Option (SprayResult × ℕ × List Bool)
summary none = none
summary (some (res, t)) = some (res, get_pc t, map (lookup_breakpoint t) (0x1103 ∷ 0x1110 ∷ []))

-- The runs with all that they call. The breakpoint at 0x1103 is the user's.
abbrev stepping : List (Option (SprayResult × ℕ × List Bool))
unfolding init_breakpoints enable_breakpoint disable_breakpoint ensure_breakpoint get_breakpoint
    enable_entry disable_entry patch pt_read_memory pt_write_memory lookup_breakpoint
    breakpoint_compare pt_read_registers pt_write_registers pt_single_step pt_continue_execution
    pt_get_signal_info get_register_value set_register_value then_run get_pc get_dbg_pc set_pc
    step_tracee single_step_breakpoint resume continue_execution handle_sigtrap handle_stop
    wait_for_signal wait_status single_step_instruction return_address set_return_address_breakpoint
    remove_transient continue_and_wait after_step step_lines single_step_line
    callback__set_dwarf_line_breakpoint set_step_over_breakpoints delete_breakpoints step_over
    real_to_dbg shdr_at symtab_at string_at se_symbol_from_addr se_symbol_start_addr
    se_symbol_end_addr se_symbol_name symbol n_symbols search_symbols symbol_has_addr
    sd_line_entry_from_pc entry_from_table find_exact get_line_table_index_of_pc count_while
    next_is_above sd_for_each_line visit_lines drop_lines sym_by_addr sym_addr sym_start_addr
    sym_position sym_filepath sym_name addr_position
stepping =
    summary (single_step_line info 0 1 start)
    ∷ summary (step_over info 0 2 (enable_breakpoint start 0x1103).1)
    ∷ []

run_stepping :
    stepping
    ≡ some (sp_ok, 0x1103, false ∷ false ∷ []) ∷ some (sp_ok, 0x10ff, true ∷ false ∷ []) ∷ []
unfolding stepping
run_stepping = refl

lookup-start : (b : ℕ) → lookup_breakpoint start b ≡ false
unfolding lookup_breakpoint get_breakpoint init_breakpoints
lookup-start b = refl

start-IsMapped : IsMapped access machine-IsSteady start
start-IsMapped = record {
  mapped = λ b h. ground (arith, lookup-start b);
  small = (init_breakpoints-IsPatched machine-IsPtrace program).small;
}

step_over-SameBreakpoints_example :
    Every
      (SameBreakpoints machine-IsPtrace access machine-IsSteady start)
      (step_over info 0 2 start)
step_over-SameBreakpoints_example =
    step_over-SameBreakpoints machine-IsPtrace access machine-IsSteady info 0 2 start start-IsMapped

-- The same program, in a terminal that is resized twice.
abbrev resizing : Target resized table
resizing =
    init_breakpoints ⦃K = resized⦄
      (record { tracee = program; running = false; winches = 2; signal = 5 })

single_step_line-Finishes_example :
    Finishes ⦃K = resized⦄
      (AtMost ⦃K = resized⦄ IsRunning winches_left resized-IsQuiet 2)
      (single_step_line ⦃K = resized⦄ info 0 3 resizing)
unfolding init_breakpoints
single_step_line-Finishes_example =
    single_step_line-Finishes ⦃K = resized⦄ IsRunning winches_left resized-IsQuiet info 0 3 resizing
      (omega arith)

-- Three instructions further.
abbrev stepped : Target machine table
stepped = record start {
  sys = record program {
    regs =
        0 ∷ 0 ∷ 0 ∷ 0 ∷ 0x7000 ∷ 0 ∷ 0 ∷ 0 ∷ 0 ∷ 0 ∷ 0 ∷ 0 ∷ 0 ∷ 0 ∷ 0 ∷ 0 ∷ 0x1103 ∷ 0 ∷ 0 ∷ 0 ∷ 0
        ∷ 0 ∷ 0 ∷ 0 ∷ 0 ∷ 0 ∷ 0 ∷ [];
    code = 2;
  };
}

abbrev here : Position
here = record { line = 3; column = 1; is_exact = true }

start-here : position_here info 0 1 start ≡ some here
unfolding stepping
start-here = refl

start-stepped : single_step_line info 0 1 start ≡ some (sp_ok, stepped)
unfolding stepping
start-stepped = refl

single_step_line-OnNewLine_example : OnNewLine info 0 1 3 stepped
single_step_line-OnNewLine_example =
    single_step_line-OnNewLine info 0 1 start stepped here start-here start-stepped
