-- ===== src/Backtrace/Tests.antt =====
-- Two stacks: runs, and the theorems at them.
use spray.Base.{ℕ, ◌≡◌, refl, some, none, [], ◌∷◌, arith, ◌==◌, if◌then◌else◌}
use spray.Ptrace.{pt_read_memory, pt_read_registers}
use spray.Sample.{Machine, machine}
use spray.Registers.{rbp, get_register_value}
use spray.Elf.Image.{elf}
use spray.Info.{DebugInfo}
use spray.Backtrace.{call_location, init_backtrace}
use spray.Backtrace.Chain.{
  Link, IsChain, outermost, link, frames_of, init_backtrace_lem, init_backtrace-cycle,
}

abbrev info : DebugInfo
info = record {
  elf = elf;
  dbg = record {
    filepath_from_pc = λ pc. none;
    line_table = λ f. none;
    subprog_pc_range = λ name. none;
    filepaths = [];
  };
}

-- The word at 0x7000 is the saved frame pointer, that at 0x7008 the return address 0x1125.
abbrev stack : ℕ → Machine
stack saved_byte = record {
  mem = λ b.
      if b == 0x7001
      then saved_byte
      else if b == 0x7008
      then 0x25
      else if b == 0x7009
      then 0x11
      else 0;
  regs =
      0 ∷ 0 ∷ 0 ∷ 0 ∷ 0x7000 ∷ 0 ∷ 0 ∷ 0 ∷ 0 ∷ 0 ∷ 0 ∷ 0 ∷ 0 ∷ 0 ∷ 0 ∷ 0 ∷ 0x1105 ∷ 0 ∷ 0 ∷ 0 ∷ 0
      ∷ 0 ∷ 0 ∷ 0 ∷ 0 ∷ 0 ∷ 0 ∷ [];
  statuses = [];
  code = 0x80;
}

abbrev caller : Link
caller = record { return_address = 0x1125; saved = 0 }

stack-rbp : (b : ℕ) → get_register_value (stack b) rbp ≡ some 0x7000
unfolding get_register_value pt_read_registers
stack-rbp b = refl

saved_word : pt_read_memory (stack 0) 0x7000 ≡ some 0
unfolding pt_read_memory
saved_word = refl

return_word : (b : ℕ) → pt_read_memory (stack b) 0x7008 ≡ some 0x1125
unfolding pt_read_memory
return_word b = refl

own_word : pt_read_memory (stack 0x70) 0x7000 ≡ some 0x7000
unfolding pt_read_memory
own_word = refl

stack-IsChain : IsChain (stack 0) 0x7000 (caller ∷ [])
stack-IsChain = link caller (omega arith) (return_word 0) saved_word outermost

init_backtrace_lem_example :
    init_backtrace 2 0x1105 (stack 0) info
    ≡ some (some (frames_of (stack 0) info (caller ∷ []) (call_location info 0x1105 0x7000 ∷ [])))
init_backtrace_lem_example =
    init_backtrace_lem (stack 0) info 0x1105 0x7000 (caller ∷ []) (stack-rbp 0) stack-IsChain

init_backtrace-cycle_example : init_backtrace 1000 0x1105 (stack 0x70) info ≡ none
init_backtrace-cycle_example =
    init_backtrace-cycle (stack 0x70) 1000 info 0x1105 0x7000 0x1125 (stack-rbp 0x70) (omega arith)
      (return_word 0x70) own_word
