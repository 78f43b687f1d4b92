-- ===== src/Location/Tests.antt =====
-- A variable of a stack frame: runs, and the theorems at it.
use spray.Base.{ℕ, ◌+◌, ◌-◌, ◌^◌, ◌%◌, ◌≡◌, refl, false, some, List, [], ◌∷◌, map, arith}
use spray.Magic.{dbg_to_real, word_mod}
use spray.Ptrace.{pt_read_registers}
use spray.Sample.{Machine, machine}
use spray.Registers.{rax, rbp, get_register_value, dwarf_regnum_to_x86_reg}
use spray.Elf.{Sym, shdr_at, symtab_at, string_at}
use spray.Elf.Image.{elf}
use spray.Elf.Symbols.{
  se_symbol_from_addr, se_symbol_name, se_symbol_start_addr, se_symbol_end_addr, symbol, n_symbols,
  search_symbols, symbol_has_addr,
}
use spray.Location.{
  loc_addr, loc_reg, SdLocdesc, SdLoclist, sd_init_loc_range, is_active_range, SdOperation,
  SdLocEvalCtx, LocResult, located, unset, failed, LocEvalStack, init_eval_stack, push_eval_stack,
  pop_eval_stack, find_expr, choose_expr, sd_eval_loclist, sd_eval_locexpr, eval_operations,
  sd_eval_locop, sd_eval_op_fbreg, sd_eval_op_regn, sd_eval_op_addr, add_to_base, top_of,
}
use spray.Location.Stack.{IsFit, Fits, sd_eval_locop-Fits}
use spray.Location.Chosen.{Chosen, choose_expr_lem}
use spray.Location.Frame.{everywhere, sd_eval_loclist-fbreg}

abbrev process : Machine
process = record {
  mem = λ b. 0;
  regs =
      0 ∷ 0 ∷ 0 ∷ 0 ∷ 0x7000 ∷ 0 ∷ 0 ∷ 0 ∷ 0 ∷ 0 ∷ 0 ∷ 0 ∷ 0 ∷ 0 ∷ 0 ∷ 0 ∷ 0x1105 ∷ 0 ∷ 0 ∷ 0 ∷ 0
      ∷ 0 ∷ 0 ∷ 0 ∷ 0 ∷ 0 ∷ 0 ∷ [];
  statuses = [];
  code = 0x80;
}

abbrev op : (opcode operand1 : ℕ) → SdOperation
op opcode operand1 = record { opcode = opcode; operand1 = operand1 }

abbrev desc : (lowpc highpc : ℕ) → List SdOperation → SdLocdesc
desc lowpc highpc operations = record {
  range = sd_init_loc_range false lowpc highpc;
  operations = operations;
}

abbrev minus_20 : ℕ
minus_20 = 2 ^ 64 - 20

-- DW_OP_reg6 is rbp.
abbrev rbp_list : SdLoclist
rbp_list = desc 0 0 (op 0x56 0 ∷ []) ∷ []

abbrev ctx : SdLocEvalCtx
ctx = record {
  pc = 0x1105;
  load_address = 0x40_0000;
  elf = elf;
  sys = process;
  frame_base = λ name. some rbp_list;
}

abbrev evaluated : List LocResult
unfolding sd_init_loc_range is_active_range init_eval_stack push_eval_stack pop_eval_stack find_expr
    choose_expr sd_eval_loclist sd_eval_locexpr eval_operations sd_eval_locop sd_eval_op_fbreg
    sd_eval_op_regn sd_eval_op_addr add_to_base top_of dbg_to_real pt_read_registers
    get_register_value dwarf_regnum_to_x86_reg shdr_at symtab_at string_at se_symbol_from_addr
    se_symbol_name se_symbol_start_addr se_symbol_end_addr symbol n_symbols search_symbols
    symbol_has_addr
evaluated = map (sd_eval_loclist 2 ctx) (
    (desc 0 0 (op 0x91 minus_20 ∷ []) ∷ [])
    ∷ (desc 0 0 (op 0x03 0x4010 ∷ []) ∷ desc 0x1100 0x1110 (op 0x50 0 ∷ []) ∷ [])
    ∷ (desc 0x1110 0x1120 (op 0x50 0 ∷ []) ∷ desc 0 0 (op 0x03 0x4010 ∷ []) ∷ [])
    ∷ []
    ∷ (desc 0 0 [] ∷ [])
    ∷ (desc 0 0 (op 0x30 0 ∷ []) ∷ [])
    ∷ [])

-- An expression without operations succeeds and stores nothing.
run_evaluated :
    evaluated
    ≡ located (loc_addr 0x6fec)
      ∷ located (loc_reg rax)
      ∷ located (loc_addr 0x40_4010)
      ∷ located (loc_addr 0)
      ∷ unset
      ∷ failed
      ∷ []
unfolding evaluated
run_evaluated = refl

abbrev main : Sym
main = record { st_name = 1; st_info = 0; st_other = 0; st_value = 0x1100; st_size = 0x20 }

main-found : se_symbol_from_addr 0x1105 elf ≡ some main
unfolding evaluated
main-found = refl

main-frame : some rbp_list ≡ some (everywhere ctx main rbp 6 0x7000 minus_20 (0x50 + 6) 0)
unfolding evaluated
main-frame = refl

rbp-number : dwarf_regnum_to_x86_reg 6 ≡ some rbp
unfolding evaluated
rbp-number = refl

rbp-value : get_register_value process rbp ≡ some 0x7000
unfolding evaluated
rbp-value = refl

sd_eval_loclist-fbreg_example :
    sd_eval_loclist 2 ctx (everywhere ctx main rbp 6 0x7000 minus_20 0x91 minus_20)
    ≡ located (loc_addr ((0x7000 + minus_20) % word_mod))
sd_eval_loclist-fbreg_example =
    sd_eval_loclist-fbreg ctx main rbp 6 0x7000 minus_20 0 main-found main-frame (omega arith)
      rbp-number rbp-value

abbrev full_block : LocEvalStack
full_block = record { buf = λ i. loc_addr i; sp = 31; n_alloc = 32 }

full_block-IsFit : IsFit full_block
full_block-IsFit = omega arith

sd_eval_locop-Fits_example :
    Fits (sd_eval_locop (sd_eval_loclist 1 ctx) ctx (op 0x91 minus_20) full_block)
sd_eval_locop-Fits_example =
    sd_eval_locop-Fits (sd_eval_loclist 1 ctx) ctx (op 0x91 minus_20) full_block full_block-IsFit

choose_expr_lem_example : Chosen 0x1105 rbp_list (choose_expr 0x1105 rbp_list)
choose_expr_lem_example = choose_expr_lem 0x1105 rbp_list
