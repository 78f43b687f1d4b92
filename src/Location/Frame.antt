-- ===== src/Location/Frame.antt =====
-- Where src/spray_dwarf.c finds a variable of a stack frame.
use spray.Base.{ℕ, suc, ◌+◌, ◌-◌, ◌%◌, ◌<◌, ◌≡◌, refl, true, false, ◌&&◌, some, [], ◌∷◌, arith, leb}
use spray.Magic.{word_mod}
use spray.Ptrace.{Ptrace}
use spray.Registers.{X86Reg, dwarf_regnum_to_x86_reg, get_register_value}
use spray.Elf.{Sym}
use spray.Elf.Symbols.{se_symbol_from_addr, se_symbol_name}
use spray.Location.{
  SdLocRange, is_active_range, SdLoclist, find_expr, choose_expr, SdLocEvalCtx, LocResult, located,
  loc_addr, loc_reg, SdLocation, sd_eval_loclist, sd_eval_locexpr, eval_operations, sd_eval_locop,
  sd_eval_op_fbreg, sd_eval_op_regn, add_to_base, top_of, push_eval_stack, pop_eval_stack,
  init_eval_stack, op_ok, LocEvalStack,
}

module _ ⦃K : Ptrace⦄ (ctx : SdLocEvalCtx) (subprog : Sym) (reg : X86Reg)
    (regnum base offset : ℕ) where
  abbrev unbounded : SdLocRange
  unbounded = record { meaningful = false; lowpc = 0; highpc = 0 }

  -- A list of one operation that holds everywhere.
  abbrev pub everywhere : (opcode operand1 : ℕ) → SdLoclist
  everywhere opcode operand1 =
      record {
        range = unbounded;
        operations = record { opcode = opcode; operand1 = operand1 } ∷ [];
      }
      ∷ []

  choose-everywhere :
      (pc opcode operand1 : ℕ)
      → choose_expr pc (everywhere opcode operand1)
        ≡ some (record { opcode = opcode; operand1 = operand1 } ∷ [])
  unfolding choose_expr find_expr is_active_range
  choose-everywhere pc opcode operand1 = refl

  top-push : (x : SdLocation) → top_of (push_eval_stack init_eval_stack x) ≡ located x
  unfolding top_of pop_eval_stack push_eval_stack init_eval_stack
  top-push x = refl

  eval-single :
      (fuel opcode operand1 : ℕ) (x : SdLocation)
      → sd_eval_locop
          (sd_eval_loclist fuel ctx)
          ctx
          (record { opcode = opcode; operand1 = operand1 })
          init_eval_stack
        ≡ op_ok (push_eval_stack init_eval_stack x)
      → sd_eval_loclist (suc fuel) ctx (everywhere opcode operand1) ≡ located x
  unfolding sd_eval_loclist sd_eval_locexpr eval_operations
  eval-single fuel opcode operand1 x h =
      rw (choose-everywhere ctx.pc opcode operand1, sd_eval_loclist)
        (rw (h, sd_eval_locexpr, eval_operations) (top-push x))

  locop-regn :
      (eval : SdLoclist → LocResult) (stack : LocEvalStack)
      → regnum < 32
      → dwarf_regnum_to_x86_reg regnum ≡ some reg
      → sd_eval_locop eval ctx (record { opcode = 0x50 + regnum; operand1 = 0 }) stack
        ≡ op_ok (push_eval_stack stack (loc_reg reg))
  unfolding sd_eval_locop sd_eval_op_regn
  locop-regn eval stack small known =
      let inside : (leb 0x50 (0x50 + regnum) && leb (0x50 + regnum) 0x6f) ≡ true = ground arith in
      let number : 0x50 + regnum - 0x50 ≡ regnum = omega arith in
      rw (inside, sd_eval_locop) (rw (number, sd_eval_op_regn) (rw known))

  locop-fbreg :
      (eval : SdLoclist → LocResult) (stack : LocEvalStack) (loclist : SdLoclist)
      → se_symbol_from_addr ctx.pc ctx.elf ≡ some subprog
      → ctx.frame_base (se_symbol_name subprog ctx.elf) ≡ some loclist
      → eval loclist ≡ located (loc_reg reg)
      → get_register_value ctx.sys reg ≡ some base
      → sd_eval_locop eval ctx (record { opcode = 0x91; operand1 = offset }) stack
        ≡ op_ok (push_eval_stack stack (loc_addr ((base + offset) % word_mod)))
  unfolding sd_eval_locop sd_eval_op_fbreg add_to_base
  locop-fbreg eval stack loclist found frame at read =
      rw (found, sd_eval_locop, sd_eval_op_fbreg) (rw frame (rw (at, add_to_base) (rw read)))

  -- A variable at an offset (DW_OP_fbreg) from the frame base of its function, which is a register
  -- (DW_OP_reg0 and the following), is at the register's value plus the offset, on 64 bits.
  pub sd_eval_loclist-fbreg :
      (fuel : ℕ)
      → se_symbol_from_addr ctx.pc ctx.elf ≡ some subprog
      → ctx.frame_base (se_symbol_name subprog ctx.elf) ≡ some (everywhere (0x50 + regnum) 0)
      → regnum < 32
      → dwarf_regnum_to_x86_reg regnum ≡ some reg
      → get_register_value ctx.sys reg ≡ some base
      → sd_eval_loclist (suc (suc fuel)) ctx (everywhere 0x91 offset)
        ≡ located (loc_addr ((base + offset) % word_mod))
  sd_eval_loclist-fbreg fuel found frame small known read = eval-single (suc fuel) 0x91 offset _ (
      locop-fbreg (sd_eval_loclist (suc fuel) ctx) init_eval_stack _ found frame
        (eval-single fuel (0x50 + regnum) 0 (loc_reg reg)
          (locop-regn (sd_eval_loclist fuel ctx) init_eval_stack small known))
        read)
