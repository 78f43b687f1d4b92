-- ===== src/Location/Stack.antt =====
-- The evaluation stack of src/spray_dwarf.c stays inside its buffer.
use spray.Base.{
  ℕ, ◌-◌, ◌<◌, ◌≡◌, refl, ◌&&◌, some, arith, leb, ◌==◌, ==_refl, Bool-cases, Option-cases, inl, inr,
}
use spray.Ptrace.{Ptrace}
use spray.Registers.{dwarf_regnum_to_x86_reg, get_register_value}
use spray.Elf.Symbols.{se_symbol_from_addr, se_symbol_name}
use spray.Location.{
  SdLocation, loc_addr, loc_reg, LocEvalStack, push_eval_stack, pop_eval_stack, SdOperation,
  SdLoclist, LocResult, failed, located, unset, no_fuel, OpResult, op_err, op_ok, op_unset,
  op_no_fuel, SdLocEvalCtx, add_to_base, sd_eval_op_fbreg, sd_eval_op_regn, sd_eval_op_addr,
  sd_eval_locop,
}

-- The next free element is one of the buffer.
abbrev pub IsFit : LocEvalStack → Type 0
IsFit stack = stack.sp < stack.n_alloc

pub push_eval_stack-IsFit :
    (stack : LocEvalStack) (x : SdLocation) → IsFit stack → IsFit (push_eval_stack stack x)
unfolding push_eval_stack
push_eval_stack-IsFit stack x h = ground arith

-- The same stack: the same size, and the same elements in use.
pub record SameStack (s t : LocEvalStack) : Type 0 where
  pub same_sp : t.sp ≡ s.sp
  pub same_elements : (i : ℕ) → i < s.sp → t.buf i ≡ s.buf i

-- A push writes inside the buffer and leaves room for the next one, and a pop gives back what was pushed
-- and the stack below it.
pop-push :
    (stack : LocEvalStack) (x : SdLocation)
    → IsFit stack
    → (t : LocEvalStack) × (pop_eval_stack (push_eval_stack stack x) ≡ some (x, t))
      × SameStack stack t
      × IsFit (push_eval_stack stack x)
      × IsFit t
unfolding pop_eval_stack push_eval_stack
pop-push stack x h =
    let fit = push_eval_stack-IsFit stack x h in
    (
      record (push_eval_stack stack x) { sp = stack.sp },
      rw (==_refl stack.sp),
      record { same_sp = refl; same_elements = λ i l. ground arith },
      fit,
      omega (arith, fit),
    )

-- What an operation leaves, where it succeeds, is a stack inside its buffer.
pub data Fits : OpResult → Type 0 where
  fits : {stack : LocEvalStack} → IsFit stack → Fits (op_ok stack)
  no_stack : Fits op_err
  undefined : Fits op_unset
  unfinished : Fits op_no_fuel

module _ ⦃K : Ptrace⦄ (eval : SdLoclist → LocResult) (ctx : SdLocEvalCtx) (op : SdOperation)
    (stack : LocEvalStack) (h : IsFit stack) where
  add_to_base-Fits : (r : LocResult) → Fits (add_to_base ctx op stack r)
  unfolding add_to_base
  add_to_base-Fits failed = no_stack
  add_to_base-Fits unset = undefined
  add_to_base-Fits no_fuel = unfinished
  add_to_base-Fits (located (loc_addr a)) = no_stack
  add_to_base-Fits (located (loc_reg reg)) = elim (Option-cases (get_register_value ctx.sys reg)) [
    | inl unread ↦ rw (unread, add_to_base) no_stack
    | inr (v, read) ↦ rw (read, add_to_base) (fits (push_eval_stack-IsFit stack _ h))
  ]

  sd_eval_op_fbreg-Fits : Fits (sd_eval_op_fbreg eval ctx op stack)
  unfolding sd_eval_op_fbreg
  sd_eval_op_fbreg-Fits = elim (Option-cases (se_symbol_from_addr ctx.pc ctx.elf)) [
    | inl missing ↦ rw (missing, sd_eval_op_fbreg) no_stack
    | inr (subprog, e) ↦ elim (Option-cases (ctx.frame_base (se_symbol_name subprog ctx.elf))) [
      | inl missing ↦ rw (e, sd_eval_op_fbreg) (rw missing no_stack)
      | inr (loclist, f) ↦ rw (e, sd_eval_op_fbreg) (rw f (add_to_base-Fits (eval loclist)))
    ]
  ]

  sd_eval_op_regn-Fits : Fits (sd_eval_op_regn op stack)
  unfolding sd_eval_op_regn
  sd_eval_op_regn-Fits = elim (Option-cases (dwarf_regnum_to_x86_reg (op.opcode - 0x50))) [
    | inl missing ↦ rw (missing, sd_eval_op_regn) no_stack
    | inr (reg, e) ↦ rw (e, sd_eval_op_regn) (fits (push_eval_stack-IsFit stack _ h))
  ]

  -- No operation leaves a stack that has outgrown its buffer, so that each push writes inside it.
  pub sd_eval_locop-Fits : Fits (sd_eval_locop eval ctx op stack)
  unfolding sd_eval_locop sd_eval_op_addr
  sd_eval_locop-Fits = elim (Bool-cases (leb 0x50 op.opcode && leb op.opcode 0x6f)) [
    | inl reg ↦ rw (reg, sd_eval_locop) sd_eval_op_regn-Fits
    | inr other ↦ elim (Bool-cases (op.opcode == 0x91)) [
      | inl fbreg ↦ rw (other, sd_eval_locop) (rw fbreg sd_eval_op_fbreg-Fits)
      | inr more ↦ elim (Bool-cases (op.opcode == 0x03)) [
        | inl addr ↦
            rw (other, sd_eval_locop) (rw more (rw addr (fits (push_eval_stack-IsFit stack _ h))))
        | inr none' ↦ rw (other, sd_eval_locop) (rw more (rw none' no_stack))
      ]
    ]
  ]
