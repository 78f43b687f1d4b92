-- ===== src/Location.antt =====
-- src/spray_dwarf.c: where a variable is at run time. The location lists come from libdwarf and are
-- data here; that of a function's frame base is looked up by the parameter `frame_base`.
pub mod Stack
pub mod Chosen
pub mod Frame
mod Tests
use spray.Base.{
  ℕ, zero, suc, ◌+◌, ◌-◌, ◌%◌, Bool, true, false, not, ◌&&◌, ◌||◌, Option, none, some, List, [],
  ◌∷◌, ltb, leb, ◌==◌, if◌then◌else◌,
}
use spray.Magic.{SprayResult, sp_ok, sp_err, word_mod, dbg_to_real}
use spray.Ptrace.{Ptrace}
use spray.Registers.{X86Reg, dwarf_regnum_to_x86_reg, get_register_value}
use spray.Elf.{ElfFile}
use spray.Elf.Symbols.{se_symbol_from_addr, se_symbol_name}

pub data SdLocation : Type 0 where
  loc_addr : ℕ → SdLocation
  loc_reg : X86Reg → SdLocation

pub record SdLocRange : Type 0 where
  pub meaningful : Bool
  pub lowpc : ℕ
  pub highpc : ℕ

unfoldable pub sd_init_loc_range : Bool → ℕ → ℕ → SdLocRange
sd_init_loc_range debug_addr_missing lowpc highpc =
    if debug_addr_missing || ((lowpc == 0) && (highpc == 0))
    then record { meaningful = false; lowpc = 0; highpc = 0 }
    else record { meaningful = true; lowpc = lowpc; highpc = highpc }

unfoldable pub is_active_range : SdLocRange → ℕ → Bool
is_active_range range pc =
    if not range.meaningful then false else leb range.lowpc pc && ltb pc range.highpc

abbrev pub loc_eval_stack_block : ℕ
loc_eval_stack_block = 32

-- The buffer as its elements by index; `n_alloc` of them are allocated.
pub record LocEvalStack : Type 0 where
  pub buf : ℕ → SdLocation
  pub sp : ℕ
  pub n_alloc : ℕ

-- The buffer is cleared by `calloc`.
unfoldable pub init_eval_stack : LocEvalStack
init_eval_stack = record { buf = λ i. loc_addr 0; sp = 0; n_alloc = loc_eval_stack_block }

-- `none` is `SP_ERR`, which leaves the stack as it was.
unfoldable pub pop_eval_stack : LocEvalStack → Option (SdLocation × LocEvalStack)
pop_eval_stack stack = elim stack.sp [
  | zero ↦ none
  | suc sp ↦ some (stack.buf sp, record stack { sp = sp })
]

unfoldable pub push_eval_stack : LocEvalStack → SdLocation → LocEvalStack
push_eval_stack stack push =
    let sp = suc stack.sp in
    record {
      buf = λ i. if i == stack.sp then push else stack.buf i;
      sp = sp;
      n_alloc =
          if leb stack.n_alloc sp then stack.n_alloc + loc_eval_stack_block else stack.n_alloc;
    }

-- The operand is a signed number, given by its bits.
pub record SdOperation : Type 0 where
  pub opcode : ℕ
  pub operand1 : ℕ

-- A location list: the range and the operations of each expression.
pub record SdLocdesc : Type 0 where
  pub range : SdLocRange
  pub operations : List SdOperation

abbrev pub SdLoclist : Type 0
SdLoclist = List SdLocdesc

-- The first expression whose range passes the test.
unfoldable pub find_expr : (SdLocRange → Bool) → SdLoclist → Option (List SdOperation)
find_expr test [] = none
find_expr test (desc ∷ loclist) =
    let rest = find_expr test loclist in if test desc.range then some desc.operations else rest

-- The expression that is evaluated: an active one, or else one that is always active.
unfoldable pub choose_expr : ℕ → SdLoclist → Option (List SdOperation)
choose_expr pc loclist = elim (find_expr (λ range. is_active_range range pc) loclist) [
  | some expr ↦ some expr
  | none ↦ find_expr (λ range. not range.meaningful) loclist
]

-- `SP_ERR`; or `SP_OK` with the location. `unset` is `SP_OK` with a location that nothing was stored in,
-- and `no_fuel` stands for a frame base that leads to itself too often.
pub data LocResult : Type 0 where
  failed : LocResult
  located : SdLocation → LocResult
  unset : LocResult
  no_fuel : LocResult

-- What an operation makes of the stack. `op_unset` stands for a step that depends on a location that
-- nothing was stored in.
pub data OpResult : Type 0 where
  op_err : OpResult
  op_ok : LocEvalStack → OpResult
  op_unset : OpResult
  op_no_fuel : OpResult

module _ ⦃K : Ptrace⦄ where
  pub record SdLocEvalCtx : Type 0 where
    pub pc : ℕ
    pub load_address : ℕ
    pub elf : ElfFile
    pub sys : K.Sys
    -- `sd_get_subprog_loc_attr` with DW_AT_frame_base, then `sd_init_loclist`, by the name of the
    -- function as its place in the file
    pub frame_base : ℕ → Option SdLoclist

  -- The part of `sd_eval_op_fbreg` that has the location of the frame base.
  unfoldable pub add_to_base : SdLocEvalCtx → SdOperation → LocEvalStack → LocResult → OpResult
  add_to_base ctx self stack failed = op_err
  add_to_base ctx self stack unset = op_unset
  add_to_base ctx self stack no_fuel = op_no_fuel
  add_to_base ctx self stack (located (loc_addr addr)) = op_err
  add_to_base ctx self stack (located (loc_reg reg)) = elim (get_register_value ctx.sys reg) [
    | none ↦ op_err
    | some base_addr ↦
        op_ok (push_eval_stack stack (loc_addr ((base_addr + self.operand1) % word_mod)))
  ]

  -- `eval` stands for `sd_eval_loclist`.
  unfoldable pub sd_eval_op_fbreg :
      (eval : SdLoclist → LocResult) → SdLocEvalCtx → SdOperation → LocEvalStack → OpResult
  sd_eval_op_fbreg eval ctx self stack = elim (se_symbol_from_addr ctx.pc ctx.elf) [
    | none ↦ op_err
    | some subprog ↦ elim (ctx.frame_base (se_symbol_name subprog ctx.elf)) [
      | none ↦ op_err
      | some loclist ↦ add_to_base ctx self stack (eval loclist)
    ]
  ]

  -- DW_OP_reg0 is 0x50.
  unfoldable pub sd_eval_op_regn : SdOperation → LocEvalStack → OpResult
  sd_eval_op_regn self stack = elim (dwarf_regnum_to_x86_reg (self.opcode - 0x50)) [
    | none ↦ op_err
    | some reg ↦ op_ok (push_eval_stack stack (loc_reg reg))
  ]

  unfoldable pub sd_eval_op_addr : SdLocEvalCtx → SdOperation → LocEvalStack → OpResult
  sd_eval_op_addr ctx self stack =
      op_ok (push_eval_stack stack (loc_addr (dbg_to_real ctx.load_address self.operand1)))

  -- The handlers: DW_OP_reg0 to DW_OP_reg31, DW_OP_fbreg and DW_OP_addr.
  unfoldable pub sd_eval_locop :
      (eval : SdLoclist → LocResult) → SdLocEvalCtx → SdOperation → LocEvalStack → OpResult
  sd_eval_locop eval ctx op stack =
      if leb 0x50 op.opcode && leb op.opcode 0x6f
      then sd_eval_op_regn op stack
      else if op.opcode == 0x91
      then sd_eval_op_fbreg eval ctx op stack
      else if op.opcode == 0x03
      then sd_eval_op_addr ctx op stack
      else op_err

  -- The top of the stack; the code does not look at whether there is one.
  unfoldable pub top_of : LocEvalStack → LocResult
  top_of stack = elim (pop_eval_stack stack) [ none ↦ unset | some r ↦ located r.0 ]

  unfoldable pub eval_operations :
      (eval : SdLoclist → LocResult) → SdLocEvalCtx → List SdOperation → LocEvalStack → LocResult
  eval_operations eval ctx [] stack = top_of stack
  eval_operations eval ctx (op ∷ operations) stack = elim (sd_eval_locop eval ctx op stack) [
    | op_err ↦ failed
    | op_unset ↦ unset
    | op_no_fuel ↦ no_fuel
    | op_ok stack' ↦ eval_operations eval ctx operations stack'
  ]

  unfoldable pub sd_eval_locexpr :
      (eval : SdLoclist → LocResult) → SdLocEvalCtx → List SdOperation → LocResult
  sd_eval_locexpr eval ctx locexpr = eval_operations eval ctx locexpr init_eval_stack

  unfoldable pub sd_eval_loclist : ℕ → SdLocEvalCtx → SdLoclist → LocResult
  sd_eval_loclist zero ctx loclist = no_fuel
  sd_eval_loclist (suc fuel) ctx loclist = elim (choose_expr ctx.pc loclist) [
    | none ↦ located (loc_addr 0)
    | some expr ↦ sd_eval_locexpr (sd_eval_loclist fuel ctx) ctx expr
  ]
