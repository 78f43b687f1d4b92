-- ===== src/Backtrace.antt =====
-- src/backtrace.c: the chain of frames. A frame with its callees is a list, the last caller first.
-- The loop takes fuel, one unit for each frame; `Chain` says how much is enough.
pub mod Chain
mod Tests
use spray.Base.{
  ℕ, zero, suc, ◌+◌, ◌%◌, bit_and, Bool, true, false, Option, none, some, List, [], ◌∷◌, ◌==◌,
  if◌then◌else◌,
}
use spray.Magic.{word_mod, dbg_to_real}
use spray.Ptrace.{Ptrace, pt_read_memory}
use spray.Registers.{rbp, get_register_value}
use spray.Info.{
  DebugInfo, DebugSymbol, Position, sym_by_addr, sym_name, sym_position, sym_start_addr,
}

-- `lineno` is `none` where `has_lineno` is false; the function's name is its place in the file.
pub record CallLocation : Type 0 where
  pub pc : ℕ
  pub frame_pointer : ℕ
  pub lineno : Option ℕ
  pub function : Option ℕ

abbrev pub CallFrame : Type 0
CallFrame = List CallLocation

abbrev line_of : Option Position → Option ℕ
line_of none = none
line_of (some pos) = some pos.line

unfoldable pub call_location : DebugInfo → ℕ → ℕ → CallLocation
call_location info pc frame_pointer = elim (sym_by_addr pc info) [
  | none ↦ record { pc = pc; frame_pointer = frame_pointer; lineno = none; function = none }
  | some func_sym ↦ record {
    pc = pc;
    frame_pointer = frame_pointer;
    lineno = line_of (sym_position func_sym info);
    function = some (sym_name func_sym info);
  }
]

unfoldable pub init_call_frame : CallFrame → ℕ → ℕ → DebugInfo → CallFrame
init_call_frame caller pc frame_pointer info = call_location info pc frame_pointer ∷ caller

module _ ⦃K : Ptrace⦄ where
  -- `push %rbp` and `mov %rsp,%rbp`
  unfoldable pub stores_frame_pointer : ℕ → ℕ → K.Sys → DebugInfo → Bool
  stores_frame_pointer pc load_address s info = elim (sym_by_addr pc info) [
    | none ↦ false
    | some func ↦ elim (pt_read_memory s (dbg_to_real load_address (sym_start_addr func))) [
      | none ↦ false
      | some inst_bytes ↦ bit_and inst_bytes 0xffff_ffff == 0xe589_4855
    ]
  ]

  -- The loop. `none` is a run out of fuel, `some none` the null pointer.
  unfoldable pub walk_frames :
      ℕ → K.Sys → DebugInfo → (frame_pointer : ℕ) → CallFrame → Option (Option CallFrame)
  walk_frames zero s info frame_pointer call_frame = none
  walk_frames (suc fuel) s info frame_pointer call_frame = elim (frame_pointer == 0) [
    | true ↦ some (some call_frame)
    | false ↦ elim (pt_read_memory s ((frame_pointer + 8) % word_mod)) [
      | none ↦ some none
      | some pc ↦ elim (pt_read_memory s frame_pointer) [
        | none ↦ some none
        | some next ↦ walk_frames fuel s info next (init_call_frame call_frame pc next info)
      ]
    ]
  ]

  -- The warning that depends on `stores_frame_pointer` is output only.
  unfoldable pub init_backtrace : ℕ → ℕ → K.Sys → DebugInfo → Option (Option CallFrame)
  init_backtrace fuel pc s info = elim (get_register_value s rbp) [
    | none ↦ some none
    | some frame_pointer ↦
        walk_frames fuel s info frame_pointer (init_call_frame [] pc frame_pointer info)
  ]
