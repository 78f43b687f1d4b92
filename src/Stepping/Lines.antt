-- ===== src/Stepping/Lines.antt =====
-- src/debugger.c and src/info.c: stepping by lines of the source.
use spray.Base.{
  ℕ, zero, suc, ◌+◌, ◌-◌, ◌%◌, Bool, true, false, not, ◌&&◌, ◌||◌, Option, none, some, List, [],
  ◌∷◌, ◌==◌, if◌then◌else◌,
}
use spray.Magic.{SprayResult, sp_ok, sp_err, word_mod, single_step_search_limit}
use spray.Ptrace.{Ptrace}
use spray.Breakpoints.{Table, Target, lookup_breakpoint, enable_breakpoint, disable_breakpoint}
use spray.LineTable.{LineEntry, sd_for_each_line}
use spray.Info.{
  DebugInfo, DebugSymbol, Position, sym_by_addr, sym_position, sym_name, sym_filepath,
  addr_position,
}
use spray.Stepping.{
  Run, then_run, get_dbg_pc, single_step_instruction, continue_and_wait,
  set_return_address_breakpoint, remove_transient,
}

-- The condition of the loop: no line begins here, or it is still the first one.
abbrev pub same_line : ℕ → Position → Bool
same_line init_line pos = not pos.is_exact || (pos.line == init_line)

module _ ⦃K : Ptrace⦄ ⦃H : Table⦄ where
  -- `CallbackData`: the breakpoints to delete, last one first, and the process.
  pub record CallbackData : Type 0 where
    pub to_del : List ℕ
    pub target : Target K H

  unfoldable pub callback__set_dwarf_line_breakpoint :
      (load_address skip_line : ℕ) → LineEntry → CallbackData → SprayResult × CallbackData
  callback__set_dwarf_line_breakpoint load_address skip_line line found =
      let real_line_addr = (line.addr + word_mod - load_address) % word_mod in
      (
        sp_ok,
        if not (skip_line == line.ln) && not (lookup_breakpoint found.target real_line_addr)
            then record {
              to_del = real_line_addr ∷ found.to_del;
              target = (enable_breakpoint found.target real_line_addr).1;
            }
            else found,
      )

  -- `none` is `SP_ERR`.
  unfoldable pub set_step_over_breakpoints :
      DebugInfo → (load_address : ℕ) → DebugSymbol → Target K H → Option CallbackData
  set_step_over_breakpoints info load_address func t = elim (sym_position func info) [
    | none ↦ none
    | some pos ↦ elim (sym_filepath func info) [
      | none ↦ none
      | some filepath ↦
          some
            (sd_for_each_line info.dbg (sym_name func info) filepath
              (callback__set_dwarf_line_breakpoint load_address pos.line)
              (record { to_del = []; target = t })).1
    ]
  ]

  -- The loop that deletes the breakpoints. Its order is that of their making.
  unfoldable pub delete_breakpoints : List ℕ → Target K H → Target K H
  delete_breakpoints [] t = t
  delete_breakpoints (addr ∷ to_del) t = (disable_breakpoint (delete_breakpoints to_del t) addr).1

module _ ⦃K : Ptrace⦄ ⦃H : Table⦄ (info : DebugInfo) (load_address : ℕ) (fuel : ℕ) where
  abbrev pub position_here : Target K H → Option Position
  position_here t = addr_position (get_dbg_pc load_address t) info

  -- The part of the loop behind a step; `go_on` is the next round.
  unfoldable pub after_step : (go_on : Position → Target K H → Run) → SprayResult → Target K H → Run
  after_step go_on sp_err t = some (sp_err, t)
  after_step go_on sp_ok t = elim (position_here t) [
    | none ↦ some (sp_err, t)
    | some pos ↦ go_on pos t
  ]

  -- The loop, with the number of steps that may still be made.
  unfoldable pub step_lines : ℕ → (init_line : ℕ) → Position → Target K H → Run
  step_lines zero init_line pos t = some (sp_err, t)
  step_lines (suc left) init_line pos t = elim (same_line init_line pos) [
    | false ↦ some (sp_ok, t)
    | true ↦ then_run (single_step_instruction fuel t) (after_step (step_lines left init_line))
  ]

  unfoldable pub single_step_line : Target K H → Run
  single_step_line t = elim (position_here t) [
    | none ↦ some (sp_err, t)
    | some pos ↦ step_lines single_step_search_limit pos.line pos t
  ]

  unfoldable pub step_over : Target K H → Run
  step_over t = elim (sym_by_addr (get_dbg_pc load_address t) info) [
    | none ↦ some (sp_err, t)
    | some func ↦ elim (set_step_over_breakpoints info load_address func t) [
      | none ↦ some (sp_err, t)
      | some found ↦ elim (set_return_address_breakpoint found.target) [
        | none ↦ none
        | some b ↦ then_run (continue_and_wait fuel b.target) (λ res t'.
            some (res, remove_transient b.remove b.address (delete_breakpoints found.to_del t')))
      ]
    ]
  ]
