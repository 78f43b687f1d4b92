-- ===== src/Stepping/Callback.antt =====
-- src/info.c, `set_step_over_breakpoints`: what its callback keeps, it keeps.
use spray.Base.{ℕ, ◌≡◌, some, [], Option-cases, inl, inr, arith}
use spray.Ptrace.{Ptrace}
use spray.Breakpoints.{Table, Target}
use spray.LineTable.{LineEntry}
use spray.LineTable.Visit.{sd_for_each_line-P}
use spray.Info.{DebugInfo, DebugSymbol, sym_position, sym_filepath, sym_name}
use spray.Stepping.Lines.{
  CallbackData, callback__set_dwarf_line_breakpoint, set_step_over_breakpoints,
}

module _ ⦃K : Ptrace⦄ ⦃H : Table⦄ (info : DebugInfo) (load_address : ℕ) (P : CallbackData → Type 0)
    (keeps : (skip_line : ℕ) (line : LineEntry) (found : CallbackData)
      → P found
      → P (callback__set_dwarf_line_breakpoint load_address skip_line line found).1) where
  pub set_step_over_breakpoints-P :
      (func : DebugSymbol) (t : Target K H) (found : CallbackData)
      → set_step_over_breakpoints info load_address func t ≡ some found
      → P (record { to_del = []; target = t })
      → P found
  unfolding set_step_over_breakpoints
  set_step_over_breakpoints-P func t found h p = elim (Option-cases (sym_position func info)) [
    | inl missing ↦ ground arith
    | inr (pos, e) ↦ elim (Option-cases (sym_filepath func info)) [
      | inl missing ↦ ground arith
      | inr (filepath, f) ↦
          let all =
            sd_for_each_line-P (callback__set_dwarf_line_breakpoint load_address pos.line) P
              (keeps pos.line) info.dbg (sym_name func info) filepath
              (record { to_del = []; target = t }) p in
          ground (arith, all)
    ]
  ]
