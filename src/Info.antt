-- ===== src/Info.antt =====
-- src/info.c: symbols and positions, joined from the ELF file and the line tables. The buffer of
-- symbols caches what these functions compute; here it is computed anew.
use spray.Base.{ℕ, ◌==◌, Bool, true, false, Option, none, some, CString, if◌then◌else◌}
use spray.Elf.{Sym, ElfFile, elf_type_dyn}
use spray.Elf.Symbols.{
  se_symbol_from_name, se_symbol_from_addr, se_symbol_name, se_symbol_start_addr,
  se_symbol_end_addr, se_symbol_type,
}
use spray.LineTable.{
  LineEntry, Dwarf, sd_line_entry_from_pc, sd_line_entry_at, sd_effective_start_addr,
}

pub record DebugInfo : Type 0 where
  pub elf : ElfFile
  pub dbg : Dwarf

-- `none` is `has_addr = false`.
pub record DebugSymbol : Type 0 where
  pub elf : Sym
  pub addr : Option ℕ

pub record Position : Type 0 where
  pub line : ℕ
  pub column : ℕ
  pub is_exact : Bool

unfoldable pub sym_by_name : CString → DebugInfo → Option DebugSymbol
sym_by_name name info = elim (se_symbol_from_name name info.elf) [
  | none ↦ none
  | some elf ↦ some (record { elf = elf; addr = none })
]

unfoldable pub sym_by_addr : ℕ → DebugInfo → Option DebugSymbol
sym_by_addr addr info = elim (se_symbol_from_addr addr info.elf) [
  | none ↦ none
  | some elf ↦ some (record { elf = elf; addr = some addr })
]

-- The name as its place in the file.
unfoldable pub sym_name : DebugSymbol → DebugInfo → ℕ
sym_name sym info = se_symbol_name sym.elf info.elf

unfoldable pub sym_start_addr : DebugSymbol → ℕ
sym_start_addr sym = se_symbol_start_addr sym.elf

unfoldable pub sym_end_addr : DebugSymbol → ℕ
sym_end_addr sym = se_symbol_end_addr sym.elf

unfoldable pub sym_addr : DebugSymbol → ℕ
sym_addr sym = elim sym.addr [ none ↦ sym_start_addr sym | some addr ↦ addr ]

-- `STT_FUNC` is 2. `none` is `SP_ERR`.
unfoldable pub function_start_addr : DebugSymbol → DebugInfo → Option ℕ
function_start_addr func info =
    if se_symbol_type func.elf == 2
    then sd_effective_start_addr info.dbg (sym_start_addr func) (sym_end_addr func)
    else none

unfoldable pub sym_filepath : DebugSymbol → DebugInfo → Option CString
sym_filepath sym info = info.dbg.filepath_from_pc (sym_addr sym)

abbrev pub position_of : Option LineEntry → Option Position
position_of none = none
position_of (some e) =
    if e.is_ok then some (record { line = e.ln; column = e.cl; is_exact = e.is_exact }) else none

unfoldable pub sym_position : DebugSymbol → DebugInfo → Option Position
sym_position sym info = position_of (sd_line_entry_from_pc info.dbg (sym_addr sym))

unfoldable pub addr_position : ℕ → DebugInfo → Option Position
addr_position addr info = elim (sym_by_addr addr info) [
  | none ↦ none
  | some addr_sym ↦ sym_position addr_sym info
]

unfoldable pub addr_name : ℕ → DebugInfo → Option ℕ
addr_name addr info = elim (sym_by_addr addr info) [
  | none ↦ none
  | some addr_sym ↦ some (sym_name addr_sym info)
]

unfoldable pub addr_filepath : ℕ → DebugInfo → Option CString
addr_filepath addr info = elim (sym_by_addr addr info) [
  | none ↦ none
  | some addr_sym ↦ sym_filepath addr_sym info
]

-- `none` is `SP_ERR`.
unfoldable pub addr_at : CString → ℕ → DebugInfo → Option ℕ
addr_at filepath lineno info = elim (sd_line_entry_at info.dbg filepath lineno) [
  | none ↦ none
  | some line ↦ if line.is_ok then some line.addr else none
]

unfoldable pub is_dyn_exec : DebugInfo → Bool
is_dyn_exec info = elim info.elf.type [ elf_type_dyn ↦ true | _ ↦ false ]
