-- ===== src/Elf/Symbols.antt =====
-- src/spray_elf.c: the fields of a symbol, and the two searches of the symbol table.
use spray.Base.{
  ℕ, zero, suc, ◌+◌, ◌/◌, ◌%◌, ◌^◌, Bool, true, false, ◌&&◌, Option, none, some, CString, leb,
}
use spray.Elf.{Shdr, shdr_at, Sym, symtab_at, string_at, ElfFile}

-- `ELF64_ST_BIND` and `ELF64_ST_TYPE`
unfoldable pub se_symbol_binding : Sym → ℕ
se_symbol_binding sym = sym.st_info / 16

unfoldable pub se_symbol_type : Sym → ℕ
se_symbol_type sym = sym.st_info % 16

unfoldable pub se_symbol_visibility : Sym → ℕ
se_symbol_visibility sym = sym.st_other

unfoldable pub symbol_value : Sym → ℕ
symbol_value sym = sym.st_value

unfoldable pub se_symbol_start_addr : Sym → ℕ
se_symbol_start_addr sym = sym.st_value

unfoldable pub se_symbol_end_addr : Sym → ℕ
se_symbol_end_addr sym = (sym.st_value + sym.st_size) % 2 ^ 64

-- The header of the section `idx`.
abbrev pub section : ElfFile → ℕ → Shdr
section elf idx = shdr_at elf.bytes elf.sect_table.headers idx

-- Where the symbol's name is in the file.
unfoldable pub se_symbol_name : Sym → ElfFile → ℕ
se_symbol_name sym elf = (section elf elf.sect_table.strtab_idx).sh_offset + sym.st_name

-- The symbol `i` of the symbol table, and how many there are.
unfoldable pub symbol : ElfFile → ℕ → Sym
symbol elf i = symtab_at elf.bytes (section elf elf.sect_table.symtab_idx).sh_offset i

unfoldable pub n_symbols : ElfFile → ℕ
n_symbols elf =
    let symtab_hdr = section elf elf.sect_table.symtab_idx in
    symtab_hdr.sh_size / symtab_hdr.sh_entsize

-- The loop of both searches from symbol `i` on, with `n` symbols left.
unfoldable pub search_symbols : (Sym → Bool) → (ℕ → Sym) → (n i : ℕ) → Option Sym
search_symbols test table zero i = none
search_symbols test table (suc n) i = elim (test (table i)) [
  | true ↦ some (table i)
  | false ↦ search_symbols test table n (suc i)
]

unfoldable pub symbol_has_name : CString → ElfFile → Sym → Bool
symbol_has_name name elf sym = string_at elf.bytes (se_symbol_name sym elf) name

unfoldable pub se_symbol_from_name : CString → ElfFile → Option Sym
se_symbol_from_name name elf =
    search_symbols (symbol_has_name name elf) (symbol elf) (n_symbols elf) 0

unfoldable pub symbol_has_addr : ℕ → Sym → Bool
symbol_has_addr addr sym = leb (se_symbol_start_addr sym) addr && leb addr (se_symbol_end_addr sym)

unfoldable pub se_symbol_from_addr : ℕ → ElfFile → Option Sym
se_symbol_from_addr addr elf = search_symbols (symbol_has_addr addr) (symbol elf) (n_symbols elf) 0
