-- ===== src/Elf/Sections.antt =====
-- src/spray_elf.c: the search for the symbol table and the string table among the sections.
use spray.Base.{
  ℕ, zero, suc, ◌+◌, ◌%◌, ◌^◌, bit_and, Bool, not, ◌&&◌, Option, none, some, bytes, ◌==◌,
  if◌then◌else◌,
}
use spray.Elf.{Bytes, Shdr, shdr_at, string_at}

-- The arguments are an `int`, to which 64-bit flags are cut off.
unfoldable pub is_set : ℕ → ℕ → Bool
is_set value mask = not (bit_and (value % 2 ^ 32) mask == 0)

unfoldable pub is_unset : ℕ → ℕ → Bool
is_unset value mask = bit_and (value % 2 ^ 32) mask == 0

-- `SHT_SYMTAB`, `SHF_ALLOC` and the size of `Elf64_Sym`. The name is at an offset of the names.
unfoldable pub is_valid_symtab : Bytes → Shdr → ℕ → Bool
is_valid_symtab b shdr name =
    string_at b name (bytes ".symtab")
    && (shdr.sh_type == 2)
    && is_unset shdr.sh_flags 2
    && (shdr.sh_entsize == 24)

-- `SHT_STRTAB`
unfoldable pub is_valid_strtab : Bytes → Shdr → ℕ → Bool
is_valid_strtab b shdr name =
    string_at b name (bytes ".strtab") && (shdr.sh_type == 3) && is_unset shdr.sh_flags 2

pub record Indices : Type 0 where
  pub symtab_idx : ℕ
  pub strtab_idx : ℕ

-- The tests of one section: `symtab` and `strtab` say what it is.
unfoldable pub visit_section : (symtab strtab : Bool) → ℕ → Indices → Indices
visit_section symtab strtab i found =
    if symtab && (found.symtab_idx == 0)
    then record found { symtab_idx = i }
    else if strtab && (found.strtab_idx == 0)
    then record found { strtab_idx = i }
    else found

-- The loop from section `i` on, with `n` sections left.
unfoldable pub visit_sections : (symtab strtab : ℕ → Bool) → (n i : ℕ) → Indices → Indices
visit_sections symtab strtab zero i found = found
visit_sections symtab strtab (suc n) i found =
    visit_sections symtab strtab n (suc i) (visit_section (symtab i) (strtab i) i found)

-- The test of a section in a table of headers at `off`, with its names at `shstrtab`.
abbrev pub section_test : (Bytes → Shdr → ℕ → Bool) → Bytes → (off shstrtab i : ℕ) → Bool
section_test test b off shstrtab i =
    let shdr = shdr_at b off i in test b shdr (shstrtab + shdr.sh_name)

-- `none` is `SP_ERR`.
unfoldable pub both_found : Indices → Option Indices
both_found found =
    if not (found.symtab_idx == 0) && not (found.strtab_idx == 0) then some found else none

unfoldable pub find_table_sections : Bytes → (off n_sect_hdrs shstrtab : ℕ) → Option Indices
find_table_sections b off n_sect_hdrs shstrtab = both_found (
    visit_sections (section_test is_valid_symtab b off shstrtab)
      (section_test is_valid_strtab b off shstrtab) n_sect_hdrs 0
      (record { symtab_idx = 0; strtab_idx = 0 }))
