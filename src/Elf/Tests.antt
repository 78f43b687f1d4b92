-- ===== src/Elf/Tests.antt =====
-- Runs on the small ELF file, and the theorems at it.
use spray.Base.{ℕ, ◌≡◌, refl, ◌↔◌, Option, none, some, [], ◌∷◌, map, true, bytes, arith}
use spray.Elf.{ehdr_at, Ehdr, shdr_at, Sym, symtab_at, elf_type_dyn, elf_endian_little, string_at}
use spray.Elf.Image.{image, elf}
use spray.Elf.Header.{
  Header, accepted, parse_elf_header, parse_init_section, parse_target, parse_tables, endianness_of,
  type_of, header_counts,
}
use spray.Elf.Sections.{
  find_table_sections, section_test, is_valid_symtab, is_valid_strtab, is_unset, visit_section,
  visit_sections, both_found,
}
use spray.Elf.Symbols.{
  se_symbol_from_addr, se_symbol_from_name, se_symbol_start_addr, se_symbol_end_addr,
  se_symbol_name, symbol, n_symbols, search_symbols, symbol_has_addr, symbol_has_name,
}
use spray.Elf.Parse.{Files, parsed, se_parse_elf, file_size, parse_mapped, reject}
use spray.Elf.Supported.{Supported, parse_elf_header_iff, header_counts_lem}
use spray.Elf.FirstIndex.{TablesFound, find_table_sections_lem}
use spray.Elf.Found.{FirstSymbol, Spans, HasName, se_symbol_from_addr_lem, se_symbol_from_name_lem}
use spray.Elf.Outcome.{Outcome, se_parse_elf_lem}

instance abbrev files : Files
files = record {
  Fd = ℕ;
  open_file = λ path. some 3;
  seek_end = λ fd. some 480;
  map_file = λ fd n. some image;
  unmap = λ b n. true;
}

run_parse : se_parse_elf (bytes "a.out") ≡ parsed elf
unfolding se_parse_elf file_size parse_mapped reject parse_elf_header parse_target parse_tables
    endianness_of type_of header_counts parse_init_section find_table_sections is_valid_symtab
    is_valid_strtab is_unset visit_section visit_sections both_found ehdr_at shdr_at string_at
run_parse = refl

abbrev value_of : Option Sym → ℕ
value_of none = 0
value_of (some s) = s.st_value

-- The address 0x1120 is the first of `next`, and the end of `main`.
run_symbols :
    map value_of (
      se_symbol_from_addr 0x1100 elf
      ∷ se_symbol_from_addr 0x1120 elf
      ∷ se_symbol_from_addr 0x1121 elf
      ∷ se_symbol_from_name (bytes "next") elf
      ∷ se_symbol_from_name (bytes "nex") elf
      ∷ [])
    ≡ 0x1100 ∷ 0x1100 ∷ 0x1120 ∷ 0x1120 ∷ 0 ∷ []
unfolding se_symbol_from_addr se_symbol_from_name se_symbol_start_addr se_symbol_end_addr
    se_symbol_name symbol n_symbols search_symbols symbol_has_addr symbol_has_name shdr_at symtab_at
    string_at
run_symbols = refl

parse_elf_header_iff_example :
    ((r : Header) × (parse_elf_header (ehdr_at image 0) ≡ accepted r)) ↔ Supported (ehdr_at image 0)
parse_elf_header_iff_example = parse_elf_header_iff (ehdr_at image 0)

find_table_sections_lem_example :
    TablesFound
      (section_test is_valid_symtab image 64 320)
      (section_test is_valid_strtab image 64 320)
      4
      (find_table_sections image 64 4 320)
find_table_sections_lem_example = find_table_sections_lem image 64 4 320

se_parse_elf_lem_example : Outcome (bytes "a.out") (se_parse_elf (bytes "a.out"))
se_parse_elf_lem_example = se_parse_elf_lem (bytes "a.out")

se_symbol_from_addr_lem_example :
    FirstSymbol elf (λ s. Spans s 0x1120) (se_symbol_from_addr 0x1120 elf)
se_symbol_from_addr_lem_example = se_symbol_from_addr_lem 0x1120 elf

se_symbol_from_name_lem_example :
    FirstSymbol elf (λ s. HasName elf s (bytes "next")) (se_symbol_from_name (bytes "next") elf)
se_symbol_from_name_lem_example = se_symbol_from_name_lem (bytes "next") elf

-- A header whose number of sections stands in the initial section header.
abbrev large : Ehdr
large = record (ehdr_at image 0) { e_shnum = 0 }

abbrev large_header : Header
large_header = record {
  endianness = elf_endian_little;
  type = elf_type_dyn;
  prog_table_off = 0x1000;
  sect_table_off = 64;
  counts = record { n_prog_hdrs = 1; n_sect_hdrs = 0xffff; shstrtab_idx = 3 };
}

large_accepted : parse_elf_header large ≡ accepted large_header
unfolding parse_elf_header parse_target parse_tables endianness_of type_of header_counts ehdr_at
large_accepted = refl

header_counts_lem_example :
    parse_init_section (record (shdr_at image 64 0) { sh_size = 70000 }) large_header.counts
    ≡ record { n_prog_hdrs = 1; n_sect_hdrs = 70000; shstrtab_idx = 3 }
unfolding ehdr_at shdr_at
header_counts_lem_example =
    header_counts_lem large (record (shdr_at image 64 0) { sh_size = 70000 }) large_header
      large_accepted (omega arith)
