-- ===== src/Elf/Parse.antt =====
-- src/spray_elf.c: `se_parse_elf`, over the system calls that it makes as a parameter.
use spray.Base.{ℕ, Bool, Option, none, some, CString, if◌then◌else◌}
use spray.Magic.{SprayResult, sp_ok, sp_err}
use spray.Elf.{
  Bytes, ehdr_at, shdr_at, ElfFile, ElfParseResult, elf_parse_io_err, elf_parse_invalid,
}
use spray.Elf.Header.{
  Header, HeaderParse, rejected, accepted, Counts, parse_elf_header, parse_init_section,
}
use spray.Elf.Sections.{Indices, find_table_sections}

-- open(2), lseek(2) to the end, mmap(2) and munmap(2). `none` and `false` are the failures.
pub record Files : Type 1 where
  pub Fd : Type 0
  pub open_file : CString → Option Fd
  pub seek_end : Fd → Option ℕ
  pub map_file : Fd → ℕ → Option Bytes
  pub unmap : Bytes → ℕ → Bool

-- What `se_parse_elf` returns, with `*elf_store` on success.
pub data ElfParse : Type 0 where
  failed : ElfParseResult → ElfParse
  parsed : ElfFile → ElfParse

module _ ⦃F : Files⦄ where
  -- The way out after an error in the mapped file.
  unfoldable pub reject : Bytes → ℕ → ElfParseResult → ElfParse
  reject b n_bytes result = if F.unmap b n_bytes then failed result else failed elf_parse_io_err

  -- The end, with the result of the search for the tables.
  abbrev pub store_tables : Bytes → ℕ → Header → Counts → Option Indices → ElfParse
  store_tables b n_bytes h counts none = reject b n_bytes elf_parse_invalid
  store_tables b n_bytes h counts (some found) = parsed (record {
    type = h.type;
    endianness = h.endianness;
    prog_table = record { n_headers = counts.n_prog_hdrs; headers = h.prog_table_off };
    sect_table = record {
      n_headers = counts.n_sect_hdrs;
      symtab_idx = found.symtab_idx;
      shstrtab_idx = counts.shstrtab_idx;
      strtab_idx = found.strtab_idx;
      headers = h.sect_table_off;
    };
    bytes = b;
    n_bytes = n_bytes;
  })

  -- The part that has the result of the header.
  abbrev pub parse_sections : Bytes → ℕ → HeaderParse → ElfParse
  parse_sections b n_bytes (rejected result) = reject b n_bytes result
  parse_sections b n_bytes (accepted h) =
      let counts = parse_init_section (shdr_at b h.sect_table_off 0) h.counts in
      let shstrtab = (shdr_at b h.sect_table_off counts.shstrtab_idx).sh_offset in
      store_tables b n_bytes h counts
        (find_table_sections b h.sect_table_off counts.n_sect_hdrs shstrtab)

  -- The part that has the mapping.
  unfoldable pub parse_mapped : Bytes → ℕ → ElfParse
  parse_mapped b n_bytes = parse_sections b n_bytes (parse_elf_header (ehdr_at b 0))

  unfoldable pub file_size : F.Fd → Option ℕ
  file_size fd = F.seek_end fd

  unfoldable pub se_parse_elf : CString → ElfParse
  se_parse_elf filepath = elim (F.open_file filepath) [
    | none ↦ failed elf_parse_io_err
    | some fd ↦ elim (file_size fd) [
      | none ↦ failed elf_parse_io_err
      | some n_bytes ↦ elim (F.map_file fd n_bytes) [
        | none ↦ failed elf_parse_io_err
        | some b ↦ parse_mapped b n_bytes
      ]
    ]
  ]

  -- `SP_ERR` if the file could not be unmapped.
  unfoldable pub se_free_elf : ElfFile → SprayResult
  se_free_elf elf = if F.unmap elf.bytes elf.n_bytes then sp_ok else sp_err
