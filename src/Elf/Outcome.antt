-- ===== src/Elf/Outcome.antt =====
-- The ways in which `se_parse_elf` of src/spray_elf.c ends.
use spray.Base.{
  ℕ, ◌%◌, ◌^◌, ◌||◌, ◌==◌, if◌then◌else◌, ◌<◌, ◌≡◌, refl, ◌⊎◌, inl, inr, Bool, true, false, Option,
  some, none, arith, CString, Option-cases, Bool-cases,
}
use spray.Elf.{
  Bytes, Shdr, shdr_at, ehdr_at, ElfFile, ElfParseResult, elf_parse_io_err, elf_parse_invalid,
}
use spray.Elf.Header.{
  Header, HeaderParse, Counts, type_of, endianness_of, header_counts, parse_init_section, accepted,
  rejected, parse_elf_header,
}
use spray.Elf.Sections.{Indices, section_test, is_valid_symtab, is_valid_strtab}
use spray.Elf.Symbols.{section}
use spray.Elf.Parse.{
  Files, ElfParse, parsed, failed, reject, store_tables, parse_sections, parse_mapped, se_parse_elf,
  file_size,
}
use spray.Elf.Supported.{Supported, Taken, accepted-Taken, accepted_counts, parse_elf_header_iff}
use spray.Elf.FirstIndex.{IsFirst, NoneBelow, TablesFound, found, missing, find_table_sections_lem}

-- The initial section header, which holds what is too large for the ELF header.
abbrev init_section : Bytes → Shdr
init_section b = shdr_at b (ehdr_at b 0).e_shoff 0

-- The numbers of headers in a file and the index of its section names, by the ELF header and the
-- initial section header. A number of 65535 sections in the ELF header is not believed either.
abbrev pub counts_of : Bytes → Counts
counts_of b = record {
  n_prog_hdrs =
      if (ehdr_at b 0).e_phnum == 0xffff then (init_section b).sh_info else (ehdr_at b 0).e_phnum;
  n_sect_hdrs =
      if ((ehdr_at b 0).e_shnum == 0) || ((ehdr_at b 0).e_shnum == 0xffff)
      then (init_section b).sh_size % 2 ^ 32
      else (ehdr_at b 0).e_shnum;
  shstrtab_idx =
      if (ehdr_at b 0).e_shstrndx == 0xffff
      then (init_section b).sh_link
      else (ehdr_at b 0).e_shstrndx;
}

-- The sections of a file that pass a test, in the table and with the names that its header points to.
abbrev pub file_test : (Bytes → Shdr → ℕ → Bool) → Bytes → ℕ → Bool
file_test test b =
    section_test test b (ehdr_at b 0).e_shoff
      (shdr_at b (ehdr_at b 0).e_shoff (counts_of b).shstrtab_idx).sh_offset

-- What the rest of the program may rely on in a file.
pub record IsUsable (elf : ElfFile) : Type 0 where
  pub header : Supported (ehdr_at elf.bytes 0)
  pub type : type_of (ehdr_at elf.bytes 0).e_type ≡ some elf.type
  pub endianness : endianness_of ((ehdr_at elf.bytes 0).e_ident 5) ≡ some elf.endianness
  pub prog_headers : elf.prog_table.headers ≡ (ehdr_at elf.bytes 0).e_phoff
  pub sect_headers : elf.sect_table.headers ≡ (ehdr_at elf.bytes 0).e_shoff
  pub n_prog_headers : elf.prog_table.n_headers ≡ (counts_of elf.bytes).n_prog_hdrs
  pub n_sect_headers : elf.sect_table.n_headers ≡ (counts_of elf.bytes).n_sect_hdrs
  pub names : elf.sect_table.shstrtab_idx ≡ (counts_of elf.bytes).shstrtab_idx
  pub symtab : IsFirst (file_test is_valid_symtab elf.bytes) elf.sect_table.symtab_idx
  pub symtab_inside : elf.sect_table.symtab_idx < elf.sect_table.n_headers
  pub strtab : IsFirst (file_test is_valid_strtab elf.bytes) elf.sect_table.strtab_idx
  pub strtab_inside : elf.sect_table.strtab_idx < elf.sect_table.n_headers
  pub entry_size : (section elf elf.sect_table.symtab_idx).sh_entsize ≡ 24

-- What is wrong with a file, and the result for it: that of the header, or that for a missing table.
pub data Unusable (b : Bytes) : ElfParseResult → Type 0 where
  unsupported :
      (result : ElfParseResult)
      → ¬ (Supported (ehdr_at b 0))
      → parse_elf_header (ehdr_at b 0) ≡ rejected result
      → Unusable b result
  no_tables :
      Supported (ehdr_at b 0)
      → NoneBelow (file_test is_valid_symtab b) (counts_of b).n_sect_hdrs
        ⊎ NoneBelow (file_test is_valid_strtab b) (counts_of b).n_sect_hdrs
      → Unusable b elf_parse_invalid

accepted-counts_of :
    (b : Bytes) (h : Header)
    → parse_elf_header (ehdr_at b 0) ≡ accepted h
    → parse_init_section (init_section b) h.counts ≡ counts_of b
unfolding parse_init_section header_counts
accepted-counts_of b h e = rw (accepted_counts (ehdr_at b 0) h e) (ground arith)

module _ ⦃F : Files⦄ (path : CString) where
  -- The file at the path is mapped as these bytes.
  pub record IsMapped (b : Bytes) (n : ℕ) : Type 0 where
    pub fd : F.Fd
    pub opened : F.open_file path ≡ some fd
    pub sized : F.seek_end fd ≡ some n
    pub mapped : F.map_file fd n ≡ some b

  -- A system call that failed.
  pub data IoFailed : Type 0 where
    not_opened : F.open_file path ≡ none → IoFailed
    not_sized : (fd : F.Fd) → F.open_file path ≡ some fd → F.seek_end fd ≡ none → IoFailed
    not_mapped :
        (fd : F.Fd) (n : ℕ)
        → F.open_file path ≡ some fd
        → F.seek_end fd ≡ some n
        → F.map_file fd n ≡ none
        → IoFailed
    not_unmapped :
        (b : Bytes) (n : ℕ) (result : ElfParseResult)
        → IsMapped b n
        → Unusable b result
        → F.unmap b n ≡ false
        → IoFailed

  pub data Outcome : ElfParse → Type 0 where
    io_error : IoFailed → Outcome (failed elf_parse_io_err)
    rejected_file :
        (b : Bytes) (n : ℕ) (result : ElfParseResult)
        → IsMapped b n
        → Unusable b result
        → F.unmap b n ≡ true
        → Outcome (failed result)
    usable : (elf : ElfFile) → IsMapped elf.bytes elf.n_bytes → IsUsable elf → Outcome (parsed elf)

  reject-Outcome :
      (b : Bytes) (n : ℕ) (result : ElfParseResult)
      → IsMapped b n
      → Unusable b result
      → Outcome (reject b n result)
  unfolding reject
  reject-Outcome b n result m u = elim (Bool-cases (F.unmap b n)) [
    | inl done ↦ rw (done, reject) (rejected_file b n result m u done)
    | inr refused ↦ rw (refused, reject) (io_error (not_unmapped b n result m u refused))
  ]

  valid_symtab-entsize :
      (b : Bytes) (off names i : ℕ)
      → section_test is_valid_symtab b off names i ≡ true
      → (shdr_at b off i).sh_entsize ≡ 24
  unfolding is_valid_symtab
  valid_symtab-entsize b off names i h = ground arith

  module _ (b : Bytes) (n : ℕ) (h : Header) (m : IsMapped b n)
      (e : parse_elf_header (ehdr_at b 0) ≡ accepted h) where
    taken : Taken (ehdr_at b 0) h
    taken = accepted-Taken (ehdr_at b 0) h e

    supported : Supported (ehdr_at b 0)
    supported = (parse_elf_header_iff (ehdr_at b 0)).0 (h, e)

    store_tables_lem :
        (r : Option Indices)
        → TablesFound
            (file_test is_valid_symtab b)
            (file_test is_valid_strtab b)
            (counts_of b).n_sect_hdrs
            r
        → Outcome (store_tables b n h (counts_of b) r)
    store_tables_lem none (missing f) =
        reject-Outcome b n elf_parse_invalid m (no_tables supported f)
    store_tables_lem (some i) (found first inside first' inside') = usable _ m (record {
      header = supported;
      type = taken.type;
      endianness = taken.endianness;
      prog_headers = taken.prog_table_off;
      sect_headers = taken.sect_table_off;
      n_prog_headers = refl;
      n_sect_headers = refl;
      names = refl;
      symtab = first;
      symtab_inside = inside;
      strtab = first';
      strtab_inside = inside';
      entry_size = rw (taken.sect_table_off) (valid_symtab-entsize b _ _ _ first.passes);
    })

    accepted-Outcome : Outcome (parse_sections b n (accepted h))
    accepted-Outcome =
        simp (taken.sect_table_off, accepted-counts_of b h e)
          (store_tables_lem _ (find_table_sections_lem b (ehdr_at b 0).e_shoff _ _))

  parse_sections_lem :
      (b : Bytes) (n : ℕ) (r : HeaderParse)
      → IsMapped b n
      → parse_elf_header (ehdr_at b 0) ≡ r
      → Outcome (parse_sections b n r)
  parse_sections_lem b n (rejected result) m e =
      reject-Outcome b n result m
        (unsupported result (λ s. let a = (parse_elf_header_iff (ehdr_at b 0)).1 s in cc) e)
  parse_sections_lem b n (accepted h) m e = accepted-Outcome b n h m e

  -- Every way in which `se_parse_elf` ends: a system call failed (munmap only counts for a file
  -- that is given up); the header of the mapped file is not supported, and the result is the code
  -- that `parse_elf_header` gives it; the header is supported, but no section of the file is a
  -- symbol table or none is a string table; or the file is parsed, its type, the byte order, the
  -- two tables of headers and their sizes are those of the header, the symbol table and the
  -- string table are the first sections of their kind, and the symbols have the size that they
  -- are read with. Of the reserved section at index 0 nothing is said.
  pub se_parse_elf_lem : Outcome (se_parse_elf path)
  unfolding se_parse_elf file_size parse_mapped
  se_parse_elf_lem = elim (Option-cases (F.open_file path)) [
    | inl unopened ↦ rw (unopened, se_parse_elf) (io_error (not_opened unopened))
    | inr (fd, opened) ↦ elim (Option-cases (F.seek_end fd)) [
      | inl unsized ↦
          rw (opened, se_parse_elf)
            (rw (unsized, file_size) (io_error (not_sized fd opened unsized)))
      | inr (n, sized) ↦ elim (Option-cases (F.map_file fd n)) [
        | inl unmapped ↦
            rw (opened, se_parse_elf)
              (rw (sized, file_size)
                (rw unmapped (io_error (not_mapped fd n opened sized unmapped))))
        | inr (b, mapped) ↦
            rw (opened, se_parse_elf)
              (rw (sized, file_size)
                (rw mapped (
                  parse_sections_lem b n _
                    (record { fd = fd; opened = opened; sized = sized; mapped = mapped }) refl)))
      ]
    ]
  ]
