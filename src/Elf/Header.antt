-- ===== src/Elf/Header.antt =====
-- src/spray_elf.c: the ELF header, and the values that are too large for it.
use spray.Base.{ℕ, zero, suc, ◌%◌, ◌^◌, not, ◌&&◌, ◌||◌, Option, none, some, ◌==◌, if◌then◌else◌}
use spray.Elf.{
  Ehdr, Shdr, ElfType, elf_type_none, elf_type_rel, elf_type_exec, elf_type_dyn, elf_type_core,
  Endianness, elf_endian_big, elf_endian_little, ElfParseResult, elf_parse_invalid,
  elf_parse_dislike,
}

abbrev pub check_section_header : ℕ
check_section_header = 0xffff

-- The three values that may be too large for the header.
pub record Counts : Type 0 where
  pub n_prog_hdrs : ℕ
  pub n_sect_hdrs : ℕ
  pub shstrtab_idx : ℕ

-- What `parse_elf_header` stores through its pointers.
pub record Header : Type 0 where
  pub endianness : Endianness
  pub type : ElfType
  pub prog_table_off : ℕ
  pub sect_table_off : ℕ
  pub counts : Counts

-- The result. What it stores before an error is read by nobody.
pub data HeaderParse : Type 0 where
  rejected : ElfParseResult → HeaderParse
  accepted : Header → HeaderParse

-- `ELFDATA2LSB` and `ELFDATA2MSB`
unfoldable pub endianness_of : ℕ → Option Endianness
endianness_of data_encoding =
    if data_encoding == 1
    then some elf_endian_little
    else if data_encoding == 2
    then some elf_endian_big
    else none

-- `ET_NONE` to `ET_CORE`
unfoldable pub type_of : ℕ → Option ElfType
type_of e_type = elim e_type [
  | zero ↦ some elf_type_none
  | suc zero ↦ some elf_type_rel
  | suc (suc zero) ↦ some elf_type_exec
  | suc (suc (suc zero)) ↦ some elf_type_dyn
  | suc (suc (suc (suc zero))) ↦ some elf_type_core
  | _ ↦ none
]

-- `PN_XNUM`, 0 and `SHN_XINDEX` send the reader to the initial section header.
unfoldable pub header_counts : Ehdr → Counts
header_counts h = record {
  n_prog_hdrs = if h.e_phnum == 0xffff then check_section_header else h.e_phnum;
  n_sect_hdrs = if h.e_shnum == 0 then check_section_header else h.e_shnum;
  shstrtab_idx = if h.e_shstrndx == 0xffff then check_section_header else h.e_shstrndx;
}

-- The second half: the two tables of headers.
unfoldable pub parse_tables : Ehdr → Endianness → ElfType → HeaderParse
parse_tables h endianness type =
    if h.e_phoff == 0
    then rejected elf_parse_dislike
    else if h.e_shoff == 0
    then rejected elf_parse_dislike
    else if not (h.e_phentsize == 56) || not (h.e_shentsize == 64)
    then rejected elf_parse_dislike
    else accepted (record {
      endianness = endianness;
      type = type;
      prog_table_off = h.e_phoff;
      sect_table_off = h.e_shoff;
      counts = header_counts h;
    })

-- From the ABI to the machine: `ELFOSABI_NONE` and `ELFOSABI_SYSV` are 0, `ELFOSABI_LINUX` is 3,
-- `EV_CURRENT` is 1, `EM_X86_64` is 62.
unfoldable pub parse_target : Ehdr → Endianness → HeaderParse
parse_target h endianness =
    if not (h.e_ident 7 == 3) && not (h.e_ident 7 == 0)
    then rejected elf_parse_dislike
    else if not (h.e_ident 6 == 1) || not (h.e_ident 8 == 0) || not (h.e_version == 1)
    then rejected elf_parse_invalid
    else elim (type_of h.e_type) [
      | none ↦ rejected elf_parse_invalid
      | some type ↦
          if h.e_machine == 62 then parse_tables h endianness type else rejected elf_parse_dislike
    ]

unfoldable pub parse_elf_header : Ehdr → HeaderParse
parse_elf_header h =
    if not (h.e_ident 0 == 0x7f)
      || not (h.e_ident 1 == b'E')
      || not (h.e_ident 2 == b'L')
      || not (h.e_ident 3 == b'F')
    then rejected elf_parse_invalid
    else if not (h.e_ident 4 == 2)
    then rejected elf_parse_dislike
    else elim (endianness_of (h.e_ident 5)) [
      | none ↦ rejected elf_parse_dislike
      | some endianness ↦ parse_target h endianness
    ]

-- The values are `uint32_t`.
unfoldable pub parse_init_section : Shdr → Counts → Counts
parse_init_section init c = record {
  n_prog_hdrs = if c.n_prog_hdrs == check_section_header then init.sh_info else c.n_prog_hdrs;
  n_sect_hdrs =
      if c.n_sect_hdrs == check_section_header then init.sh_size % 2 ^ 32 else c.n_sect_hdrs;
  shstrtab_idx = if c.shstrtab_idx == check_section_header then init.sh_link else c.shstrtab_idx;
}
