-- ===== src/Elf.antt =====
-- src/spray_elf.h and src/spray_elf.c: the structures of an ELF file, and how a pointer into the
-- mapped file is read as one of them. The layout is that of elf.h on a little-endian machine.
pub mod Header
pub mod Sections
pub mod Symbols
pub mod Parse
pub mod Supported
pub mod FirstIndex
pub mod Found
pub mod Outcome
pub mod Image
mod Tests
use spray.Base.{ℕ, zero, suc, ◌+◌, ◌*◌, ◌%◌, Bool, ◌&&◌, CString, [], ◌∷◌, ◌==◌}

-- The memory from the start of a mapping on, byte by byte. Nothing in the program keeps a read
-- inside the file, so there is a byte at every offset.
abbrev pub Bytes : Type 0
Bytes = ℕ → ℕ

-- An unsigned number of `n` bytes.
abbrev pub number_at : Bytes → ℕ → ℕ → ℕ
number_at b off zero = 0
number_at b off (suc n) = b off % 256 + 256 * number_at b (suc off) n

-- Whether the string that ends in a 0 at an offset is the given one: `str_eq`.
unfoldable pub string_at : Bytes → ℕ → CString → Bool
string_at b off [] = b off == 0
string_at b off (c ∷ cs) = (b off == c) && string_at b (suc off) cs

-- The fields that the program reads of `Elf64_Ehdr`, `Elf64_Shdr` and `Elf64_Sym`.
pub record Ehdr : Type 0 where
  pub e_ident : Bytes
  pub e_type : ℕ
  pub e_machine : ℕ
  pub e_version : ℕ
  pub e_phoff : ℕ
  pub e_shoff : ℕ
  pub e_phentsize : ℕ
  pub e_phnum : ℕ
  pub e_shentsize : ℕ
  pub e_shnum : ℕ
  pub e_shstrndx : ℕ

pub record Shdr : Type 0 where
  pub sh_name : ℕ
  pub sh_type : ℕ
  pub sh_flags : ℕ
  pub sh_offset : ℕ
  pub sh_size : ℕ
  pub sh_link : ℕ
  pub sh_info : ℕ
  pub sh_entsize : ℕ

pub record Sym : Type 0 where
  pub st_name : ℕ
  pub st_info : ℕ
  pub st_other : ℕ
  pub st_value : ℕ
  pub st_size : ℕ

unfoldable pub ehdr_at : Bytes → ℕ → Ehdr
ehdr_at b off = record {
  e_ident = λ i. b (off + i);
  e_type = number_at b (off + 16) 2;
  e_machine = number_at b (off + 18) 2;
  e_version = number_at b (off + 20) 4;
  e_phoff = number_at b (off + 32) 8;
  e_shoff = number_at b (off + 40) 8;
  e_phentsize = number_at b (off + 54) 2;
  e_phnum = number_at b (off + 56) 2;
  e_shentsize = number_at b (off + 58) 2;
  e_shnum = number_at b (off + 60) 2;
  e_shstrndx = number_at b (off + 62) 2;
}

-- The entry `i` of a table of section headers at `off`.
unfoldable pub shdr_at : Bytes → ℕ → ℕ → Shdr
shdr_at b off i =
    let p = off + 64 * i in
    record {
      sh_name = number_at b p 4;
      sh_type = number_at b (p + 4) 4;
      sh_flags = number_at b (p + 8) 8;
      sh_offset = number_at b (p + 24) 8;
      sh_size = number_at b (p + 32) 8;
      sh_link = number_at b (p + 40) 4;
      sh_info = number_at b (p + 44) 4;
      sh_entsize = number_at b (p + 56) 8;
    }

-- The entry `i` of a table of symbols at `off`.
unfoldable pub symtab_at : Bytes → ℕ → ℕ → Sym
symtab_at b off i =
    let p = off + 24 * i in
    record {
      st_name = number_at b p 4;
      st_info = number_at b (p + 4) 1;
      st_other = number_at b (p + 5) 1;
      st_value = number_at b (p + 8) 8;
      st_size = number_at b (p + 16) 8;
    }

pub data ElfType : Type 0 where
  elf_type_none elf_type_rel elf_type_exec elf_type_dyn elf_type_core : ElfType

pub data Endianness : Type 0 where
  elf_endian_big elf_endian_little : Endianness

pub data ElfParseResult : Type 0 where
  elf_parse_ok elf_parse_io_err elf_parse_invalid elf_parse_dislike : ElfParseResult

-- The tables of headers are kept as their offsets.
pub record ElfSectTable : Type 0 where
  pub n_headers : ℕ
  pub symtab_idx : ℕ
  pub shstrtab_idx : ℕ
  pub strtab_idx : ℕ
  pub headers : ℕ

pub record ElfProgTable : Type 0 where
  pub n_headers : ℕ
  pub headers : ℕ

pub record ElfFile : Type 0 where
  pub type : ElfType
  pub endianness : Endianness
  pub prog_table : ElfProgTable
  pub sect_table : ElfSectTable
  pub bytes : Bytes
  pub n_bytes : ℕ
