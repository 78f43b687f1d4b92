-- ===== src/Elf/Image.antt =====
-- A small ELF file, and what it is parsed to.
use spray.Base.{
  ℕ, ◌+◌, ◌-◌, ◌*◌, ◌/◌, ◌%◌, ◌^◌, ◌&&◌, [], ◌∷◌, bytes, CString, leb, ltb, if◌then◌else◌,
}
use spray.Elf.{Bytes, ElfFile, elf_type_dyn, elf_endian_little}

-- A number, or a string, written over the bytes at an offset.
abbrev pub number : ℕ → ℕ → ℕ → Bytes → Bytes
number off n value b i = if leb off i && ltb i (off + n) then value / 256 ^ (i - off) % 256 else b i

abbrev pub text : ℕ → CString → Bytes → Bytes
text off [] b = b
text off (c ∷ cs) b = number off 1 c (text (off + 1) cs b)

-- The section `i`: its name, type, offset, size and size of an entry.
abbrev pub section_header : (i name type off size entsize : ℕ) → Bytes → Bytes
section_header i name type off size entsize b =
    let p = 64 + 64 * i in
    number p 4 name (
      number (p + 4) 4 type
        (number (p + 24) 8 off (number (p + 32) 8 size (number (p + 56) 8 entsize b))))

abbrev pub symbol_entry : (i name value size : ℕ) → Bytes → Bytes
symbol_entry i name value size b =
    let p = 400 + 24 * i in number p 4 name (number (p + 8) 8 value (number (p + 16) 8 size b))

abbrev pub elf_header : Bytes → Bytes
elf_header b = text 0 (0x7f ∷ bytes "ELF") (
    text 4 (2 ∷ 1 ∷ 1 ∷ 0 ∷ 0 ∷ []) (
      number 16 2 3 (
        number 18 2 62 (
          number 20 4 1 (
            number 32 8 0x1000 (
              number 40 8 64 (
                number 54 2 56
                  (number 56 2 1 (number 58 2 64 (number 60 2 4 (number 62 2 3 b)))))))))))

abbrev pub image : Bytes
image = elf_header (
    section_header 1 1 2 400 48 24 (
      section_header 2 9 3 460 16 0 (
        section_header 3 17 3 320 40 0 (
          text 321 (bytes ".symtab") (
            text 329 (bytes ".strtab") (
              symbol_entry 0 1 0x1100 0x20 (
                symbol_entry 1 6 0x1120 0x10
                  (text 461 (bytes "main") (text 466 (bytes "next") (λ i. 0))))))))))

abbrev pub elf : ElfFile
elf = record {
  type = elf_type_dyn;
  endianness = elf_endian_little;
  prog_table = record { n_headers = 1; headers = 0x1000 };
  sect_table = record {
    n_headers = 4;
    symtab_idx = 1;
    shstrtab_idx = 3;
    strtab_idx = 2;
    headers = 64;
  };
  bytes = image;
  n_bytes = 480;
}
