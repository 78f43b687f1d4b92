-- ===== src/Elf/Supported.antt =====
-- Which ELF headers src/spray_elf.c accepts, and the counts that it takes from them.
use spray.Base.{
  ℕ, ◌%◌, ◌^◌, ◌≤◌, ◌<◌, ◌≡◌, ◌≢◌, ◌↔◌, ◌⊎◌, some, none, inl, inr, arith, ◌==◌, if◌then◌else◌,
  Option-cases,
}
use spray.Elf.{Ehdr, Shdr, Endianness, ElfType}
use spray.Elf.Header.{
  Header, accepted, parse_elf_header, parse_target, parse_tables, parse_init_section, endianness_of,
  type_of, header_counts,
}

-- A header of a 64-bit file for x86-64 in a known encoding, ABI and type, with both tables.
pub record Supported (h : Ehdr) : Type 0 where
  pub magic :
      (h.e_ident 0 ≡ 0x7f) × (h.e_ident 1 ≡ 0x45) × (h.e_ident 2 ≡ 0x4c) × (h.e_ident 3 ≡ 0x46)
  pub class : h.e_ident 4 ≡ 2
  pub encoding : (h.e_ident 5 ≡ 1) ⊎ (h.e_ident 5 ≡ 2)
  pub abi : (h.e_ident 7 ≡ 3) ⊎ (h.e_ident 7 ≡ 0)
  pub version : (h.e_ident 6 ≡ 1) × (h.e_ident 8 ≡ 0) × (h.e_version ≡ 1)
  pub type : h.e_type ≤ 4
  pub machine : h.e_machine ≡ 62
  pub tables : (h.e_phoff ≢ 0) × (h.e_shoff ≢ 0)
  pub entries : (h.e_phentsize ≡ 56) × (h.e_shentsize ≡ 64)

endianness_of-some : (n : ℕ) (e : Endianness) → endianness_of n ≡ some e → (n ≡ 1) ⊎ (n ≡ 2)
unfolding endianness_of
endianness_of-some n e h = ground arith

type_of-some : (n : ℕ) (t : ElfType) → type_of n ≡ some t → n ≤ 4
unfolding type_of
type_of-some n t h = ground arith

endianness_of-none : (n : ℕ) → endianness_of n ≡ none → (n ≢ 1) × (n ≢ 2)
unfolding endianness_of
endianness_of-none n h = ground arith

type_of-none : (n : ℕ) → type_of n ≡ none → 4 < n
unfolding type_of
type_of-none n h = ground arith

accepted_encoding :
    (h : Ehdr) (r : Header)
    → parse_elf_header h ≡ accepted r
    → (e : Endianness) × (endianness_of (h.e_ident 5) ≡ some e)
unfolding parse_elf_header
accepted_encoding h r a = elim (Option-cases (endianness_of (h.e_ident 5))) [
  | inl missing ↦ ground arith
  | inr found ↦ found
]

accepted_type :
    (h : Ehdr) (r : Header)
    → parse_elf_header h ≡ accepted r
    → (t : ElfType) × (type_of h.e_type ≡ some t)
unfolding parse_elf_header parse_target
accepted_type h r a = elim (Option-cases (type_of h.e_type)) [
  | inl missing ↦ ground arith
  | inr found ↦ found
]

parse_elf_header→Supported : (h : Ehdr) (r : Header) → parse_elf_header h ≡ accepted r → Supported h
unfolding parse_elf_header parse_target parse_tables
parse_elf_header→Supported h r a =
    let encoding = accepted_encoding h r a in
    let type = accepted_type h r a in
    record {
      magic = ground arith;
      class = ground arith;
      encoding = endianness_of-some (h.e_ident 5) encoding.0 encoding.1;
      abi = ground arith;
      version = ground arith;
      type = type_of-some h.e_type type.0 type.1;
      machine = ground arith;
      tables = ground arith;
      entries = ground arith;
    }

Supported→accepted : (h : Ehdr) → Supported h → (r : Header) × (parse_elf_header h ≡ accepted r)
unfolding parse_elf_header parse_target parse_tables
Supported→accepted h s = elim (Option-cases (endianness_of (h.e_ident 5))) [
  | inl missing ↦ absurd (ground (arith, endianness_of-none (h.e_ident 5) missing, s.encoding))
  | inr (e, found) ↦ elim (Option-cases (type_of h.e_type)) [
    | inl missing ↦ absurd (omega (arith, type_of-none h.e_type missing, s.type))
    | inr (t, typed) ↦ (
      record {
        endianness = e;
        type = t;
        prog_table_off = h.e_phoff;
        sect_table_off = h.e_shoff;
        counts = header_counts h;
      },
      ground (arith, s.magic, s.class, s.abi, s.version, s.machine, s.tables, s.entries),
    )
  ]
]

-- `parse_elf_header` accepts exactly the supported headers.
pub parse_elf_header_iff :
    (h : Ehdr) → ((r : Header) × (parse_elf_header h ≡ accepted r)) ↔ Supported h
parse_elf_header_iff h = (λ (r, a). parse_elf_header→Supported h r a, Supported→accepted h)

pub accepted_counts :
    (h : Ehdr) (r : Header) → parse_elf_header h ≡ accepted r → r.counts ≡ header_counts h
unfolding parse_elf_header parse_target parse_tables
accepted_counts h r a =
    let encoding = accepted_encoding h r a in
    let type = accepted_type h r a in ground (arith, encoding.1, type.1)

-- What else an accepted header gives.
pub record Taken (h : Ehdr) (r : Header) : Type 0 where
  pub endianness : endianness_of (h.e_ident 5) ≡ some r.endianness
  pub type : type_of h.e_type ≡ some r.type
  pub prog_table_off : r.prog_table_off ≡ h.e_phoff
  pub sect_table_off : r.sect_table_off ≡ h.e_shoff

pub accepted-Taken : (h : Ehdr) (r : Header) → parse_elf_header h ≡ accepted r → Taken h r
unfolding parse_elf_header parse_target parse_tables
accepted-Taken h r a =
    let encoding = accepted_encoding h r a in
    let type = accepted_type h r a in
    record {
      endianness = ground (arith, encoding.1, type.1);
      type = ground (arith, encoding.1, type.1);
      prog_table_off = ground (arith, encoding.1, type.1);
      sect_table_off = ground (arith, encoding.1, type.1);
    }

-- The numbers of headers and the index of the section names, once the initial section header has
-- been read for an accepted ELF header with fewer than 65535 sections in its own field: they are
-- those of the ELF header, or those of the section header where the ELF header has the escape value.
pub header_counts_lem :
    (h : Ehdr) (init : Shdr) (r : Header)
    → parse_elf_header h ≡ accepted r
    → h.e_shnum < 0xffff
    → parse_init_section init r.counts ≡ record {
      n_prog_hdrs = if h.e_phnum == 0xffff then init.sh_info else h.e_phnum;
      n_sect_hdrs = if h.e_shnum == 0 then init.sh_size % 2 ^ 32 else h.e_shnum;
      shstrtab_idx = if h.e_shstrndx == 0xffff then init.sh_link else h.e_shstrndx;
    }
unfolding parse_init_section header_counts
header_counts_lem h init r a small = rw (accepted_counts h r a) (ground arith)
