-- ===== src/Registers.antt =====
-- src/registers.h and src/registers.c: the registers of the tracee and the table that describes them.
pub mod Descriptors
pub mod Values
mod Tests
use spray.Base.{
  ℕ, ◌%◌, Bool, true, false, Option, none, some, List, [], ◌∷◌, CString, bytes, String, ◌==◌,
  if◌then◌else◌, get_elem?, set,
}
use spray.Base.Int.{ℤ, pos, negsuc, eq_ℤ}
use spray.Magic.{SprayResult, sp_ok, sp_err, str_eq}
use spray.Ptrace.{Ptrace, pt_read_registers, pt_write_registers}

-- `x86_reg`
pub data X86Reg : Type 0 where
  r15 r14 r13 r12 rbp rbx r11 r10 r9 r8 rax rcx rdx rsi rdi : X86Reg
  orig_rax rip cs eflags rsp ss fs_base gs_base ds es fs gs : X86Reg

-- The value of the enumerator, which is the index into `struct user_regs_struct`.
abbrev pub index : X86Reg → ℕ
index r15 = 0
index r14 = 1
index r13 = 2
index r12 = 3
index rbp = 4
index rbx = 5
index r11 = 6
index r10 = 7
index r9 = 8
index r8 = 9
index rax = 10
index rcx = 11
index rdx = 12
index rsi = 13
index rdi = 14
index orig_rax = 15
index rip = 16
index cs = 17
index eflags = 18
index rsp = 19
index ss = 20
index fs_base = 21
index gs_base = 22
index ds = 23
index es = 24
index fs = 25
index gs = 26

pub record RegDescriptor : Type 0 where
  pub r : X86Reg
  pub dwarf_r : ℤ
  pub name : CString

abbrev pub descriptor : X86Reg → ℤ → String → RegDescriptor
descriptor r n s = record { r = r; dwarf_r = n; name = bytes s }

unfoldable pub reg_descriptors : List RegDescriptor
reg_descriptors =
    descriptor r15 (pos 15) "r15"
    ∷ descriptor r14 (pos 14) "r14"
    ∷ descriptor r13 (pos 13) "r13"
    ∷ descriptor r12 (pos 12) "r12"
    ∷ descriptor rbp (pos 6) "rbp"
    ∷ descriptor rbx (pos 3) "rbx"
    ∷ descriptor r11 (pos 11) "r11"
    ∷ descriptor r10 (pos 10) "r10"
    ∷ descriptor r9 (pos 9) "r9"
    ∷ descriptor r8 (pos 8) "r8"
    ∷ descriptor rax (pos 0) "rax"
    ∷ descriptor rcx (pos 2) "rcx"
    ∷ descriptor rdx (pos 1) "rdx"
    ∷ descriptor rsi (pos 4) "rsi"
    ∷ descriptor rdi (pos 5) "rdi"
    ∷ descriptor orig_rax (negsuc 0) "orig_rax"
    ∷ descriptor rip (negsuc 0) "rip"
    ∷ descriptor cs (pos 51) "cs"
    ∷ descriptor eflags (pos 49) "eflags"
    ∷ descriptor rsp (pos 7) "rsp"
    ∷ descriptor ss (pos 52) "ss"
    ∷ descriptor fs_base (pos 58) "fs_base"
    ∷ descriptor gs_base (pos 59) "gs_base"
    ∷ descriptor ds (pos 53) "ds"
    ∷ descriptor es (pos 50) "es"
    ∷ descriptor fs (pos 54) "fs"
    ∷ descriptor gs (pos 55) "gs"
    ∷ []

-- The loops over the table: the first descriptor that passes the test.
unfoldable pub find_descriptor : (RegDescriptor → Bool) → List RegDescriptor → Option RegDescriptor
find_descriptor test [] = none
find_descriptor test (d ∷ rest) = if test d then some d else find_descriptor test rest

abbrev pub reg_of : Option RegDescriptor → Option X86Reg
reg_of none = none
reg_of (some d) = some d.r

-- `none` is the result `false`, which leaves `*store` alone.
unfoldable pub dwarf_regnum_to_x86_reg : ℕ → Option X86Reg
unfolding reg_descriptors find_descriptor
dwarf_regnum_to_x86_reg dwarf_regnum =
    reg_of (find_descriptor (λ d. eq_ℤ d.dwarf_r (pos dwarf_regnum)) reg_descriptors)

unfoldable pub get_register_from_name : CString → Option X86Reg
unfolding reg_descriptors find_descriptor str_eq
get_register_from_name name = reg_of (find_descriptor (λ d. str_eq d.name name) reg_descriptors)

-- The name, or `none` where the assertion that there is one fails.
unfoldable pub get_name_from_register : X86Reg → Option CString
unfolding reg_descriptors find_descriptor
get_name_from_register reg = elim (find_descriptor (λ d. index d.r == index reg) reg_descriptors) [
  | none ↦ none
  | some d ↦ some d.name
]

module _ ⦃K : Ptrace⦄ where
  -- `none` is `SP_ERR`, which leaves `*read` alone.
  unfoldable pub get_register_value : K.Sys → X86Reg → Option ℕ
  get_register_value s reg = elim (pt_read_registers s) [
    | none ↦ none
    | some regs ↦ get_elem? regs (index reg)
  ]

  unfoldable pub set_register_value : K.Sys → X86Reg → ℕ → SprayResult × K.Sys
  set_register_value s reg write = elim (pt_read_registers s) [
    | none ↦ (sp_err, s)
    | some regs ↦ pt_write_registers s (set regs (index reg) write)
  ]

  -- The register number is an `int8_t`, given by its bits, which the call reads as a `uint8_t`.
  unfoldable pub get_dwarf_register_value : K.Sys → ℕ → Option ℕ
  get_dwarf_register_value s dwarf_regnum = elim (dwarf_regnum_to_x86_reg dwarf_regnum) [
    | none ↦ none
    | some associated_reg ↦ get_register_value s associated_reg
  ]
