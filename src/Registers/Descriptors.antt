-- ===== src/Registers/Descriptors.antt =====
-- The table of registers read by name and by DWARF number.
use mathlib.Core.Path.{subst}
use spray.Base.{
  eq_bytes, ℕ, ◌≡◌, refl, ap, ◌↔◌, ◌∙◌, inl, inr, Bool-cases, none, some, List, [], ◌∷◌, CString,
  arith, eq_bytes_iff, ◌==◌,
}
use spray.Base.Int.{ℤ, pos, negsuc, eq_ℤ, eq_ℤ_iff}
use spray.Magic.{str_eq}
use spray.Registers.{
  X86Reg, r15, orig_rax, rip, index, RegDescriptor, reg_descriptors, find_descriptor, reg_of,
  dwarf_regnum_to_x86_reg, get_register_from_name, get_name_from_register,
}

-- Every register has a name, and the name leads back to it.
pub name_known :
    (reg : X86Reg)
    → (n : CString) × (get_name_from_register reg ≡ some n) × (get_register_from_name n ≡ some reg)
unfolding get_name_from_register get_register_from_name
name_known r15 = (_, refl, refl)
name_known _ = (_, refl, refl)

-- The number that the table gives a register; `orig_rax` and `rip` have -1.
abbrev pub dwarf_number : X86Reg → ℤ
unfolding reg_descriptors find_descriptor
dwarf_number reg = elim (find_descriptor (λ d. index d.r == index reg) reg_descriptors) [
  | none ↦ negsuc 0
  | some d ↦ d.dwarf_r
]

IsConsistent : List RegDescriptor → Type 0
IsConsistent [] = Unit
IsConsistent (d ∷ rest) = (dwarf_number d.r ≡ d.dwarf_r) × IsConsistent rest

reg_descriptors-IsConsistent : IsConsistent reg_descriptors
unfolding IsConsistent reg_descriptors dwarf_number
reg_descriptors-IsConsistent = ground arith

module _ (n : ℕ) (reg : X86Reg) where
  found_by_number :
      (l : List RegDescriptor)
      → IsConsistent l
      → reg_of (find_descriptor (λ d. eq_ℤ d.dwarf_r (pos n)) l) ≡ some reg
      → dwarf_number reg ≡ pos n
  unfolding IsConsistent find_descriptor
  found_by_number [] c h = cc
  found_by_number (d ∷ l) c h = elim (Bool-cases (eq_ℤ d.dwarf_r (pos n))) [
    | inl hit ↦
        let same : d.r ≡ reg = ground arith in
        rw (← same) (c.0 ∙ (eq_ℤ_iff d.dwarf_r (pos n)).0 hit)
    | inr miss ↦ found_by_number l c.1 (rw miss at h)
  ]

abbrev LeadsTo : X86Reg → ℤ → Type 0
LeadsTo reg (pos n) = dwarf_regnum_to_x86_reg n ≡ some reg
LeadsTo reg (negsuc n) = Unit

leads_back : (reg : X86Reg) → LeadsTo reg (dwarf_number reg)
unfolding dwarf_number dwarf_regnum_to_x86_reg
leads_back orig_rax = tt
leads_back rip = tt
leads_back _ = refl

-- A DWARF register number is translated to a register exactly when it is the number that the table
-- gives that register; so no two registers share a number, and -1 stands for none.
pub dwarf_regnum_iff :
    (n : ℕ) (reg : X86Reg) → (dwarf_regnum_to_x86_reg n ≡ some reg) ↔ (dwarf_number reg ≡ pos n)
unfolding dwarf_regnum_to_x86_reg
dwarf_regnum_iff n reg = (
  found_by_number n reg reg_descriptors reg_descriptors-IsConsistent,
  λ h. subst (LeadsTo reg) h (leads_back reg),
)

-- Likewise for names.
IsNamed : List RegDescriptor → Type 0
IsNamed [] = Unit
IsNamed (d ∷ rest) = (get_name_from_register d.r ≡ some d.name) × IsNamed rest

reg_descriptors-IsNamed : IsNamed reg_descriptors
unfolding IsNamed reg_descriptors get_name_from_register
reg_descriptors-IsNamed = ground arith

found_by_name :
    (name : CString) (reg : X86Reg) (l : List RegDescriptor)
    → IsNamed l
    → reg_of (find_descriptor (λ d. str_eq d.name name) l) ≡ some reg
    → get_name_from_register reg ≡ some name
unfolding IsNamed find_descriptor str_eq
found_by_name name reg [] c h = cc
found_by_name name reg (d ∷ l) c h = elim (Bool-cases (eq_bytes d.name name)) [
  | inl hit ↦
      let same : d.r ≡ reg = ground arith in
      rw (← same) (c.0 ∙ ap some ((eq_bytes_iff d.name name).0 hit))
  | inr miss ↦ found_by_name name reg l c.1 (rw miss at h)
]

known_by_name :
    (reg : X86Reg) (name : CString)
    → get_name_from_register reg ≡ some name
    → get_register_from_name name ≡ some reg
known_by_name reg name h =
    let (n, named, back) = name_known reg in let same : n ≡ name = cc in rw same at back

-- A name is that of a register exactly when it is the name that the table gives the register.
pub register_name_iff :
    (name : CString) (reg : X86Reg)
    → (get_register_from_name name ≡ some reg) ↔ (get_name_from_register reg ≡ some name)
unfolding get_register_from_name
register_name_iff name reg =
    (found_by_name name reg reg_descriptors reg_descriptors-IsNamed, known_by_name reg name)
