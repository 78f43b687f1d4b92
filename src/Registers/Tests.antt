-- ===== src/Registers/Tests.antt =====
-- Register look-ups, and the theorems about them at some registers.
use spray.Base.{◌≡◌, refl, ◌↔◌, none, some, [], ◌∷◌, map, bytes}
use spray.Base.Int.{pos}
use spray.Ptrace.{pt_read_registers, pt_write_registers}
use spray.Sample.{Machine, machine, machine-IsPtrace}
use spray.Registers.{
  rsp, rip, eflags, dwarf_regnum_to_x86_reg, get_register_from_name, get_name_from_register,
  get_register_value, set_register_value,
}
use spray.Registers.Descriptors.{dwarf_number, dwarf_regnum_iff, register_name_iff}
use spray.Registers.Values.{RegisterWritten, set_register_value_lem}

run_numbers :
    map dwarf_regnum_to_x86_reg (7 ∷ 49 ∷ 16 ∷ 255 ∷ []) ≡ some rsp ∷ some eflags ∷ none ∷ none ∷ []
unfolding dwarf_regnum_to_x86_reg
run_numbers = refl

run_names :
    map (λ s. get_register_from_name (bytes s)) ("rip" ∷ "eip" ∷ "rsp" ∷ [])
    ≡ some rip ∷ none ∷ some rsp ∷ []
unfolding get_register_from_name
run_names = refl

abbrev process : Machine
process = record {
  mem = λ b. 0;
  regs =
      0 ∷ 1 ∷ 2 ∷ 3 ∷ 4 ∷ 5 ∷ 6 ∷ 7 ∷ 8 ∷ 9 ∷ 10 ∷ 11 ∷ 12 ∷ 13 ∷ 14 ∷ 15 ∷ 16 ∷ 17 ∷ 18 ∷ 19 ∷ 20
      ∷ 21 ∷ 22 ∷ 23 ∷ 24 ∷ 25 ∷ 26 ∷ [];
  statuses = [];
  code = 0x80;
}

run_read : get_register_value process rip ≡ some 16
unfolding get_register_value pt_read_registers
run_read = refl

run_write : get_register_value (set_register_value process rip 0x401000).1 rip ≡ some 0x401000
unfolding get_register_value set_register_value pt_read_registers pt_write_registers
run_write = refl

dwarf_regnum_iff_example : (dwarf_regnum_to_x86_reg 7 ≡ some rsp) ↔ (dwarf_number rsp ≡ pos 7)
dwarf_regnum_iff_example = dwarf_regnum_iff 7 rsp

register_name_iff_example :
    (get_register_from_name (bytes "rip") ≡ some rip)
    ↔ (get_name_from_register rip ≡ some (bytes "rip"))
register_name_iff_example = register_name_iff (bytes "rip") rip

set_register_value_lem_example :
    RegisterWritten machine-IsPtrace process rip 0x401000 (set_register_value process rip 0x401000)
set_register_value_lem_example = set_register_value_lem machine-IsPtrace process rip 0x401000
