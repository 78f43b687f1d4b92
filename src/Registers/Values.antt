-- ===== src/Registers/Values.antt =====
-- Reading and writing registers of the tracee.
use spray.Base.{
  ℕ, ◌<◌, ◌≡◌, sym, some, List, arith, Option-cases, inl, inr, set, get_elem?-set_self,
  get_elem?-set_ne, ◌==◌, if◌then◌else◌,
}
use native.Mathlib.Decide.{ℕ_discrete}
use spray.Magic.{SprayResult, sp_ok, sp_err}
use spray.Ptrace.{Ptrace, pt_read_registers, pt_write_registers}
use spray.Ptrace.Memory.{IsPtrace}
use spray.Registers.{X86Reg, r15, index, get_register_value, set_register_value}

pub index-lt : (reg : X86Reg) → index reg < 27
index-lt r15 = omega arith
index-lt _ = omega arith

module _ ⦃K : Ptrace⦄ (L : IsPtrace K) (s : K.Sys) (reg : X86Reg) (v : ℕ) where
  open L use {byte_at, get_regs_length, get_regs_set, byte_at_set}

  -- The system with one register changed.
  pub record RegisterSet (s' : K.Sys) : Type 0 where
    pub registers :
        (other : X86Reg)
        → get_register_value s' other
          ≡ (if index other == index reg then some v else get_register_value s other)
    pub memory : (b : ℕ) → byte_at s' b ≡ byte_at s b

  -- What `set_register_value` comes to: success with one register changed, or an error with nothing changed.
  pub data RegisterWritten : SprayResult × K.Sys → Type 0 where
    done : {s' : K.Sys} → RegisterSet s' → RegisterWritten (sp_ok, s')
    failed : RegisterWritten (sp_err, s)

  registers_after :
      (regs : List ℕ) (s' : K.Sys)
      → K.get_regs s ≡ some regs
      → K.set_regs s (set regs (index reg) v) ≡ some s'
      → (other : X86Reg)
      → get_register_value s' other
        ≡ (if index other == index reg then some v else get_register_value s other)
  unfolding get_register_value pt_read_registers
  registers_after regs s' read written other =
      let now = get_regs_set s _ s' written in
      let here =
        get_elem?-set_self regs (index reg) v
          (omega (arith, get_regs_length s regs read, index-lt reg)) in
      elim (ℕ_discrete (index other) (index reg)) [
        | yes same ↦ rw (now, get_register_value, pt_read_registers, read) (ground (arith, here))
        | no differ ↦
            ground (
              arith,
              now,
              get_elem?-set_ne regs v (λ (e : index reg ≡ index other). differ (sym e)),
            )
      ]

  pub set_register_value_lem : RegisterWritten (set_register_value s reg v)
  unfolding set_register_value get_register_value pt_read_registers pt_write_registers
  set_register_value_lem = elim (Option-cases (K.get_regs s)) [
    | inl unread ↦ rw (unread, set_register_value, pt_read_registers) failed
    | inr (regs, read) ↦ elim (Option-cases (K.set_regs s (set regs (index reg) v))) [
      | inl unwritten ↦
          rw (read, set_register_value, pt_read_registers)
            (rw (unwritten, pt_write_registers) failed)
      | inr (s', written) ↦
          rw (read, set_register_value, pt_read_registers)
            (rw (written, pt_write_registers)
              (done (record {
                registers = λ other. registers_after regs s' read written other;
                memory = byte_at_set s _ s' written;
              })))
    ]
  ]
