-- ===== src/Ptrace.antt =====
-- src/ptrace.c: the wrappers of ptrace(2), over the operating system as a parameter. The pid is
-- left out: every call of the program is about its one tracee.
pub mod Memory
use spray.Base.{ℕ, Bool, Option, none, some, List, ◌==◌, if◌then◌else◌}
use spray.Magic.{SprayResult, sp_ok, sp_err}

-- The fields of `siginfo_t` that the program reads.
pub record Siginfo : Type 0 where
  pub si_signo : ℕ
  pub si_code : ℕ

-- What the operating system does to the tracee, one field for each request of ptrace(2) and for
-- waitpid(2). `none` is the return value -1, after which the system is as it was.
pub record Ptrace : Type 1 where
  pub Sys : Type 0
  -- the word and `errno`
  pub peek_data : Sys → ℕ → record { value : ℕ; errno : ℕ }
  pub poke_data : Sys → ℕ → ℕ → Option Sys
  -- `struct user_regs_struct` as its words
  pub get_regs : Sys → Option (List ℕ)
  pub set_regs : Sys → List ℕ → Option Sys
  -- `errno` is 0 on success
  pub cont : Sys → record { errno : ℕ; sys : Sys }
  pub single_step : Sys → Option Sys
  pub get_siginfo : Sys → Option Siginfo
  -- the status, and the system once the tracee has changed its state
  pub waitpid : Sys → record { status : ℕ; sys : Sys }

module _ ⦃K : Ptrace⦄ where
  -- A word read into `*read`; `none` is `SP_ERR`, which leaves `*read` alone.
  unfoldable pub pt_read_memory : K.Sys → ℕ → Option ℕ
  pt_read_memory s addr = let r = K.peek_data s addr in if r.errno == 0 then some r.value else none

  unfoldable pub pt_write_memory : K.Sys → ℕ → ℕ → SprayResult × K.Sys
  pt_write_memory s addr write = elim (K.poke_data s addr write) [
    | none ↦ (sp_err, s)
    | some s' ↦ (sp_ok, s')
  ]

  unfoldable pub pt_read_registers : K.Sys → Option (List ℕ)
  pt_read_registers s = elim (K.get_regs s) [ none ↦ none | some regs ↦ some regs ]

  unfoldable pub pt_write_registers : K.Sys → List ℕ → SprayResult × K.Sys
  pt_write_registers s regs = elim (K.set_regs s regs) [
    | none ↦ (sp_err, s)
    | some s' ↦ (sp_ok, s')
  ]

  -- The result, and what the call leaves in `errno`.
  unfoldable pub pt_continue_execution : K.Sys → SprayResult × ℕ × K.Sys
  pt_continue_execution s =
      let r = K.cont s in if r.errno == 0 then (sp_ok, 0, r.sys) else (sp_err, r.errno, r.sys)

  unfoldable pub pt_single_step : K.Sys → SprayResult × K.Sys
  pt_single_step s = elim (K.single_step s) [ none ↦ (sp_err, s) | some s' ↦ (sp_ok, s') ]

  -- `none` is `SP_ERR`, which leaves `*siginfo` alone.
  unfoldable pub pt_get_signal_info : K.Sys → Option Siginfo
  pt_get_signal_info s = elim (K.get_siginfo s) [ none ↦ none | some info ↦ some info ]
