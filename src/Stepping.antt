-- ===== src/Stepping.antt =====
-- src/debugger.c: running the tracee, and stepping it over its breakpoints. A wait that sees the
-- tracee stopped by SIGWINCH resumes it and waits again, as often as the system has it, so waiting takes
-- fuel; `Termination` says how much is enough. `none` is a run without a result: the fuel is used
-- up, or an assertion has failed.
pub mod Lines
pub mod Stable
pub mod Callback
pub mod Access
pub mod Safety
pub mod Text
pub mod Restored
pub mod Users
pub mod Termination
pub mod Loops
pub mod Trap
pub mod SampleText
mod Tests
mod Resized
mod LineTests
use spray.Base.{
  ℕ, zero, suc, ◌+◌, ◌-◌, ◌%◌, bit_and, Bool, true, false, not, ◌&&◌, ◌||◌, Option, none, some, ltb,
  ◌==◌, if◌then◌else◌,
}
use spray.Magic.{SprayResult, sp_ok, sp_err, word_mod, real_to_dbg}
use spray.Ptrace.{
  Ptrace, Siginfo, pt_read_memory, pt_continue_execution, pt_single_step, pt_get_signal_info,
}
use spray.Registers.{rip, rbp, get_register_value, set_register_value}
use spray.Breakpoints.{Table, Target, lookup_breakpoint, enable_breakpoint, disable_breakpoint}

-- The macros of wait(2) on a status.
abbrev pub wifexited : ℕ → Bool
wifexited status = bit_and status 0x7f == 0

abbrev pub wifsignaled : ℕ → Bool
wifsignaled status = let low = bit_and status 0x7f in not (low == 0) && not (low == 0x7f)

abbrev pub wifcontinued : ℕ → Bool
wifcontinued status = status == 0xffff

abbrev pub wifstopped : ℕ → Bool
wifstopped status = bit_and status 0xff == 0x7f

-- The branches of `wait_for_signal`, in the order of its tests.
pub data WaitStatus : Type 0 where
  exited signaled continued stopped invalid : WaitStatus

unfoldable pub wait_status : ℕ → WaitStatus
wait_status status =
    if wifexited status
    then exited
    else if wifsignaled status
    then signaled
    else if wifcontinued status
    then continued
    else if wifstopped status
    then stopped
    else invalid

-- `siginfo_t siginfo = { 0 }`, where it is not filled in
abbrev pub no_siginfo : Siginfo
no_siginfo = record { si_signo = 0; si_code = 0 }

abbrev pub sigtrap : ℕ
sigtrap = 5

abbrev pub sigwinch : ℕ
sigwinch = 28

abbrev pub esrch : ℕ
esrch = 3

module _ ⦃K : Ptrace⦄ ⦃H : Table⦄ where
  -- The result of an operation that waits for the tracee, and the process that it leaves.
  abbrev pub Run : Type 0
  Run = Option (SprayResult × Target K H)

  -- `then_run r f` goes on with `f` after the run `r`.
  unfoldable pub then_run : Run → (SprayResult → Target K H → Run) → Run
  then_run none f = none
  then_run (some (res, t)) f = f res t

  abbrev pub with_sys : Target K H → K.Sys → Target K H
  with_sys t s = record t { sys = s }

  unfoldable pub get_pc : Target K H → ℕ
  get_pc t = elim (get_register_value t.sys rip) [ none ↦ 0 | some store ↦ store ]

  unfoldable pub get_dbg_pc : ℕ → Target K H → ℕ
  get_dbg_pc load_address t = real_to_dbg load_address (get_pc t)

  unfoldable pub set_pc : Target K H → ℕ → Target K H
  set_pc t pc = with_sys t (set_register_value t.sys rip pc).1

  unfoldable pub is_user_breakpoint : Target K H → Bool
  is_user_breakpoint t = lookup_breakpoint t (get_pc t)

  -- One instruction of the tracee; the code does not look at the result.
  unfoldable pub step_tracee : Target K H → Target K H
  step_tracee t = with_sys t (pt_single_step t.sys).1

  -- `wait` stands for `wait_for_signal`.
  unfoldable pub single_step_breakpoint : (wait : Target K H → Run) → Target K H → Run
  single_step_breakpoint wait t =
      let pc_address = get_pc t in
      elim (lookup_breakpoint t pc_address) [
        | false ↦ some (sp_ok, t)
        | true ↦
            then_run (wait (step_tracee (disable_breakpoint t pc_address).1))
              (λ res t'. some (res, (enable_breakpoint t' pc_address).1))
      ]

  -- The part of `continue_execution` that resumes the tracee.
  unfoldable pub resume : Target K H → SprayResult × Target K H
  resume t =
      let (res, errno, s) = pt_continue_execution t.sys in
      (if errno == esrch then sp_err else sp_ok, with_sys t s)

  unfoldable pub continue_execution : (wait : Target K H → Run) → Target K H → Run
  continue_execution wait t = then_run (single_step_breakpoint wait t) (λ res t'. some (resume t'))

  -- `SI_KERNEL` is 0x80, `TRAP_BRKPT` is 1.
  unfoldable pub handle_sigtrap : Target K H → Siginfo → Target K H
  handle_sigtrap t siginfo =
      if (siginfo.si_code == 0x80) || (siginfo.si_code == 1)
      then set_pc t ((get_pc t + (word_mod - 1)) % word_mod)
      else t

  abbrev pub siginfo_of : Option Siginfo → Siginfo
  siginfo_of none = no_siginfo
  siginfo_of (some siginfo) = siginfo

  -- The tracee was stopped by a signal.
  unfoldable pub handle_stop : (wait : Target K H → Run) → Siginfo → Target K H → Run
  handle_stop wait siginfo t = elim (siginfo.si_signo == sigtrap) [
    | true ↦ some (sp_ok, handle_sigtrap t siginfo)
    | false ↦ elim (siginfo.si_signo == sigwinch) [
      | true ↦ then_run (continue_execution wait t) (λ res t'. wait t')
      | false ↦ some (sp_ok, t)
    ]
  ]

  abbrev pub handle_status : (wait : Target K H → Run) → WaitStatus → Target K H → Run
  handle_status wait exited t = some (sp_err, t)
  handle_status wait signaled t = some (sp_err, t)
  handle_status wait continued t = some (sp_ok, t)
  handle_status wait stopped t = handle_stop wait (siginfo_of (pt_get_signal_info t.sys)) t
  handle_status wait invalid t = some (sp_err, t)

  unfoldable pub wait_for_signal : ℕ → Target K H → Run
  wait_for_signal zero t = none
  wait_for_signal (suc fuel) t =
      let w = K.waitpid t.sys in
      handle_status (wait_for_signal fuel) (wait_status w.status) (with_sys t w.sys)

  unfoldable pub single_step_instruction : ℕ → Target K H → Run
  single_step_instruction fuel t = elim (lookup_breakpoint t (get_pc t)) [
    | true ↦ then_run (single_step_breakpoint (wait_for_signal fuel) t) (λ res t'. some (sp_ok, t'))
    | false ↦ wait_for_signal fuel (step_tracee t)
  ]

  -- The word on the stack that the frame pointer leads to; 0 where it cannot be read.
  unfoldable pub return_address : Target K H → ℕ → ℕ
  return_address t frame_pointer = elim (pt_read_memory t.sys ((frame_pointer + 8) % word_mod)) [
    | none ↦ 0
    | some w ↦ w
  ]

  -- Whether a breakpoint was set, and where.
  pub record Transient : Type 0 where
    pub remove : Bool
    pub address : ℕ
    pub target : Target K H

  -- `none` is the failed assertion that the frame pointer can be read.
  unfoldable pub set_return_address_breakpoint : Target K H → Option Transient
  set_return_address_breakpoint t = elim (get_register_value t.sys rbp) [
    | none ↦ none
    | some frame_pointer ↦
        let address = return_address t frame_pointer in
        some (
          if lookup_breakpoint t address
          then record { remove = false; address = address; target = t }
          else record {
            remove = true;
            address = address;
            target = (enable_breakpoint t address).1;
          })
  ]

  unfoldable pub remove_transient : Bool → ℕ → Target K H → Target K H
  remove_transient remove address t = if remove then (disable_breakpoint t address).1 else t

  unfoldable pub continue_and_wait : ℕ → Target K H → Run
  continue_and_wait fuel t =
      then_run (continue_execution (wait_for_signal fuel) t) (λ res t'. wait_for_signal fuel t')

  unfoldable pub step_out : ℕ → Target K H → Run
  step_out fuel t = elim (set_return_address_breakpoint t) [
    | none ↦ none
    | some b ↦
        then_run (continue_and_wait fuel b.target)
          (λ res t'. some (res, remove_transient b.remove b.address t'))
  ]
