-- ===== src/Magic.antt =====
-- src/magic.h and src/magic.c: result codes, constants and addresses. The formats are in `Format`.
pub mod Format
pub mod FilePath
use spray.Base.{ℕ, ◌+◌, ◌-◌, ◌%◌, ◌^◌, ◌<◌, ◌≡◌, Bool, CString, eq_bytes, arith}

pub data SprayResult : Type 0 where
  sp_ok sp_err : SprayResult

-- `enum magic_numbers`
abbrev pub int3 : ℕ
int3 = 0xcc

abbrev pub btm_byte_mask : ℕ
btm_byte_mask = 0xff

abbrev pub n_registers : ℕ
n_registers = 27

abbrev pub single_step_search_limit : ℕ
single_step_search_limit = 128

-- The number of values of a `uint64_t`.
abbrev pub word_mod : ℕ
word_mod = 2 ^ 64

unfoldable pub str_eq : CString → CString → Bool
unfolding eq_bytes
str_eq a b = eq_bytes a b

-- `real.value - offset.value` and `dwarf.value + offset.value` on `uint64_t`.
unfoldable pub real_to_dbg : ℕ → ℕ → ℕ
real_to_dbg offset real = (real + word_mod - offset) % word_mod

unfoldable pub dbg_to_real : ℕ → ℕ → ℕ
dbg_to_real offset dwarf = (dwarf + offset) % word_mod

-- A debug address comes back from its real address.
pub real_to_dbg-dbg_to_real :
    (offset addr : ℕ)
    → offset < word_mod
    → addr < word_mod
    → real_to_dbg offset (dbg_to_real offset addr) ≡ addr
unfolding real_to_dbg dbg_to_real
real_to_dbg-dbg_to_real offset addr h k = omega arith

pub dbg_to_real-real_to_dbg :
    (offset addr : ℕ)
    → offset < word_mod
    → addr < word_mod
    → dbg_to_real offset (real_to_dbg offset addr) ≡ addr
unfolding real_to_dbg dbg_to_real
dbg_to_real-real_to_dbg offset addr h k = omega arith
