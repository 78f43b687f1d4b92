-- ===== src/Breakpoints/Lookup.antt =====
-- The hash table of breakpoints: the two functions of src/breakpoints.c fit together, so a look-up
-- by address finds the entry last set for it.
use spray.Base.{ℕ, ◌≡◌, ◌≢◌, none, some, arith, ◌==◌, if◌then◌else◌}
use spray.Ptrace.{Ptrace}
use spray.Breakpoints.{
  Breakpoint, breakpoint_compare, breakpoint_hash, IsKeyed, Table, Target, init_breakpoints,
  get_breakpoint, at_addr, ensure_breakpoint,
}

-- `breakpoint_compare` tells whether two addresses are the same, and `breakpoint_hash` depends on
-- the address alone, whatever hash it uses.
pub breakpoint-IsKeyed : (sip : ℕ → ℕ → ℕ → ℕ) → IsKeyed (breakpoint_hash sip) breakpoint_compare
unfolding breakpoint_compare breakpoint_hash
breakpoint-IsKeyed sip = record {
  same = λ a. ground arith;
  symmetric = λ a b h. ground arith;
  transitive = λ a b c h k. ground arith;
  hash_agrees = λ a b s t h. ground arith;
}

module _ ⦃K : Ptrace⦄ ⦃H : Table⦄ where
  pub get_breakpoint-init : (s : K.Sys) (addr : ℕ) → get_breakpoint (init_breakpoints s) addr ≡ none
  unfolding get_breakpoint init_breakpoints
  get_breakpoint-init s addr = H.get_new (breakpoint-IsKeyed H.sip) (at_addr addr)

  pub get_breakpoint-set :
      (t : Target K H) (s : K.Sys) (b : Breakpoint) (addr : ℕ)
      → get_breakpoint (record { sys = s; map = H.put t.map b }) addr
        ≡ (if b.addr == addr then some b else get_breakpoint t addr)
  unfolding get_breakpoint breakpoint_compare
  get_breakpoint-set t s b addr =
      ground (arith, H.get_put (breakpoint-IsKeyed H.sip) t.map b (at_addr addr))

  pub get_breakpoint-addr :
      (t : Target K H) (addr : ℕ) (b : Breakpoint) → get_breakpoint t addr ≡ some b → b.addr ≡ addr
  unfolding get_breakpoint breakpoint_compare
  get_breakpoint-addr t addr b h =
      ground (arith, H.get_equal (breakpoint-IsKeyed H.sip) t.map b (at_addr addr))

  pub get_breakpoint-ensure :
      (t : Target K H) (addr b : ℕ)
      → get_breakpoint (ensure_breakpoint t addr) b ≡ elim (get_breakpoint t addr) [
        | none ↦ (if addr == b then some (at_addr addr) else get_breakpoint t b)
        | some _ ↦ get_breakpoint t b
      ]
  unfolding ensure_breakpoint
  get_breakpoint-ensure t addr b = ground (arith, get_breakpoint-set t t.sys (at_addr addr) b)

  pub sys-ensure : (t : Target K H) (addr : ℕ) → (ensure_breakpoint t addr).sys ≡ t.sys
  unfolding ensure_breakpoint
  sys-ensure t addr = ground arith

  -- The assertion in `enable_breakpoint` holds.
  pub get_breakpoint-ensure_self :
      (t : Target K H) (addr : ℕ) → get_breakpoint (ensure_breakpoint t addr) addr ≢ none
  get_breakpoint-ensure_self t addr = ground (arith, get_breakpoint-ensure t addr addr)
