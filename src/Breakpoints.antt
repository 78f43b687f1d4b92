-- ===== src/Breakpoints.antt =====
-- src/breakpoints.c: the table of breakpoints and the two operations that patch the tracee. The
-- hash table is the submodule hashmap.c, a parameter. The struct `Breakpoints` is its table, kept
-- beside the system in `Target`; its pid is that of the one tracee.
pub mod Lookup
pub mod Patch
pub mod Outcome
pub mod Restore
pub mod Effects
mod Tests
use spray.Base.{
  ℕ, zero, suc, ◌+◌, ◌≡◌, Bool, true, false, not, ◌&&◌, Option, none, some, ◌==◌, if◌then◌else◌,
  bit_and, bit_or,
}
use spray.Magic.{SprayResult, sp_ok, sp_err, int3, btm_byte_mask}
use spray.Ptrace.{Ptrace, pt_read_memory, pt_write_memory}

pub record Breakpoint : Type 0 where
  pub addr : ℕ
  pub is_enabled : Bool
  pub orig_data : ℕ

-- `(Breakpoint) {.addr = addr}`
abbrev pub at_addr : ℕ → Breakpoint
at_addr addr = record { addr = addr; is_enabled = false; orig_data = 0 }

-- 0 where the keys are equal, as `strcmp` has it.
unfoldable pub breakpoint_compare : Breakpoint → Breakpoint → ℕ
breakpoint_compare a b = if a.addr == b.addr then 0 else 1

-- `sip` stands for `hashmap_sip` of an eight-byte key and two seeds.
unfoldable pub breakpoint_hash : (ℕ → ℕ → ℕ → ℕ) → Breakpoint → ℕ → ℕ → ℕ
breakpoint_hash sip breakpoint seed0 seed1 = sip breakpoint.addr seed0 seed1

-- What hashmap.c asks of the two functions that it is given.
pub record IsKeyed (hash : Breakpoint → ℕ → ℕ → ℕ) (compare : Breakpoint → Breakpoint → ℕ)
    : Type 0 where
  pub same : (a : Breakpoint) → compare a a ≡ 0
  pub symmetric : (a b : Breakpoint) → compare a b ≡ 0 → compare b a ≡ 0
  pub transitive : (a b c : Breakpoint) → compare a b ≡ 0 → compare b c ≡ 0 → compare a c ≡ 0
  pub hash_agrees : (a b : Breakpoint) (s t : ℕ) → compare a b ≡ 0 → hash a s t ≡ hash b s t

-- hashmap.c as `hashmap_new` sets it up for these two functions. Where they fit together, a look-up
-- finds what was set last under an equal key.
pub record HashMap (hash : Breakpoint → ℕ → ℕ → ℕ) (compare : Breakpoint → Breakpoint → ℕ)
    : Type 1 where
  pub Map : Type 0
  pub new : Map
  pub get : Map → Breakpoint → Option Breakpoint
  pub put : Map → Breakpoint → Map
  pub get_new : IsKeyed hash compare → (k : Breakpoint) → get new k ≡ none
  pub get_put :
      IsKeyed hash compare
      → (m : Map) (x k : Breakpoint)
      → get (put m x) k ≡ (if compare x k == 0 then some x else get m k)
  pub get_equal :
      IsKeyed hash compare → (m : Map) (x k : Breakpoint) → get m k ≡ some x → compare x k ≡ 0

pub record Table : Type 1 where
  pub sip : ℕ → ℕ → ℕ → ℕ
  pub hashmap : HashMap (breakpoint_hash sip) breakpoint_compare
  pub open hashmap use *

-- `word & ~BTM_BYTE_MASK` on 64 bits
abbrev pub high_bytes : ℕ → ℕ
high_bytes word = bit_and word 0xffff_ffff_ffff_ff00

-- The debugged process: the system, and the breakpoints set in it.
pub record Target (K : Ptrace) (H : Table) : Type 0 where
  pub sys : K.Sys
  pub map : H.Map

module _ ⦃K : Ptrace⦄ ⦃H : Table⦄ where
  unfoldable pub init_breakpoints : K.Sys → Target K H
  init_breakpoints s = record { sys = s; map = H.new }

  unfoldable pub get_breakpoint : Target K H → ℕ → Option Breakpoint
  get_breakpoint t addr = H.get t.map (at_addr addr)

  unfoldable pub lookup_breakpoint : Target K H → ℕ → Bool
  lookup_breakpoint t address = elim (get_breakpoint t address) [
    | none ↦ false
    | some check ↦ check.is_enabled
  ]

  abbrev pub set_breakpoint : Target K H → Breakpoint → Target K H
  set_breakpoint t b = record t { map = H.put t.map b }

  -- The entry, after it has been created where it was missing.
  unfoldable pub ensure_breakpoint : Target K H → ℕ → Target K H
  ensure_breakpoint t addr = elim (get_breakpoint t addr) [
    | none ↦ set_breakpoint t (at_addr addr)
    | some _ ↦ t
  ]

  -- The entry is recorded once the write has succeeded.
  abbrev pub record_patch : Target K H → Breakpoint → SprayResult × K.Sys → SprayResult × Target K H
  record_patch t updated (sp_err, s) = (sp_err, record t { sys = s })
  record_patch t updated (sp_ok, s) = (sp_ok, record { sys = s; map = H.put t.map updated })

  unfoldable pub patch : Target K H → ℕ → ℕ → Breakpoint → SprayResult × Target K H
  patch t addr word updated = record_patch t updated (pt_write_memory t.sys addr word)

  -- The part of `enable_breakpoint` that has the entry at hand.
  unfoldable pub enable_entry : Target K H → Breakpoint → SprayResult × Target K H
  enable_entry t to_enable =
      if to_enable.is_enabled then (sp_ok, t) else elim (pt_read_memory t.sys to_enable.addr) [
        | none ↦ (sp_err, t)
        | some word ↦ patch t to_enable.addr (bit_or (high_bytes word) int3) (record {
          addr = to_enable.addr;
          is_enabled = true;
          orig_data = bit_and word btm_byte_mask;
        })
      ]

  -- The assertion that the entry is there once it has been set is the case `none`.
  unfoldable pub enable_breakpoint : Target K H → ℕ → SprayResult × Target K H
  enable_breakpoint t addr =
      let t' = ensure_breakpoint t addr in
      elim (get_breakpoint t' addr) [
        | none ↦ (sp_err, t')
        | some to_enable ↦ enable_entry t' to_enable
      ]

  -- The part of `disable_breakpoint` that has the entry at hand.
  unfoldable pub disable_entry : Target K H → Breakpoint → SprayResult × Target K H
  disable_entry t to_disable =
      if to_disable.is_enabled
      then elim (pt_read_memory t.sys to_disable.addr) [
        | none ↦ (sp_err, t)
        | some modified_word ↦
            patch t to_disable.addr (bit_or (high_bytes modified_word) to_disable.orig_data)
              (record {
                addr = to_disable.addr;
                is_enabled = false;
                orig_data = to_disable.orig_data;
              })
      ]
      else (sp_ok, t)

  unfoldable pub disable_breakpoint : Target K H → ℕ → SprayResult × Target K H
  disable_breakpoint t addr = elim (get_breakpoint t addr) [
    | none ↦ (sp_ok, t)
    | some to_disable ↦ disable_entry t to_disable
  ]
