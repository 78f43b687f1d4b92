-- ===== src/Breakpoints/Effects.antt =====
-- What a caller of src/breakpoints.c sees of one call, on success and on error.
use spray.Base.{ℕ, ◌≡◌, refl, Bool, true, false, Option, some, none, arith, ◌==◌, if◌then◌else◌}
use spray.Magic.{SprayResult, sp_ok, sp_err, int3}
use spray.Ptrace.{Ptrace}
use spray.Ptrace.Memory.{IsPtrace}
use spray.Breakpoints.{Table, Target, lookup_breakpoint, enable_breakpoint, disable_breakpoint}
use spray.Breakpoints.Outcome.{
  lookup-active, Same, Changed, Enabled, already, refused, trapped, Disabled, absent, kept,
  restored, enable_lem, disable_lem,
}
use spray.Breakpoints.Restore.{IsPatched, original}

module _ ⦃K : Ptrace⦄ ⦃H : Table⦄ where
  -- The result of a call: `ok` says what holds after `SP_OK`, `bad` what holds after `SP_ERR`.
  abbrev pub Result : (ok bad : Target K H → Type 0) → SprayResult × Target K H → Type 0
  Result ok bad (sp_ok, t') = ok t'
  Result ok bad (sp_err, t') = bad t'

module _ ⦃K : Ptrace⦄ ⦃H : Table⦄ (L : IsPtrace K) where
  open L use {byte_at, byte_lt}

  -- Memory and breakpoints as they were.
  pub record Untouched (t t' : Target K H) : Type 0 where
    pub bytes : (b : ℕ) → byte_at t'.sys b ≡ byte_at t.sys b
    pub lookups : (b : ℕ) → lookup_breakpoint t' b ≡ lookup_breakpoint t b

  -- The byte at `a` is `x`, the breakpoint there is on or off, and nothing else has changed.
  pub record SetAt (t : Target K H) (a x : ℕ) (on : Bool) (t' : Target K H) : Type 0 where
    pub bytes : (b : ℕ) → byte_at t'.sys b ≡ (if b == a then x else byte_at t.sys b)
    pub lookups : (b : ℕ) → lookup_breakpoint t' b ≡ (if b == a then on else lookup_breakpoint t b)

  Untouched-Same : {t t' : Target K H} → Same L t t' → Untouched t t'
  Untouched-Same {t} {t'} s = record {
    bytes = s.bytes;
    lookups = λ b. ground (arith, s.entries b, lookup-active t b, lookup-active t' b);
  }

  SetAt-Changed :
      {t t' : Target K H} (a x : ℕ) (o : Option ℕ)
      → Changed L t a x o t'
      → SetAt t a x (elim o [ none ↦ false | some _ ↦ true ]) t'
  SetAt-Changed {t} {t'} a x o c = record {
    bytes = c.bytes;
    lookups = λ b. ground (arith, c.entries b, lookup-active t b, lookup-active t' b);
  }

  Result-Enabled :
      {t : Target K H} {a : ℕ} {r : SprayResult × Target K H}
      → IsPatched L t
      → Enabled L t a r
      → Result (SetAt t a int3 true) (λ t'. Untouched t t' × (lookup_breakpoint t' a ≡ false)) r
  Result-Enabled {t} {a} p (already {t'} {x} h s) = record {
    bytes = λ b. ground (arith, s.bytes b, p.trap a x h);
    lookups = λ b. ground (arith, h, s.entries b, lookup-active t b, lookup-active t' b);
  }
  Result-Enabled {t} {a} p (refused {t'} h s) =
      (Untouched-Same s, ground (arith, h, s.entries a, lookup-active t' a))
  Result-Enabled {t} {a} p (trapped h c) = SetAt-Changed a int3 (some (byte_at t.sys a)) c

  Result-Disabled :
      {t : Target K H} {a : ℕ} {r : SprayResult × Target K H}
      → Disabled L t a r
      → Result
          (SetAt t a (original L t a) false)
          (λ t'. (t' ≡ t) × (lookup_breakpoint t a ≡ true))
          r
  Result-Disabled {t} {a} (absent h) = record {
    bytes = λ b. ground (arith, h);
    lookups = λ b. ground (arith, h, lookup-active t b);
  }
  Result-Disabled {t} {a} (kept h) = (refl, ground (arith, lookup-active t a))
  Result-Disabled {t} {a} (restored {t'} {x} h c) = record {
    bytes = λ b. ground (arith, h, c.bytes b);
    lookups = λ b. ground (arith, c.entries b, lookup-active t b, lookup-active t' b);
  }

  -- If `enable_breakpoint` succeeds, the byte at the address is the trap and the breakpoint is
  -- found there; every other byte and breakpoint is as it was. If it fails, no byte of the tracee and
  -- no breakpoint has changed, and there is none in force at the address.
  pub enable_effects :
      (t : Target K H) (a : ℕ)
      → IsPatched L t
      → Result
          (SetAt t a int3 true)
          (λ t'. Untouched t t' × (lookup_breakpoint t' a ≡ false))
          (enable_breakpoint t a)
  enable_effects t a p = Result-Enabled p (enable_lem L t a)

  -- If `disable_breakpoint` succeeds, the byte at the address is the program's own and no breakpoint is
  -- found there; every other byte and breakpoint is as it was. If it fails, nothing at all has
  -- changed and the breakpoint is still in force.
  pub disable_effects :
      (t : Target K H) (a : ℕ)
      → IsPatched L t
      → Result
          (SetAt t a (original L t a) false)
          (λ t'. (t' ≡ t) × (lookup_breakpoint t a ≡ true))
          (disable_breakpoint t a)
  disable_effects t a p = Result-Disabled (disable_lem L t a (p.small a))
