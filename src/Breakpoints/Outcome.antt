-- ===== src/Breakpoints/Outcome.antt =====
-- What `enable_breakpoint` and `disable_breakpoint` do, on every path, to the bytes of the tracee and
-- to the breakpoints that are in force.
use spray.Base.{
  ℕ, ◌<◌, ◌≡◌, refl, ap, ◌∙◌, inl, inr, true, false, Option, some, none, arith, ◌==◌, if◌then◌else◌,
  bit_and, Option-cases, Bool-cases,
}
use spray.Magic.{SprayResult, sp_ok, sp_err, int3, btm_byte_mask}
use spray.Ptrace.{Ptrace, pt_read_memory}
use spray.Ptrace.Memory.{IsPtrace}
use spray.Breakpoints.{
  Breakpoint, Table, Target, get_breakpoint, lookup_breakpoint, ensure_breakpoint, enable_entry,
  enable_breakpoint, disable_entry, disable_breakpoint,
}
use spray.Breakpoints.Lookup.{
  get_breakpoint-addr, get_breakpoint-ensure, get_breakpoint-ensure_self, sys-ensure,
}
use spray.Breakpoints.Patch.{Wrote, Patched, failed, wrote, patch_lem, low_byte}

-- The byte that an entry in force stands for.
abbrev pub saved : Option Breakpoint → Option ℕ
saved none = none
saved (some b) = if b.is_enabled then some b.orig_data else none

module _ ⦃K : Ptrace⦄ ⦃H : Table⦄ where
  -- The breakpoints in force, with the program's own byte under each.
  unfoldable pub active : Target K H → ℕ → Option ℕ
  active t a = saved (get_breakpoint t a)

  pub lookup-active :
      (t : Target K H) (a : ℕ)
      → lookup_breakpoint t a ≡ elim (active t a) [ none ↦ false | some _ ↦ true ]
  unfolding active lookup_breakpoint
  lookup-active t a = ground arith

  pub active-ensure : (t : Target K H) (a b : ℕ) → active (ensure_breakpoint t a) b ≡ active t b
  unfolding active
  active-ensure t a b = ground (arith, get_breakpoint-ensure t a b)

module _ ⦃K : Ptrace⦄ ⦃H : Table⦄ (L : IsPtrace K) where
  open L use {byte_at, byte_lt}

  -- Neither a byte nor a breakpoint in force differs.
  pub record Same (t t' : Target K H) : Type 0 where
    pub bytes : (b : ℕ) → byte_at t'.sys b ≡ byte_at t.sys b
    pub entries : (b : ℕ) → active t' b ≡ active t b

  -- Byte `x` at `a`, and `o` in force there; nothing else differs.
  pub record Changed (t : Target K H) (a x : ℕ) (o : Option ℕ) (t' : Target K H) : Type 0 where
    pub bytes : (b : ℕ) → byte_at t'.sys b ≡ (if b == a then x else byte_at t.sys b)
    pub entries : (b : ℕ) → active t' b ≡ (if b == a then o else active t b)

  pub data Enabled (t : Target K H) (a : ℕ) : SprayResult × Target K H → Type 0 where
    already : {t' : Target K H} {x : ℕ} → active t a ≡ some x → Same t t' → Enabled t a (sp_ok, t')
    refused : {t' : Target K H} → active t a ≡ none → Same t t' → Enabled t a (sp_err, t')
    trapped :
        {t' : Target K H}
        → active t a ≡ none
        → Changed t a int3 (some (byte_at t.sys a)) t'
        → Enabled t a (sp_ok, t')

  pub data Disabled (t : Target K H) (a : ℕ) : SprayResult × Target K H → Type 0 where
    absent : active t a ≡ none → Disabled t a (sp_ok, t)
    kept : {x : ℕ} → active t a ≡ some x → Disabled t a (sp_err, t)
    restored :
        {t' : Target K H} {x : ℕ}
        → active t a ≡ some x
        → Changed t a x none t'
        → Disabled t a (sp_ok, t')

  Same-ensure : (t : Target K H) (a : ℕ) → Same t (ensure_breakpoint t a)
  Same-ensure t a = record { bytes = λ b. rw sys-ensure; entries = active-ensure t a }

  Same-refl : (t : Target K H) → Same t t
  Same-refl t = record { bytes = λ b. refl; entries = λ b. refl }

  Same-trans : {t t' t'' : Target K H} → Same t t' → Same t' t'' → Same t t''
  Same-trans s s' = record {
    bytes = λ b. s'.bytes b ∙ s.bytes b;
    entries = λ b. s'.entries b ∙ s.entries b;
  }

  active-Wrote :
      {t t' : Target K H} {x : ℕ} {u : Breakpoint}
      → Wrote L t x u t'
      → (b : ℕ) → active t' b ≡ (if b == u.addr then saved (some u) else active t b)
  unfolding active
  active-Wrote w b = ground (arith, w.entries b)

  module _ (t : Target K H) (a : ℕ) where
    Enabled-Patched :
        (u : Breakpoint) {r : SprayResult × Target K H}
        → u.addr ≡ a
        → saved (some u) ≡ some (byte_at t.sys a)
        → active t a ≡ none
        → Patched L t int3 u r
        → Enabled t a r
    Enabled-Patched u e s n failed = refused n (Same-refl t)
    Enabled-Patched u e s n (wrote w) = trapped n (record {
      bytes = λ b. ground (arith, w.bytes b);
      entries = λ b. ground (arith, active-Wrote w b);
    })

    Enabled-Same :
        {t' : Target K H} {r : SprayResult × Target K H}
        → Same t t'
        → Enabled t' a r
        → Enabled t a r
    Enabled-Same s (already {x} e s') =
        already {x = x} (ground (arith, s.entries a)) (Same-trans s s')
    Enabled-Same s (refused n s') = refused (ground (arith, s.entries a)) (Same-trans s s')
    Enabled-Same s (trapped n c) = trapped (ground (arith, s.entries a)) (record {
      bytes = λ b. ground (arith, c.bytes b, s.bytes b);
      entries = λ b. ground (arith, c.entries b, s.entries b, s.bytes a);
    })

    enable_entry_lem :
        (e : Breakpoint) → get_breakpoint t a ≡ some e → Enabled t a (enable_entry t e)
    unfolding enable_entry active
    enable_entry_lem e h =
        let here = get_breakpoint-addr t a e h in
        elim (Bool-cases e.is_enabled) [
          | inl on ↦ rw on (already {x = e.orig_data} (rw (h, on)) (Same-refl t))
          | inr off ↦ rw off (elim (Option-cases (pt_read_memory t.sys e.addr)) [
            | inl bad ↦ rw bad (refused (rw (h, saved, off)) (Same-refl t))
            | inr (w, good) ↦ rw good (
                Enabled-Patched
                  (record { addr = e.addr; is_enabled = true; orig_data = bit_and w btm_byte_mask })
                  here (ap some (low_byte L t.sys e.addr w good ∙ ap (byte_at t.sys) here))
                  (rw (h, saved, off)) (patch_lem L t w int3 _ good (omega arith)))
          ])
        ]

    Disabled-Patched :
        (u : Breakpoint) (x : ℕ) {r : SprayResult × Target K H}
        → u.addr ≡ a
        → saved (some u) ≡ none
        → active t a ≡ some x
        → Patched L t x u r
        → Disabled t a r
    Disabled-Patched u x e s n failed = kept n
    Disabled-Patched u x e s n (wrote w) = restored n (record {
      bytes = λ b. ground (arith, w.bytes b);
      entries = λ b. ground (arith, active-Wrote w b);
    })

    disable_entry_lem :
        (e : Breakpoint)
        → get_breakpoint t a ≡ some e
        → ((x : ℕ) → active t a ≡ some x → x < 256)
        → Disabled t a (disable_entry t e)
    unfolding disable_entry active
    disable_entry_lem e h small =
        let here = get_breakpoint-addr t a e h in
        elim (Bool-cases e.is_enabled) [
          | inr off ↦ rw off (absent (rw (h, saved, off)))
          | inl on ↦
              let n : active t a ≡ some e.orig_data = rw (h, saved, on) in
              rw on (elim (Option-cases (pt_read_memory t.sys e.addr)) [
                | inl bad ↦ rw bad (kept n)
                | inr (w, good) ↦ rw good (
                    Disabled-Patched
                      (record { addr = e.addr; is_enabled = false; orig_data = e.orig_data })
                      e.orig_data here refl n
                      (patch_lem L t w e.orig_data _ good (small e.orig_data n)))
              ])
        ]

  enable_ensured :
      (t t' : Target K H) (a : ℕ)
      → Same t t'
      → (e : Breakpoint) → get_breakpoint t' a ≡ some e
      → Enabled t a (enable_entry t' e)
  enable_ensured t t' a s e h = Enabled-Same t a s (enable_entry_lem t' a e h)

  -- Enabling ends in one of three ways, the assertion of the code included.
  pub enable_lem : (t : Target K H) (a : ℕ) → Enabled t a (enable_breakpoint t a)
  unfolding enable_breakpoint
  enable_lem t a = elim (Option-cases (get_breakpoint (ensure_breakpoint t a) a)) [
    | inl missing ↦ absurd (get_breakpoint-ensure_self t a missing)
    | inr (e, h) ↦
        rw (h, enable_breakpoint) (enable_ensured t (ensure_breakpoint t a) a (Same-ensure t a) e h)
  ]

  pub disable_lem :
      (t : Target K H) (a : ℕ)
      → ((x : ℕ) → active t a ≡ some x → x < 256)
      → Disabled t a (disable_breakpoint t a)
  unfolding disable_breakpoint active
  disable_lem t a small = elim (Option-cases (get_breakpoint t a)) [
    | inl missing ↦ rw (missing, disable_breakpoint) (absent (rw (missing, saved)))
    | inr (e, h) ↦ rw (h, disable_breakpoint) (disable_entry_lem t a e h small)
  ]
