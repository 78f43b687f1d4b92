-- ===== src/Stepping/Access.antt =====
-- src/breakpoints.c on a process whose memory can be accessed at the same addresses throughout: which
-- calls succeed, and which breakpoints are found after them.
use spray.Base.{
  ℕ, ◌<◌, ◌≡◌, refl, Bool, true, false, some, none, arith, Bool-cases, Option-cases, inl, inr, ◌==◌,
  if◌then◌else◌,
}
use spray.Magic.{SprayResult, sp_ok, sp_err}
use spray.Ptrace.{Ptrace, pt_read_memory, pt_write_memory}
use spray.Ptrace.Memory.{IsPtrace}
use spray.Breakpoints.{
  Breakpoint, Table, Target, get_breakpoint, lookup_breakpoint, ensure_breakpoint,
  enable_breakpoint, enable_entry, disable_breakpoint, disable_entry, patch,
}
use spray.Breakpoints.Lookup.{
  get_breakpoint-addr, get_breakpoint-ensure, get_breakpoint-ensure_self,
}
use spray.Breakpoints.Outcome.{
  active, lookup-active, Enabled, already, refused, trapped, Disabled, absent, kept, restored,
  enable_lem, disable_lem,
}
use spray.Stepping.Safety.{IsPatchedIn, enable_breakpoint-Safe, disable_breakpoint-Safe}

-- Whether an address can be accessed depends on the address alone.
pub record IsSteady (K : Ptrace) (access : ℕ → Bool) : Type 0 where
  pub peek_access : (s : K.Sys) (a : ℕ) → ((K.peek_data s a).errno == 0) ≡ access a
  pub poke_access :
      (s : K.Sys) (a w : ℕ) → access a ≡ true → (s' : K.Sys) × (K.poke_data s a w ≡ some s')

module _ ⦃K : Ptrace⦄ ⦃H : Table⦄ (access : ℕ → Bool) (A : IsSteady K access) where
  open A use {peek_access, poke_access}

  patch-ok :
      (t : Target K H) (a w : ℕ) (u : Breakpoint) → access a ≡ true → (patch t a w u).0 ≡ sp_ok
  unfolding patch pt_write_memory
  patch-ok t a w u h = ground (arith, (poke_access t.sys a w h).1)

  read-ok :
      (t : Target K H) (a : ℕ)
      → access a ≡ true
      → pt_read_memory t.sys a ≡ some (K.peek_data t.sys a).value
  unfolding pt_read_memory
  read-ok t a h = ground (arith, peek_access t.sys a)

  read-err : (t : Target K H) (a : ℕ) → access a ≡ false → pt_read_memory t.sys a ≡ none
  unfolding pt_read_memory
  read-err t a h = ground (arith, peek_access t.sys a)

  enable_entry-ok :
      (t : Target K H) (e : Breakpoint) → access e.addr ≡ true → (enable_entry t e).0 ≡ sp_ok
  unfolding enable_entry
  enable_entry-ok t e h = elim (Bool-cases e.is_enabled) [
    | inl on ↦ rw (on, enable_entry)
    | inr off ↦ rw (off, enable_entry) (rw (read-ok t e.addr h) (patch-ok t e.addr _ _ h))
  ]

  enable_entry-err :
      (t : Target K H) (e : Breakpoint)
      → access e.addr ≡ false
      → e.is_enabled ≡ false
      → (enable_entry t e).0 ≡ sp_err
  unfolding enable_entry
  enable_entry-err t e h off = rw (off, enable_entry) (rw (read-err t e.addr h))

  disable_entry-ok :
      (t : Target K H) (e : Breakpoint) → access e.addr ≡ true → (disable_entry t e).0 ≡ sp_ok
  unfolding disable_entry
  disable_entry-ok t e h = elim (Bool-cases e.is_enabled) [
    | inl on ↦ rw (on, disable_entry) (rw (read-ok t e.addr h) (patch-ok t e.addr _ _ h))
    | inr off ↦ rw (off, disable_entry)
  ]

  enable_breakpoint-ok :
      (t : Target K H) (a : ℕ) → access a ≡ true → (enable_breakpoint t a).0 ≡ sp_ok
  unfolding enable_breakpoint
  enable_breakpoint-ok t a h = elim (Option-cases (get_breakpoint (ensure_breakpoint t a) a)) [
    | inl missing ↦ absurd (get_breakpoint-ensure_self t a missing)
    | inr (e, f) ↦
        let same = get_breakpoint-addr (ensure_breakpoint t a) a e f in
        rw (f, enable_breakpoint) (enable_entry-ok (ensure_breakpoint t a) e (rw same h))
  ]

  enable_breakpoint-err :
      (t : Target K H) (a : ℕ)
      → access a ≡ false
      → lookup_breakpoint t a ≡ false
      → (enable_breakpoint t a).0 ≡ sp_err
  unfolding enable_breakpoint lookup_breakpoint
  enable_breakpoint-err t a h off = elim (Option-cases (get_breakpoint (ensure_breakpoint t a) a)) [
    | inl missing ↦ absurd (get_breakpoint-ensure_self t a missing)
    | inr (e, f) ↦
        let same = get_breakpoint-addr (ensure_breakpoint t a) a e f in
        rw (f, enable_breakpoint)
          (enable_entry-err (ensure_breakpoint t a) e (rw same h)
            (ground (arith, get_breakpoint-ensure t a a)))
  ]

  disable_breakpoint-ok :
      (t : Target K H) (a : ℕ) → access a ≡ true → (disable_breakpoint t a).0 ≡ sp_ok
  unfolding disable_breakpoint
  disable_breakpoint-ok t a h = elim (Option-cases (get_breakpoint t a)) [
    | inl missing ↦ rw (missing, disable_breakpoint)
    | inr (e, f) ↦
        let same = get_breakpoint-addr t a e f in
        rw (f, disable_breakpoint) (disable_entry-ok t e (rw same h))
  ]

  -- The breakpoints in force can be accessed, and have a byte saved.
  pub record IsMapped (t : Target K H) : Type 0 where
    pub mapped : (b : ℕ) → lookup_breakpoint t b ≡ true → access b ≡ true
    pub small : (b x : ℕ) → active t b ≡ some x → x < 256

  module _ (L : IsPtrace K) (t : Target K H) (a : ℕ) (m : IsMapped t) where
    Enabled-on :
        {r : SprayResult × Target K H}
        → Enabled L t a r
        → r.0 ≡ sp_ok
        → (b : ℕ) → lookup_breakpoint r.1 b ≡ (if b == a then true else lookup_breakpoint t b)
    Enabled-on (already {t'} h s) e b =
        ground (arith, h, s.entries b, lookup-active t b, lookup-active t' b)
    Enabled-on (refused h s) e b = cc
    Enabled-on (trapped {t'} h c) e b =
        ground (arith, c.entries b, lookup-active t b, lookup-active t' b)

    Enabled-off :
        {r : SprayResult × Target K H}
        → Enabled L t a r
        → r.0 ≡ sp_err
        → (b : ℕ) → lookup_breakpoint r.1 b ≡ lookup_breakpoint t b
    Enabled-off (already h s) e b = cc
    Enabled-off (refused {t'} h s) e b =
        ground (arith, s.entries b, lookup-active t b, lookup-active t' b)
    Enabled-off (trapped h c) e b = cc

    Disabled-off :
        {r : SprayResult × Target K H}
        → Disabled L t a r
        → r.0 ≡ sp_ok
        → (b : ℕ) → lookup_breakpoint r.1 b ≡ (if b == a then false else lookup_breakpoint t b)
    Disabled-off (absent h) e b = ground (arith, h, lookup-active t b)
    Disabled-off (kept h) e b = cc
    Disabled-off (restored {t'} h c) e b =
        ground (arith, c.entries b, lookup-active t b, lookup-active t' b)

    pub lookup-enable :
        (b : ℕ)
        → lookup_breakpoint (enable_breakpoint t a).1 b
          ≡ (if b == a then access a else lookup_breakpoint t b)
    lookup-enable b = elim (Bool-cases (access a)) [
      | inl yes' ↦ ground (arith, Enabled-on (enable_lem L t a) (enable_breakpoint-ok t a yes') b)
      | inr no' ↦
          let off : lookup_breakpoint t a ≡ false = ground (arith, m.mapped a) in
          ground (arith, off, Enabled-off (enable_lem L t a) (enable_breakpoint-err t a no' off) b)
    ]

    Disabled-idle :
        {r : SprayResult × Target K H}
        → Disabled L t a r
        → lookup_breakpoint t a ≡ false
        → r.0 ≡ sp_ok
    Disabled-idle (absent h) e = refl
    Disabled-idle (kept {x} h) e = ground (arith, lookup-active t a)
    Disabled-idle (restored h c) e = refl

    disable-ok : (disable_breakpoint t a).0 ≡ sp_ok
    disable-ok = elim (Bool-cases (lookup_breakpoint t a)) [
      | inl on ↦ disable_breakpoint-ok t a (m.mapped a on)
      | inr off ↦ Disabled-idle (disable_lem L t a (m.small a)) off
    ]

    pub lookup-disable :
        (b : ℕ)
        → lookup_breakpoint (disable_breakpoint t a).1 b
          ≡ (if b == a then false else lookup_breakpoint t b)
    lookup-disable b = Disabled-off (disable_lem L t a (m.small a)) disable-ok b

    trivially : IsPatchedIn L (λ b. false) t
    trivially = record { trap = λ b x i h. cc; small = m.small }

    pub enable-IsMapped : IsMapped (enable_breakpoint t a).1
    enable-IsMapped = record {
      mapped = λ b h. ground (arith, lookup-enable b, m.mapped b);
      small = ((enable_breakpoint-Safe L (λ b. false) t a).safe trivially).patched.small;
    }

    pub disable-IsMapped : IsMapped (disable_breakpoint t a).1
    disable-IsMapped = record {
      mapped = λ b h. ground (arith, lookup-disable b, m.mapped b);
      small = ((disable_breakpoint-Safe L (λ b. false) t a).safe trivially).patched.small;
    }
