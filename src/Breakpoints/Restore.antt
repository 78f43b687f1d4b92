-- ===== src/Breakpoints/Restore.antt =====
-- The text of the program under its breakpoints: what enabling and disabling keep, and what they
-- change. Bytes are read through the documented behaviour of ptrace(2).
use spray.Base.{ℕ, ◌<◌, ◌≡◌, refl, ◌∙◌, false, some, none, List, [], ◌∷◌, arith}
use spray.Magic.{SprayResult, int3}
use spray.Ptrace.{Ptrace}
use spray.Ptrace.Memory.{IsPtrace}
use spray.Breakpoints.{
  Table, Target, init_breakpoints, lookup_breakpoint, enable_breakpoint, disable_breakpoint,
}
use spray.Breakpoints.Lookup.{get_breakpoint-init}
use spray.Breakpoints.Outcome.{
  active, lookup-active, Same, Enabled, already, refused, trapped, Disabled, absent, kept, restored,
  enable_lem, disable_lem,
}

-- The requests that a debugger makes of its breakpoints.
pub data Request : Type 0 where
  enable disable : ℕ → Request

module _ ⦃K : Ptrace⦄ ⦃H : Table⦄ where
  unfoldable pub request : Target K H → Request → SprayResult × Target K H
  request t (enable a) = enable_breakpoint t a
  request t (disable a) = disable_breakpoint t a

  unfoldable pub requests : Target K H → List Request → Target K H
  requests t [] = t
  requests t (r ∷ rs) = requests (request t r).1 rs

module _ ⦃K : Ptrace⦄ ⦃H : Table⦄ (L : IsPtrace K) where
  open L use {byte_at, byte_lt}

  -- The byte of the program itself, under a trap where there is one.
  abbrev pub original : Target K H → ℕ → ℕ
  original t b = elim (active t b) [ none ↦ byte_at t.sys b | some x ↦ x ]

  -- Where a breakpoint is in force there is a trap, and a byte is saved.
  pub record IsPatched (t : Target K H) : Type 0 where
    pub trap : (b x : ℕ) → active t b ≡ some x → byte_at t.sys b ≡ int3
    pub small : (b x : ℕ) → active t b ≡ some x → x < 256

  -- What an operation leaves behind: a patched process with the same text.
  pub record Keeps (t t' : Target K H) : Type 0 where
    pub patched : IsPatched t'
    pub text : (b : ℕ) → original t' b ≡ original t b

  Keeps-Same : {t t' : Target K H} → IsPatched t → Same L t t' → Keeps t t'
  Keeps-Same p s = record {
    patched = record {
      trap = λ b x h. ground (arith, s.bytes b, s.entries b, p.trap b x);
      small = λ b x h. ground (arith, s.entries b, p.small b x);
    };
    text = λ b. ground (arith, s.bytes b, s.entries b);
  }

  Keeps-Enabled :
      {t : Target K H} {a : ℕ} {r : SprayResult × Target K H}
      → IsPatched t
      → Enabled L t a r
      → Keeps t r.1
  Keeps-Enabled p (already e s) = Keeps-Same p s
  Keeps-Enabled p (refused n s) = Keeps-Same p s
  Keeps-Enabled {t} {a} p (trapped n c) = record {
    patched = record {
      trap = λ b x h. ground (arith, c.bytes b, c.entries b, p.trap b x);
      small = λ b x h. ground (arith, c.entries b, p.small b x, byte_lt t.sys a);
    };
    text = λ b. ground (arith, c.bytes b, c.entries b);
  }

  Keeps-Disabled :
      {t : Target K H} {a : ℕ} {r : SprayResult × Target K H}
      → IsPatched t
      → Disabled L t a r
      → Keeps t r.1
  Keeps-Disabled {t} p (absent n) = record { patched = p; text = λ b. refl }
  Keeps-Disabled {t} p (kept n) = record { patched = p; text = λ b. refl }
  Keeps-Disabled {t} {a} p (restored {x} n c) = record {
    patched = record {
      trap = λ b y h. ground (arith, c.bytes b, c.entries b, p.trap b y);
      small = λ b y h. ground (arith, c.entries b, p.small b y);
    };
    text = λ b. ground (arith, c.bytes b, c.entries b);
  }

  request-Keeps : (t : Target K H) (r : Request) → IsPatched t → Keeps t (request t r).1
  unfolding request
  request-Keeps t (enable a) p = Keeps-Enabled p (enable_lem L t a)
  request-Keeps t (disable a) p = Keeps-Disabled p (disable_lem L t a (p.small a))

  -- A process with no breakpoint in force is patched.
  pub init_breakpoints-IsPatched : (s : K.Sys) → IsPatched (init_breakpoints s)
  unfolding active
  init_breakpoints-IsPatched s = record {
    trap = λ b x h. ground (arith, get_breakpoint-init s b);
    small = λ b x h. ground (arith, get_breakpoint-init s b);
  }

  original-init : (s : K.Sys) (b : ℕ) → original (init_breakpoints s) b ≡ byte_at s b
  unfolding active init_breakpoints
  original-init s b = ground (arith, get_breakpoint-init s b)

  -- After any requests, whether they succeed or fail, each breakpoint in force has its trap and its
  -- saved byte, and the program's own text is what it was.
  pub requests-Keeps : (t : Target K H) (rs : List Request) → IsPatched t → Keeps t (requests t rs)
  unfolding requests
  requests-Keeps t [] p = record { patched = p; text = λ b. refl }
  requests-Keeps t (r ∷ rs) p =
      let k = request-Keeps t r p in
      let rest = requests-Keeps (request t r).1 rs k.patched in
      record { patched = rest.patched; text = λ b. rest.text b ∙ k.text b }

  -- Once no breakpoint is in force any more, the memory of a freshly started process is exactly
  -- what it was before the requests.
  pub requests_restore :
      (s : K.Sys) (rs : List Request)
      → ((b : ℕ) → lookup_breakpoint (requests (init_breakpoints s) rs) b ≡ false)
      → (b : ℕ) → byte_at (requests (init_breakpoints s) rs).sys b ≡ byte_at s b
  requests_restore s rs off b =
      let k = requests-Keeps (init_breakpoints s) rs (init_breakpoints-IsPatched s) in
      ground (
        arith,
        k.text b,
        off b,
        lookup-active (requests (init_breakpoints s) rs) b,
        original-init s b,
      )
