-- ===== src/Stepping/Safety.antt =====
-- The program's text while src/debugger.c runs and steps the tracee: what the tracee itself does not
-- write to, the debugger gives back as it was.
use spray.Base.{ℕ, ◌<◌, ◌≡◌, refl, ◌∙◌, Bool, true, some, arith, Option-cases, inl, inr}
use spray.Magic.{SprayResult, int3}
use spray.Ptrace.{Ptrace, pt_single_step, pt_continue_execution}
use spray.Ptrace.Memory.{IsPtrace}
use spray.Registers.{X86Reg, rip, set_register_value}
use spray.Breakpoints.{Table, Target, get_breakpoint, enable_breakpoint, disable_breakpoint}
use spray.Breakpoints.Outcome.{
  active, Same, Enabled, already, refused, trapped, Disabled, absent, kept, restored, enable_lem,
  disable_lem,
}
use spray.Breakpoints.Restore.{original}
use spray.Registers.Values.{RegisterWritten, done, failed, set_register_value_lem}
use spray.Stepping.{with_sys, set_pc, step_tracee, resume}
use spray.Stepping.Stable.{IsStable}

-- The tracee does not write to its text.
pub record KeepsText ⦃K : Ptrace⦄ (L : IsPtrace K) (text : ℕ → Bool) : Type 0 where
  pub single_step_text :
      (s s' : K.Sys) (b : ℕ)
      → K.single_step s ≡ some s'
      → text b ≡ true
      → L.byte_at s' b ≡ L.byte_at s b
  pub cont_text : (s : K.Sys) (b : ℕ) → text b ≡ true → L.byte_at (K.cont s).sys b ≡ L.byte_at s b
  pub waitpid_text :
      (s : K.Sys) (b : ℕ) → text b ≡ true → L.byte_at (K.waitpid s).sys b ≡ L.byte_at s b

module _ ⦃K : Ptrace⦄ ⦃H : Table⦄ (L : IsPtrace K) (text : ℕ → Bool) where
  open L use {byte_at, byte_lt}

  -- A breakpoint in force in the text has its trap, and each breakpoint in force a saved byte.
  pub record IsPatchedIn (t : Target K H) : Type 0 where
    pub trap : (b x : ℕ) → text b ≡ true → active t b ≡ some x → byte_at t.sys b ≡ int3
    pub small : (b x : ℕ) → active t b ≡ some x → x < 256

  pub record SameText (t t' : Target K H) : Type 0 where
    pub patched : IsPatchedIn t'
    pub text_kept : (b : ℕ) → text b ≡ true → original L t' b ≡ original L t b

  -- From a patched process to a patched process with the same text.
  pub record Safe (t t' : Target K H) : Type 0 where
    pub safe : IsPatchedIn t → SameText t t'

  pub Safe-refl : (t : Target K H) → Safe t t
  Safe-refl t = record { safe = λ p. record { patched = p; text_kept = λ b e. refl } }

  pub Safe-trans : {t t' t'' : Target K H} → Safe t t' → Safe t' t'' → Safe t t''
  Safe-trans h k = record {
    safe = λ p.
        let a = h.safe p in
        let b = k.safe a.patched in
        record { patched = b.patched; text_kept = λ c e. b.text_kept c e ∙ a.text_kept c e };
  }

  SameText-Same : {t t' : Target K H} → IsPatchedIn t → Same L t t' → SameText t t'
  SameText-Same p s = record {
    patched = record {
      trap = λ b x i h. ground (arith, s.bytes b, s.entries b, p.trap b x i);
      small = λ b x h. ground (arith, s.entries b, p.small b x);
    };
    text_kept = λ b i. ground (arith, s.bytes b, s.entries b);
  }

  SameText-Enabled :
      {t : Target K H} {a : ℕ} {r : SprayResult × Target K H}
      → IsPatchedIn t
      → Enabled L t a r
      → SameText t r.1
  SameText-Enabled p (already e s) = SameText-Same p s
  SameText-Enabled p (refused n s) = SameText-Same p s
  SameText-Enabled {t} {a} p (trapped n c) = record {
    patched = record {
      trap = λ b x i h. ground (arith, c.bytes b, c.entries b, p.trap b x i);
      small = λ b x h. ground (arith, c.entries b, p.small b x, byte_lt t.sys a);
    };
    text_kept = λ b i. ground (arith, c.bytes b, c.entries b);
  }

  SameText-Disabled :
      {t : Target K H} {a : ℕ} {r : SprayResult × Target K H}
      → IsPatchedIn t
      → Disabled L t a r
      → SameText t r.1
  SameText-Disabled {t} p (absent n) = record { patched = p; text_kept = λ b i. refl }
  SameText-Disabled {t} p (kept n) = record { patched = p; text_kept = λ b i. refl }
  SameText-Disabled {t} {a} p (restored {x} n c) = record {
    patched = record {
      trap = λ b y i h. ground (arith, c.bytes b, c.entries b, p.trap b y i);
      small = λ b y h. ground (arith, c.entries b, p.small b y);
    };
    text_kept = λ b i. ground (arith, c.bytes b, c.entries b);
  }

  pub enable_breakpoint-Safe : (t : Target K H) (a : ℕ) → Safe t (enable_breakpoint t a).1
  enable_breakpoint-Safe t a = record { safe = λ p. SameText-Enabled p (enable_lem L t a) }

  pub disable_breakpoint-Safe : (t : Target K H) (a : ℕ) → Safe t (disable_breakpoint t a).1
  disable_breakpoint-Safe t a = record {
    safe = λ p. SameText-Disabled p (disable_lem L t a (p.small a));
  }

  active-with_sys : (t : Target K H) (s : K.Sys) (b : ℕ) → active (with_sys t s) b ≡ active t b
  unfolding active get_breakpoint
  active-with_sys t s b = refl

  pub with_sys-Safe :
      (t : Target K H) (s : K.Sys)
      → ((b : ℕ) → text b ≡ true → byte_at s b ≡ byte_at t.sys b)
      → Safe t (with_sys t s)
  with_sys-Safe t s f = record {
    safe = λ p. record {
      patched = record {
        trap = λ b x i h. ground (arith, f b i, active-with_sys t s b, p.trap b x i);
        small = λ b x h. ground (arith, active-with_sys t s b, p.small b x);
      };
      text_kept = λ b i. ground (arith, f b i, active-with_sys t s b);
    };
  }

  RegisterWritten-bytes :
      (s : K.Sys) (reg : X86Reg) (v : ℕ) {r : SprayResult × K.Sys}
      → RegisterWritten L s reg v r
      → (b : ℕ) → byte_at r.1 b ≡ byte_at s b
  RegisterWritten-bytes s reg v (done w) b = w.memory b
  RegisterWritten-bytes s reg v failed b = refl

  pub set_register-Safe :
      (t : Target K H) (reg : X86Reg) (v : ℕ)
      → Safe t (with_sys t (set_register_value t.sys reg v).1)
  set_register-Safe t reg v =
      with_sys-Safe t _
        (λ b i. RegisterWritten-bytes t.sys reg v (set_register_value_lem L t.sys reg v) b)

  module _ (T : KeepsText L text) where
    open T use {single_step_text, cont_text, waitpid_text}

    step_tracee-Safe : (t : Target K H) → Safe t (step_tracee t)
    unfolding step_tracee pt_single_step
    step_tracee-Safe t = with_sys-Safe t _ (λ b i. elim (Option-cases (K.single_step t.sys)) [
      | inl stuck ↦ rw (stuck, pt_single_step)
      | inr (s, moved) ↦ rw (moved, pt_single_step) (single_step_text t.sys s b moved i)
    ])

    resume-Safe : (t : Target K H) → Safe t (resume t).1
    unfolding resume pt_continue_execution
    resume-Safe t = with_sys-Safe t _ (λ b i. ground (arith, cont_text t.sys b i))

    set_pc-Safe : (t : Target K H) (pc : ℕ) → Safe t (set_pc t pc)
    unfolding set_pc
    set_pc-Safe t pc = set_register-Safe t rip pc

    pub Safe-IsStable : IsStable Safe
    Safe-IsStable = record {
      same = Safe-refl;
      then_also = Safe-trans;
      waited = λ t. with_sys-Safe t _ (waitpid_text t.sys);
      stepped = step_tracee-Safe;
      resumed = resume-Safe;
      moved = set_pc-Safe;
      over = λ t t' a on h. Safe-trans (disable_breakpoint-Safe t a) (
          Safe-trans (step_tracee-Safe (disable_breakpoint t a).1)
            (Safe-trans h (enable_breakpoint-Safe t' a)));
    }
