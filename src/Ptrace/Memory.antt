-- ===== src/Ptrace/Memory.antt =====
-- What ptrace(2) documents of a tracee's memory and registers: a word is the eight bytes from its
-- address on, least significant first, and a write changes those bytes alone.
use native.Mathlib.Nat.{add-zero}
use native.Mathlib.Decide.{dec_lt}
use mathlib.Core.Path.{subst}
use spray.Base.{
  ℕ, zero, suc, ◌+◌, ◌-◌, ◌*◌, ◌/◌, ◌%◌, ◌≤◌, ◌<◌, ◌≡◌, ap, ◌⊎◌, inl, inr, some, List, arith, ◌==◌,
  if◌then◌else◌, length,
}
use spray.Ptrace.{Ptrace}
use spray.Magic.{n_registers, word_mod}

-- The `n` bytes from `a` on as a number.
abbrev pub word_at : (ℕ → ℕ) → ℕ → ℕ → ℕ
word_at m a zero = 0
word_at m a (suc n) = m a + 256 * word_at m (a + 1) n

-- Byte `i` of a word.
abbrev pub byte : ℕ → ℕ → ℕ
byte w zero = w % 256
byte w (suc i) = byte (w / 256) i

byte-word_at :
    (n i : ℕ) (m : ℕ → ℕ) (a : ℕ)
    → ((b : ℕ) → m b < 256)
    → i < n
    → byte (word_at m a n) i ≡ m (a + i)
byte-word_at zero i m a small h = absurd (omega arith)
byte-word_at (suc n) zero m a small h = rw add-zero (omega (arith, small a))
byte-word_at (suc n) (suc i) m a small h =
    rw (tail, byte-word_at n i m (a + 1) small (omega arith)) (ap m (omega arith))
  where
    tail : (m a + 256 * word_at m (a + 1) n) / 256 ≡ word_at m (a + 1) n
    tail = omega (arith, small a)

-- The documented behaviour of the requests.
pub record IsPtrace (K : Ptrace) : Type 0 where
  pub byte_at : K.Sys → ℕ → ℕ
  pub byte_lt : (s : K.Sys) (a : ℕ) → byte_at s a < 256
  pub peek_word :
      (s : K.Sys) (a : ℕ)
      → (K.peek_data s a).errno ≡ 0
      → (K.peek_data s a).value ≡ word_at (byte_at s) a 8
  pub peek_lt : (s : K.Sys) (a : ℕ) → (K.peek_data s a).value < word_mod
  pub poke_inside :
      (s : K.Sys) (a w : ℕ) (s' : K.Sys)
      → K.poke_data s a w ≡ some s'
      → (i : ℕ) → i < 8
      → byte_at s' (a + i) ≡ byte w i
  pub poke_outside :
      (s : K.Sys) (a w : ℕ) (s' : K.Sys)
      → K.poke_data s a w ≡ some s'
      → (b : ℕ) → (b < a) ⊎ (a + 8 ≤ b)
      → byte_at s' b ≡ byte_at s b
  pub get_regs_poke :
      (s : K.Sys) (a w : ℕ) (s' : K.Sys)
      → K.poke_data s a w ≡ some s'
      → K.get_regs s' ≡ K.get_regs s
  pub get_regs_length :
      (s : K.Sys) (regs : List ℕ) → K.get_regs s ≡ some regs → length regs ≡ n_registers
  pub get_regs_set :
      (s : K.Sys) (regs : List ℕ) (s' : K.Sys)
      → K.set_regs s regs ≡ some s'
      → K.get_regs s' ≡ some regs
  pub byte_at_set :
      (s : K.Sys) (regs : List ℕ) (s' : K.Sys)
      → K.set_regs s regs ≡ some s'
      → (b : ℕ) → byte_at s' b ≡ byte_at s b

module _ ⦃K : Ptrace⦄ (L : IsPtrace K) where
  open L use {byte_at, byte_lt, peek_word, poke_inside, poke_outside}

  module _ (s : K.Sys) (a x : ℕ) (s' : K.Sys) (read : (K.peek_data s a).errno ≡ 0) (small : x < 256)
      (wrote : K.poke_data s a ((K.peek_data s a).value / 256 * 256 + x) ≡ some s') where
    abbrev word : ℕ
    word = (K.peek_data s a).value

    inside : (i : ℕ) → i < 8 → byte_at s' (a + i) ≡ (if a + i == a then x else byte_at s (a + i))
    inside zero h = ground (arith, poke_inside s a _ s' wrote 0 h)
    inside (suc i) h =
        let high : (word / 256 * 256 + x) / 256 ≡ word / 256 = omega arith in
        rw (poke_inside s a _ s' wrote (suc i) h, high)
          (ground (
            arith,
            ap (λ w. byte w (suc i)) (peek_word s a read),
            byte-word_at 8 (suc i) (byte_at s) a (byte_lt s) h,
          ))

    -- Writing back a word that was read, with another low byte, changes that byte alone.
    pub poke_low_byte : (b : ℕ) → byte_at s' b ≡ (if b == a then x else byte_at s b)
    poke_low_byte b = elim (dec_lt b a) [
      | yes low ↦ ground (arith, poke_outside s a _ s' wrote b (inl low))
      | no low ↦ elim (dec_lt b (a + 8)) [
        | no high ↦ ground (arith, poke_outside s a _ s' wrote b (inr (omega arith)))
        | yes high ↦
            subst (λ c. byte_at s' c ≡ (if c == a then x else byte_at s c)) (omega arith)
              (inside (b - a) (omega arith))
      ]
    ]
