-- ===== src/Number/Digits.antt =====
-- A printed number read back digit by digit.
use mathlib.Core.List.{append_assoc}
use native.Mathlib.Decide.{dec_lt}
use native.Mathlib.Nat.{mod-lt}
use spray.Base.{
  ℕ, zero, suc, ◌+◌, ◌*◌, ◌/◌, ◌%◌, ◌≤◌, ◌<◌, ◌≡◌, refl, ap, ◌∙◌, Bool, true, false, some, [], ◌∷◌,
  ◌++◌, CString, arith, ltb, if◌then◌else◌,
}
use spray.Magic.Format.{digit_char, digits}
use spray.Number.{digit_value, scan}

pub digit_value-digit_char :
    (base d : ℕ) → d < base → base ≤ 16 → digit_value base (digit_char d) ≡ some d
unfolding digit_value digit_char
digit_value-digit_char base d h k = ground arith

-- The numbers of at most `n` digits are those below `bound base n`.
abbrev pub bound : ℕ → ℕ → ℕ
bound base zero = 1
bound base (suc n) = bound base n * base

div-lt : (n p b : ℕ) → n < p * b → n / b < p
div-lt n p b h = grind arith

div-mul-mod : (n b : ℕ) → n / b * b + n % b ≡ n
div-mul-mod n b = grind arith

-- What reading the digits of `n` makes of `acc`.
pub push : ℕ → ℕ → ℕ → ℕ → ℕ
push base zero n acc = acc
push base (suc f) n acc =
    if ltb n base then acc * base + n else push base f (n / base) acc * base + n % base

module _ (base f n acc : ℕ) where
  push-small : n < base → push base (suc f) n acc ≡ acc * base + n
  unfolding push
  push-small h = let e : ltb n base ≡ true = ground arith in rw (e, push)

  push-large : base ≤ n → push base (suc f) n acc ≡ push base f (n / base) acc * base + n % base
  unfolding push
  push-large h = let e : ltb n base ≡ false = ground arith in rw (e, push)

  digits-small : n < base → digits base (suc f) n ≡ digit_char n ∷ []
  unfolding digits
  digits-small h = let e : ltb n base ≡ true = ground arith in rw (e, digits)

  digits-large :
      base ≤ n → digits base (suc f) n ≡ digits base f (n / base) ++ digit_char (n % base) ∷ []
  unfolding digits
  digits-large h = let e : ltb n base ≡ false = ground arith in rw (e, digits)

module _ (base : ℕ) (two : 2 ≤ base) (sixteen : base ≤ 16) where
  push-zero : (f n : ℕ) → 0 < f → n < bound base f → push base f n 0 ≡ n
  push-zero zero n h k = absurd (omega arith)
  push-zero (suc zero) n h k = push-small base 0 n 0 (omega arith) ∙ omega arith
  push-zero (suc (suc f)) n h k = elim (dec_lt n base) [
    | yes low ↦ push-small base (suc f) n 0 low ∙ omega arith
    | no high ↦
        push-large base (suc f) n 0 (omega arith)
        ∙ (rw (push-zero (suc f) (n / base) (omega arith) (div-lt n (bound base (suc f)) base k))
            (div-mul-mod n base))
  ]

  scan-digit :
      (acc d : ℕ) (seen : Bool) (rest : CString)
      → d < base
      → scan base acc seen (digit_char d ∷ rest) ≡ scan base (acc * base + d) true rest
  unfolding scan
  scan-digit acc d seen rest h = rw (digit_value-digit_char base d h sixteen, scan)

  pub scan-push :
      (f n acc : ℕ) (seen : Bool) (rest : CString)
      → 0 < f
      → n < bound base f
      → scan base acc seen (digits base f n ++ rest) ≡ scan base (push base f n acc) true rest
  scan-push zero n acc seen rest h k = absurd (omega arith)
  scan-push (suc zero) n acc seen rest h k =
      rw (digits-small base 0 n acc (omega arith), push-small base 0 n acc (omega arith))
        (scan-digit acc n seen rest (omega arith))
  scan-push (suc (suc f)) n acc seen rest h k = elim (dec_lt n base) [
    | yes low ↦
        rw (digits-small base (suc f) n acc low, push-small base (suc f) n acc low)
          (scan-digit acc n seen rest low)
    | no high ↦
        let above : base ≤ n = omega arith in
        rw
          (
            digits-large base (suc f) n acc above,
            push-large base (suc f) n acc above,
            append_assoc,
            scan-push (suc f) (n / base) acc seen (digit_char (n % base) ∷ rest) (omega arith)
                (div-lt n (bound base (suc f)) base k),
          )
          (scan-digit _ (n % base) true rest (mod-lt n (omega arith)))
  ]

  -- The digits of a number, read from nothing, give the number back.
  pub scan-digits :
      (f n : ℕ) (rest : CString)
      → 0 < f
      → n < bound base f
      → scan base 0 false (digits base f n ++ rest) ≡ scan base n true rest
  scan-digits f n rest h k =
      scan-push f n 0 false rest h k ∙ ap (λ m. scan base m true rest) (push-zero f n h k)

-- The first digit of a printed number.
pub digits-head :
    (base f n : ℕ)
    → 2 ≤ base
    → (d : ℕ) × (cs : CString) × (d < base) × (digits base (suc f) n ≡ digit_char d ∷ cs)
digits-head base zero n two = elim (dec_lt n base) [
  | yes low ↦ (n, [], low, digits-small base 0 n 0 low)
  | no high ↦ (
    n % base,
    [],
    mod-lt n (omega arith),
    digits-large base zero n 0 (omega arith) ∙ (unfold digits in refl),
  )
]
digits-head base (suc f) n two = elim (dec_lt n base) [
  | yes low ↦ (n, [], low, digits-small base (suc f) n 0 low)
  | no high ↦
      let (d, cs, small, e) = digits-head base f (n / base) two in
      (
        d,
        cs ++ digit_char (n % base) ∷ [],
        small,
        rw (digits-large base (suc f) n 0 (omega arith), e),
      )
]
