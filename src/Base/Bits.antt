-- ===== src/Base/Bits.antt =====
-- The bit operations at variables: a mask of ones, the mask of the low byte, and the union of
-- numbers whose bits do not meet.
use Prim.Native.Nat.{
  ℕ, zero, suc, ◌+◌, ◌*◌, ◌/◌, ◌%◌, ◌^◌, ◌≤◌, ◌<◌, min, max, bit_and, bit_or, digits,
  bit_and-bitwise, bit_or-bitwise,
}
use mathlib.Core.Path.{◌≡◌, refl}
use native.Mathlib.Omega.{arith}

abbrev and_digits : ℕ → ℕ → ℕ → ℕ
and_digits n a b = digits (λ b. zero) min n a b

abbrev or_digits : ℕ → ℕ → ℕ → ℕ
or_digits n a b = digits (λ b. b) max n a b

and_digits_enough : (n m a b : ℕ) → a ≤ n → a ≤ m → and_digits n a b ≡ and_digits m a b
and_digits_enough zero zero a b p q = refl
and_digits_enough zero (suc m) zero b p q = refl
and_digits_enough zero (suc m) (suc a) b p q = absurd (omega arith)
and_digits_enough (suc n) zero zero b p q = refl
and_digits_enough (suc n) zero (suc a) b p q = absurd (omega arith)
and_digits_enough (suc n) (suc m) zero b p q = refl
and_digits_enough (suc n) (suc m) (suc a) b p q =
    omega (arith, and_digits_enough n m (suc a / 2) (b / 2) (omega arith) (omega arith))

or_digits_enough : (n m a b : ℕ) → a ≤ n → a ≤ m → or_digits n a b ≡ or_digits m a b
or_digits_enough zero zero a b p q = refl
or_digits_enough zero (suc m) zero b p q = refl
or_digits_enough zero (suc m) (suc a) b p q = absurd (omega arith)
or_digits_enough (suc n) zero zero b p q = refl
or_digits_enough (suc n) zero (suc a) b p q = absurd (omega arith)
or_digits_enough (suc n) (suc m) zero b p q = refl
or_digits_enough (suc n) (suc m) (suc a) b p q =
    omega (arith, or_digits_enough n m (suc a / 2) (b / 2) (omega arith) (omega arith))

zero-bit_and : (b : ℕ) → bit_and 0 b ≡ 0
zero-bit_and b = bit_and-bitwise 0 b

zero-bit_or : (b : ℕ) → bit_or 0 b ≡ b
zero-bit_or b = bit_or-bitwise 0 b

and_step : (a b : ℕ) → bit_and a b ≡ bit_and (a / 2) (b / 2) * 2 + min (a % 2) (b % 2)
and_step zero b = omega (arith, zero-bit_and b, zero-bit_and (b / 2))
and_step (suc a) b = omega (
  arith,
  bit_and-bitwise (suc a) b,
  bit_and-bitwise (suc a / 2) (b / 2),
  and_digits_enough a (suc a / 2) (suc a / 2) (b / 2) (omega arith) (omega arith),
)

or_step : (a b : ℕ) → bit_or a b ≡ bit_or (a / 2) (b / 2) * 2 + max (a % 2) (b % 2)
or_step zero b = omega (arith, zero-bit_or b, zero-bit_or (b / 2))
or_step (suc a) b = omega (
  arith,
  bit_or-bitwise (suc a) b,
  bit_or-bitwise (suc a / 2) (b / 2),
  or_digits_enough a (suc a / 2) (suc a / 2) (b / 2) (omega arith) (omega arith),
)

and_half : (a b m : ℕ) → b / 2 ≡ m → bit_and a b ≡ bit_and (a / 2) m * 2 + min (a % 2) (b % 2)
and_half a b m e = rw (← e) (and_step a b)

or_half : (a b m : ℕ) → a / 2 ≡ m → bit_or a b ≡ bit_or m (b / 2) * 2 + max (a % 2) (b % 2)
or_half a b m e = rw (← e) (or_step a b)

and_odd : (a m : ℕ) → bit_and a (m * 2 + 1) ≡ bit_and (a / 2) m * 2 + a % 2
and_odd a m = omega (arith, and_half a (m * 2 + 1) m (omega arith))

and_even : (a m : ℕ) → bit_and a (m * 2) ≡ bit_and (a / 2) m * 2
and_even a m = omega (arith, and_half a (m * 2) m (omega arith))

or_even : (a m : ℕ) → bit_or (a * 2) m ≡ bit_or a (m / 2) * 2 + m % 2
or_even a m = omega (arith, or_half (a * 2) m a (omega arith))

-- `k` digits of a number: above them, below them, and moved up by them.
abbrev above : ℕ → ℕ → ℕ
above zero a = a
above (suc k) a = above k (a / 2)

abbrev pub below : ℕ → ℕ → ℕ
below zero a = 0
below (suc k) a = below k (a / 2) * 2 + a % 2

abbrev up : ℕ → ℕ → ℕ
up zero a = a
up (suc k) a = up k a * 2

abbrev pub ones : ℕ → ℕ → ℕ
ones zero m = m
ones (suc k) m = ones k m * 2 + 1

and_ones : (k a m : ℕ) → bit_and a (ones k m) ≡ up k (bit_and (above k a) m) + below k a
and_ones zero a m = omega arith
and_ones (suc k) a m = omega (arith, and_odd a (ones k m), and_ones k (a / 2) m)

and_zeros : (k a m : ℕ) → bit_and a (up k m) ≡ up k (bit_and (above k a) m)
and_zeros zero a m = refl
and_zeros (suc k) a m = omega (arith, and_even a (up k m), and_zeros k (a / 2) m)

and-zero_bounded : (n a : ℕ) → a ≤ n → bit_and a 0 ≡ 0
and-zero_bounded n zero h = refl
and-zero_bounded zero (suc a) h = absurd (omega arith)
and-zero_bounded (suc n) (suc a) h =
    omega (arith, and_step (suc a) 0, and-zero_bounded n (suc a / 2) (omega arith))

and-zero : (a : ℕ) → bit_and a 0 ≡ 0
and-zero a = and-zero_bounded a a (omega arith)

or-zero_bounded : (n a : ℕ) → a ≤ n → bit_or a 0 ≡ a
or-zero_bounded n zero h = refl
or-zero_bounded zero (suc a) h = absurd (omega arith)
or-zero_bounded (suc n) (suc a) h =
    omega (arith, or_step (suc a) 0, or-zero_bounded n (suc a / 2) (omega arith))

or-zero : (a : ℕ) → bit_or a 0 ≡ a
or-zero a = or-zero_bounded a a (omega arith)

pub and_low_byte : (a : ℕ) → bit_and a 0xff ≡ a % 256
and_low_byte a = omega (arith, and_ones 8 a 0, and-zero (above 8 a))

pub and_low_half : (a : ℕ) → bit_and a 0xffff_ffff ≡ a % 2 ^ 32
and_low_half a = omega (arith, and_ones 32 a 0, and-zero (above 32 a))

-- The mask of a 64-bit word without its low byte.
pub and_high_bytes : (a : ℕ) → a < 2 ^ 64 → bit_and a 0xffff_ffff_ffff_ff00 ≡ a / 256 * 256
and_high_bytes a h =
    omega
      (arith, and_zeros 8 a (ones 56 0), and_ones 56 (above 8 a) 0, and-zero (above 56 (above 8 a)))

or_zeros : (k a m : ℕ) → bit_or (up k a) m ≡ up k (bit_or a (above k m)) + below k m
or_zeros zero a m = omega arith
or_zeros (suc k) a m = omega (arith, or_even (up k a) m, or_zeros k a (m / 2))

or_below : (k a m n : ℕ) → n ≡ up k a → above k m ≡ 0 → bit_or n m ≡ up k a + below k m
or_below k a m n e f = rw (e, or_zeros, f, or-zero)

-- A byte put below a number whose low byte is 0.
pub or_low_byte : (a b : ℕ) → b < 256 → bit_or (a * 256) b ≡ a * 256 + b
or_low_byte a b h = omega (arith, or_below 8 a b (a * 256) (omega arith) (omega arith))

up-zero : (k : ℕ) → up k 0 ≡ 0
up-zero zero = refl
up-zero (suc k) = omega (arith, up-zero k)

-- A mask of `k` ones.
pub and_low : (k a : ℕ) → bit_and a (ones k 0) ≡ below k a
and_low k a = rw (and_ones k a 0, and-zero (above k a), up-zero k) (omega arith)
