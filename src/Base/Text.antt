-- ===== src/Base/Text.antt =====
-- C strings as lists of bytes, without the byte 0 at their end.
use Prim.Native.Nat.{ℕ}
use Prim.Native.Char.{code}
use Prim.Native.String.{String}
use mathlib.Core.Path.{◌≡◌, refl}
use mathlib.Core.Logic.{◌↔◌}
use mathlib.Core.Bool.{Bool, true, false, ◌&&◌}
use mathlib.Core.List.{List, [], ◌∷◌}
use native.Mathlib.Omega.{arith}
use spray.Base.Tests.{◌==◌, ==_refl}

abbrev pub CString : Type 0
CString = List ℕ

-- The bytes of an ASCII literal.
abbrev pub bytes : String → CString
bytes String.[] = []
bytes (String.◌∷◌ c s) = code c ∷ bytes s

-- Whether two byte strings are the same one.
unfoldable pub eq_bytes : CString → CString → Bool
eq_bytes [] [] = true
eq_bytes [] (y ∷ ys) = false
eq_bytes (x ∷ xs) [] = false
eq_bytes (x ∷ xs) (y ∷ ys) = (x == y) && eq_bytes xs ys

pub eq_bytes_refl : (xs : CString) → eq_bytes xs xs ≡ true
unfolding eq_bytes
eq_bytes_refl [] = refl
eq_bytes_refl (x ∷ xs) = rw (==_refl x) (eq_bytes_refl xs)

pub eq_bytes→eq : (xs ys : CString) → eq_bytes xs ys ≡ true → xs ≡ ys
unfolding eq_bytes
eq_bytes→eq [] [] h = refl
eq_bytes→eq [] (y ∷ ys) h = cc
eq_bytes→eq (x ∷ xs) [] h = cc
eq_bytes→eq (x ∷ xs) (y ∷ ys) h = ground (arith, eq_bytes→eq xs ys)

-- `strcmp (a, b) == 0` decides equality.
pub eq_bytes_iff : (xs ys : CString) → (eq_bytes xs ys ≡ true) ↔ (xs ≡ ys)
eq_bytes_iff xs ys = (eq_bytes→eq xs ys, λ e. rw e (eq_bytes_refl ys))
