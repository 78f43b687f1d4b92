-- ===== src/Location/Chosen.antt =====
-- Which location src/spray_dwarf.c finds for a variable.
use spray.Base.{
  ℕ, ◌≤◌, ◌<◌, ◌≡◌, Bool, true, false, not, Option, none, some, List, [], ◌∷◌, ◌++◌, arith,
  Bool-cases, inl, inr,
}
use spray.Location.{
  SdLocRange, is_active_range, SdOperation, SdLocdesc, SdLoclist, find_expr, choose_expr,
}

-- The range is that of a bounded expression, and it contains the PC.
pub record Covers (range : SdLocRange) (pc : ℕ) : Type 0 where
  pub bounded : range.meaningful ≡ true
  pub low : range.lowpc ≤ pc
  pub high : pc < range.highpc

is_active_range→Covers :
    (range : SdLocRange) (pc : ℕ) → is_active_range range pc ≡ true → Covers range pc
unfolding is_active_range
is_active_range→Covers range pc h = record {
  bounded = ground arith;
  low = ground arith;
  high = ground arith;
}

is_active_range→not_Covers :
    (range : SdLocRange) (pc : ℕ) → is_active_range range pc ≡ false → ¬ (Covers range pc)
unfolding is_active_range
is_active_range→not_Covers range pc h c = ground (arith, c.bounded, c.low, c.high)

-- No expression of the list has the property.
pub data NoneOf (P : SdLocRange → Type 0) : SdLoclist → Type 0 where
  none_here : NoneOf P []
  nor_here : {d : SdLocdesc} {l : SdLoclist} → ¬ (P d.range) → NoneOf P l → NoneOf P (d ∷ l)

-- The first expression of a list that has the property, or none.
data FirstExpr (P : SdLocRange → Type 0) : SdLoclist → Option (List SdOperation) → Type 0 where
  first :
      (before after : SdLoclist) (d : SdLocdesc)
      → NoneOf P before
      → P d.range
      → FirstExpr P (before ++ d ∷ after) (some d.operations)
  absent : {l : SdLoclist} → NoneOf P l → FirstExpr P l none

FirstExpr-next :
    (P : SdLocRange → Type 0) (d : SdLocdesc) {l : SdLoclist} {r : Option (List SdOperation)}
    → ¬ (P d.range)
    → FirstExpr P l r
    → FirstExpr P (d ∷ l) r
FirstExpr-next P d n (first before after e no' p) = first (d ∷ before) after e (nor_here n no') p
FirstExpr-next P d n (absent no') = absent (nor_here n no')

find_expr_lem :
    (test : SdLocRange → Bool) (P : SdLocRange → Type 0)
    → ((r : SdLocRange) → test r ≡ true → P r)
    → ((r : SdLocRange) → test r ≡ false → ¬ (P r))
    → (l : SdLoclist) → FirstExpr P l (find_expr test l)
unfolding find_expr
find_expr_lem test P sound refute [] = absent none_here
find_expr_lem test P sound refute (d ∷ l) = elim (Bool-cases (test d.range)) [
  | inl passes ↦ rw (passes, find_expr) (first [] l d none_here (sound d.range passes))
  | inr fails ↦
      rw (fails, find_expr)
        (FirstExpr-next P d (refute d.range fails) (find_expr_lem test P sound refute l))
]

abbrev pub Unbounded : SdLocRange → Type 0
Unbounded range = range.meaningful ≡ false

-- Which expression of a location list is evaluated.
pub data Chosen (pc : ℕ) : SdLoclist → Option (List SdOperation) → Type 0 where
  active :
      (before after : SdLoclist) (d : SdLocdesc)
      → NoneOf (λ r. Covers r pc) before
      → Covers d.range pc
      → Chosen pc (before ++ d ∷ after) (some d.operations)
  always :
      (before after : SdLoclist) (d : SdLocdesc)
      → NoneOf (λ r. Covers r pc) (before ++ d ∷ after)
      → NoneOf Unbounded before
      → Unbounded d.range
      → Chosen pc (before ++ d ∷ after) (some d.operations)
  nowhere : {l : SdLoclist} → NoneOf (λ r. Covers r pc) l → NoneOf Unbounded l → Chosen pc l none

Chosen-unbounded :
    (pc : ℕ) {l : SdLoclist} {r : Option (List SdOperation)}
    → NoneOf (λ r. Covers r pc) l
    → FirstExpr Unbounded l r
    → Chosen pc l r
Chosen-unbounded pc no' (first before after d none' u) = always before after d no' none' u
Chosen-unbounded pc no' (absent none') = nowhere no' none'

Chosen-first :
    (pc : ℕ) {l : SdLoclist} {r s : Option (List SdOperation)}
    → FirstExpr (λ r. Covers r pc) l r
    → FirstExpr Unbounded l s
    → Chosen pc l (elim r [ some expr ↦ some expr | none ↦ s ])
Chosen-first pc (first before after d no' c) s = active before after d no' c
Chosen-first pc (absent no') s = Chosen-unbounded pc no' s

-- `sd_eval_loclist` evaluates the first expression whose range contains the PC; if there is none, the
-- first expression without a range; and if there is none either, no expression.
pub choose_expr_lem : (pc : ℕ) (l : SdLoclist) → Chosen pc l (choose_expr pc l)
unfolding choose_expr
choose_expr_lem pc l =
    Chosen-first pc
      (find_expr_lem (λ range. is_active_range range pc) (λ r. Covers r pc)
        (λ r. is_active_range→Covers r pc) (λ r. is_active_range→not_Covers r pc) l)
      (find_expr_lem (λ range. not range.meaningful) Unbounded (λ r h. ground arith)
        (λ r h u. ground arith) l)
