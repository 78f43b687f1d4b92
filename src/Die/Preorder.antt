-- ===== src/Die/Preorder.antt =====
-- src/spray_dwarf.c: the search of a unit against the list of its DIEs.
use mathlib.Core.Path.{fun_ext}
use spray.Base.{
  ℕ, zero, suc, ◌+◌, ◌<◌, ◌≤◌, Bool, true, false, some, List, [], ◌∷◌, ◌++◌, ◌≡◌, refl, ap, sym,
  ◌∙◌, inl, inr, arith,
}
use spray.Die.{DwarfResult, ok, no_entry, error, DwarfResult-cases, Libdwarf}
use spray.Die.Search.{
  Outcome, dlv_ok, dlv_no_entry, dlv_error, SearchCallback, Found, after_callback, after_children,
  search_self, search_siblings, search_loop, sd_search_dwarf_die,
}

-- The DIEs of a level with their children: none, one with its children and its later siblings, or a
-- place that cannot be read.
pub data Dies (D : Type 0) : Type 0 where
  end unreadable : Dies D
  node : D → Dies D → Dies D → Dies D

-- What a search meets, in order.
pub data Visited (D : Type 0) : Type 0 where
  die_at : D → ℕ → Visited D
  failure : Visited D

abbrev pub preorder : {D : Type 0} → ℕ → Dies D → List (Visited D)
preorder level end = []
preorder level unreadable = failure ∷ []
preorder level (node die children siblings) =
    die_at die level ∷ preorder (suc level) children ++ preorder level siblings

abbrev pub size : {D : Type 0} → Dies D → ℕ
size end = 0
size unreadable = 0
size (node die children siblings) = suc (size children + size siblings)

module _ ⦃W : Libdwarf⦄ where
  -- The result of a call of libdwarf leads to these DIEs.
  abbrev pub Leads : Bool → DwarfResult W.Die → Dies W.Die → Type 0
  Leads is_info r end = r ≡ no_entry
  Leads is_info r unreadable = r ≡ error
  Leads is_info r (node die children siblings) =
      (r ≡ ok die)
      × Leads is_info (W.child die) children
      × Leads is_info (W.siblingof die is_info) siblings

abbrev pub after_visit : {S : Type 0} → Bool × S → (S → Outcome × S) → Outcome × S
after_visit (true, findings) rest = (dlv_ok, findings)
after_visit (false, findings) rest = rest findings

after_callback_lem :
    {S : Type 0} (r : Bool × S) (f : S → Found S) (g : S → Outcome × S)
    → ((s : S) → f s ≡ some (g s))
    → after_callback r f ≡ some (after_visit r g)
after_callback_lem (true, s) f g h = refl
after_callback_lem (false, s) f g h = h s

after_visit-append :
    {S : Type 0} (r : Bool × S) (f g : S → Outcome × S) (k : S → Found S)
    → ((s : S) → some (f s) ≡ after_children (some (g s)) k)
    → some (after_visit r f) ≡ after_children (some (after_visit r g)) k
after_visit-append (true, s) f g k h = refl
after_visit-append (false, s) f g k h = h s

module _ ⦃W : Libdwarf⦄ {S : Type 0} (search_callback : SearchCallback S) where
  -- The search of a list: the first DIE for which the callback ends it, or the first failure.
  unfoldable pub first_found : List (Visited W.Die) → S → Outcome × S
  first_found [] findings = (dlv_no_entry, findings)
  first_found (failure ∷ rest) findings = (dlv_error, findings)
  first_found (die_at die level ∷ rest) findings =
      after_visit (search_callback die level findings) (first_found rest)

  pub first_found-append :
      (xs ys : List (Visited W.Die)) (s : S)
      → some (first_found (xs ++ ys) s)
        ≡ after_children (some (first_found xs s)) (λ t. some (first_found ys t))
  unfolding first_found
  first_found-append [] ys s = refl
  first_found-append (failure ∷ xs) ys s = refl
  first_found-append (die_at die level ∷ xs) ys s =
      after_visit-append (search_callback die level s) (first_found (xs ++ ys)) (first_found xs)
        (λ t. some (first_found ys t)) (first_found-append xs ys)

  -- The rest of the search where a DIE leads to, on the same level.
  abbrev search_at : Bool → ℕ → ℕ → DwarfResult W.Die → S → Found S
  search_at is_info fuel level r =
      search_siblings r
        (search_self search_callback (search_loop search_callback is_info fuel level) level)

  search_loop_step :
      (is_info : Bool) (fuel level : ℕ) (die : W.Die) (s : S)
      → search_loop search_callback is_info (suc fuel) level die s
        ≡ after_children
            (search_at is_info fuel (suc level) (W.child die) s)
            (search_at is_info fuel level (W.siblingof die is_info))
  unfolding search_loop search_siblings
  search_loop_step is_info fuel level die s = elim (DwarfResult-cases (W.child die)) [
    | inl e ↦ rw (e, search_loop) refl
    | inr (inl e) ↦ rw (e, search_loop) refl
    | inr (inr (c, e)) ↦ rw (e, search_loop) refl
  ]

  search_at_lem :
      (is_info : Bool) (dies : Dies W.Die) (r : DwarfResult W.Die) (fuel level : ℕ) (s : S)
      → Leads is_info r dies
      → size dies ≤ fuel
      → search_at is_info fuel level r s ≡ some (first_found (preorder level dies) s)
  unfolding first_found search_siblings search_self
  search_at_lem is_info end r fuel level s h le = rw h refl
  search_at_lem is_info unreadable r fuel level s h le = rw h refl
  search_at_lem is_info (node die kids sibs) r zero level s h le = absurd (omega arith)
  search_at_lem is_info (node die kids sibs) r (suc fuel) level s (e, hk, hs) le = rw e (
      after_callback_lem (search_callback die level s)
        (search_loop search_callback is_info (suc fuel) level die)
        (first_found (preorder (suc level) kids ++ preorder level sibs))
        (λ t.
          search_loop_step is_info fuel level die t
          ∙ ap (λ o. after_children o (search_at is_info fuel level (W.siblingof die is_info)))
              (search_at_lem is_info kids (W.child die) fuel (suc level) t hk (omega arith))
          ∙ ap (after_children (some (first_found (preorder (suc level) kids) t))) (
              fun_ext (λ u.
                search_at_lem is_info sibs (W.siblingof die is_info) fuel level u hs (omega arith)))
          ∙ sym (first_found-append (preorder (suc level) kids) (preorder level sibs) t)))

  -- Where a DIE's children and siblings are finitely many, sd_search_dwarf_die has a result with one
  -- unit of fuel for each of them and one more: that of calling the callback on the DIE, its children
  -- and its siblings, in the order in which they stand in the file, with their levels and with what
  -- the calls before have found, up to the first call that ends the search or the first place that
  -- cannot be read.
  pub sd_search_dwarf_die_lem :
      (is_info : Bool) (die : W.Die) (kids sibs : Dies W.Die) (fuel level : ℕ) (s : S)
      → Leads is_info (W.child die) kids
      → Leads is_info (W.siblingof die is_info) sibs
      → size kids + size sibs < fuel
      → sd_search_dwarf_die fuel die is_info level search_callback s
        ≡ some (first_found (preorder level (node die kids sibs)) s)
  unfolding sd_search_dwarf_die search_siblings
  sd_search_dwarf_die_lem is_info die kids sibs fuel level s hk hs lt =
      search_at_lem is_info (node die kids sibs) (ok die) fuel level s (refl, hk, hs) (omega arith)
