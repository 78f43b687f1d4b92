-- ===== src/Die/Units.antt =====
-- src/spray_dwarf.c: the search of all units against the list of their DIEs, and the place that the
-- walk over the headers is left at.
use spray.Base.{
  ℕ, zero, suc, ◌+◌, ◌<◌, ◌≤◌, Bool, true, false, Option, some, List, [], ◌∷◌, ◌++◌, ◌≡◌, ◌≢◌, refl,
  ◌∙◌, arith, length,
}
use spray.Die.{ok, no_entry, Libdwarf}
use spray.Die.Search.{
  Outcome, dlv_ok, dlv_no_entry, dlv_error, SearchCallback, Searched, after_children, after_unit,
  last_header, search_unit, search_units, sd_search_dwarf_dbg,
}
use spray.Die.Preorder.{
  Dies, end, node, Visited, preorder, size, Leads, first_found, first_found-append,
  sd_search_dwarf_die_lem,
}

-- What a search gives that goes on where the first one found nothing.
abbrev pub or_found : {S : Type 0} → Outcome × S → (S → Outcome × S) → Outcome × S
or_found (dlv_ok, findings) rest = (dlv_ok, findings)
or_found (dlv_no_entry, findings) rest = rest findings
or_found (dlv_error, findings) rest = (dlv_error, findings)

or_found_lem :
    {S : Type 0} (o : Outcome × S) (rest : S → Outcome × S)
    → after_children (some o) (λ t. some (rest t)) ≡ some (or_found o rest)
or_found_lem (dlv_ok, t) rest = refl
or_found_lem (dlv_no_entry, t) rest = refl
or_found_lem (dlv_error, t) rest = refl

or_found_end : {S : Type 0} (o : Outcome × S) → or_found o (λ t. (dlv_no_entry, t)) ≡ o
or_found_end (dlv_ok, t) = refl
or_found_end (dlv_no_entry, t) = refl
or_found_end (dlv_error, t) = refl

some-injective : {A : Type 0} {a b : A} → some a ≡ some b → a ≡ b
some-injective e = cc

module _ ⦃W : Libdwarf⦄ where
  -- A unit: the place behind its header, its DIE, and what is below that.
  pub record UnitDies : Type 0 where
    pub place : W.Debug
    pub die : W.Die
    pub below : Dies W.Die

  -- The headers from a place on are those of these units, and the walk then is at `last`.
  abbrev pub Walk : Bool → W.Debug → List UnitDies → W.Debug → Type 0
  Walk is_info dbg [] last = W.next_cu_header dbg is_info ≡ (no_entry, last)
  Walk is_info dbg (u ∷ us) last =
      (W.next_cu_header dbg is_info ≡ (ok tt, u.place))
      × (W.cu_die u.place is_info ≡ ok u.die)
      × Leads is_info (W.child u.die) u.below
      × (W.siblingof u.die is_info ≡ no_entry)
      × Walk is_info u.place us last

  abbrev pub dies_of : List UnitDies → List (Visited W.Die)
  dies_of [] = []
  dies_of (u ∷ us) = preorder 0 (node u.die u.below end) ++ dies_of us

  abbrev pub AllFit : ℕ → List UnitDies → Type 0
  AllFit fuel [] = Unit {0}
  AllFit fuel (u ∷ us) = (size u.below < fuel) × AllFit fuel us

  -- A search has a result, these findings, and leaves the walk at `last` unless a failure ends it.
  abbrev pub Ends : {S : Type 0} → Outcome × S → W.Debug → Option (Searched S) → Type 0
  Ends r last searched =
      (dbg : W.Debug) × (searched ≡ some (record { res = r.0; dbg = dbg; findings = r.1 }))
      × (r.0 ≢ dlv_error → dbg ≡ last)

module _ ⦃W : Libdwarf⦄ {S : Type 0} (fuel : ℕ) (search_callback : SearchCallback S) where
  abbrev continued : Outcome × S → (Bool → S → Outcome × S) → Outcome × S
  continued (dlv_ok, findings) k = k true findings
  continued (dlv_no_entry, findings) k = k false findings
  continued (dlv_error, findings) k = (dlv_error, findings)

  abbrev expected : (Bool → S → Outcome × S) → List UnitDies → Bool → S → Outcome × S
  expected k us true s = k true s
  expected k us false s = continued (first_found search_callback (dies_of us) s) k

  after_unit-Ends :
      (k : Bool → S → Outcome × S) (last place : W.Debug) (rest : Bool → S → Option (Searched S))
      (o : Outcome × S) (g : S → Outcome × S)
      → ((t : S) → Ends (k true t) last (rest true t))
      → ((t : S) → Ends (continued (g t) k) last (rest false t))
      → Ends (continued (or_found o g) k) last (after_unit rest place (some o))
  after_unit-Ends k last place rest (dlv_ok, t) g h1 h2 = h1 t
  after_unit-Ends k last place rest (dlv_no_entry, t) g h1 h2 = h2 t
  after_unit-Ends k last place rest (dlv_error, t) g h1 h2 = (place, refl, λ ne. absurd (ne refl))

  first_found-or :
      (xs ys : List (Visited W.Die)) (s : S)
      → first_found search_callback (xs ++ ys) s
        ≡ or_found (first_found search_callback xs s) (first_found search_callback ys)
  first_found-or xs ys s = some-injective (
      first_found-append search_callback xs ys s
      ∙ or_found_lem (first_found search_callback xs s) (first_found search_callback ys))

  search_unit_lem :
      (is_info : Bool) (rest : Bool → S → Option (Searched S)) (u : UnitDies) (s : S)
      → W.cu_die u.place is_info ≡ ok u.die
      → Leads is_info (W.child u.die) u.below
      → W.siblingof u.die is_info ≡ no_entry
      → size u.below < fuel
      → search_unit fuel search_callback is_info rest u.place s
        ≡ after_unit rest u.place
            (some (first_found search_callback (preorder 0 (node u.die u.below end)) s))
  unfolding search_unit
  search_unit_lem is_info rest u s c kids sib fit =
      rw
        (
          c,
          search_unit,
          sd_search_dwarf_die_lem search_callback is_info u.die u.below end fuel 0 s kids sib
              (omega arith),
        )
        refl

  walk_lem :
      (is_info : Bool) (k : Bool → S → Outcome × S) (mid last : W.Debug) (bound : ℕ)
      → ((m : ℕ) (finished : Bool) (t : S)
          → bound ≤ m
          → Ends (k finished t) last (
              last_header
                (λ b. search_units fuel m search_callback b finished mid t)
                is_info
                finished
                mid
                t))
      → (us : List UnitDies) (n : ℕ) (finished : Bool) (dbg : W.Debug) (s : S)
      → Walk is_info dbg us mid
      → AllFit fuel us
      → length us + bound < n
      → Ends
          (expected k us finished s)
          last
          (search_units fuel n search_callback is_info finished dbg s)
  unfolding search_units search_unit first_found
  walk_lem is_info k mid last bound h us zero finished dbg s w fit lt = absurd (omega arith)
  walk_lem is_info k mid last bound h [] (suc n) true dbg s w fit lt =
      rw w (h n true s (omega arith))
  walk_lem is_info k mid last bound h [] (suc n) false dbg s w fit lt =
      rw w (h n false s (omega arith))
  walk_lem is_info k mid last bound h (u ∷ us) (suc n) true dbg s (e, c, kids, sib, w) fit lt =
      rw e (walk_lem is_info k mid last bound h us n true u.place s w fit.1 (omega arith))
  walk_lem is_info k mid last bound h (u ∷ us) (suc n) false dbg s (e, c, kids, sib, w) fit lt =
      let rest : Bool → S → Option (Searched S) =
        λ b t. search_units fuel n search_callback is_info b u.place t in
      rw (e, search_unit_lem is_info (λ b. rest b) u s c kids sib fit.0)
        (rw (first_found-or (preorder 0 (node u.die u.below end)) (dies_of us) s) (
          after_unit-Ends k last u.place rest
            (first_found search_callback (preorder 0 (node u.die u.below end)) s)
            (first_found search_callback (dies_of us))
            (λ t. walk_lem is_info k mid last bound h us n true u.place t w fit.1 (omega arith))
            (λ t. walk_lem is_info k mid last bound h us n false u.place t w fit.1 (omega arith))))

  types_expected : Bool → S → Outcome × S
  types_expected true s = (dlv_ok, s)
  types_expected false s = (dlv_no_entry, s)

  continued_types : (o : Outcome × S) → continued o types_expected ≡ o
  unfolding types_expected
  continued_types (dlv_ok, t) = refl
  continued_types (dlv_no_entry, t) = refl
  continued_types (dlv_error, t) = refl

  types_lem :
      (vs : List UnitDies) (n : ℕ) (finished : Bool) (mid last : W.Debug) (s : S)
      → Walk false mid vs last
      → AllFit fuel vs
      → length vs < n
      → Ends
          (expected types_expected vs finished s)
          last
          (search_units fuel n search_callback false finished mid s)
  unfolding types_expected
  types_lem vs n finished mid last s w fit lt =
      walk_lem false types_expected last last 0
        (λ m fin t le.
          elim fin
            as (λ f.
              Ends (types_expected f t) last (
                last_header (λ b. search_units fuel m search_callback b f last t) false f last t)) [
                  | true ↦ (last, refl, λ _. refl)
                  | false ↦ (last, refl, λ _. refl)
                ])
        vs n finished mid s w fit (omega arith)

  continued_or :
      (o : Outcome × S) (vs : List UnitDies)
      → continued o (expected types_expected vs)
        ≡ or_found o (first_found search_callback (dies_of vs))
  unfolding types_expected
  continued_or (dlv_ok, t) vs = refl
  continued_or (dlv_no_entry, t) vs = continued_types (first_found search_callback (dies_of vs) t)
  continued_or (dlv_error, t) vs = refl

  -- Where the headers are finitely many, first those of .debug_info and then those of .debug_types,
  -- and the DIEs of each unit are, sd_search_dwarf_dbg has a result with fuel for the DIEs of each
  -- unit and for the headers: that of calling the callback on the DIEs of all units in their order,
  -- up to the first call that ends the search or the first place that cannot be read. Unless it
  -- fails, the walk over the headers is completed, also where the search ends at an early unit.
  pub sd_search_dwarf_dbg_lem :
      (us vs : List UnitDies) (n : ℕ) (dbg mid last : W.Debug) (s : S)
      → Walk true dbg us mid
      → Walk false mid vs last
      → AllFit fuel us
      → AllFit fuel vs
      → length us + suc (length vs) < n
      → Ends
          (first_found search_callback (dies_of us ++ dies_of vs) s)
          last
          (sd_search_dwarf_dbg fuel n dbg search_callback s)
  unfolding sd_search_dwarf_dbg
  sd_search_dwarf_dbg_lem us vs n dbg mid last s wu wv fu fv lt =
      rw
        (
          first_found-or (dies_of us) (dies_of vs) s,
          ← continued_or (first_found search_callback (dies_of us) s) vs,
        )
        (walk_lem true (expected types_expected vs) mid last (suc (length vs))
          (λ m fin t le. types_lem vs m fin mid last t wv fv (omega arith)) us n false dbg s wu fu
          (omega arith))
