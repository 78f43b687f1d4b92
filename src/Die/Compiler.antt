-- ===== src/Die/Compiler.antt =====
-- src/spray_dwarf.c: which debug information `sd_is_valid_compiler` accepts.
use spray.Base.{
  ℕ, suc, ◌+◌, ◌<◌, Bool, true, false, some, List, [], ◌∷◌, ◌++◌, ◌≡◌, ◌↔◌, inl, inr, refl,
  Bool-cases, CString, bytes, length,
}
use spray.Die.{
  DwarfResult, ok, no_entry, error, Libdwarf, tag_compile_unit, at_producer, strstr, sd_has_tag,
}
use spray.Die.Search.{Outcome}
use spray.Die.Preorder.{Visited, failure, die_at, first_found, after_visit}
use spray.Die.Units.{UnitDies, Walk, AllFit, dies_of, sd_search_dwarf_dbg_lem}
use spray.Die.Lookup.{
  callback__is_valid_compiler, is_no_entry, is_other_compiler, sd_is_valid_compiler,
}

module _ ⦃W : Libdwarf⦄ where
  -- What was visited is no failure, and if it is a unit's DIE, its producer is known and has the
  -- word clang in it.
  abbrev pub IsClang : Visited W.Die → Type 0
  IsClang failure = ⊥
  IsClang (die_at die level) =
      sd_has_tag die tag_compile_unit ≡ true
      → (producer : CString) × (W.die_text die at_producer ≡ ok producer)
        × (strstr producer (bytes "clang") ≡ true)

  abbrev pub AllClang : List (Visited W.Die) → Type 0
  AllClang [] = Unit {0}
  AllClang (v ∷ vs) = IsClang v × AllClang vs

  clang_lem :
      (r : DwarfResult CString)
      → (is_other_compiler r ≡ false)
        ↔ ((producer : CString) × (r ≡ ok producer) × (strstr producer (bytes "clang") ≡ true))
  clang_lem no_entry = (λ e. cc, λ h. cc (h.1))
  clang_lem error = (λ e. cc, λ h. cc (h.1))
  clang_lem (ok p) = elim (Bool-cases (strstr p (bytes "clang"))) [
    | inl e ↦ (λ _. (p, refl, e), λ _. rw (e, is_other_compiler) refl)
    | inr e ↦ (λ h. let k : true ≡ false = rw e at h in cc, λ h. cc (h.1, h.2, e))
  ]

  visit_lem :
      (die : W.Die) (level : ℕ)
      → ((callback__is_valid_compiler die level tt).0 ≡ false) ↔ IsClang (die_at die level)
  unfolding callback__is_valid_compiler
  visit_lem die level = elim (Bool-cases (sd_has_tag die tag_compile_unit)) [
    | inl e ↦ rw e (
      λ h _. (clang_lem (W.die_text die at_producer)).0 h,
      λ h. (clang_lem (W.die_text die at_producer)).1 (h refl),
    )
    | inr e ↦ rw e (λ h k. cc, λ h. refl)
  ]

  after_visit_lem :
      {P Q : Type 0} (r : Bool × Unit {0}) (g : Unit {0} → Outcome × Unit {0})
      → ((r.0 ≡ false) ↔ P)
      → ((u : Unit {0}) → (is_no_entry (g u).0 ≡ true) ↔ Q)
      → (is_no_entry (after_visit r g).0 ≡ true) ↔ (P × Q)
  after_visit_lem (true, u) g hp hq = (λ h. cc, λ h. cc (hp.1 h.0))
  after_visit_lem (false, u) g hp hq = (λ h. (hp.0 refl, (hq u).0 h), λ h. (hq u).1 h.1)

  first_found_lem :
      (vs : List (Visited W.Die)) (u : Unit {0})
      → (is_no_entry (first_found callback__is_valid_compiler vs u).0 ≡ true) ↔ AllClang vs
  unfolding first_found
  first_found_lem [] u = (λ h. tt, λ h. refl)
  first_found_lem (failure ∷ vs) u = (λ h. cc, λ h. absurd (h.0))
  first_found_lem (die_at die level ∷ vs) u =
      after_visit_lem (callback__is_valid_compiler die level u)
        (first_found callback__is_valid_compiler vs) (visit_lem die level) (first_found_lem vs)

  -- Where the units and their DIEs are finitely many, sd_is_valid_compiler has a result with fuel for
  -- the DIEs of each unit and for the headers, which is true if and only if every DIE can be read and
  -- the DIE of each compilation unit has a producer with the word clang in it.
  pub sd_is_valid_compiler_lem :
      (fuel n : ℕ) (us vs : List UnitDies) (dbg mid last : W.Debug)
      → Walk true dbg us mid
      → Walk false mid vs last
      → AllFit fuel us
      → AllFit fuel vs
      → length us + suc (length vs) < n
      → (b : Bool) × (dbg' : W.Debug) × (sd_is_valid_compiler fuel n dbg ≡ some (b, dbg'))
        × ((b ≡ true) ↔ AllClang (dies_of us ++ dies_of vs))
  unfolding sd_is_valid_compiler
  sd_is_valid_compiler_lem fuel n us vs dbg mid last wu wv fu fv lt =
      let visited = dies_of us ++ dies_of vs in
      let e =
        sd_search_dwarf_dbg_lem fuel callback__is_valid_compiler us vs n dbg mid last tt wu wv fu fv
          lt in
      (
        is_no_entry (first_found callback__is_valid_compiler visited tt).0,
        e.0,
        rw (e.1, sd_is_valid_compiler) refl,
        first_found_lem visited tt,
      )
