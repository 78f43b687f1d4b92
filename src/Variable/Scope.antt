-- ===== src/Variable/Scope.antt =====
-- src/spray_dwarf.c: where the search for a variable in the scope of a PC finds one.
use spray.Base.{
  ℕ, ◌<◌, Bool, true, false, Bool-cases, Option, none, some, Option-cases, List, length, suc, ◌+◌,
  [], ◌∷◌, ◌++◌, ◌≡◌, ◌⊎◌, inl, inr, refl, sym, ◌∙◌, arith, ltb, CString,
}
use spray.Die.{
  DwarfResult, ok, no_entry, error, DwarfResult-cases, Libdwarf, at_location, tag_subprogram,
  sd_has_tag, sd_check_pc_in_die,
}
use spray.Die.Search.{Outcome, dlv_ok, dlv_no_entry, dlv_error}
use spray.Die.Preorder.{Visited, die_at, failure, first_found, after_visit}
use spray.Die.Units.{UnitDies, Walk, AllFit, dies_of, sd_search_dwarf_dbg_lem}
use spray.Die.Lookup.{sd_init_loc_attr}
use spray.VarType.{SdType, sd_variable_type}
use spray.VarType.Shape.{Chain, sd_variable_type_lem}
use spray.Variable.{
  VarattrSearchFor, VarattrSearchFindings, Variable, is_variable, enter_scope, leave_scope,
  look_for_variable, look_in_scope, callback__find_runtime_variable, store_variable, describe,
  decl_file_of, decl_line_of, search_variable, VariableSearched, searched_variable,
}

-- The items before, the last one first, and those after them.
abbrev pub onto : {A : Type 0} → List A → List A → List A
onto [] ys = ys
onto (x ∷ xs) ys = onto xs (x ∷ ys)

module _ ⦃W : Libdwarf⦄ where
  -- The last DIE that is not below `level` among those visited, the last one first, is a subprogram
  -- at this level whose range has the PC.
  pub data Under (pc level : ℕ) : List (Visited W.Die) → Type 0 where
    subprogram :
        (die : W.Die) {before : List (Visited W.Die)}
        → sd_has_tag die tag_subprogram ≡ true
        → sd_check_pc_in_die die pc ≡ ok true
        → Under pc level (die_at die level ∷ before)
    below :
        (die : W.Die) (l : ℕ) {before : List (Visited W.Die)}
        → level < l
        → Under pc level before
        → Under pc level (die_at die l ∷ before)

  abbrev InScope : ℕ → List (Visited W.Die) → VarattrSearchFindings → Type 0
  InScope pc before f = f.in_scope ≡ true → Under pc f.scope_level before

  -- What the search with the scope gives.
  abbrev pub FoundUnder : ℕ → CString → List (Visited W.Die) → VarattrSearchFindings → Type 0
  FoundUnder pc var_name visited f =
      (before : List (Visited W.Die)) × (die : W.Die) × (level : ℕ) × (after : List (Visited W.Die))
      × (visited ≡ onto before (die_at die level ∷ after))
      × (is_variable var_name die ≡ true)
      × (f.scope_level < level)
      × Under pc f.scope_level before

  leave_scope-cases :
      (l : ℕ) (f : VarattrSearchFindings)
      → ((f.scope_level < l) × (leave_scope l f ≡ f))
        ⊎ (leave_scope l f ≡ record f { in_scope = false })
  unfolding leave_scope
  leave_scope-cases l f = elim (Bool-cases (ltb f.scope_level l)) [
    | inl lt ↦ inl (ground arith, rw (lt, leave_scope) refl)
    | inr ge ↦ inr (rw (ge, leave_scope) refl)
  ]

  described :
      (d : W.Die) (type : SdType) → (o : Option Variable) × (describe d (some (some type)) ≡ some o)
  described d type = elim (DwarfResult-cases (W.attr d at_location)) [
    | inl e ↦ (none, rw (e, describe) refl)
    | inr (inl e) ↦ (none, rw (e, describe) refl)
    | inr (inr (a, e)) ↦ elim (Option-cases (sd_init_loc_attr d a)) [
      | inl k ↦ (none, rw (e, describe, k) refl)
      | inr (attr, k) ↦ (
        some (record {
          loc_attr = attr;
          type = type;
          decl_file = decl_file_of d;
          decl_line = decl_line_of d;
        }),
        rw (e, describe, k) refl,
      )
    ]
  ]

  describe_lem :
      (fuel : ℕ) (die : W.Die)
      → Chain fuel die
      → (o : Option Variable) × (describe die (sd_variable_type fuel die) ≡ some o)
  describe_lem fuel die c = elim (sd_variable_type_lem fuel die c) [
    | inl e ↦ (none, rw e refl)
    | inr (type, e, _) ↦ rw e (described die type)
  ]

module _ ⦃W : Libdwarf⦄ (fuel pc : ℕ) (var_name : CString)
    (chains : (die : W.Die) → Chain fuel die) where
  abbrev search_for : VarattrSearchFor
  search_for = record { pc = pc; use_scope = true; var_name = var_name }

  -- What a call of the callback on a DIE leaves behind the DIEs before it.
  abbrev Good : W.Die → ℕ → List (Visited W.Die) → Bool × Option VarattrSearchFindings → Type 0
  Good die l before (false, none) = ⊥
  Good die l before (false, some f) = InScope pc (die_at die l ∷ before) f
  Good die l before (true, none) = ⊥
  Good die l before (true, some f) =
      (is_variable var_name die ≡ true) × (f.scope_level < l) × Under pc f.scope_level before

  store_variable-Good :
      (die : W.Die) (l : ℕ) (before : List (Visited W.Die)) (f : VarattrSearchFindings)
      (o : Option Variable)
      → is_variable var_name die ≡ true
      → f.scope_level < l
      → Under pc f.scope_level before
      → Good die l before (store_variable f (some o))
  store_variable-Good die l before f none v lt u = λ _. below die l lt u
  store_variable-Good die l before f (some x) v lt u = (v, lt, u)

  look_for_variable-Good :
      (die : W.Die) (l : ℕ) (before : List (Visited W.Die)) (f : VarattrSearchFindings)
      → f.scope_level < l
      → Under pc f.scope_level before
      → Good die l before (look_for_variable fuel var_name die f)
  unfolding look_for_variable
  look_for_variable-Good die l before f lt u = elim (Bool-cases (is_variable var_name die)) [
    | inl v ↦
        let (o, e) = describe_lem fuel die (chains die) in
        rw (v, look_for_variable, e) (store_variable-Good die l before f o v lt u)
    | inr v ↦ rw (v, look_for_variable) (λ _. below die l lt u)
  ]

  enter_scope-Good :
      (die : W.Die) (l : ℕ) (before : List (Visited W.Die)) (f : VarattrSearchFindings)
      (r : DwarfResult Bool)
      → sd_has_tag die tag_subprogram ≡ true
      → sd_check_pc_in_die die pc ≡ r
      → (f.in_scope ≡ true → (f.scope_level < l) × Under pc f.scope_level before)
      → Good die l before (false, some (enter_scope l r f))
  enter_scope-Good die l before f (ok true) tag check h = λ _. subprogram die tag check
  enter_scope-Good die l before f (ok false) tag check h = λ e. cc
  enter_scope-Good die l before f no_entry tag check h = λ e. let u = h e in below die l u.0 u.1
  enter_scope-Good die l before f error tag check h = λ e. let u = h e in below die l u.0 u.1

  look_in_scope-Good :
      (die : W.Die) (l : ℕ) (before : List (Visited W.Die)) (f : VarattrSearchFindings)
      → (f.in_scope ≡ true → (f.scope_level < l) × Under pc f.scope_level before)
      → Good die l before (look_in_scope fuel search_for die l f)
  unfolding look_in_scope
  look_in_scope-Good die l before f h = elim (Bool-cases (sd_has_tag die tag_subprogram)) [
    | inl tag ↦
        rw (tag, look_in_scope)
          (enter_scope-Good die l before f (sd_check_pc_in_die die pc) tag refl h)
    | inr other ↦ elim (Bool-cases f.in_scope) [
      | inl e ↦ rw (other, e, look_in_scope) (look_for_variable-Good die l before f (h e).0 (h e).1)
      | inr e ↦ rw (other, e, look_in_scope) (λ e'. let k : true ≡ false = sym e' ∙ e in cc)
    ]
  ]

  callback-Good :
      (die : W.Die) (l : ℕ) (before : List (Visited W.Die)) (f : VarattrSearchFindings)
      → InScope pc before f
      → Good die l before (callback__find_runtime_variable fuel search_for die l (some f))
  unfolding callback__find_runtime_variable
  callback-Good die l before f h = elim (leave_scope-cases l f) [
    | inl (lt, e) ↦ rw e (look_in_scope-Good die l before f (λ k. (lt, h k)))
    | inr e ↦ rw e (look_in_scope-Good die l before (record f { in_scope = false }) (λ k. cc))
  ]

  abbrev Result : List (Visited W.Die) → Outcome × Option VarattrSearchFindings → Type 0
  Result visited (dlv_ok, some f) = FoundUnder pc var_name visited f
  Result visited (dlv_no_entry, some f) = Unit {0}
  Result visited (dlv_error, some f) = Unit {0}
  Result visited (res, none) = ⊥

  after_visit-Result :
      (die : W.Die) (l : ℕ) (before after : List (Visited W.Die))
      (r : Bool × Option VarattrSearchFindings)
      (rest : Option VarattrSearchFindings → Outcome × Option VarattrSearchFindings)
      → Good die l before r
      → ((f : VarattrSearchFindings)
          → InScope pc (die_at die l ∷ before) f
          → Result (onto before (die_at die l ∷ after)) (rest (some f)))
      → Result (onto before (die_at die l ∷ after)) (after_visit r rest)
  after_visit-Result die l before after (false, none) rest g h = absurd g
  after_visit-Result die l before after (false, some f) rest g h = h f g
  after_visit-Result die l before after (true, none) rest g h = absurd g
  after_visit-Result die l before after (true, some f) rest (v, lt, u) h =
      (before, die, l, after, refl, v, lt, u)

  first_found-Result :
      (before rest : List (Visited W.Die)) (f : VarattrSearchFindings)
      → InScope pc before f
      → Result
          (onto before rest)
          (first_found (callback__find_runtime_variable fuel search_for) rest (some f))
  unfolding first_found
  first_found-Result before [] f h = tt
  first_found-Result before (failure ∷ rest) f h = tt
  first_found-Result before (die_at die l ∷ rest) f h =
      after_visit-Result die l before rest
        (callback__find_runtime_variable fuel search_for die l (some f))
        (first_found (callback__find_runtime_variable fuel search_for) rest)
        (callback-Good die l before f h)
        (λ f' h'. first_found-Result (die_at die l ∷ before) rest f' h')

  -- A search in the scope of the PC among these DIEs that fails, finds nothing, or finds a variable
  -- under a subprogram of the PC.
  pub data Scoped (visited : List (Visited W.Die)) : Option VariableSearched → Type 0 where
    unreadable : (r : VariableSearched) → r.res ≡ dlv_error → Scoped visited (some r)
    absent : (r : VariableSearched) → r.res ≡ dlv_no_entry → Scoped visited (some r)
    found :
        (r : VariableSearched)
        → r.res ≡ dlv_ok
        → FoundUnder pc var_name visited r.findings
        → Scoped visited (some r)

  abbrev out_of_scope : VarattrSearchFindings
  out_of_scope = record { in_scope = false; scope_level = 0; found = none }

  Result-Scoped :
      (visited : List (Visited W.Die)) (r : Outcome × Option VarattrSearchFindings) (dbg : W.Debug)
      → Result visited r
      → Scoped visited (searched_variable (some (record { res = r.0; dbg = dbg; findings = r.1 })))
  Result-Scoped visited (dlv_ok, some f) dbg h = found _ refl h
  Result-Scoped visited (dlv_no_entry, some f) dbg h = absent _ refl
  Result-Scoped visited (dlv_error, some f) dbg h = unreadable _ refl
  Result-Scoped visited (res, none) dbg h = absurd h

  -- Where the units, their DIEs and the chains of types are finitely many and the fuel suffices for
  -- them, the search for a variable in the scope of a PC fails, finds nothing, or ends at a DIE that
  -- is a variable or a parameter with the name and a location. In that case some subprogram whose
  -- range has the PC stands before it, and all DIEs from there on, the one found included, are on
  -- deeper levels, so that the variable belongs to that subprogram.
  pub search_variable-Scoped :
      (tree_fuel n : ℕ) (us vs : List UnitDies) (dbg mid last : W.Debug)
      → Walk true dbg us mid
      → Walk false mid vs last
      → AllFit tree_fuel us
      → AllFit tree_fuel vs
      → length us + suc (length vs) < n
      → Scoped
          (dies_of us ++ dies_of vs)
          (search_variable fuel tree_fuel n dbg search_for out_of_scope)
  unfolding search_variable
  search_variable-Scoped tree_fuel n us vs dbg mid last wu wv fu fv lt =
      let visited = dies_of us ++ dies_of vs in
      let callback = callback__find_runtime_variable fuel search_for in
      let e =
        sd_search_dwarf_dbg_lem tree_fuel callback us vs n dbg mid last (some out_of_scope) wu wv fu
          fv lt in
      rw (search_variable, e.1)
        (Result-Scoped visited (first_found callback visited (some out_of_scope)) e.0
          (first_found-Result [] visited out_of_scope (λ h. cc)))
