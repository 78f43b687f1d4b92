-- ===== src/VarType/Shape.antt =====
-- src/spray_dwarf.c: the shape of the types that `sd_variable_type` builds.
use mathlib.Core.List.{append_assoc, append-nil}
use spray.Base.{
  ℕ, zero, suc, Bool, true, false, Bool-cases, Option, none, some, [], ◌∷◌, ◌++◌, ◌≡◌, ◌⊎◌, inl,
  inr, refl, sym, arith, ltb, ◌==◌, ==_iff, if◌then◌else◌,
}
use spray.Die.{DwarfResult, ok, no_entry, error, DwarfResult-cases, Libdwarf, at_type, sd_has_at}
use spray.VarType.{
  BaseTypeTag, SdBasetype, SdTypemod, SdType, node_base_type, node_modifier, node_typedef,
  type_mod_pointer, tag_pointer_type, TypeKind, kind_base, kind_modifier, kind_typedef,
  kind_unsupported, type_kind, base_type_tag, sd_build_base_type, next_type, sd_build_type,
  sized_base, sd_variable_type, add_node, end_type,
}

-- Modifiers and typedefs that end in a base type, or in a pointer, which is one to void.
pub data IsComplete : SdType → Type 0 where
  base : (b : SdBasetype) → IsComplete (node_base_type b ∷ [])
  void_pointer : IsComplete (node_modifier type_mod_pointer ∷ [])
  modified : (m : SdTypemod) {type : SdType} → IsComplete type → IsComplete (node_modifier m ∷ type)
  named : {type : SdType} → IsComplete type → IsComplete (node_typedef ∷ type)

-- Whether the chain goes on behind a DIE with some tag.
abbrev pub is_link : TypeKind → Bool
is_link kind_base = false
is_link (kind_modifier m) = true
is_link kind_typedef = true
is_link kind_unsupported = false

-- What the rest of a chain adds to the nodes: nothing behind a pointer, or a complete type.
abbrev Tail : ℕ → SdType → Type 0
Tail prev_tag s = ((s ≡ []) × (prev_tag ≡ tag_pointer_type)) ⊎ IsComplete s

pointer_kind : (m : SdTypemod) → type_kind tag_pointer_type ≡ kind_modifier m → m ≡ type_mod_pointer
unfolding type_kind
pointer_kind m h = cc

sized_base_lem :
    (tag : Option BaseTypeTag) (size : DwarfResult ℕ)
    → (sized_base tag size ≡ none)
      ⊎ ((b : SdBasetype) × (sized_base tag size ≡ some (node_base_type b)))
sized_base_lem none size = inl refl
sized_base_lem (some tag) no_entry = inl refl
sized_base_lem (some tag) error = inl refl
sized_base_lem (some tag) (ok size) = elim (Bool-cases (ltb 0xff size)) [
  | inl e ↦ rw e (inl refl)
  | inr e ↦ rw e (inr (record { tag = tag; size = size }, refl))
]

module _ ⦃W : Libdwarf⦄ where
  -- The chain of types of a DIE has at most so many links.
  abbrev pub Chain : ℕ → W.Die → Type 0
  Chain zero die = ⊥
  Chain (suc k) die =
      (next_type die ≡ none)
      ⊎ ((d : W.Die) × (tag : ℕ) × (next_type die ≡ some (d, tag))
          × ((is_link (type_kind tag) ≡ false) ⊎ Chain k d))

  -- The chain ends with an error, or it adds nodes to those before it.
  abbrev Built : ℕ → SdType → Option (Option SdType) → Type 0
  Built prev_tag type r =
      (r ≡ some none) ⊎ ((s : SdType) × (r ≡ some (some (type ++ s))) × Tail prev_tag s)

  sd_build_base_type_lem :
      (die : W.Die)
      → (sd_build_base_type die ≡ none)
        ⊎ ((b : SdBasetype) × (sd_build_base_type die ≡ some (node_base_type b)))
  unfolding sd_build_base_type
  sd_build_base_type_lem die = elim (DwarfResult-cases (W.diename die)) [
    | inl e ↦ rw (e, sd_build_base_type) (inl refl)
    | inr (inl e) ↦ rw (e, sd_build_base_type) (inl refl)
    | inr (inr (name, e)) ↦
        rw (e, sd_build_base_type) (sized_base_lem (base_type_tag name) (W.bytesize die))
  ]

  after_link :
      (tag prev_tag : ℕ) (type : SdType) (m : SdTypemod) (r : Option (Option SdType))
      → type_kind tag ≡ kind_modifier m
      → Built tag (type ++ node_modifier m ∷ []) r
      → Built prev_tag type r
  after_link tag prev_tag type m r k (inl e) = inl e
  after_link tag prev_tag type m r k (inr (s, e, inr c)) = inr (
    node_modifier m ∷ s,
    rw (append_assoc type (node_modifier m ∷ []) s) at e,
    inr (modified m c),
  )
  after_link tag prev_tag type m r k (inr (s, e, inl (n, p))) = inr (
    node_modifier m ∷ s,
    rw (append_assoc type (node_modifier m ∷ []) s) at e,
    inr (rw (n, pointer_kind m (rw p at k)) void_pointer),
  )

  after_typedef :
      (prev_tag : ℕ) (type : SdType) (r : Option (Option SdType))
      → Built 0 (type ++ node_typedef ∷ []) r
      → Built prev_tag type r
  after_typedef prev_tag type r (inl e) = inl e
  after_typedef prev_tag type r (inr (s, e, inr c)) =
      inr (node_typedef ∷ s, rw (append_assoc type (node_typedef ∷ []) s) at e, inr (named c))
  after_typedef prev_tag type r (inr (s, e, inl (n, p))) = absurd (omega arith)

  end_type_lem :
      (prev_tag : ℕ) (die : W.Die) (type : SdType)
      → Built prev_tag type (some (end_type type (sd_build_base_type die)))
  end_type_lem prev_tag die type = elim (sd_build_base_type_lem die) [
    | inl e ↦ rw e (inl refl)
    | inr (b, e) ↦ rw e (inr (node_base_type b ∷ [], refl, inr (base b)))
  ]

  stop_lem :
      (prev_tag : ℕ) (type : SdType)
      → Built prev_tag type (some (if prev_tag == tag_pointer_type then some type else none))
  stop_lem prev_tag type = elim (Bool-cases (prev_tag == tag_pointer_type)) [
    | inl e ↦
        rw e
          (inr ([], rw (append-nil type) refl, inl (refl, (==_iff prev_tag tag_pointer_type).0 e)))
    | inr e ↦ rw e (inl refl)
  ]

  add_node_lem :
      (fuel prev_tag : ℕ) (d : W.Die) (tag : ℕ) (type : SdType) (kind : TypeKind)
      → type_kind tag ≡ kind
      → ((is_link kind ≡ true)
          → (tag' : ℕ) (t : SdType) → Built tag' t (sd_build_type fuel d tag' t))
      → Built prev_tag type (add_node (sd_build_type fuel) d tag type kind)
  add_node_lem fuel prev_tag d tag type kind_base k ih = end_type_lem prev_tag d type
  add_node_lem fuel prev_tag d tag type (kind_modifier m) k ih =
      after_link tag prev_tag type m (sd_build_type fuel d tag (type ++ node_modifier m ∷ [])) k
        (ih refl tag (type ++ node_modifier m ∷ []))
  add_node_lem fuel prev_tag d tag type kind_typedef k ih =
      after_typedef prev_tag type (sd_build_type fuel d 0 (type ++ node_typedef ∷ []))
        (ih refl 0 (type ++ node_typedef ∷ []))
  add_node_lem fuel prev_tag d tag type kind_unsupported k ih = inl refl

  sd_build_type_lem :
      (fuel : ℕ) (die : W.Die) (prev_tag : ℕ) (type : SdType)
      → Chain fuel die
      → Built prev_tag type (sd_build_type fuel die prev_tag type)
  unfolding sd_build_type
  sd_build_type_lem zero die prev_tag type c = absurd c
  sd_build_type_lem (suc fuel) die prev_tag type c = elim (Bool-cases (sd_has_at die at_type)) [
    | inr e ↦ rw (e, sd_build_type) (stop_lem prev_tag type)
    | inl e ↦
        rw (e, sd_build_type)
          (elim c [
            | inl n ↦ rw n (inl refl)
            | inr (d, tag, n, inl last) ↦ rw n (
                add_node_lem fuel prev_tag d tag type (type_kind tag) refl
                  (λ h. let k : true ≡ false = rw (sym h) last in cc))
            | inr (d, tag, n, inr more) ↦ rw n (
                add_node_lem fuel prev_tag d tag type (type_kind tag) refl
                  (λ h tag' t. sd_build_type_lem fuel d tag' t more))
          ])
  ]

  -- With fuel for the chain of types of a variable, sd_variable_type fails or it builds a complete
  -- type.
  pub sd_variable_type_lem :
      (fuel : ℕ) (die : W.Die)
      → Chain fuel die
      → (sd_variable_type fuel die ≡ some none)
        ⊎ ((type : SdType) × (sd_variable_type fuel die ≡ some (some type)) × IsComplete type)
  unfolding sd_variable_type
  sd_variable_type_lem fuel die c = elim (Bool-cases (sd_has_at die at_type)) [
    | inr e ↦ rw (e, sd_variable_type) (inl refl)
    | inl e ↦
        rw (e, sd_variable_type)
          (elim (sd_build_type_lem fuel die 0 [] c) [
            | inl n ↦ inl n
            | inr (s, n, inl (_, p)) ↦ absurd (omega arith)
            | inr (s, n, inr whole) ↦ inr (s, n, whole)
          ])
  ]
