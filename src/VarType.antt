-- ===== src/VarType.antt =====
-- src/spray_dwarf.h and src/spray_dwarf.c: the types of variables, read from the chain of DIEs that
-- `DW_AT_type` links. A type is the list of its nodes; the buffer that holds them grows as needed.
pub mod Shape
use spray.Base.{
  ℕ, zero, suc, Bool, true, false, Option, none, some, List, [], ◌∷◌, ◌++◌, CString, bytes, ltb,
  ◌==◌, if◌then◌else◌,
}
use spray.Magic.{str_eq}
use spray.Die.{DwarfResult, ok, no_entry, error, Libdwarf, at_type, sd_has_at}

pub data BaseTypeTag : Type 0 where
  base_type_char base_type_signed_char base_type_unsigned_char : BaseTypeTag
  base_type_short base_type_unsigned_short base_type_int base_type_unsigned_int : BaseTypeTag
  base_type_long base_type_unsigned_long base_type_long_long base_type_unsigned_long_long :
      BaseTypeTag
  base_type_float base_type_double base_type_long_double : BaseTypeTag

pub record SdBasetype : Type 0 where
  pub tag : BaseTypeTag
  -- the number of bytes, below 256
  pub size : ℕ

pub data SdTypemod : Type 0 where
  type_mod_atomic type_mod_const type_mod_pointer type_mod_restrict type_mod_volatile : SdTypemod

pub data SdTypenode : Type 0 where
  node_base_type : SdBasetype → SdTypenode
  node_modifier : SdTypemod → SdTypenode
  node_unspecified node_typedef : SdTypenode

abbrev pub SdType : Type 0
SdType = List SdTypenode

abbrev pub tag_pointer_type : ℕ
tag_pointer_type = 0x0f

unfoldable pub base_type_tag : CString → Option BaseTypeTag
base_type_tag type_name =
    if str_eq type_name (bytes "char")
    then some base_type_char
    else if str_eq type_name (bytes "signed char")
    then some base_type_signed_char
    else if str_eq type_name (bytes "unsigned char")
    then some base_type_unsigned_char
    else if str_eq type_name (bytes "short")
    then some base_type_short
    else if str_eq type_name (bytes "unsigned short")
    then some base_type_unsigned_short
    else if str_eq type_name (bytes "int")
    then some base_type_int
    else if str_eq type_name (bytes "unsigned int")
    then some base_type_unsigned_int
    else if str_eq type_name (bytes "long")
    then some base_type_long
    else if str_eq type_name (bytes "unsigned long")
    then some base_type_unsigned_long
    else if str_eq type_name (bytes "long long")
    then some base_type_long_long
    else if str_eq type_name (bytes "unsigned long long")
    then some base_type_unsigned_long_long
    else if str_eq type_name (bytes "float")
    then some base_type_float
    else if str_eq type_name (bytes "double")
    then some base_type_double
    else if str_eq type_name (bytes "long double")
    then some base_type_long_double
    else none

-- The cases of the `switch` on the tag of a type's DIE.
pub data TypeKind : Type 0 where
  kind_base kind_typedef kind_unsupported : TypeKind
  kind_modifier : SdTypemod → TypeKind

unfoldable pub type_kind : ℕ → TypeKind
type_kind tag =
    if tag == 0x24
    then kind_base
    else if tag == tag_pointer_type
    then kind_modifier type_mod_pointer
    else if tag == 0x47
    then kind_modifier type_mod_atomic
    else if tag == 0x26
    then kind_modifier type_mod_const
    else if tag == 0x37
    then kind_modifier type_mod_restrict
    else if tag == 0x35
    then kind_modifier type_mod_volatile
    else if tag == 0x16
    then kind_typedef
    else kind_unsupported

-- The node of a base type with a name that is known, and its size.
abbrev pub sized_base : Option BaseTypeTag → DwarfResult ℕ → Option SdTypenode
sized_base none byte_size = none
sized_base (some tag) no_entry = none
sized_base (some tag) error = none
sized_base (some tag) (ok byte_size) =
    if ltb 0xff byte_size
    then none
    else some (node_base_type (record { tag = tag; size = byte_size }))

module _ ⦃W : Libdwarf⦄ where
  -- `none` is `SP_ERR`.
  unfoldable pub sd_build_base_type : W.Die → Option SdTypenode
  unfolding base_type_tag
  sd_build_base_type die = elim (W.diename die) [
    | no_entry ↦ none
    | error ↦ none
    | ok type_name ↦ sized_base (base_type_tag type_name) (W.bytesize die)
  ]

  unfoldable pub sd_type_die : W.Die → Option W.Die
  sd_type_die die = elim (W.dietype_offset die) [
    | no_entry ↦ none
    | error ↦ none
    | ok type_off ↦ elim (W.offdie type_off.off type_off.is_info) [
      | no_entry ↦ none
      | error ↦ none
      | ok type_die ↦ some type_die
    ]
  ]

  -- The DIE of the next type, with its tag.
  unfoldable pub next_type : W.Die → Option (W.Die × ℕ)
  unfolding sd_type_die
  next_type prev_die = elim (sd_type_die prev_die) [
    | none ↦ none
    | some next_die ↦ elim (W.tag next_die) [
      | no_entry ↦ none
      | error ↦ none
      | ok tag ↦ some (next_die, tag)
    ]
  ]

  -- The node of a base type, which ends the chain.
  abbrev pub end_type : SdType → Option SdTypenode → Option SdType
  end_type type none = none
  end_type type (some node) = some (type ++ node ∷ [])

  -- The `switch`; `build` is the recursive call.
  abbrev pub add_node :
      (W.Die → ℕ → SdType → Option (Option SdType))
      → W.Die
      → ℕ
      → SdType
      → TypeKind
      → Option (Option SdType)
  add_node build next_die tag type kind_base = some (end_type type (sd_build_base_type next_die))
  add_node build next_die tag type (kind_modifier m) =
      build next_die tag (type ++ node_modifier m ∷ [])
  add_node build next_die tag type kind_typedef = build next_die 0 (type ++ node_typedef ∷ [])
  add_node build next_die tag type kind_unsupported = some none

  abbrev pub build_next :
      (W.Die → ℕ → SdType → Option (Option SdType))
      → SdType
      → Option (W.Die × ℕ)
      → Option (Option SdType)
  build_next build type none = some none
  build_next build type (some (next_die, tag)) = add_node build next_die tag type (type_kind tag)

  -- A unit of fuel for each DIE of the chain; `none` means that it ran out, and `some none` is
  -- `SP_ERR`.
  unfoldable pub sd_build_type : ℕ → W.Die → ℕ → SdType → Option (Option SdType)
  unfolding sd_has_at sd_build_base_type next_type type_kind
  sd_build_type zero prev_die prev_tag type = none
  sd_build_type (suc fuel) prev_die prev_tag type = elim (sd_has_at prev_die at_type) [
    | false ↦ some (if prev_tag == tag_pointer_type then some type else none)
    | true ↦ build_next (sd_build_type fuel) type (next_type prev_die)
  ]

  unfoldable pub sd_variable_type : ℕ → W.Die → Option (Option SdType)
  unfolding sd_build_type sd_has_at
  sd_variable_type fuel die =
      if sd_has_at die at_type then sd_build_type fuel die 0 [] else some none
