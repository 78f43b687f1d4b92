-- ===== src/Die.antt =====
-- src/spray_dwarf.c: the questions about a debugging information entry (DIE) that the searches ask,
-- over libdwarf as a parameter. A `Dwarf_Debug` is the place that its walk over the units has
-- reached; error objects and memory are left out.
pub mod Search
pub mod Preorder
pub mod Units
pub mod Compiler
pub mod Lookup
pub mod Paths
pub mod Lines
pub mod FirstTable
mod Tests
use spray.Base.{
  ℕ, zero, suc, ◌+◌, ◌-◌, Bool, true, false, ◌&&◌, ◌||◌, not, Option, none, some, List, [], ◌∷◌,
  ◌++◌, ◌%◌, ◌≡◌, ◌⊎◌, inl, inr, refl, CString, bytes, leb, ◌==◌, if◌then◌else◌, length,
}
use spray.Magic.{str_eq, word_mod}

-- `DW_DLV_OK` with what the call stores, `DW_DLV_NO_ENTRY` and `DW_DLV_ERROR`.
pub data DwarfResult {ℓ} (A : Type ℓ) : Type ℓ where
  ok : A → DwarfResult A
  no_entry error : DwarfResult A

pub DwarfResult-cases {ℓ} :
    {A : Type ℓ} (r : DwarfResult A) → (r ≡ no_entry) ⊎ (r ≡ error) ⊎ ((a : A) × (r ≡ ok a))
DwarfResult-cases no_entry = inl refl
DwarfResult-cases error = inr (inl refl)
DwarfResult-cases (ok a) = inr (inr (a, refl))

-- The tags and attributes of dwarf.h.
abbrev pub tag_formal_parameter : ℕ
tag_formal_parameter = 0x05

abbrev pub tag_compile_unit : ℕ
tag_compile_unit = 0x11

abbrev pub tag_subprogram : ℕ
tag_subprogram = 0x2e

abbrev pub tag_variable : ℕ
tag_variable = 0x34

abbrev pub at_location : ℕ
at_location = 0x02

abbrev pub at_name : ℕ
at_name = 0x03

abbrev pub at_comp_dir : ℕ
at_comp_dir = 0x1b

abbrev pub at_producer : ℕ
at_producer = 0x25

abbrev pub at_decl_file : ℕ
at_decl_file = 0x3a

abbrev pub at_decl_line : ℕ
at_decl_line = 0x3b

abbrev pub at_frame_base : ℕ
at_frame_base = 0x40

abbrev pub at_type : ℕ
at_type = 0x49

abbrev pub form_addr : ℕ
form_addr = 0x01

pub data FormClass : Type 0 where
  class_exprloc class_loclist class_loclistsptr class_block class_other : FormClass

-- libdwarf's functions, with the names of its manual.
pub record Libdwarf : Type 1 where
  pub Debug : Type 0
  pub Die : Type 0
  pub Attribute : Type 0
  -- Another header each time, then `no_entry`; the Boolean is `is_info`.
  pub next_cu_header : Debug → Bool → DwarfResult (Unit {0}) × Debug
  -- `dwarf_siblingof_b` without a DIE: the one DIE of the unit that was read.
  pub cu_die : Debug → Bool → DwarfResult Die
  pub child : Die → DwarfResult Die
  pub siblingof : Die → Bool → DwarfResult Die
  pub tag : Die → DwarfResult ℕ
  pub hasattr : Die → ℕ → DwarfResult ℕ
  pub attr : Die → ℕ → DwarfResult Attribute
  pub diename : Die → DwarfResult CString
  pub die_text : Die → ℕ → DwarfResult CString
  pub lowpc : Die → DwarfResult ℕ
  pub highpc : Die → DwarfResult (record { value : ℕ; form : ℕ })
  pub addr_form_is_indexed : ℕ → Bool
  pub bytesize : Die → DwarfResult ℕ
  pub dietype_offset : Die → DwarfResult (record { off : ℕ; is_info : Bool })
  pub cu_dieoffset_given_die : Die → DwarfResult ℕ
  pub offdie : ℕ → Bool → DwarfResult Die
  pub srcfiles : Die → DwarfResult (List CString)
  -- `none` is the attribute `NULL`
  pub formudata : Option Attribute → DwarfResult ℕ
  pub whatform : Attribute → DwarfResult ℕ
  pub whatattr : Attribute → DwarfResult ℕ
  pub version_of_die : Die → DwarfResult (record { version : ℕ; offset_size : ℕ })
  pub form_class : (version num offset_size form : ℕ) → FormClass
  pub LineContext : Type 0
  pub Line : Type 0
  pub srclines : Die → DwarfResult (record { table_count : ℕ; context : LineContext })
  pub srclines_from_linecontext : LineContext → DwarfResult (List Line)
  pub lineno : Line → DwarfResult ℕ
  pub lineoff : Line → DwarfResult ℕ
  pub lineaddr : Line → DwarfResult ℕ
  pub linesrc : Line → DwarfResult CString
  pub linebeginstatement : Line → DwarfResult ℕ
  -- the flag of the end of the prologue
  pub prologue_end_etc : Line → DwarfResult ℕ
  pub LocHead : Type 0
  pub Locdesc : Type 0
  pub get_loclist : Attribute → DwarfResult (record { head : LocHead; count : ℕ })
  pub get_locdesc_entry :
      LocHead
      → ℕ
      → DwarfResult (record {
        debug_addr_missing : ℕ;
        low_pc : ℕ;
        high_pc : ℕ;
        op_count : ℕ;
        entry : Locdesc;
      })
  pub get_location_op_value : Locdesc → ℕ → DwarfResult (record { opcode : ℕ; operand1 : ℕ })

-- Whether a text has another in it: `strstr (s, part) != NULL`.
unfoldable pub has_prefix : CString → CString → Bool
has_prefix s [] = true
has_prefix [] (c ∷ part) = false
has_prefix (d ∷ s) (c ∷ part) = (c == d) && has_prefix s part

unfoldable pub strstr : CString → CString → Bool
unfolding has_prefix
strstr [] part = has_prefix [] part
strstr (c ∷ s) part = has_prefix (c ∷ s) part || strstr s part

unfoldable pub dwarf_bool_to_bool : ℕ → Bool
dwarf_bool_to_bool dwarf_bool = not (dwarf_bool == 0)

module _ ⦃W : Libdwarf⦄ where
  unfoldable pub sd_has_tag : W.Die → ℕ → Bool
  sd_has_tag die tagnum = elim (W.tag die) [
    | ok die_tag ↦ die_tag == tagnum
    | no_entry ↦ false
    | error ↦ false
  ]

  unfoldable pub sd_has_at : W.Die → ℕ → Bool
  unfolding dwarf_bool_to_bool
  sd_has_at die attrnum = elim (W.hasattr die attrnum) [
    | ok has_at ↦ dwarf_bool_to_bool has_at
    | no_entry ↦ false
    | error ↦ false
  ]

  -- The address of `DW_AT_high_pc`, which is stored as it is or as an offset from the low one.
  abbrev pub high_address : ℕ → ℕ → ℕ → ℕ
  high_address lowpc value form =
      if not (form == form_addr) && not (W.addr_form_is_indexed form)
      then (value + lowpc) % word_mod
      else value

  unfoldable pub sd_get_high_and_low_pc : W.Die → DwarfResult (record { lowpc : ℕ; highpc : ℕ })
  sd_get_high_and_low_pc die = elim (W.lowpc die) [
    | no_entry ↦ no_entry
    | error ↦ error
    | ok lowpc ↦ elim (W.highpc die) [
      | no_entry ↦ no_entry
      | error ↦ error
      | ok high ↦ ok (record { lowpc = lowpc; highpc = high_address lowpc high.value high.form })
    ]
  ]

  unfoldable pub sd_check_pc_in_die : W.Die → ℕ → DwarfResult Bool
  unfolding sd_get_high_and_low_pc
  sd_check_pc_in_die die pc = elim (sd_get_high_and_low_pc die) [
    | no_entry ↦ no_entry
    | error ↦ error
    | ok range ↦ ok (leb range.lowpc pc && leb pc range.highpc)
  ]

  -- The path of a unit's DIE from its directory and its name, or the file of another DIE.
  unfoldable pub sd_get_filepath : W.Die → Option CString
  unfolding sd_has_at
  sd_get_filepath die = elim (sd_has_at die at_name && sd_has_at die at_comp_dir) [
    | true ↦ elim (W.diename die) [
      | ok file_name ↦ elim (W.die_text die at_comp_dir) [
        | ok dir_name ↦ some (dir_name ++ bytes "/" ++ file_name)
        | no_entry ↦ none
        | error ↦ none
      ]
      | no_entry ↦ none
      | error ↦ none
    ]
    | false ↦ elim (sd_has_at die at_decl_file) [
      | true ↦ elim (W.die_text die at_decl_file) [
        | ok decl_file ↦ some decl_file
        | no_entry ↦ none
        | error ↦ none
      ]
      | false ↦ none
    ]
  ]

  unfoldable pub sd_is_subprog_with_name : W.Die → CString → Bool
  sd_is_subprog_with_name die name = elim (W.tag die) [
    | ok die_tag ↦ elim (die_tag == tag_subprogram) [
      | true ↦ elim (W.die_text die at_name) [
        | ok fn_name ↦ str_eq fn_name name
        | no_entry ↦ false
        | error ↦ false
      ]
      | false ↦ false
    ]
    | no_entry ↦ false
    | error ↦ false
  ]

  -- The unit's DIE, in .debug_info or else in .debug_types; `none` is `SP_ERR`.
  unfoldable pub sd_get_cu_of_die : W.Die → Option W.Die
  sd_get_cu_of_die die = elim (W.cu_dieoffset_given_die die) [
    | ok cu_offset ↦ elim (W.offdie cu_offset true) [
      | ok cu_die ↦ some cu_die
      | no_entry ↦ elim (W.offdie cu_offset false) [
        | ok cu_die ↦ some cu_die
        | no_entry ↦ none
        | error ↦ none
      ]
      | error ↦ none
    ]
    | no_entry ↦ none
    | error ↦ none
  ]

  unfoldable pub sd_get_die_source_files : W.Die → Option (List CString)
  unfolding sd_get_cu_of_die
  sd_get_die_source_files die = elim (sd_get_cu_of_die die) [
    | none ↦ none
    | some cu_die ↦ elim (W.srcfiles cu_die) [
      | ok files ↦ some files
      | no_entry ↦ none
      | error ↦ none
    ]
  ]
