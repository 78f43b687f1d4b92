-- ===== src/Value.antt =====
-- src/info.c: the variables of the running program, and how their values are printed. Conversions
-- of printf(3) at the integer types of C are written out; those of floats are a parameter.
pub mod Masked
pub mod Printable
mod Tests
use spray.Base.{
  ℕ, zero, suc, ◌+◌, ◌-◌, ◌*◌, ◌%◌, ◌^◌, Bool, true, false, ◌&&◌, Option, none, some, List, [], ◌∷◌,
  ◌++◌, CString, bytes, ltb, ◌==◌, if◌then◌else◌, bit_and, ◌<◌,
}
use spray.Base.Int.{ℤ, pos, negsuc}
use spray.Magic.{word_mod}
use spray.Magic.Format.{
  FormatFilter, fmt_none, fmt_addr, default_format, print_format, print_signed, print_nat, digits,
}
use spray.Magic.FilePath.{RelativePath, relative_filepath}
use spray.Registers.{X86Reg}
use spray.Location.{SdLocation, loc_addr, loc_reg}
use spray.VarType.{
  BaseTypeTag, SdBasetype, SdTypemod, SdTypenode, SdType, node_base_type, node_modifier,
  node_unspecified, node_typedef, type_mod_pointer,
}

-- `%f` of an integer that is converted to each of the types.
pub record Floats : Type 0 where
  pub print_float : ℕ → CString
  pub print_double : ℕ → CString
  pub print_long_double : ℕ → CString

pub record RuntimeVariable : Type 0 where
  pub loc : SdLocation
  pub decl_file : Option CString
  pub decl_line : ℕ
  pub type : SdType

unfoldable pub var_loc_addr : Option RuntimeVariable → ℕ
var_loc_addr none = 0
var_loc_addr (some var) = elim (var.loc) [ loc_addr addr ↦ addr | loc_reg r ↦ 0 ]

-- The register 0 is the first one, `r15`.
unfoldable pub var_loc_reg : Option RuntimeVariable → X86Reg
var_loc_reg none = X86Reg.r15
var_loc_reg (some var) = elim (var.loc) [ loc_addr addr ↦ X86Reg.r15 | loc_reg r ↦ r ]

unfoldable pub is_addr_loc : Option RuntimeVariable → Bool
is_addr_loc none = false
is_addr_loc (some var) = elim (var.loc) [ loc_addr addr ↦ true | loc_reg r ↦ false ]

unfoldable pub is_reg_loc : Option RuntimeVariable → Bool
is_reg_loc none = false
is_reg_loc (some var) = elim (var.loc) [ loc_addr addr ↦ false | loc_reg r ↦ true ]

-- The first `n` characters.
unfoldable pub cut : ℕ → CString → CString
cut zero s = []
cut (suc n) [] = []
cut (suc n) (c ∷ s) = c ∷ cut n s

-- The path and the line, at most 255 characters. `none` is a text that C does not define: that of a
-- path that is read out of bounds, and that of a line 0, for which no text is stored.
unfoldable pub print_var_loc : Option CString → Option RuntimeVariable → Option CString
unfolding relative_filepath cut digits
print_var_loc cwd none = some (bytes "<?>:<?>")
print_var_loc cwd (some var) =
    if var.decl_line == 0 then none else elim (relative_filepath cwd var.decl_file) [
      | RelativePath.null ↦ some (cut 255 (bytes "<?>:" ++ print_nat 10 var.decl_line))
      | RelativePath.path p ↦ some (cut 255 (p ++ b':' ∷ print_nat 10 var.decl_line))
      | RelativePath.out_of_bounds ↦ none
    ]

-- `mask << shift_by` on 64 bits, and `~`
abbrev shift_left : ℕ → ℕ → ℕ
shift_left mask shift_by = mask * 2 ^ shift_by % word_mod

abbrev complement : ℕ → ℕ
complement w = word_mod - 1 - w

unfoldable pub mask_of : ℕ → ℕ
mask_of shift_by =
    if ltb shift_by 64 then complement (shift_left (word_mod - 1) shift_by) else word_mod - 1

unfoldable pub mask_var_value_ : SdBasetype → ℕ → ℕ
unfolding mask_of
mask_var_value_ base_type value = bit_and value (mask_of (base_type.size * 8))

unfoldable pub is_pointer : SdTypemod → Bool
is_pointer type_mod_pointer = true
is_pointer _ = false

-- The loop over the nodes of the type.
unfoldable pub mask_by_nodes : SdType → ℕ → ℕ
unfolding mask_var_value_ is_pointer
mask_by_nodes [] value = value
mask_by_nodes (node_base_type base_type ∷ nodes) value = mask_var_value_ base_type value
mask_by_nodes (node_modifier m ∷ nodes) value =
    let rest = mask_by_nodes nodes value in if is_pointer m then value else rest
mask_by_nodes (node_unspecified ∷ nodes) value = mask_by_nodes nodes value
mask_by_nodes (node_typedef ∷ nodes) value = mask_by_nodes nodes value

-- The variable is `none` where it is `NULL`, here and below.
unfoldable pub mask_var_value : Option RuntimeVariable → ℕ → ℕ
unfolding mask_by_nodes
mask_var_value none value = value
mask_var_value (some var) value = mask_by_nodes var.type value

-- The signed number of a type with `m` values, the value being cut to it.
abbrev pub signed : ℕ → ℕ → ℤ
signed m value = let w = value % m in if ltb (w + w) m then pos w else negsuc (m - w - 1)

-- `'%c'`; a text ends at a character 0.
unfoldable pub print_char : ℕ → CString
print_char c = if c == 0 then b'\'' ∷ [] else b'\'' ∷ c ∷ b'\'' ∷ []

module _ (F : Floats) where
  unfoldable pub print_by_type : BaseTypeTag → ℕ → CString
  unfolding print_signed digits print_char
  print_by_type BaseTypeTag.base_type_char value = print_char (value % 256)
  print_by_type BaseTypeTag.base_type_signed_char value = print_signed (signed 256 value)
  print_by_type BaseTypeTag.base_type_unsigned_char value = print_nat 10 (value % 256)
  print_by_type BaseTypeTag.base_type_short value = print_signed (signed (2 ^ 16) value)
  print_by_type BaseTypeTag.base_type_unsigned_short value = print_nat 10 (value % 2 ^ 16)
  print_by_type BaseTypeTag.base_type_int value = print_signed (signed (2 ^ 32) value)
  print_by_type BaseTypeTag.base_type_unsigned_int value = print_nat 10 (value % 2 ^ 32)
  print_by_type BaseTypeTag.base_type_long value = print_signed (signed (2 ^ 64) value)
  print_by_type BaseTypeTag.base_type_unsigned_long value = print_nat 10 value
  print_by_type BaseTypeTag.base_type_long_long value = print_signed (signed (2 ^ 64) value)
  print_by_type BaseTypeTag.base_type_unsigned_long_long value = print_nat 10 value
  print_by_type BaseTypeTag.base_type_float value = F.print_float value
  print_by_type BaseTypeTag.base_type_double value = F.print_double value
  print_by_type BaseTypeTag.base_type_long_double value = F.print_long_double value

  unfoldable pub print_base_type : SdBasetype → ℕ → FormatFilter → CString
  unfolding mask_var_value_ print_by_type print_format
  print_base_type base_type value fmt_none =
      print_by_type base_type.tag (mask_var_value_ base_type value)
  print_base_type base_type value filter = print_format (mask_var_value_ base_type value) filter

  unfoldable pub print_format_with : ℕ → FormatFilter → CString → CString
  unfolding print_format
  print_format_with value filter msg = print_format value filter ++ b' ' ∷ msg

  -- The loop over the nodes, up to the first that can be printed.
  unfoldable pub print_by_nodes : SdType → ℕ → FormatFilter → CString
  unfolding print_base_type print_format_with is_pointer default_format print_format
  print_by_nodes [] value filter = print_format_with value filter (bytes "(no applicable type!)")
  print_by_nodes (node_base_type base_type ∷ nodes) value filter =
      print_base_type base_type value filter
  print_by_nodes (node_modifier m ∷ nodes) value filter =
      let rest = print_by_nodes nodes value filter in
      if is_pointer m then print_format value (default_format filter fmt_addr) else rest
  print_by_nodes (node_unspecified ∷ nodes) value filter = print_by_nodes nodes value filter
  print_by_nodes (node_typedef ∷ nodes) value filter = print_by_nodes nodes value filter

  unfoldable pub print_var_value : Option RuntimeVariable → ℕ → FormatFilter → CString
  unfolding print_by_nodes print_format_with
  print_var_value none value filter = print_format_with value filter (bytes "(no type!)")
  print_var_value (some var) value filter = print_by_nodes var.type value filter

  -- The loop over the nodes, up to the first base type that a pointer is before; only modifiers
  -- may be between them.
  unfoldable pub print_deref_by_nodes : SdType → Bool → ℕ → FormatFilter → CString
  unfolding print_base_type print_format_with is_pointer
  print_deref_by_nodes [] from_pointer deref filter =
      print_format_with deref filter (bytes "(not a pointer!)")
  print_deref_by_nodes (node_base_type base_type ∷ nodes) from_pointer deref filter =
      let rest = print_deref_by_nodes nodes false deref filter in
      if from_pointer then print_base_type base_type deref fmt_none else rest
  print_deref_by_nodes (node_modifier m ∷ nodes) from_pointer deref filter =
      print_deref_by_nodes nodes (if is_pointer m then true else from_pointer) deref filter
  print_deref_by_nodes (node_unspecified ∷ nodes) from_pointer deref filter =
      print_deref_by_nodes nodes false deref filter
  print_deref_by_nodes (node_typedef ∷ nodes) from_pointer deref filter =
      print_deref_by_nodes nodes false deref filter

  unfoldable pub print_var_deref_value : Option RuntimeVariable → ℕ → FormatFilter → CString
  unfolding print_deref_by_nodes print_format_with
  print_var_deref_value none deref filter = print_format_with deref filter (bytes "(no type!)")
  print_var_deref_value (some var) deref filter = print_deref_by_nodes var.type false deref filter
