-- ===== src/Value/Tests.antt =====
-- Printed values, and the theorems at some.
use spray.Base.{◌≡◌, ◌⊎◌, inl, inr, refl, none, some, [], ◌∷◌, bytes, arith}
use spray.Magic.Format.{fmt_none, default_format, print_format, print_signed, digits}
use spray.DieSample.{sample}
use spray.Location.{loc_addr}
use spray.VarType.{
  BaseTypeTag, SdBasetype, SdType, node_base_type, node_modifier, node_typedef, type_mod_pointer,
  next_type, sd_type_die, type_kind, sd_variable_type,
}
use spray.VarType.Shape.{Chain, IsComplete}
use spray.Value.{
  Floats, RuntimeVariable, print_base_type, print_var_value, print_var_deref_value, print_by_nodes,
  print_deref_by_nodes, print_by_type, mask_var_value_, mask_of, is_pointer,
}
use spray.Value.Masked.{print_base_type-bytes}
use spray.Value.Printable.{PrintedAs, print_var_value-sd_variable_type}

-- Of the values that are converted, only 0 is printed here.
abbrev floats : Floats
floats = record {
  print_float = λ n. bytes "0.000000";
  print_double = λ n. bytes "0.000000";
  print_long_double = λ n. bytes "0.000000";
}

abbrev int : SdBasetype
int = record { tag = BaseTypeTag.base_type_int; size = 4 }

print_base_type-bytes_example :
    print_base_type floats int 0x7f_ffff_fffe fmt_none
    ≡ print_base_type floats int 0xffff_fffe fmt_none
print_base_type-bytes_example =
    print_base_type-bytes floats int 0x7f_ffff_fffe 0xffff_fffe fmt_none (omega arith) (omega arith)
      (omega arith)

run_int : print_base_type floats int 0x7f_ffff_fffe fmt_none ≡ bytes "-2"
unfolding print_base_type print_by_type mask_var_value_ mask_of print_signed digits
run_int = refl

-- The parameter `x`, a pointer to `int`.
x_chain : Chain 2 3
unfolding next_type sd_type_die type_kind
x_chain = inr (6, 0x0f, refl, inr (inr (5, 0x24, refl, inl refl)))

print_var_value-sd_variable_type_example :
    (sd_variable_type 2 3 ≡ some none)
    ⊎ ((type : SdType) × (sd_variable_type 2 3 ≡ some (some type))
        × IsComplete type
        × PrintedAs floats 0x1000 fmt_none (
            print_var_value floats
              (some (record { loc = loc_addr 0; decl_file = none; decl_line = 1; type = type }))
              0x1000
              fmt_none))
print_var_value-sd_variable_type_example =
    print_var_value-sd_variable_type floats 2 3 (loc_addr 0) none 1 0x1000 fmt_none x_chain

abbrev pointer : RuntimeVariable
pointer = record {
  loc = loc_addr 0x10;
  decl_file = some (bytes "/home/a/x.c");
  decl_line = 12;
  type = node_typedef ∷ node_modifier type_mod_pointer ∷ node_base_type int ∷ [];
}

run_pointer :
    print_var_value floats (some pointer) 0x1000 fmt_none
      ∷ print_var_deref_value floats (some pointer) 0xffff_ffff fmt_none
      ∷ []
    ≡ bytes "0x0000000000001000" ∷ bytes "-1" ∷ []
unfolding print_var_value print_by_nodes print_var_deref_value print_deref_by_nodes print_base_type
    print_by_type mask_var_value_ mask_of print_signed digits is_pointer default_format print_format
run_pointer = refl
