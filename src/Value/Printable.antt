-- ===== src/Value/Printable.antt =====
-- src/info.c and src/spray_dwarf.c: the values of variables whose types come from the debug
-- information can be printed.
use spray.Base.{ℕ, Option, none, some, ◌≡◌, ◌⊎◌, inl, inr, refl, CString}
use spray.Die.{Libdwarf}
use spray.Magic.Format.{FormatFilter, fmt_addr, default_format, print_format}
use spray.Location.{SdLocation}
use spray.VarType.{
  SdBasetype, SdType, type_mod_atomic, type_mod_const, type_mod_pointer, type_mod_restrict,
  type_mod_volatile, sd_variable_type,
}
use spray.VarType.Shape.{
  IsComplete, base, void_pointer, modified, named, Chain, sd_variable_type_lem,
}
use spray.Value.{Floats, is_pointer, print_base_type, print_by_nodes, print_var_value}

-- A text is the value in a base type, or it is an address unless a filter says otherwise.
abbrev pub PrintedAs : Floats → ℕ → FormatFilter → CString → Type 0
PrintedAs F value filter text =
    ((b : SdBasetype) × (text ≡ print_base_type F b value filter))
    ⊎ (text ≡ print_format value (default_format filter fmt_addr))

print_by_nodes_lem :
    (F : Floats) {type : SdType} (value : ℕ) (filter : FormatFilter)
    → IsComplete type
    → PrintedAs F value filter (print_by_nodes F type value filter)
unfolding print_by_nodes is_pointer
print_by_nodes_lem F value filter (base b) = inl (b, refl)
print_by_nodes_lem F value filter void_pointer = inr refl
print_by_nodes_lem F value filter (named c) = print_by_nodes_lem F value filter c
print_by_nodes_lem F value filter (modified type_mod_pointer c) = inr refl
print_by_nodes_lem F value filter (modified type_mod_atomic c) = print_by_nodes_lem F value filter c
print_by_nodes_lem F value filter (modified type_mod_const c) = print_by_nodes_lem F value filter c
print_by_nodes_lem F value filter (modified type_mod_restrict c) =
    print_by_nodes_lem F value filter c
print_by_nodes_lem F value filter (modified type_mod_volatile c) =
    print_by_nodes_lem F value filter c

module _ ⦃W : Libdwarf⦄ where
  -- With fuel for the chain of types of a variable's DIE, sd_variable_type fails, or it builds a type
  -- that ends in a base type or a pointer to void; and then print_var_value prints any value of a
  -- variable of this type in a base type or by a format, never as one of no applicable type.
  pub print_var_value-sd_variable_type :
      (F : Floats) (fuel : ℕ) (die : W.Die) (loc : SdLocation) (file : Option CString)
      (line value : ℕ) (filter : FormatFilter)
      → Chain fuel die
      → (sd_variable_type fuel die ≡ some none)
        ⊎ ((type : SdType) × (sd_variable_type fuel die ≡ some (some type))
            × IsComplete type
            × PrintedAs F value filter (
                print_var_value F
                  (some (record { loc = loc; decl_file = file; decl_line = line; type = type }))
                  value
                  filter))
  unfolding print_var_value
  print_var_value-sd_variable_type F fuel die loc file line value filter c =
      elim (sd_variable_type_lem fuel die c) [
        | inl e ↦ inl e
        | inr (type, e, whole) ↦ inr (type, e, whole, print_by_nodes_lem F value filter whole)
      ]
