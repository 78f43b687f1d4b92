-- ===== src/Die/Tests.antt =====
-- The searches in the sample, and the theorems at it.
use spray.Base.{
  ◌≡◌, ◌↔◌, refl, ℕ, Bool, true, false, none, some, List, [], ◌∷◌, map, ◌++◌, arith, bytes,
  eq_bytes, CString,
}
use spray.Magic.{str_eq}
use spray.DieSample.{sample, units, units_walk, units_fit}
use spray.Die.{
  ok, sd_has_tag, sd_check_pc_in_die, sd_get_high_and_low_pc, sd_is_subprog_with_name, strstr,
  has_prefix, sd_get_filepath, sd_has_at, dwarf_bool_to_bool,
}
use spray.Die.Search.{
  sd_search_dwarf_dbg, SearchCallback, search_units, search_unit, sd_search_dwarf_die, search_loop,
  search_self, search_siblings,
}
use spray.Die.Preorder.{first_found}
use spray.Die.Units.{Ends, dies_of, sd_search_dwarf_dbg_lem}
use spray.LineTable.{LineEntry}
use spray.Die.Paths.{
  resolved, not_there, sd_is_die_from_file, basename, split_path, SplitPath, trim, put_before,
  before_slash, behind_slash,
}
use spray.Die.Lines.{
  sd_get_line_table, callback__get_srclines, sd_get_line_context, line_entries,
  sd_line_entry_from_dwarf_line,
}
use spray.Die.FirstTable.{first_table, sd_get_line_table_lem}
use spray.Die.Compiler.{AllClang, sd_is_valid_compiler_lem}
use spray.Die.Lookup.{
  sd_is_valid_compiler, sd_get_subprog_pc_range, callback__is_valid_compiler,
  callback__find_subprog_pc_range_by_subprog_name,
}

abbrev line : (ln addr : ℕ) → Bool → LineEntry
line ln addr prologue_end = record {
  is_ok = true;
  new_statement = true;
  prologue_end = prologue_end;
  is_exact = false;
  ln = ln;
  cl = 1;
  addr = addr;
}

abbrev sample_lines : List LineEntry
sample_lines = line 4 0x10 false ∷ line 5 0x14 true ∷ line 7 0x1c false ∷ []

abbrev by_name : SearchCallback ℕ
by_name die level calls = (sd_is_subprog_with_name die (bytes "main"), calls)

sd_search_dwarf_dbg_lem_example :
    Ends (first_found by_name (dies_of units ++ []) 0) 0 (sd_search_dwarf_dbg 9 3 0 by_name 0)
sd_search_dwarf_dbg_lem_example =
    sd_search_dwarf_dbg_lem 9 by_name units [] 3 0 0 0 0 units_walk refl units_fit tt (omega arith)

sd_is_valid_compiler_lem_example :
    (b : Bool) × (dbg' : ℕ) × (sd_is_valid_compiler 9 3 0 ≡ some (b, dbg'))
    × ((b ≡ true) ↔ AllClang (dies_of units ++ []))
sd_is_valid_compiler_lem_example =
    sd_is_valid_compiler_lem 9 3 units [] 0 0 0 units_walk refl units_fit tt (omega arith)

run_compiler : sd_is_valid_compiler 9 3 0 ≡ some (true, 0)
unfolding sd_is_valid_compiler sd_search_dwarf_dbg callback__is_valid_compiler search_units
    search_unit sd_search_dwarf_die search_loop search_self search_siblings sd_has_tag strstr
    has_prefix
run_compiler = refl

run_range :
    sd_get_subprog_pc_range 9 3 0 (bytes "main")
    ≡ some (some (record { lowpc = 0x10; highpc = 0x20 }), 0)
unfolding sd_get_subprog_pc_range sd_search_dwarf_dbg
    callback__find_subprog_pc_range_by_subprog_name search_units search_unit sd_search_dwarf_die
    search_loop search_self search_siblings sd_is_subprog_with_name str_eq eq_bytes
    sd_get_high_and_low_pc
run_range = refl

-- The address behind the function counts as one of its own.
run_behind : sd_check_pc_in_die ⦃W = sample⦄ 2 0x20 ≡ ok true
unfolding sd_check_pc_in_die sd_get_high_and_low_pc
run_behind = refl

-- The table is found by the whole path of the unit, and by its name alone where there is no such file.
run_lines :
    map
      (λ r. sd_get_line_table (λ filepath. r) 9 3 0 (bytes "src/main.c"))
      (resolved (bytes "/home/main.c") ∷ not_there ∷ resolved (bytes "/tmp/main.c") ∷ [])
    ≡ (some (some sample_lines, 0) ∷ some (some sample_lines, 0) ∷ some (none, 0) ∷ [])
unfolding sd_get_line_table sd_search_dwarf_dbg callback__get_srclines search_units search_unit
    sd_search_dwarf_die search_loop search_self search_siblings sd_has_tag sd_is_die_from_file
    sd_get_filepath sd_has_at sd_get_line_context line_entries sd_line_entry_from_dwarf_line
    dwarf_bool_to_bool basename split_path trim put_before before_slash behind_slash str_eq eq_bytes
run_lines = refl

sd_get_line_table_lem_example :
    (dbg' : ℕ) × (sd_get_line_table (λ filepath. not_there) 9 3 0 (bytes "main.c")
      ≡ some (first_table (λ filepath. not_there) (bytes "main.c") (dies_of units ++ []), dbg'))
sd_get_line_table_lem_example =
    sd_get_line_table_lem (λ filepath. not_there) (bytes "main.c") 9 3 units [] 0 0 0 units_walk
      refl units_fit tt (omega arith)

abbrev split : (file_name dir_name : CString) → SplitPath
split file_name dir_name = record { file_name = file_name; dir_name = dir_name }

run_split :
    map split_path (bytes "/a/b//" ∷ bytes "a" ∷ bytes "//" ∷ bytes "///a" ∷ [] ∷ [])
    ≡ split (bytes "b") (bytes "/a")
      ∷ split (bytes "a") (bytes ".")
      ∷ split (bytes "/") (bytes "//")
      ∷ split (bytes "a") (bytes "/")
      ∷ split (bytes ".") (bytes ".")
      ∷ []
unfolding split_path trim put_before before_slash behind_slash
run_split = refl

-- The name of a file in the root directory is gone.
run_split_at_root :
    map split_path (bytes "/main.c" ∷ bytes "//main.c" ∷ [])
    ≡ split [] (bytes "/") ∷ split [] (bytes "//") ∷ []
unfolding split_path trim put_before before_slash behind_slash
run_split_at_root = refl
