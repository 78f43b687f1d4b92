-- ===== src/LineTable/Tests.antt =====
-- A small line table: runs of the searches, and the theorems at it.
use spray.Base.{
  ℕ, ◌≡◌, refl, Bool, true, false, some, none, List, [], ◌∷◌, map, CString, bytes, arith, zero, suc,
  get_elem?,
}
use spray.Magic.{SprayResult, sp_ok}
use spray.LineTable.{
  LineEntry, Dwarf, get_line_table_index_of_pc, get_line_table_index_of_line, sd_line_entry_from_pc,
  sd_for_each_line, sd_effective_start_addr, count_while, next_is_above, find_exact,
  entry_from_table, visit_lines, drop_lines, find_prologue_end, start_in_table, start_in_files,
}
use spray.LineTable.Search.{PcIndex, get_line_table_index_of_pc_lem}
use spray.LineTable.Entry.{IsFresh, IsEntryFor, sd_line_entry_from_pc_lem}

abbrev line : (ln addr : ℕ) → (new_statement prologue_end : Bool) → LineEntry
line ln addr new_statement prologue_end = record {
  is_ok = true;
  new_statement = new_statement;
  prologue_end = prologue_end;
  is_exact = false;
  ln = ln;
  cl = 1;
  addr = addr;
}

abbrev lines : List LineEntry
lines =
    line 3 0x1100 true false
    ∷ line 4 0x1108 true true
    ∷ line 4 0x1110 false false
    ∷ line 6 0x1118 true false
    ∷ []

abbrev dwarf : Dwarf
dwarf = record {
  filepath_from_pc = λ pc. some (bytes "main.c");
  line_table = λ f. some lines;
  subprog_pc_range = λ name. some (record { lowpc = 0x1100; highpc = 0x1118 });
  filepaths = bytes "main.c" ∷ [];
}

run_indices :
    map (get_line_table_index_of_pc lines) (0x1100 ∷ 0x1101 ∷ 0x1110 ∷ 0x1119 ∷ [])
    ≡ some 0 ∷ some 1 ∷ some 2 ∷ none ∷ []
unfolding get_line_table_index_of_pc count_while next_is_above
run_indices = refl

run_lines :
    map (get_line_table_index_of_line lines) (1 ∷ 4 ∷ 5 ∷ 7 ∷ [])
    ≡ some 0 ∷ some 1 ∷ some 3 ∷ none ∷ []
unfolding get_line_table_index_of_line count_while
run_lines = refl

abbrev collect : LineEntry → List ℕ → SprayResult × List ℕ
collect l found = (sp_ok, l.ln ∷ found)

run_visit : sd_for_each_line dwarf 0 (bytes "main.c") collect [] ≡ (sp_ok, 6 ∷ 4 ∷ 3 ∷ [])
unfolding sd_for_each_line visit_lines drop_lines get_line_table_index_of_pc count_while
    next_is_above
run_visit = refl

run_start : sd_effective_start_addr dwarf 0x1100 0x1118 ≡ some 0x1108
unfolding sd_effective_start_addr start_in_files start_in_table find_prologue_end drop_lines
    get_line_table_index_of_pc count_while next_is_above
run_start = refl

-- Inside a line, the entry is that of the line behind it.
run_inside : sd_line_entry_from_pc dwarf 0x1101 ≡ some (line 4 0x1108 true true)
unfolding sd_line_entry_from_pc entry_from_table find_exact get_line_table_index_of_pc count_while
    next_is_above
run_inside = refl

lines-IsFresh : (f : CString) (ls : List LineEntry) → dwarf.line_table f ≡ some ls → IsFresh ls
lines-IsFresh f ls h =
    let same : ls ≡ lines = ground arith in
    rw same (record { line_ok = all_ok; line_inexact = all_inexact })
  where
    all_ok : (i : ℕ) (l : LineEntry) → get_elem? lines i ≡ some l → l.is_ok ≡ true
    all_ok zero l e = ground arith
    all_ok (suc zero) l e = ground arith
    all_ok (suc (suc zero)) l e = ground arith
    all_ok (suc (suc (suc zero))) l e = ground arith
    all_ok (suc (suc (suc (suc i)))) l e = cc

    all_inexact : (i : ℕ) (l : LineEntry) → get_elem? lines i ≡ some l → l.is_exact ≡ false
    all_inexact zero l e = ground arith
    all_inexact (suc zero) l e = ground arith
    all_inexact (suc (suc zero)) l e = ground arith
    all_inexact (suc (suc (suc zero))) l e = ground arith
    all_inexact (suc (suc (suc (suc i)))) l e = cc

get_line_table_index_of_pc_lem_example :
    PcIndex lines 0x1101 (get_line_table_index_of_pc lines 0x1101)
get_line_table_index_of_pc_lem_example = get_line_table_index_of_pc_lem lines 0x1101

sd_line_entry_from_pc_lem_example : IsEntryFor 0x1101 (line 4 0x1108 true true)
sd_line_entry_from_pc_lem_example =
    sd_line_entry_from_pc_lem dwarf lines-IsFresh 0x1101 (line 4 0x1108 true true) run_inside
