-- ===== src/Die/Lines.antt =====
-- src/spray_dwarf.c: the line table of a source file, built from libdwarf's lines. The path that is
-- kept with each line is left out, as in `LineEntry`.
use spray.Base.{
  ℕ, Bool, true, false, Option, none, some, List, [], ◌∷◌, CString, ◌==◌, ◌%◌, ◌^◌, if◌then◌else◌,
}
use spray.Die.{
  DwarfResult, ok, no_entry, error, Libdwarf, tag_compile_unit, sd_has_tag, dwarf_bool_to_bool,
}
use spray.Die.Search.{SearchCallback, sd_search_dwarf_dbg}
use spray.Die.Lookup.{found_by}
use spray.Die.Paths.{RealPath, sd_is_die_from_file}
use spray.LineTable.{LineEntry}

abbrev and_then : {A B : Type 0} → DwarfResult A → (A → DwarfResult B) → DwarfResult B
and_then (ok a) f = f a
and_then no_entry f = no_entry
and_then error f = error

module _ ⦃W : Libdwarf⦄ where
  -- `none` is `false`; the experimental two-level table is not supported.
  unfoldable pub sd_get_line_context : W.Die → Option W.LineContext
  sd_get_line_context cu_die = elim (W.srclines cu_die) [
    | no_entry ↦ none
    | error ↦ none
    | ok r ↦ if r.table_count == 2 then none else some r.context
  ]

  unfoldable pub sd_line_entry_from_dwarf_line : W.Line → DwarfResult LineEntry
  unfolding dwarf_bool_to_bool
  sd_line_entry_from_dwarf_line line = and_then (W.lineno line) (λ lineno.
      and_then (W.lineoff line) (λ colno. and_then (W.lineaddr line) (λ addr.
        and_then (W.linesrc line) (λ filepath.
          and_then (W.linebeginstatement line) (λ new_statement.
            and_then (W.prologue_end_etc line) (λ prologue_end. ok (record {
              is_ok = true;
              new_statement = dwarf_bool_to_bool new_statement;
              prologue_end = dwarf_bool_to_bool prologue_end;
              is_exact = false;
              ln = lineno % 2 ^ 32;
              cl = colno % 2 ^ 32;
              addr = addr;
            })))))))

  -- The loop over the lines; `none` is an entry that could not be read.
  unfoldable pub line_entries : List W.Line → Option (List LineEntry)
  unfolding sd_line_entry_from_dwarf_line
  line_entries [] = some []
  line_entries (line ∷ lines) = elim (sd_line_entry_from_dwarf_line line) [
    | no_entry ↦ none
    | error ↦ none
    | ok entry ↦ elim (line_entries lines) [ none ↦ none | some entries ↦ some (entry ∷ entries) ]
  ]

  abbrev pub store_lines :
      Option (List LineEntry) → Option (List LineEntry) → Bool × Option (List LineEntry)
  store_lines none line_table = (false, line_table)
  store_lines (some entries) line_table = (true, some entries)

  abbrev pub read_lines : Option W.LineContext → Option (List LineEntry)
  read_lines none = none
  read_lines (some line_context) = elim (W.srclines_from_linecontext line_context) [
    | no_entry ↦ none
    | error ↦ none
    | ok lines ↦ line_entries lines
  ]

  module _ (realpath : CString → RealPath) where
    -- `none` in the findings is `is_set = false`.
    unfoldable pub callback__get_srclines : CString → SearchCallback (Option (List LineEntry))
    unfolding sd_has_tag sd_is_die_from_file sd_get_line_context line_entries
    callback__get_srclines filepath cu_die level line_table =
        if sd_has_tag cu_die tag_compile_unit
        then (if sd_is_die_from_file realpath cu_die filepath
            then store_lines (read_lines (sd_get_line_context cu_die)) line_table
            else (false, line_table))
        else (false, line_table)

    unfoldable pub sd_get_line_table :
        ℕ → ℕ → W.Debug → CString → Option (Option (List LineEntry) × W.Debug)
    unfolding sd_search_dwarf_dbg callback__get_srclines
    sd_get_line_table fuel n dbg filepath =
        found_by (λ line_table. line_table) none
          (sd_search_dwarf_dbg fuel n dbg (callback__get_srclines filepath) none)
