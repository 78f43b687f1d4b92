-- ===== src/Die/Search.antt =====
-- src/spray_dwarf.c: the search of all DIEs, with a callback that is given each one, its level and
-- the findings so far. A unit of fuel is spent on each DIE that is passed over, and on each header
-- of a unit; `none` means that the fuel ran out.
use spray.Base.{ℕ, zero, suc, Bool, true, false, Option, none, some}
use spray.Die.{DwarfResult, ok, no_entry, error, Libdwarf}

-- A result of libdwarf where nothing is stored.
pub data Outcome : Type 0 where
  dlv_ok dlv_no_entry dlv_error : Outcome

module _ ⦃W : Libdwarf⦄ where
  -- Whether the search ends at a DIE of some level, and the findings.
  abbrev pub SearchCallback : Type 0 → Type 0
  SearchCallback S = W.Die → ℕ → S → Bool × S

  -- The result, the place that the walk over the units has reached, and the findings.
  pub record Searched (S : Type 0) : Type 0 where
    pub res : Outcome
    pub dbg : W.Debug
    pub findings : S

abbrev pub Found : Type 0 → Type 0
Found S = Option (Outcome × S)

module _ {S : Type 0} where
  abbrev pub after_callback : Bool × S → (S → Found S) → Found S
  after_callback (true, findings) search_rest = some (dlv_ok, findings)
  after_callback (false, findings) search_rest = search_rest findings

  -- The result of the search of the children, and the search of the siblings if that found nothing.
  abbrev pub after_children : Found S → (S → Found S) → Found S
  after_children none siblings = none
  after_children (some (dlv_error, findings)) siblings = some (dlv_error, findings)
  after_children (some (dlv_ok, findings)) siblings = some (dlv_ok, findings)
  after_children (some (dlv_no_entry, findings)) siblings = siblings findings

module _ ⦃W : Libdwarf⦄ {S : Type 0} where
  -- The callback on a DIE, and the search of what follows it if that is not found.
  unfoldable pub search_self : SearchCallback S → (W.Die → S → Found S) → ℕ → W.Die → S → Found S
  search_self search_callback search_rest level die findings =
      after_callback (search_callback die level findings) (search_rest die)

  unfoldable pub search_siblings : DwarfResult W.Die → (W.Die → S → Found S) → S → Found S
  search_siblings (ok sib_die) visit findings = visit sib_die findings
  search_siblings no_entry visit findings = some (dlv_no_entry, findings)
  search_siblings error visit findings = some (dlv_error, findings)

  -- The body of the loop, for the DIE that was the last one visited.
  unfoldable pub search_loop : SearchCallback S → Bool → ℕ → ℕ → W.Die → S → Found S
  unfolding search_self search_siblings
  search_loop search_callback is_info zero level cur_die findings = none
  search_loop search_callback is_info (suc fuel) level cur_die findings =
      let siblings =
        search_siblings (W.siblingof cur_die is_info)
          (search_self search_callback (search_loop search_callback is_info fuel level) level) in
      elim (W.child cur_die) [
        | error ↦ some (dlv_error, findings)
        | ok child_die ↦
            after_children
              (search_self search_callback (search_loop search_callback is_info fuel (suc level))
                (suc level) child_die findings)
              siblings
        | no_entry ↦ siblings findings
      ]

  unfoldable pub sd_search_dwarf_die : ℕ → W.Die → Bool → ℕ → SearchCallback S → S → Found S
  unfolding search_self search_loop
  sd_search_dwarf_die fuel in_die is_info level search_callback findings =
      search_self search_callback (search_loop search_callback is_info fuel level) level in_die
        findings

  abbrev pub after_unit : (Bool → S → Option (Searched S)) → W.Debug → Found S → Option (Searched S)
  after_unit rest dbg none = none
  after_unit rest dbg (some (dlv_error, findings)) =
      some (record { res = dlv_error; dbg = dbg; findings = findings })
  after_unit rest dbg (some (dlv_ok, findings)) = rest true findings
  after_unit rest dbg (some (dlv_no_entry, findings)) = rest false findings

  -- The search of the unit that was read.
  unfoldable pub search_unit :
      ℕ
      → SearchCallback S
      → Bool
      → (Bool → S → Option (Searched S))
      → W.Debug
      → S
      → Option (Searched S)
  unfolding sd_search_dwarf_die
  search_unit fuel search_callback is_info rest dbg findings = elim (W.cu_die dbg is_info) [
    | error ↦ some (record { res = dlv_error; dbg = dbg; findings = findings })
    | no_entry ↦ some (record { res = dlv_no_entry; dbg = dbg; findings = findings })
    | ok cu_die ↦
        after_unit rest dbg (sd_search_dwarf_die fuel cu_die is_info 0 search_callback findings)
  ]

  -- What follows the last header: .debug_types after .debug_info, and the end after .debug_types.
  abbrev pub last_header :
      (Bool → Option (Searched S)) → Bool → Bool → W.Debug → S → Option (Searched S)
  last_header rest true search_finished dbg findings = rest false
  last_header rest false true dbg findings =
      some (record { res = dlv_ok; dbg = dbg; findings = findings })
  last_header rest false false dbg findings =
      some (record { res = dlv_no_entry; dbg = dbg; findings = findings })

  -- A header and the place behind it. Once the search has finished, headers are passed over.
  abbrev pub after_header :
      ℕ
      → SearchCallback S
      → (Bool → Bool → W.Debug → S → Option (Searched S))
      → Bool
      → Bool
      → S
      → DwarfResult (Unit {0}) × W.Debug
      → Option (Searched S)
  after_header fuel search_callback rest is_info search_finished findings (error, dbg) =
      some (record { res = dlv_error; dbg = dbg; findings = findings })
  after_header fuel search_callback rest is_info search_finished findings (no_entry, dbg) =
      last_header (λ b. rest b search_finished dbg findings) is_info search_finished dbg findings
  after_header fuel search_callback rest is_info true findings (ok _, dbg) =
      rest is_info true dbg findings
  after_header fuel search_callback rest is_info false findings (ok _, dbg) =
      search_unit fuel search_callback is_info (λ b. rest is_info b dbg) dbg findings

  unfoldable pub search_units :
      ℕ → ℕ → SearchCallback S → Bool → Bool → W.Debug → S → Option (Searched S)
  unfolding search_unit
  search_units fuel zero search_callback is_info search_finished dbg findings = none
  search_units fuel (suc n) search_callback is_info search_finished dbg findings =
      after_header fuel search_callback (search_units fuel n search_callback) is_info
        search_finished findings (W.next_cu_header dbg is_info)

  unfoldable pub sd_search_dwarf_dbg : ℕ → ℕ → W.Debug → SearchCallback S → S → Option (Searched S)
  unfolding search_units search_unit
  sd_search_dwarf_dbg fuel n dbg search_callback findings =
      search_units fuel n search_callback true false dbg findings
