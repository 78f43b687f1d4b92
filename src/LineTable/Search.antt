-- ===== src/LineTable/Search.antt =====
-- What the two index searches of src/spray_dwarf.c find in a line table.
use spray.Base.{
  ℕ, zero, suc, ◌<◌, ◌≤◌, ◌≡◌, refl, Bool, true, false, Option, none, some, List, [], ◌∷◌, arith,
  ltb, if◌then◌else◌, get_elem?, Option-cases, Bool-cases, inl, inr,
}
use native.Mathlib.Decide.{dec_lt}
use spray.LineTable.{LineEntry, count_while, next_is_above, get_line_table_index_of_pc}

-- Line `i` is the first one that fails the test.
pub record IsFirstNot (test : LineEntry → Bool) (lines : List LineEntry) (i : ℕ) (line : LineEntry)
    : Type 0 where
  pub here : get_elem? lines i ≡ some line
  pub fails : test line ≡ false
  pub before : (j : ℕ) (l : LineEntry) → j < i → get_elem? lines j ≡ some l → test l ≡ true

count_while-before :
    (test : LineEntry → Bool) (lines : List LineEntry) (j : ℕ) (l : LineEntry)
    → j < count_while test lines
    → get_elem? lines j ≡ some l
    → test l ≡ true
unfolding count_while
count_while-before test [] j l p e = absurd (omega arith)
count_while-before test (line ∷ lines) zero l p e = ground arith
count_while-before test (line ∷ lines) (suc j) l p e = elim (Bool-cases (test line)) [
  | inl on ↦ count_while-before test lines j l (ground arith) e
  | inr off ↦ ground arith
]

count_while-stops :
    (test : LineEntry → Bool) (lines : List LineEntry) (l : LineEntry)
    → get_elem? lines (count_while test lines) ≡ some l
    → test l ≡ false
unfolding count_while
count_while-stops test [] l e = cc
count_while-stops test (line ∷ lines) l e = elim (Bool-cases (test line)) [
  | inl on ↦ count_while-stops test lines l (ground arith)
  | inr off ↦ ground arith
]

count_while-all :
    (test : LineEntry → Bool) (lines : List LineEntry)
    → get_elem? lines (count_while test lines) ≡ none
    → (j : ℕ) (l : LineEntry) → get_elem? lines j ≡ some l
    → test l ≡ true
unfolding count_while
count_while-all test [] e j l f = cc
count_while-all test (line ∷ lines) e zero l f = ground arith
count_while-all test (line ∷ lines) e (suc j) l f = elim (Bool-cases (test line)) [
  | inl on ↦ count_while-all test lines (ground arith) j l f
  | inr off ↦ ground arith
]

-- The first line at or behind an address, which is in front of the next line.
pub record IsLineOf (lines : List LineEntry) (pc i : ℕ) (line : LineEntry) : Type 0 where
  pub here : get_elem? lines i ≡ some line
  pub reaches : pc ≤ line.addr
  pub before : (j : ℕ) (l : LineEntry) → j < i → get_elem? lines j ≡ some l → l.addr < pc
  pub after : (next : LineEntry) → get_elem? lines (suc i) ≡ some next → pc < next.addr

-- The two ways to fail: all lines are below the address, or the line behind the first one that
-- is not is at or below it.
pub data PcIndex (lines : List LineEntry) (pc : ℕ) : Option ℕ → Type 0 where
  found : (i : ℕ) (line : LineEntry) → IsLineOf lines pc i line → PcIndex lines pc (some i)
  below :
      ((i : ℕ) (line : LineEntry) → get_elem? lines i ≡ some line → line.addr < pc)
      → PcIndex lines pc none
  unordered :
      (i : ℕ) (line next : LineEntry)
      → get_elem? lines i ≡ some line
      → pc ≤ line.addr
      → get_elem? lines (suc i) ≡ some next
      → next.addr ≤ pc
      → PcIndex lines pc none

module _ (lines : List LineEntry) (pc : ℕ) where
  abbrev first : ℕ
  first = count_while (λ line. ltb line.addr pc) lines

  first-before : (j : ℕ) (l : LineEntry) → j < first → get_elem? lines j ≡ some l → l.addr < pc
  first-before j l p e =
      let t = count_while-before (λ line. ltb line.addr pc) lines j l p e in ground arith

  first-reaches : (line : LineEntry) → get_elem? lines first ≡ some line → pc ≤ line.addr
  first-reaches line e =
      let t = count_while-stops (λ line. ltb line.addr pc) lines line e in ground arith

  first-all :
      get_elem? lines first ≡ none
      → (j : ℕ) (l : LineEntry) → get_elem? lines j ≡ some l
      → l.addr < pc
  first-all e j l f =
      let t = count_while-all (λ line. ltb line.addr pc) lines e j l f in ground arith

  get_line_table_index_of_pc-here :
      (line : LineEntry)
      → get_elem? lines first ≡ some line
      → get_line_table_index_of_pc lines pc
        ≡ (if next_is_above pc (get_elem? lines (suc first)) then some first else none)
  unfolding get_line_table_index_of_pc
  get_line_table_index_of_pc-here line here = ground (arith, first-reaches line here)

  get_line_table_index_of_pc-missing :
      get_elem? lines first ≡ none → get_line_table_index_of_pc lines pc ≡ none
  unfolding get_line_table_index_of_pc
  get_line_table_index_of_pc-missing missing = ground arith

  PcIndex-next :
      (line : LineEntry)
      → get_elem? lines first ≡ some line
      → (o : Option LineEntry) → get_elem? lines (suc first) ≡ o
      → PcIndex lines pc (if next_is_above pc o then some first else none)
  unfolding next_is_above
  PcIndex-next line here none last = found first line (record {
    here = here;
    reaches = first-reaches line here;
    before = first-before;
    after = λ next e. ground arith;
  })
  PcIndex-next line here (some next) there = elim (dec_lt pc next.addr) [
    | yes above ↦
        let t : ltb pc next.addr ≡ true = ground arith in
        rw t (
          found first line (record {
            here = here;
            reaches = first-reaches line here;
            before = first-before;
            after = λ other e. ground (arith, above);
          }))
    | no at ↦
        let t : ltb pc next.addr ≡ false = ground arith in
        rw t (unordered first line next here (first-reaches line here) there (omega arith))
  ]

  -- `get_line_table_index_of_pc` returns the first line at or behind the address if the line after it is
  -- behind the address, and fails if there is no such line or the line after it is not.
  pub get_line_table_index_of_pc_lem : PcIndex lines pc (get_line_table_index_of_pc lines pc)
  get_line_table_index_of_pc_lem = elim (Option-cases (get_elem? lines first)) [
    | inl missing ↦ rw (get_line_table_index_of_pc-missing missing) (below (first-all missing))
    | inr (line, here) ↦
        rw (get_line_table_index_of_pc-here line here) (PcIndex-next line here _ refl)
  ]

pub get_line_table_index_of_pc-some :
    (lines : List LineEntry) (pc i : ℕ)
    → get_line_table_index_of_pc lines pc ≡ some i
    → (line : LineEntry) × IsLineOf lines pc i line
get_line_table_index_of_pc-some lines pc i h =
    PcIndex-some i h (get_line_table_index_of_pc_lem lines pc)
  where
    PcIndex-some :
        {r : Option ℕ} (i : ℕ)
        → r ≡ some i
        → PcIndex lines pc r
        → (line : LineEntry) × IsLineOf lines pc i line
    PcIndex-some i e (found k line f) = let same : k ≡ i = ground arith in rw (← same) (line, f)
    PcIndex-some i e (below f) = cc
    PcIndex-some i e (unordered k line next f g f' g') = cc
