-- ===== src/Elf/FirstIndex.antt =====
-- Which sections src/spray_elf.c takes for the symbol table and the string table.
use spray.Base.{
  ℕ, zero, suc, ◌+◌, ◌<◌, ◌≡◌, ◌⊎◌, inl, inr, Bool, true, false, ◌&&◌, Option, some, none, arith,
  ◌==◌, if◌then◌else◌, Bool-cases, bytes,
}
use native.Mathlib.Decide.{dec_lt}
use spray.Elf.{Bytes, shdr_at, string_at}
use spray.Elf.Sections.{
  Indices, visit_section, visit_sections, both_found, section_test, find_table_sections,
  is_valid_symtab, is_valid_strtab,
}

-- No section but the reserved one below `n` passes.
abbrev pub NoneBelow : (ℕ → Bool) → ℕ → Type 0
NoneBelow test n = (j : ℕ) → 0 < j → j < n → test j ≡ false

-- `k` is the first section that passes, but for the reserved one.
pub record IsFirst (test : ℕ → Bool) (k : ℕ) : Type 0 where
  pub positive : 0 < k
  pub passes : test k ≡ true
  pub before : NoneBelow test k

-- What the loop knows of one table before section `i`; 0 stands for none.
data SoFar (test : ℕ → Bool) (i : ℕ) : ℕ → Type 0 where
  unseen : NoneBelow test i → SoFar test i 0
  seen : {k : ℕ} → IsFirst test k → k < i → SoFar test i k

SoFar-start : (test : ℕ → Bool) → SoFar test 0 0
SoFar-start test = unseen (λ j p q. absurd (omega arith))

NoneBelow-next :
    (test : ℕ → Bool) (i : ℕ) → NoneBelow test i → test i ≡ false → NoneBelow test (suc i)
NoneBelow-next test i f e j p q = elim (dec_lt j i) [
  | yes less ↦ f j p less
  | no equal ↦ let same : j ≡ i = omega arith in rw same e
]

unseen-next : (test : ℕ → Bool) (i : ℕ) → NoneBelow test i → test i ≡ true → SoFar test (suc i) i
unseen-next test zero f e = unseen (λ j p q. absurd (omega arith))
unseen-next test (suc i) f e =
    seen (record { positive = omega arith; passes = e; before = f }) (omega arith)

SoFar-next :
    (test : ℕ → Bool) (i k : ℕ)
    → SoFar test i k
    → SoFar test (suc i) (if test i && (k == 0) then i else k)
SoFar-next test i k (seen f l) =
    let kept : (if test i && (k == 0) then i else k) ≡ k = ground (arith, f.positive) in
    rw kept (seen f (omega arith))
SoFar-next test i k (unseen f) = elim (Bool-cases (test i)) [
  | inl e ↦ rw e (unseen-next test i f e)
  | inr e ↦ rw e (unseen (NoneBelow-next test i f e))
]

-- One section: each index moves by its own test, as no section passes both.
visit_section_lem :
    (symtab strtab : Bool) (i : ℕ) (found : Indices)
    → (symtab && strtab) ≡ false
    → visit_section symtab strtab i found ≡ record {
      symtab_idx = if symtab && (found.symtab_idx == 0) then i else found.symtab_idx;
      strtab_idx = if strtab && (found.strtab_idx == 0) then i else found.strtab_idx;
    }
unfolding visit_section
visit_section_lem symtab strtab i found apart = ground arith

-- What the loop knows of both tables before section `i`.
record Found (symtab strtab : ℕ → Bool) (i : ℕ) (found : Indices) : Type 0 where
  symtab_so_far : SoFar symtab i found.symtab_idx
  strtab_so_far : SoFar strtab i found.strtab_idx

visit_sections_lem :
    (symtab strtab : ℕ → Bool)
    → ((i : ℕ) → (symtab i && strtab i) ≡ false)
    → (n i m : ℕ) (found : Indices) → i + n ≡ m
    → Found symtab strtab i found
    → Found symtab strtab m (visit_sections symtab strtab n i found)
unfolding visit_sections
visit_sections_lem symtab strtab apart zero i m found e f =
    let done : m ≡ i = omega arith in rw done f
visit_sections_lem symtab strtab apart (suc n) i m found e f =
    visit_sections_lem symtab strtab apart n (suc i) m _ (omega arith) (
      rw (visit_section_lem (symtab i) (strtab i) i found (apart i)) (record {
        symtab_so_far = SoFar-next symtab i _ f.symtab_so_far;
        strtab_so_far = SoFar-next strtab i _ f.strtab_so_far;
      }))

-- The result of the search among `n` sections.
pub data TablesFound (symtab strtab : ℕ → Bool) (n : ℕ) : Option Indices → Type 0 where
  found :
      {i : Indices}
      → IsFirst symtab i.symtab_idx
      → i.symtab_idx < n
      → IsFirst strtab i.strtab_idx
      → i.strtab_idx < n
      → TablesFound symtab strtab n (some i)
  missing : NoneBelow symtab n ⊎ NoneBelow strtab n → TablesFound symtab strtab n none

nonzero : (k : ℕ) → 0 < k → (k == 0) ≡ false
nonzero k h = ground arith

both_found_lem :
    (symtab strtab : ℕ → Bool) (n s t : ℕ)
    → SoFar symtab n s
    → SoFar strtab n t
    → TablesFound symtab strtab n (both_found (record { symtab_idx = s; strtab_idx = t }))
unfolding both_found
both_found_lem symtab strtab n s t (unseen f) q = missing (inl f)
both_found_lem symtab strtab n s t (seen f l) (unseen g) =
    rw (nonzero s f.positive) (missing (inr g))
both_found_lem symtab strtab n s t (seen f l) (seen g m) =
    rw (nonzero s f.positive) (rw (nonzero t g.positive) (found f l g m))

string_at_apart :
    (b : Bytes) (off : ℕ)
    → (string_at b off (bytes ".symtab") && string_at b off (bytes ".strtab")) ≡ false
unfolding string_at
string_at_apart b off = ground arith

section_test_apart :
    (b : Bytes) (off shstrtab i : ℕ)
    → (section_test is_valid_symtab b off shstrtab i
        && section_test is_valid_strtab b off shstrtab i)
      ≡ false
unfolding is_valid_symtab is_valid_strtab
section_test_apart b off shstrtab i =
    ground (arith, string_at_apart b (shstrtab + (shdr_at b off i).sh_name))

-- `find_table_sections` returns the first section that is a symbol table and the first that is a
-- string table, the reserved section at index 0 left out; or it fails, and one of the two is
-- missing.
pub find_table_sections_lem :
    (b : Bytes) (off n shstrtab : ℕ)
    → TablesFound
        (section_test is_valid_symtab b off shstrtab)
        (section_test is_valid_strtab b off shstrtab)
        n
        (find_table_sections b off n shstrtab)
unfolding find_table_sections
find_table_sections_lem b off n shstrtab =
    let so_far =
      visit_sections_lem (section_test is_valid_symtab b off shstrtab)
        (section_test is_valid_strtab b off shstrtab) (section_test_apart b off shstrtab) n 0 n
        (record { symtab_idx = 0; strtab_idx = 0 }) (omega arith)
        (record {
          symtab_so_far = SoFar-start (section_test is_valid_symtab b off shstrtab);
          strtab_so_far = SoFar-start (section_test is_valid_strtab b off shstrtab);
        }) in
    both_found_lem _ _ n _ _ so_far.symtab_so_far so_far.strtab_so_far
