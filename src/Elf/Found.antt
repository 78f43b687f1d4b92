-- ===== src/Elf/Found.antt =====
-- What the searches of src/spray_elf.c find, and what a parsed file guarantees to them.
use spray.Base.{
  ℕ, zero, suc, ◌+◌, ◌≤◌, ◌<◌, ◌≡◌, inl, inr, Bool, true, false, Option, some, none, arith, CString,
  Bool-cases,
}
use native.Mathlib.Decide.{dec_lt}
use spray.Elf.{Sym, ElfFile, string_at}
use spray.Elf.Symbols.{
  se_symbol_start_addr, se_symbol_end_addr, se_symbol_name, symbol, n_symbols, search_symbols,
  symbol_has_name, symbol_has_addr, se_symbol_from_name, se_symbol_from_addr,
}

-- The result of a search among the symbols from `i` to `m`: the first that passes, or none passes.
data Searched (test : Sym → Bool) (table : ℕ → Sym) (i m : ℕ) : Option Sym → Type 0 where
  hit :
      (k : ℕ)
      → i ≤ k
      → k < m
      → test (table k) ≡ true
      → ((j : ℕ) → i ≤ j → j < k → test (table j) ≡ false)
      → Searched test table i m (some (table k))
  miss : ((j : ℕ) → i ≤ j → j < m → test (table j) ≡ false) → Searched test table i m none

refuted_before :
    (test : Sym → Bool) (table : ℕ → Sym) (i k : ℕ)
    → test (table i) ≡ false
    → ((j : ℕ) → suc i ≤ j → j < k → test (table j) ≡ false)
    → (j : ℕ) → i ≤ j
    → j < k
    → test (table j) ≡ false
refuted_before test table i k e f j p q = elim (dec_lt i j) [
  | yes above ↦ f j above q
  | no equal ↦ let same : j ≡ i = omega arith in rw same e
]

Searched-next :
    (test : Sym → Bool) (table : ℕ → Sym) (i m : ℕ) (r : Option Sym)
    → test (table i) ≡ false
    → Searched test table (suc i) m r
    → Searched test table i m r
Searched-next test table i m r e (hit k p q passes before) =
    hit k (omega arith) q passes (refuted_before test table i k e before)
Searched-next test table i m r e (miss f) = miss (refuted_before test table i m e f)

search_symbols_lem :
    (test : Sym → Bool) (table : ℕ → Sym) (n i m : ℕ)
    → i + n ≡ m
    → Searched test table i m (search_symbols test table n i)
unfolding search_symbols
search_symbols_lem test table zero i m e = miss (λ j p q. absurd (omega arith))
search_symbols_lem test table (suc n) i m e = elim (Bool-cases (test (table i))) [
  | inl passes ↦
      rw (passes, search_symbols)
        (hit i (omega arith) (omega arith) passes (λ j p q. absurd (omega arith)))
  | inr fails ↦
      rw (fails, search_symbols)
        (Searched-next test table i m _ fails
          (search_symbols_lem test table n (suc i) m (omega arith)))
]

-- `addr` is between the start and the end of a symbol, both included.
abbrev pub Spans : Sym → ℕ → Type 0
Spans sym addr = (se_symbol_start_addr sym ≤ addr) × (addr ≤ se_symbol_end_addr sym)

abbrev pub HasName : ElfFile → Sym → CString → Type 0
HasName elf sym name = string_at elf.bytes (se_symbol_name sym elf) name ≡ true

-- What a search for the first symbol with a property returns.
pub data FirstSymbol (elf : ElfFile) (P : Sym → Type 0) : Option Sym → Type 0 where
  first :
      (k : ℕ)
      → k < n_symbols elf
      → P (symbol elf k)
      → ((j : ℕ) → j < k → ¬ (P (symbol elf j)))
      → FirstSymbol elf P (some (symbol elf k))
  absent : ((j : ℕ) → j < n_symbols elf → ¬ (P (symbol elf j))) → FirstSymbol elf P none

FirstSymbol-Searched :
    (elf : ElfFile) (test : Sym → Bool) (P : Sym → Type 0)
    → ((s : Sym) → test s ≡ true → P s)
    → ((s : Sym) → test s ≡ false → ¬ (P s))
    → {r : Option Sym} → Searched test (symbol elf) 0 (n_symbols elf) r
    → FirstSymbol elf P r
FirstSymbol-Searched elf test P sound refute (hit k p q passes before) =
    first k q (sound _ passes) (λ j l. refute _ (before j (omega arith) l))
FirstSymbol-Searched elf test P sound refute (miss f) =
    absent (λ j l. refute _ (f j (omega arith) l))

symbol_has_addr→Spans : (addr : ℕ) (s : Sym) → symbol_has_addr addr s ≡ true → Spans s addr
unfolding symbol_has_addr
symbol_has_addr→Spans addr s h = ground arith

symbol_has_addr→not_Spans : (addr : ℕ) (s : Sym) → symbol_has_addr addr s ≡ false → ¬ (Spans s addr)
unfolding symbol_has_addr
symbol_has_addr→not_Spans addr s h (p, q) = ground arith

-- `se_symbol_from_addr` returns the first symbol of the table that spans the address, its end
-- address included, or `NULL` if no symbol does.
pub se_symbol_from_addr_lem :
    (addr : ℕ) (elf : ElfFile) → FirstSymbol elf (λ s. Spans s addr) (se_symbol_from_addr addr elf)
unfolding se_symbol_from_addr
se_symbol_from_addr_lem addr elf =
    FirstSymbol-Searched elf (symbol_has_addr addr) (λ s. Spans s addr) (symbol_has_addr→Spans addr)
      (symbol_has_addr→not_Spans addr)
      (search_symbols_lem (symbol_has_addr addr) (symbol elf) (n_symbols elf) 0 _ (omega arith))

symbol_has_name→HasName :
    (name : CString) (elf : ElfFile) (s : Sym)
    → symbol_has_name name elf s ≡ true
    → HasName elf s name
unfolding symbol_has_name
symbol_has_name→HasName name elf s h = h

symbol_has_name→not_HasName :
    (name : CString) (elf : ElfFile) (s : Sym)
    → symbol_has_name name elf s ≡ false
    → ¬ (HasName elf s name)
unfolding symbol_has_name
symbol_has_name→not_HasName name elf s h k = cc

-- `se_symbol_from_name` returns the first symbol of the table with the name, or `NULL` if no
-- symbol has it.
pub se_symbol_from_name_lem :
    (name : CString) (elf : ElfFile)
    → FirstSymbol elf (λ s. HasName elf s name) (se_symbol_from_name name elf)
unfolding se_symbol_from_name
se_symbol_from_name_lem name elf =
    FirstSymbol-Searched elf (symbol_has_name name elf) (λ s. HasName elf s name)
      (symbol_has_name→HasName name elf) (symbol_has_name→not_HasName name elf)
      (search_symbols_lem (symbol_has_name name elf) (symbol elf) (n_symbols elf) 0 _ (omega arith))
