-- ===== src/Commands/SetMemory.antt =====
-- src/debugger.c: what `exec_set_memory` writes, and what it says.
use mathlib.Core.Path.{subst}
use spray.Base.{
  ℕ, zero, suc, ◌+◌, ◌*◌, ◌/◌, ◌≤◌, ◌<◌, ◌≡◌, refl, ◌⊎◌, Bool-cases, Option, none, some,
  Option-cases, inl, inr, [], ◌∷◌, CString, arith, ◌==◌, ==_iff,
}
use spray.Magic.{word_mod, sp_ok, sp_err}
use spray.Magic.Format.{FormatFilter, fmt_bytes, print_format}
use spray.Ptrace.{Ptrace, pt_read_memory, pt_write_memory}
use spray.Ptrace.Memory.{IsPtrace, word_at, byte}
use spray.Value.{Floats}
use spray.Commands.{pf, default_filter}
use spray.Commands.Handlers.{
  Executed, repl_err, cannot_write_memory, cannot_confirm_memory, value_shown, mem_read_confirm,
  exec_set_memory, print_filtered, confirm_memory, with_process,
}

-- `256 ^ n`
abbrev bound : ℕ → ℕ
bound zero = 1
bound (suc n) = 256 * bound n

-- A word is made of its bytes.
word_at-byte :
    (n : ℕ) (m : ℕ → ℕ) (a w : ℕ)
    → w < bound n
    → ((i : ℕ) → i < n → m (a + i) ≡ byte w i)
    → word_at m a n ≡ w
word_at-byte zero m a w lt h = omega arith
word_at-byte (suc n) m a w lt h =
    let tail = word_at-byte n m (a + 1) (w / 256) (omega arith) (λ i le. next i le) in
    let head : m a ≡ byte w 0 = subst (λ k. m k ≡ byte w 0) (omega arith) (h 0 (omega arith)) in
    omega arith
  where
    next : (i : ℕ) → i < n → m (a + 1 + i) ≡ byte (w / 256) i
    next i le = subst (λ k. m k ≡ byte w (suc i)) (omega arith) (h (suc i) (omega arith))

-- The format a word of memory is shown in: bytes, if none was given.
abbrev pub shown : FormatFilter → FormatFilter
shown FormatFilter.fmt_none = fmt_bytes
shown f = f

default_shown : (f : FormatFilter) → default_filter (pf f) (pf fmt_bytes) ≡ pf (shown f)
unfolding default_filter
default_shown FormatFilter.fmt_none = refl
default_shown FormatFilter.fmt_hex = refl
default_shown FormatFilter.fmt_bits = refl
default_shown FormatFilter.fmt_addr = refl
default_shown FormatFilter.fmt_dec = refl
default_shown FormatFilter.fmt_bytes = refl

module _ ⦃K : Ptrace⦄ (s s' : K.Sys) (addr word : ℕ) where
  write_done : K.poke_data s addr word ≡ some s' → pt_write_memory s addr word ≡ (sp_ok, s')
  unfolding pt_write_memory
  write_done e = rw (e, pt_write_memory) refl

  write_failed : K.poke_data s addr word ≡ none → pt_write_memory s addr word ≡ (sp_err, s)
  unfolding pt_write_memory
  write_failed e = rw (e, pt_write_memory) refl

module _ ⦃K : Ptrace⦄ (L : IsPtrace K) (F : Floats) (cwd : Option CString) (s : K.Sys)
    (addr word : ℕ) (f : FormatFilter) where
  open L use {byte_at, peek_word, poke_inside, poke_outside}

  -- The process with the eight bytes of the word from the address on, and no other byte changed.
  pub record WordStored (s' : K.Sys) : Type 0 where
    pub inside : (i : ℕ) → i < 8 → byte_at s' (addr + i) ≡ byte word i
    pub outside : (b : ℕ) → (b < addr) ⊎ (addr + 8 ≤ b) → byte_at s' b ≡ byte_at s b

  -- The write fails and nothing has changed; or the word is stored, and it is shown, unless it cannot be
  -- read again.
  pub data MemorySet : Executed → Type 0 where
    not_written : MemorySet (some (repl_err (cannot_write_memory addr) ∷ [], s))
    not_confirmed :
        {s' : K.Sys}
        → WordStored s'
        → pt_read_memory s' addr ≡ none
        → MemorySet (some (repl_err (cannot_confirm_memory addr) ∷ [], s'))
    confirmed :
        {s' : K.Sys}
        → WordStored s'
        → MemorySet
            (some (value_shown mem_read_confirm (print_format word (shown f)) none ∷ [], s'))

  read_back :
      (s' : K.Sys) (v : ℕ)
      → word < word_mod
      → WordStored s'
      → pt_read_memory s' addr ≡ some v
      → v ≡ word
  unfolding pt_read_memory
  read_back s' v lt stored e = elim (Bool-cases ((K.peek_data s' addr).errno == 0)) [
    | inr z ↦ ground (arith, z)
    | inl z ↦
        let read : (K.peek_data s' addr).errno ≡ 0 = (==_iff _ 0).0 z in
        ground
          (arith, z, peek_word s' addr read, word_at-byte 8 (byte_at s') addr word lt stored.inside)
  ]

  confirm_lem :
      (s' : K.Sys) (r : Option ℕ)
      → word < word_mod
      → WordStored s'
      → pt_read_memory s' addr ≡ r
      → MemorySet (with_process s' (confirm_memory F cwd s' addr (pf f) r))
  unfolding print_filtered
  confirm_lem s' none lt stored k = not_confirmed stored k
  confirm_lem s' (some v) lt stored k =
      rw (default_shown f, print_filtered, read_back s' v lt stored k) (confirmed stored)

  exec_done :
      (s' : K.Sys)
      → K.poke_data s addr word ≡ some s'
      → exec_set_memory F cwd s addr word (pf f)
        ≡ with_process s' (confirm_memory F cwd s' addr (pf f) (pt_read_memory s' addr))
  unfolding exec_set_memory
  exec_done s' e =
      rw (write_done s s' addr word e, exec_set_memory) (rw (write_done s s' addr word e) refl)

  -- exec_set_memory with a 64-bit word, and a format or none: the write fails and nothing has changed;
  -- or the eight bytes at the address are those of the word and no other byte has changed, and the
  -- word is shown in the format, unless the address cannot be read.
  pub exec_set_memory_lem : word < word_mod → MemorySet (exec_set_memory F cwd s addr word (pf f))
  unfolding exec_set_memory
  exec_set_memory_lem lt = elim (Option-cases (K.poke_data s addr word)) [
    | inl e ↦
        rw (write_failed s s addr word e, exec_set_memory)
          (rw (write_failed s s addr word e) not_written)
    | inr (s', e) ↦
        let stored : WordStored s' = record {
          inside = poke_inside s addr word s' e;
          outside = poke_outside s addr word s' e;
        } in
        rw (exec_done s' e) (confirm_lem s' (pt_read_memory s' addr) lt stored refl)
  ]
