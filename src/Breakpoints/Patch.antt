-- ===== src/Breakpoints/Patch.antt =====
-- What one patched word does: the byte at the address takes the new value, every other byte and
-- every other entry stays.
use spray.Base.{
  ℕ, ◌+◌, ◌*◌, ◌/◌, ◌^◌, ◌<◌, ◌≡◌, inl, inr, some, none, arith, ◌==◌, if◌then◌else◌, bit_and,
  bit_or, Option-cases,
}
use spray.Base.Bits.{and_low_byte, and_high_bytes, or_low_byte}
use spray.Magic.{SprayResult, sp_ok, sp_err, btm_byte_mask}
use spray.Ptrace.{Ptrace, pt_read_memory, pt_write_memory}
use spray.Ptrace.Memory.{IsPtrace, poke_low_byte}
use spray.Breakpoints.{Breakpoint, Table, Target, get_breakpoint, high_bytes, patch}
use spray.Breakpoints.Lookup.{get_breakpoint-set}

module _ ⦃K : Ptrace⦄ ⦃H : Table⦄ (L : IsPtrace K) where
  open L use {byte_at, byte_lt, peek_word, peek_lt}

  -- The process after byte `x` has been written at `u.addr` and `u` has been recorded.
  pub record Wrote (t : Target K H) (x : ℕ) (u : Breakpoint) (t' : Target K H) : Type 0 where
    pub bytes : (b : ℕ) → byte_at t'.sys b ≡ (if b == u.addr then x else byte_at t.sys b)
    pub entries :
        (b : ℕ) → get_breakpoint t' b ≡ (if u.addr == b then some u else get_breakpoint t b)

  pub data Patched (t : Target K H) (x : ℕ) (u : Breakpoint)
      : SprayResult × Target K H → Type 0 where
    failed : Patched t x u (sp_err, t)
    wrote : {t' : Target K H} → Wrote t x u t' → Patched t x u (sp_ok, t')

  -- What a successful read says of the word.
  pub read_word :
      (s : K.Sys) (a w : ℕ)
      → pt_read_memory s a ≡ some w
      → ((K.peek_data s a).errno ≡ 0) × ((K.peek_data s a).value ≡ w)
  unfolding pt_read_memory
  read_word s a w h = (ground arith, ground arith)

  pub low_byte :
      (s : K.Sys) (a w : ℕ) → pt_read_memory s a ≡ some w → bit_and w btm_byte_mask ≡ byte_at s a
  low_byte s a w h =
      let (ok, e) = read_word s a w h in
      omega (arith, and_low_byte w, peek_word s a ok, byte_lt s a)

  replace_low : (w x : ℕ) → w < 2 ^ 64 → x < 256 → bit_or (high_bytes w) x ≡ w / 256 * 256 + x
  replace_low w x h small = rw (and_high_bytes w h) (or_low_byte (w / 256) x small)

  write_refused :
      (s : K.Sys) (a w : ℕ) → K.poke_data s a w ≡ none → pt_write_memory s a w ≡ (sp_err, s)
  unfolding pt_write_memory
  write_refused s a w e = rw (e, pt_write_memory)

  write_done :
      (s : K.Sys) (a w : ℕ) (s' : K.Sys)
      → K.poke_data s a w ≡ some s'
      → pt_write_memory s a w ≡ (sp_ok, s')
  unfolding pt_write_memory
  write_done s a w s' e = rw (e, pt_write_memory)

  -- A patch either fails and changes nothing, or writes the byte and records the entry.
  pub patch_lem :
      (t : Target K H) (w x : ℕ) (u : Breakpoint)
      → pt_read_memory t.sys u.addr ≡ some w
      → x < 256
      → Patched t x u (patch t u.addr (bit_or (high_bytes w) x) u)
  unfolding patch
  patch_lem t w x u h small =
      let (ok, e) = read_word t.sys u.addr w h in
      let value : bit_or (high_bytes w) x ≡ (K.peek_data t.sys u.addr).value / 256 * 256 + x =
        rw e (replace_low w x (rw e at (peek_lt t.sys u.addr)) small) in
      elim (Option-cases (K.poke_data t.sys u.addr (bit_or (high_bytes w) x))) [
        | inl refused ↦ rw (write_refused t.sys u.addr _ refused, patch) failed
        | inr (s', done) ↦
            rw (write_done t.sys u.addr _ s' done, patch)
              (wrote (record {
                bytes = poke_low_byte L t.sys u.addr x s' ok small (rw value at done);
                entries = get_breakpoint-set t s' u;
              }))
      ]
