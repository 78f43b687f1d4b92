-- ===== src/Backtrace/Chain.antt =====
-- The frames that src/backtrace.c finds, against the chain of saved frame pointers in memory.
use spray.Base.{
  ℕ, zero, suc, ◌+◌, ◌%◌, ◌≡◌, refl, ◌≢◌, false, none, some, List, [], ◌∷◌, arith, ◌==◌, length,
}
use spray.Magic.{word_mod}
use spray.Ptrace.{Ptrace, pt_read_memory}
use spray.Registers.{rbp, get_register_value}
use spray.Info.{DebugInfo}
use spray.Backtrace.{CallFrame, call_location, init_call_frame, walk_frames, init_backtrace}

-- A link of the chain: the return address of a frame, and the frame pointer that it has saved.
pub record Link : Type 0 where
  pub return_address : ℕ
  pub saved : ℕ

module _ ⦃K : Ptrace⦄ (s : K.Sys) where
  -- The chain in memory from a frame pointer on, up to a saved 0.
  pub data IsChain : ℕ → List Link → Type 0 where
    outermost : IsChain 0 []
    link :
        {frame_pointer : ℕ} {links : List Link} (l : Link)
        → frame_pointer ≢ 0
        → pt_read_memory s ((frame_pointer + 8) % word_mod) ≡ some l.return_address
        → pt_read_memory s frame_pointer ≡ some l.saved
        → IsChain l.saved links
        → IsChain frame_pointer (l ∷ links)

  -- The frames of the links on top of others, the last link first.
  abbrev pub frames_of : DebugInfo → List Link → CallFrame → CallFrame
  frames_of info [] callees = callees
  frames_of info (l ∷ links) callees =
      frames_of info links (call_location info l.return_address l.saved ∷ callees)

  nonzero : (n : ℕ) → n ≢ 0 → (n == 0) ≡ false
  nonzero n h = ground arith

  walk_frames_lem :
      (info : DebugInfo) (frame_pointer : ℕ) (links : List Link) (call_frame : CallFrame)
      → IsChain frame_pointer links
      → walk_frames (suc (length links)) s info frame_pointer call_frame
        ≡ some (some (frames_of info links call_frame))
  unfolding walk_frames init_call_frame
  walk_frames_lem info _ _ call_frame outermost = refl
  walk_frames_lem info frame_pointer _ call_frame (link {links = links} l h ret fp rest) =
      rw (nonzero frame_pointer h, walk_frames)
        (rw ret (rw fp (walk_frames_lem info l.saved links _ rest)))

  -- Where the frame pointers in memory are a chain that ends in 0, `init_backtrace` has a result with
  -- fuel for one frame more than the chain is long: the given PC, and each return address with the frame
  -- pointer saved beside it, the last caller first.
  pub init_backtrace_lem :
      (info : DebugInfo) (pc frame_pointer : ℕ) (links : List Link)
      → get_register_value s rbp ≡ some frame_pointer
      → IsChain frame_pointer links
      → init_backtrace (suc (length links)) pc s info
        ≡ some (some (frames_of info links (call_location info pc frame_pointer ∷ [])))
  unfolding init_backtrace init_call_frame
  init_backtrace_lem info pc frame_pointer links read chain =
      rw (read, init_backtrace) (walk_frames_lem info frame_pointer links _ chain)

  walk_frames-cycle :
      (fuel : ℕ) (info : DebugInfo) (frame_pointer pc : ℕ) (call_frame : CallFrame)
      → frame_pointer ≢ 0
      → pt_read_memory s ((frame_pointer + 8) % word_mod) ≡ some pc
      → pt_read_memory s frame_pointer ≡ some frame_pointer
      → walk_frames fuel s info frame_pointer call_frame ≡ none
  unfolding walk_frames
  walk_frames-cycle zero info frame_pointer pc call_frame h ret fp = refl
  walk_frames-cycle (suc fuel) info frame_pointer pc call_frame h ret fp =
      rw (nonzero frame_pointer h, walk_frames)
        (rw ret (rw fp (walk_frames-cycle fuel info frame_pointer pc _ h ret fp)))

  -- A frame pointer that is saved at its own address keeps `init_backtrace` going for ever: no fuel is
  -- enough.
  pub init_backtrace-cycle :
      (fuel : ℕ) (info : DebugInfo) (pc frame_pointer return_address : ℕ)
      → get_register_value s rbp ≡ some frame_pointer
      → frame_pointer ≢ 0
      → pt_read_memory s ((frame_pointer + 8) % word_mod) ≡ some return_address
      → pt_read_memory s frame_pointer ≡ some frame_pointer
      → init_backtrace fuel pc s info ≡ none
  unfolding init_backtrace
  init_backtrace-cycle fuel info pc frame_pointer return_address read h ret fp =
      rw (read, init_backtrace)
        (walk_frames-cycle fuel info frame_pointer return_address _ h ret fp)
