-- ===== src/Sample.antt =====
-- A small system and a small hash table that behave as documented. They stand in for ptrace(2) and
-- hashmap.c where a theorem is applied to a concrete process.
use spray.Base.{
  ℕ, zero, suc, ◌+◌, ◌-◌, ◌/◌, ◌%◌, ◌≤◌, ◌<◌, ◌≡◌, refl, ◌⊎◌, ◌&&◌, Option, some, none, List, [],
  ◌∷◌, arith, ltb, leb, ◌==◌, if◌then◌else◌, length, set, get_elem?,
}
use spray.Magic.{n_registers}
use spray.Ptrace.{Ptrace}
use spray.Ptrace.Memory.{IsPtrace, word_at, byte}
use spray.Breakpoints.{Breakpoint, breakpoint_compare, Table}

-- Memory, registers, the wait statuses to come, and the code of the last stop. Memory can be
-- read and written below `limit`.
pub record Machine : Type 0 where
  pub mem : ℕ → ℕ
  pub regs : List ℕ
  pub statuses : List ℕ
  pub code : ℕ

abbrev pub limit : ℕ
limit = 0x1_0000_0000

abbrev pub memory : Machine → ℕ → ℕ
memory s a = s.mem a % 256

abbrev pub poked : Machine → ℕ → ℕ → Machine
poked s a w = record s { mem = λ b. if leb a b && ltb b (a + 8) then byte w (b - a) else s.mem b }

-- The instruction pointer is the word 16 of the registers.
abbrev stepped : List ℕ → List ℕ
stepped regs = elim (get_elem? regs 16) [ none ↦ regs | some pc ↦ set regs 16 (pc + 1) ]

abbrev pub next_status : Machine → record { status : ℕ; sys : Machine }
next_status s = elim s.statuses [
  | [] ↦ record { status = 0x057f; sys = s }
  | status ∷ rest ↦ record { status = status; sys = record s { statuses = rest } }
]

instance abbrev pub machine : Ptrace
machine = record {
  Sys = Machine;
  peek_data = λ s a.
      if ltb a limit
      then record { value = word_at (memory s) a 8; errno = 0 }
      else record { value = 0; errno = 5 };
  poke_data = λ s a w. if ltb a limit then some (poked s a w) else none;
  get_regs = λ s. if length s.regs == n_registers then some s.regs else none;
  set_regs = λ s regs. if length regs == n_registers then some (record s { regs = regs }) else none;
  cont = λ s. record { errno = 0; sys = record s { code = 0x80 } };
  single_step = λ s. some (record s { regs = stepped s.regs; code = 2 });
  get_siginfo = λ s. some (record { si_signo = 5; si_code = s.code });
  waitpid = next_status;
}

byte-lt : (w i : ℕ) → byte w i < 256
byte-lt w zero = omega arith
byte-lt w (suc i) = byte-lt (w / 256) i

byte-mod : (w i : ℕ) → byte w i % 256 ≡ byte w i
byte-mod w i = omega (arith, byte-lt w i)

poked-inside : (s : Machine) (a w i : ℕ) → i < 8 → memory (poked s a w) (a + i) ≡ byte w i
poked-inside s a w i small =
    let back : a + i - a ≡ i = omega arith in rw back (ground (arith, byte-mod w i))

poked-outside :
    (s : Machine) (a w b : ℕ) → (b < a) ⊎ (a + 8 ≤ b) → memory (poked s a w) b ≡ memory s b
poked-outside s a w b out = ground arith

poked-eq :
    (s : Machine) (a w : ℕ) (s' : Machine) → machine.poke_data s a w ≡ some s' → s' ≡ poked s a w
poked-eq s a w s' h = ground arith

pub machine-IsPtrace : IsPtrace machine
machine-IsPtrace = record {
  byte_at = memory;
  byte_lt = λ s a. omega arith;
  peek_word = λ s a h. ground arith;
  peek_lt = λ s a. ground arith;
  poke_inside = λ s a w s' h i small. rw (poked-eq s a w s' h) (poked-inside s a w i small);
  poke_outside = λ s a w s' h b out. rw (poked-eq s a w s' h) (poked-outside s a w b out);
  get_regs_poke = λ s a w s' h. rw (poked-eq s a w s' h);
  get_regs_length = λ s regs h. ground arith;
  get_regs_set = λ s regs s' h. ground arith;
  byte_at_set = λ s regs s' h b. ground arith;
}

pub machine-byte_at : (s : Machine) (a : ℕ) → machine-IsPtrace.byte_at s a ≡ memory s a
unfolding machine-IsPtrace
machine-byte_at s a = refl

abbrev find : List Breakpoint → Breakpoint → Option Breakpoint
find [] k = none
find (x ∷ m) k = if breakpoint_compare x k == 0 then some x else find m k

pub find_equal :
    (m : List Breakpoint) (x k : Breakpoint) → find m k ≡ some x → breakpoint_compare x k ≡ 0
find_equal [] x k h = cc
find_equal (y ∷ m) x k h = ground (arith, find_equal m x k)

abbrev no_sip : ℕ → ℕ → ℕ → ℕ
no_sip key seed0 seed1 = key

instance abbrev pub table : Table
table = record {
  sip = no_sip;
  hashmap = record {
    Map = List Breakpoint;
    new = [];
    get = find;
    put = λ m x. x ∷ m;
    get_new = λ keyed k. refl;
    get_put = λ keyed m x k. refl;
    get_equal = λ keyed. find_equal;
  };
}
