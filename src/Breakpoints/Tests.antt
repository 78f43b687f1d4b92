-- ===== src/Breakpoints/Tests.antt =====
-- The breakpoints of a small process: runs, and the theorems at them.
use spray.Base.{ℕ, ◌%◌, ◌≡◌, refl, true, false, ◌∷◌, List, [], map, some, arith}
use spray.Magic.{sp_err, int3}
use spray.Ptrace.{pt_read_memory, pt_write_memory}
use spray.Sample.{Machine, machine, machine-IsPtrace, table}
use spray.Breakpoints.{
  Target, init_breakpoints, get_breakpoint, lookup_breakpoint, ensure_breakpoint, enable_entry,
  enable_breakpoint, disable_entry, disable_breakpoint, patch, breakpoint_compare,
}
use spray.Breakpoints.Restore.{
  Request, enable, disable, request, requests, IsPatched, Keeps, original,
  init_breakpoints-IsPatched, requests-Keeps, requests_restore,
}
use spray.Breakpoints.Effects.{Untouched, SetAt, Result, enable_effects, disable_effects}

abbrev program : Machine
program = record { mem = λ b. b % 251; regs = []; statuses = []; code = 0x80 }

abbrev start : Target machine table
start = init_breakpoints program

abbrev runs : List Request
runs = enable 4096 ∷ enable 4097 ∷ disable 4096 ∷ []

abbrev undone : List Request
undone = enable 4096 ∷ disable 4096 ∷ []

-- The operations with all that they call, for the runs below.
abbrev after : List Request → Target machine table
unfolding requests request init_breakpoints enable_breakpoint disable_breakpoint ensure_breakpoint
    get_breakpoint enable_entry disable_entry patch pt_read_memory pt_write_memory lookup_breakpoint
    breakpoint_compare
after rs = requests start rs

-- The second trap lies inside the word of the first one: the words are 0x…5150, 0x…51cc, 0x…cccc
-- and 0x…cc50.
run_words :
    (map
      (λ rs. pt_read_memory (after rs).sys 4096)
      ([] ∷ (enable 4096 ∷ []) ∷ (enable 4096 ∷ enable 4097 ∷ []) ∷ runs ∷ []))
    ≡ some 0x5756_5554_5352_5150
      ∷ some 0x5756_5554_5352_51cc
      ∷ some 0x5756_5554_5352_cccc
      ∷ some 0x5756_5554_5352_cc50
      ∷ []
unfolding after
run_words = refl

run_lookups :
    (map (lookup_breakpoint (after runs)) (4096 ∷ 4097 ∷ 4098 ∷ [])) ≡ false ∷ true ∷ false ∷ []
unfolding after
run_lookups = refl

-- An address that cannot be read.
run_refused : (enable_breakpoint start 0x1_0000_0000).0 ≡ sp_err
unfolding after
run_refused = refl

start-IsPatched : IsPatched machine-IsPtrace start
start-IsPatched = init_breakpoints-IsPatched machine-IsPtrace program

requests-Keeps_example : Keeps machine-IsPtrace start (requests start runs)
requests-Keeps_example = requests-Keeps machine-IsPtrace start runs start-IsPatched

undone_off : (b : ℕ) → lookup_breakpoint (requests (init_breakpoints program) undone) b ≡ false
unfolding after
undone_off b = ground arith

requests_restore_example :
    machine-IsPtrace.byte_at (requests (init_breakpoints program) undone).sys 4096
    ≡ machine-IsPtrace.byte_at program 4096
requests_restore_example = requests_restore machine-IsPtrace program undone undone_off 4096

enable_effects_example :
    Result
      (SetAt machine-IsPtrace start 4096 int3 true)
      (λ t'. Untouched machine-IsPtrace start t' × (lookup_breakpoint t' 4096 ≡ false))
      (enable_breakpoint start 4096)
enable_effects_example = enable_effects machine-IsPtrace start 4096 start-IsPatched

abbrev trapped : Target machine table
trapped = requests start (enable 4096 ∷ [])

trapped-IsPatched : IsPatched machine-IsPtrace trapped
trapped-IsPatched =
    (requests-Keeps machine-IsPtrace start (enable 4096 ∷ []) start-IsPatched).patched

disable_effects_example :
    Result
      (SetAt machine-IsPtrace trapped 4096 (original machine-IsPtrace trapped 4096) false)
      (λ t'. (t' ≡ trapped) × (lookup_breakpoint trapped 4096 ≡ true))
      (disable_breakpoint trapped 4096)
disable_effects_example = disable_effects machine-IsPtrace trapped 4096 trapped-IsPatched
