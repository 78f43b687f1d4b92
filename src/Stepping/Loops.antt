-- ===== src/Stepping/Loops.antt =====
-- The commands of src/debugger.c that step by lines end, and where `single_step_line` ends.
use spray.Base.{
  ℕ, zero, suc, ◌≤◌, ◌<◌, ◌≡◌, ◌≢◌, true, some, none, arith, Bool-cases, Option-cases, inl, inr,
}
use spray.Magic.{SprayResult, sp_ok, sp_err, single_step_search_limit}
use spray.Ptrace.{Ptrace}
use spray.Breakpoints.{Table, Target}
use spray.Info.{DebugInfo, Position}
use spray.Stepping.{Run, then_run, single_step_instruction}
use spray.Stepping.Lines.{same_line, position_here, after_step, step_lines, single_step_line}
use spray.Stepping.Termination.{
  IsQuiet, Finishes, Finishes-map, Finishes-then_run, finished, AtMost,
  single_step_instruction-Finishes,
}

module _ ⦃K : Ptrace⦄ ⦃H : Table⦄ (runs : K.Sys → Type 0) (winches : K.Sys → ℕ)
    (Q : IsQuiet K runs winches) (info : DebugInfo) (load_address fuel : ℕ) where
  after_step-Finishes :
      (n : ℕ) (go_on : Position → Target K H → Run)
      → ((pos : Position) (t : Target K H)
          → winches t.sys < fuel
          → Finishes (AtMost runs winches Q (winches t.sys)) (go_on pos t))
      → (res : SprayResult) (t : Target K H) → winches t.sys ≤ n
      → n < fuel
      → Finishes (AtMost runs winches Q n) (after_step info load_address fuel go_on res t)
  unfolding after_step
  after_step-Finishes n go_on goes sp_err t h small = finished sp_err t h
  after_step-Finishes n go_on goes sp_ok t h small =
      elim (Option-cases (position_here info load_address fuel t)) [
        | inl lost ↦ rw (lost, after_step) (finished sp_err t h)
        | inr (pos, here) ↦
            rw (here, after_step)
              (Finishes-map (λ t' k. omega (arith, h, k)) (goes pos t (omega (arith, h, small))))
      ]

  step_lines-Finishes :
      (left init_line : ℕ) (pos : Position) (t : Target K H)
      → winches t.sys < fuel
      → Finishes
          (AtMost runs winches Q (winches t.sys))
          (step_lines info load_address fuel left init_line pos t)
  unfolding step_lines
  step_lines-Finishes zero init_line pos t small = finished sp_err t (omega arith)
  step_lines-Finishes (suc left) init_line pos t small =
      elim (Bool-cases (same_line init_line pos)) [
        | inr other ↦ rw (other, step_lines) (finished sp_ok t (omega arith))
        | inl here ↦
            rw (here, step_lines)
              (Finishes-then_run (single_step_instruction-Finishes runs winches Q fuel t small)
                (λ res t' h.
                  after_step-Finishes (winches t.sys) _ (step_lines-Finishes left init_line) res t'
                    h small))
      ]

  -- `single_step_line` has a result if the fuel is more than the number of stops by SIGWINCH to come.
  pub single_step_line-Finishes :
      (t : Target K H)
      → winches t.sys < fuel
      → Finishes (AtMost runs winches Q (winches t.sys)) (single_step_line info load_address fuel t)
  unfolding single_step_line
  single_step_line-Finishes t small = elim (Option-cases (position_here info load_address fuel t)) [
    | inl lost ↦ rw (lost, single_step_line) (finished sp_err t (omega arith))
    | inr (pos, here) ↦
        rw (here, single_step_line)
          (step_lines-Finishes single_step_search_limit pos.line pos t small)
  ]

module _ ⦃K : Ptrace⦄ ⦃H : Table⦄ (info : DebugInfo) (load_address fuel : ℕ) where
  -- The process stands at the beginning of another line than `init_line`.
  pub record OnNewLine (init_line : ℕ) (t : Target K H) : Type 0 where
    pub position : Position
    pub here : position_here info load_address fuel t ≡ some position
    pub exact : position.is_exact ≡ true
    pub other : position.line ≢ init_line

  after_step-OnNewLine :
      (init_line : ℕ) (go_on : Position → Target K H → Run)
      → ((pos : Position) (t t' : Target K H)
          → position_here info load_address fuel t ≡ some pos
          → go_on pos t ≡ some (sp_ok, t')
          → OnNewLine init_line t')
      → (res : SprayResult) (t t' : Target K H)
      → after_step info load_address fuel go_on res t ≡ some (sp_ok, t')
      → OnNewLine init_line t'
  unfolding after_step
  after_step-OnNewLine init_line go_on goes sp_err t t' h = cc
  after_step-OnNewLine init_line go_on goes sp_ok t t' h =
      elim (Option-cases (position_here info load_address fuel t)) [
        | inl lost ↦ ground arith
        | inr (pos, here) ↦ goes pos t t' here (ground arith)
      ]

  then_run-some :
      (r : Run) (f : SprayResult → Target K H → Run) (x : SprayResult × Target K H)
      → then_run r f ≡ some x
      → (res : SprayResult) × (t : Target K H) × (f res t ≡ some x)
  unfolding then_run
  then_run-some none f x h = cc
  then_run-some (some (res, t)) f x h = (res, t, h)

  step_lines-OnNewLine :
      (left init_line : ℕ) (pos : Position) (t t' : Target K H)
      → position_here info load_address fuel t ≡ some pos
      → step_lines info load_address fuel left init_line pos t ≡ some (sp_ok, t')
      → OnNewLine init_line t'
  unfolding step_lines
  step_lines-OnNewLine zero init_line pos t t' here h = cc
  step_lines-OnNewLine (suc left) init_line pos t t' here h =
      elim (Bool-cases (same_line init_line pos)) [
        | inr other ↦
            let same : t' ≡ t = ground arith in
            rw same
              (record { position = pos; here = here; exact = ground arith; other = ground arith })
        | inl again ↦
            let (res, t'', ran) =
              then_run-some (single_step_instruction fuel t)
                (after_step info load_address fuel
                  (step_lines info load_address fuel left init_line))
                (sp_ok, t') (ground arith) in
            after_step-OnNewLine init_line _ (step_lines-OnNewLine left init_line) res t'' t' ran
      ]

  -- Where `single_step_line` succeeds, the process stands at the beginning of another line than before.
  pub single_step_line-OnNewLine :
      (t t' : Target K H) (pos : Position)
      → position_here info load_address fuel t ≡ some pos
      → single_step_line info load_address fuel t ≡ some (sp_ok, t')
      → OnNewLine pos.line t'
  unfolding single_step_line
  single_step_line-OnNewLine t t' pos here h =
      step_lines-OnNewLine single_step_search_limit pos.line pos t t' here (ground arith)
