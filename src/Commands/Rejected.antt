-- ===== src/Commands/Rejected.antt =====
-- src/debugger.c: the command lines that are executed, and what happens to the others.
use spray.Base.{ℕ, Option, some, List, [], ◌∷◌, ◌≡◌, ◌⊎◌, inl, inr, refl, CString}
use spray.Ptrace.{Ptrace}
use spray.Breakpoints.{Table, Target}
use spray.Info.{DebugInfo}
use spray.Value.{Floats}
use spray.Commands.{next_token, end_of_tokens}
use spray.Commands.Place.{parse_break_location}
use spray.Commands.Handlers.{
  Message, VariableSource, Handled, repl_err, trailing_characters, unknown_command,
  missing_location, missing_value,
}
use spray.Commands.Dispatch.{
  Command, cmd_continue, cmd_break, cmd_delete, cmd_print, cmd_set, cmd_inst, cmd_leave, cmd_step,
  cmd_next, cmd_backtrace, cmd_unknown, command_of, if_at_end, handle_command,
  handle_debug_command_tokens,
}
use spray.Commands.Read.{
  IsFilter, IsSubject, IsValue, read_print_lem, read_set_lem, read_location_lem,
}

-- The commands that take no argument.
abbrev pub RunsAlone : Command → Type 0
RunsAlone cmd_continue = Unit {0}
RunsAlone cmd_inst = Unit {0}
RunsAlone cmd_leave = Unit {0}
RunsAlone cmd_step = Unit {0}
RunsAlone cmd_next = Unit {0}
RunsAlone _ = ⊥

-- A command with the arguments that it takes, and nothing behind them. What is behind `backtrace` is
-- not looked at.
pub data WellFormed (info : DebugInfo) : List CString → Type 0 where
  alone : (cmd : CString) → RunsAlone (command_of (some cmd)) → WellFormed info (cmd ∷ [])
  backtrace :
      (cmd : CString) (rest : List CString)
      → command_of (some cmd) ≡ cmd_backtrace
      → WellFormed info (cmd ∷ rest)
  at_location :
      (cmd loc : CString) (addr : ℕ)
      → (command_of (some cmd) ≡ cmd_break) ⊎ (command_of (some cmd) ≡ cmd_delete)
      → parse_break_location info loc ≡ some addr
      → WellFormed info (cmd ∷ loc ∷ [])
  print :
      (cmd loc : CString) {filter : List CString}
      → command_of (some cmd) ≡ cmd_print
      → IsSubject loc
      → IsFilter filter
      → WellFormed info (cmd ∷ loc ∷ filter)
  set :
      (cmd loc value : CString) {filter : List CString}
      → command_of (some cmd) ≡ cmd_set
      → IsSubject loc
      → IsValue value
      → IsFilter filter
      → WellFormed info (cmd ∷ loc ∷ value ∷ filter)

module _ ⦃K : Ptrace⦄ ⦃H : Table⦄ where
  -- The only effect is one message.
  abbrev pub IsRejected : Target K H → Handled → Type 0
  IsRejected t r = (m : Message) × (r ≡ some (repl_err m ∷ [], t))

module _ ⦃K : Ptrace⦄ ⦃H : Table⦄ (F : Floats) (cwd : Option CString) (vars : VariableSource)
    (info : DebugInfo) (load_address fuel : ℕ) where
  alone_lem :
      (cmd : CString) (rest : List CString) (t : Target K H) (run : Handled)
      → RunsAlone (command_of (some cmd))
      → WellFormed info (cmd ∷ rest) ⊎ IsRejected t (if_at_end (cmd ∷ rest) 1 t run)
  unfolding end_of_tokens
  alone_lem cmd [] t run h = inl (alone cmd h)
  alone_lem cmd (x ∷ rest) t run h = inr (trailing_characters, refl)

  handle_command_lem :
      (c : Command) (cmd : CString) (rest : List CString) (t : Target K H)
      → command_of (some cmd) ≡ c
      → WellFormed info (cmd ∷ rest)
        ⊎ IsRejected t (handle_command F cwd vars info load_address fuel c (cmd ∷ rest) 1 t)
  unfolding handle_command
  handle_command_lem cmd_continue cmd rest t e = alone_lem cmd rest t _ (rw e tt)
  handle_command_lem cmd_inst cmd rest t e = alone_lem cmd rest t _ (rw e tt)
  handle_command_lem cmd_leave cmd rest t e = alone_lem cmd rest t _ (rw e tt)
  handle_command_lem cmd_step cmd rest t e = alone_lem cmd rest t _ (rw e tt)
  handle_command_lem cmd_next cmd rest t e = alone_lem cmd rest t _ (rw e tt)
  handle_command_lem cmd_backtrace cmd rest t e = inl (backtrace cmd rest e)
  handle_command_lem cmd_unknown cmd rest t e = inr (unknown_command, refl)
  handle_command_lem cmd_break cmd [] t e = inr (missing_location, refl)
  handle_command_lem cmd_break cmd (loc ∷ rest) t e = elim (read_location_lem info cmd loc rest) [
    | inl ((n, addr, k), _, _) ↦ inl (rw n (at_location cmd loc addr (inl e) k))
    | inr (m, k) ↦ inr (m, rw k refl)
  ]
  handle_command_lem cmd_delete cmd [] t e = inr (missing_location, refl)
  handle_command_lem cmd_delete cmd (loc ∷ rest) t e = elim (read_location_lem info cmd loc rest) [
    | inl ((n, addr, k), _, _) ↦ inl (rw n (at_location cmd loc addr (inr e) k))
    | inr (m, k) ↦ inr (m, rw k refl)
  ]
  handle_command_lem cmd_print cmd [] t e = inr (missing_location, refl)
  handle_command_lem cmd_print cmd (loc ∷ f) t e = elim (read_print_lem cmd loc f) [
    | inl ((q, p), _, _) ↦ inl (print cmd loc e q p)
    | inr (m, k) ↦ inr (m, rw k refl)
  ]
  handle_command_lem cmd_set cmd [] t e = inr (missing_location, refl)
  handle_command_lem cmd_set cmd (loc ∷ []) t e = inr (missing_value, refl)
  handle_command_lem cmd_set cmd (loc ∷ value ∷ f) t e = elim (read_set_lem cmd loc value f) [
    | inl ((q, w, p), _, _) ↦ inl (set cmd loc value e q w p)
    | inr (m, k) ↦ inr (m, rw k refl)
  ]

  -- A command line is well-formed, or handle_debug_command_tokens only says why not, in one message:
  -- no memory, no register and no breakpoint is touched.
  pub handle_debug_command_tokens-rejects :
      (tokens : List CString) (t : Target K H)
      → WellFormed info tokens
        ⊎ IsRejected t (handle_debug_command_tokens F cwd vars info load_address fuel tokens t)
  unfolding handle_debug_command_tokens next_token
  handle_debug_command_tokens-rejects [] t = inr (unknown_command, refl)
  handle_debug_command_tokens-rejects (cmd ∷ rest) t =
      handle_command_lem (command_of (some cmd)) cmd rest t refl
