-- ===== src/Commands/Leaves.antt =====
-- src/debugger.c: what holds of the process after a command and after a session, by the way they end.
use spray.Base.{ℕ, ◌≢◌, ◌≡◌, ◌⊎◌, Bool-cases, Option, none, some, inl, inr, List, [], ◌∷◌, CString}
use spray.Magic.{sp_ok, sp_err, dbg_to_real}
use spray.Ptrace.{Ptrace}
use spray.Breakpoints.{Table, Target}
use spray.Info.{DebugInfo}
use spray.Stepping.{Run}
use spray.Stepping.Stable.{Every, ends, open_ended}
use spray.History.{History}
use spray.Commands.{get_command_tokens, end_of_tokens}
use spray.Commands.Handlers.{Reply, Replies, Handled}
use spray.Commands.Resume.{show_source}
use spray.Commands.Arguments.{Argument, argument, rejected}
use spray.Commands.Dispatch.{
  cmd_set, command_of, Session, unchanged, if_at_end, on_location, with_history,
}
use spray.Commands.Session.{SessionRun, with_replies, then_lines}

abbrev pub IsRegisterName : CString → Type 0
IsRegisterName [] = ⊥
IsRegisterName (c ∷ s) = c ≡ b'%'

-- The first token is not the command set, or the second one begins with a percent sign, as a register
-- does, or there is no second one.
abbrev pub SetsNoMemory : List CString → Type 0
SetsNoMemory [] = Unit {0}
SetsNoMemory (cmd ∷ []) = Unit {0}
SetsNoMemory (cmd ∷ loc ∷ rest) = (command_of (some cmd) ≢ cmd_set) ⊎ IsRegisterName loc

-- The same of each line.
abbrev pub AllSetNoMemory : List CString → Type 0
AllSetNoMemory [] = Unit {0}
AllSetNoMemory (line ∷ lines) = SetsNoMemory (get_command_tokens line) × AllSetNoMemory lines

-- And of the command that would be repeated.
abbrev pub SetNoMemoryBefore : Option CString → Type 0
SetNoMemoryBefore none = Unit {0}
SetNoMemoryBefore (some last) = SetsNoMemory (get_command_tokens last)

module _ ⦃K : Ptrace⦄ ⦃H : Table⦄ where
  -- Where there is a result, the process that a command leaves has the property.
  pub data Leaves (P : Target K H → Type 0) : Handled → Type 0 where
    leaves : {replies : List Reply} {t : Target K H} → P t → Leaves P (some (replies, t))
    unknown : Leaves P none

  pub show_source-Leaves :
      {P : Target K H → Type 0} (info : DebugInfo) (load_address : ℕ) {r : Run}
      → Every P r
      → Leaves P (show_source info load_address r)
  show_source-Leaves info load_address (ends {res = sp_ok} p) = leaves p
  show_source-Leaves info load_address (ends {res = sp_err} p) = leaves p
  show_source-Leaves info load_address open_ended = unknown

  pub if_at_end-Leaves :
      {P : Target K H → Type 0} (tokens : List CString) (i : ℕ) (t : Target K H) {run : Handled}
      → P t
      → Leaves P run
      → Leaves P (if_at_end tokens i t run)
  if_at_end-Leaves tokens i t p h = elim (Bool-cases (end_of_tokens tokens i)) [
    | inl e ↦ rw e h
    | inr e ↦ rw e (leaves p)
  ]

  pub on_location-Leaves :
      {P : Target K H → Type 0} (load_address : ℕ) (f : Target K H → ℕ → Target K H)
      (t : Target K H) (a : Argument ℕ)
      → P t
      → ((addr : ℕ) → P (f t addr))
      → Leaves P (on_location load_address f t a)
  on_location-Leaves load_address f t (rejected m) p h = leaves p
  on_location-Leaves load_address f t (argument addr) p h =
      leaves (h (dbg_to_real load_address addr))

  pub unchanged-Leaves :
      {P : Target K H → Type 0} (t : Target K H) (r : Replies) → P t → Leaves P (unchanged t r)
  unchanged-Leaves t none p = unknown
  unchanged-Leaves t (some replies) p = leaves p

  pub Leaves-map :
      {P Q : Target K H → Type 0} {r : Handled}
      → ((t : Target K H) → P t → Q t)
      → Leaves P r
      → Leaves Q r
  Leaves-map f (leaves {t} p) = leaves (f t p)
  Leaves-map f unknown = unknown

  -- The same of a session.
  pub data AllLeave (P : Session → Type 0) : SessionRun → Type 0 where
    all_leave : {replies : List Reply} {dbg : Session} → P dbg → AllLeave P (some (replies, dbg))
    all_unknown : AllLeave P none

  pub with_replies-AllLeave :
      {P : Session → Type 0} (before : List Reply) {r : SessionRun}
      → AllLeave P r
      → AllLeave P (with_replies before r)
  with_replies-AllLeave before (all_leave p) = all_leave p
  with_replies-AllLeave before all_unknown = all_unknown

  pub then_lines-AllLeave :
      {P : Session → Type 0} {r : SessionRun} {f : Session → SessionRun}
      → AllLeave P r
      → ((dbg : Session) → P dbg → AllLeave P (f dbg))
      → AllLeave P (then_lines r f)
  then_lines-AllLeave (all_leave {replies} {dbg} p) h = with_replies-AllLeave replies (h dbg p)
  then_lines-AllLeave all_unknown h = all_unknown

  pub with_history-AllLeave :
      {P : Target K H → Type 0} (history : History) {r : Handled}
      → SetNoMemoryBefore history.command
      → Leaves P r
      → AllLeave
          (λ dbg. P dbg.target × SetNoMemoryBefore dbg.history.command)
          (with_history history r)
  with_history-AllLeave history q (leaves p) = all_leave (p, q)
  with_history-AllLeave history q unknown = all_unknown
