-- ===== src/Commands/SetRegister.antt =====
-- src/debugger.c: the command set with a register changes no memory.
use mathlib.Core.Path.{subst}
use spray.Base.{
  sym, ℕ, ◌≡◌, ◌⊎◌, inl, inr, refl, Bool, Option, none, some, Option-cases, List, [], ◌∷◌, CString,
}
use spray.Ptrace.{Ptrace}
use spray.Ptrace.Memory.{IsPtrace}
use spray.Registers.{X86Reg, get_register_from_name, set_register_value}
use spray.Breakpoints.{Table, Target}
use spray.Info.{DebugInfo}
use spray.Value.{Floats}
use spray.Stepping.{with_sys}
use spray.Stepping.Safety.{Safe, Safe-refl, set_register-Safe}
use spray.Commands.{PrintFilter, next_token}
use spray.Commands.Handlers.{Message, VariableSource, Replies, with_process, exec_set_register}
use spray.Commands.Arguments.{
  Argument, argument, rejected, Subject, a_register, at_end, read_filter, read_value, read_subject,
  read_set,
}
use spray.Commands.Dispatch.{cmd_set, with_result, set_subject, on_set, handle_command}
use spray.Commands.Leaves.{IsRegisterName, Leaves, leaves, unknown}

Argument-cases :
    {A : Type 0} (a : Argument A)
    → ((m : Message) × (a ≡ rejected m)) ⊎ ((x : A) × (a ≡ argument x))
Argument-cases (rejected m) = inl (m, refl)
Argument-cases (argument x) = inr (x, refl)

-- A message, or a register with its value.
data OnlyRegister : Argument (Subject × ℕ × PrintFilter) → Type 0 where
  nothing : {m : Message} → OnlyRegister (rejected m)
  register :
      {reg : X86Reg} {name : CString} {value : ℕ} {filter : PrintFilter}
      → OnlyRegister (argument (a_register reg name, value, filter))

read_set_lem :
    (cmd name value : CString) (rest : List CString)
    → OnlyRegister (read_set (cmd ∷ (b'%' ∷ name) ∷ value ∷ rest) 1)
unfolding read_set next_token read_subject
read_set_lem cmd name value rest =
    let tokens = cmd ∷ (b'%' ∷ name) ∷ value ∷ rest in
    elim (Argument-cases (at_end tokens (read_filter tokens 3))) [
      | inl (m, e) ↦ rw (e, read_set) nothing
      | inr (given, e) ↦ elim (Argument-cases (read_value value given)) [
        | inl (m, v) ↦ rw (e, read_set, v) nothing
        | inr ((n, filter), v) ↦ elim (Option-cases (get_register_from_name name)) [
          | inl k ↦ rw (e, read_set, v, k) nothing
          | inr (reg, k) ↦ rw (e, read_set, v, k) register
        ]
      ]
    ]

module _ ⦃K : Ptrace⦄ ⦃H : Table⦄ (L : IsPtrace K) (text : ℕ → Bool) (F : Floats)
    (cwd : Option CString) (vars : VariableSource) (info : DebugInfo) (load_address fuel : ℕ) where
  with_result-Leaves :
      (t : Target K H) (s : K.Sys) (r : Replies)
      → Safe L text t (with_sys t s)
      → Leaves (Safe L text t) (with_result t (with_process s r))
  with_result-Leaves t s none h = unknown
  with_result-Leaves t s (some replies) h = leaves h

  on_set-Safe :
      (t : Target K H) {a : Argument (Subject × ℕ × PrintFilter)}
      → OnlyRegister a
      → Leaves (Safe L text t) (on_set F cwd vars info load_address fuel t a)
  unfolding set_subject exec_set_register
  on_set-Safe t nothing = leaves (Safe-refl L text t)
  on_set-Safe t (register {reg} {name} {value} {filter}) =
      with_result-Leaves t (set_register_value t.sys reg value).1 _
        (set_register-Safe L text t reg value)

  percent-Safe :
      (cmd name : CString) (rest : List CString) (t : Target K H)
      → Leaves (Safe L text t) (
          handle_command F cwd vars info load_address fuel cmd_set (cmd ∷ (b'%' ∷ name) ∷ rest) 1 t)
  unfolding handle_command read_set next_token
  percent-Safe cmd name [] t = leaves (Safe-refl L text t)
  percent-Safe cmd name (value ∷ rest) t = on_set-Safe t (read_set_lem cmd name value rest)

  pub set_register-Leaves :
      (cmd loc : CString) (rest : List CString) (t : Target K H)
      → IsRegisterName loc
      → Leaves
          (Safe L text t)
          (handle_command F cwd vars info load_address fuel cmd_set (cmd ∷ loc ∷ rest) 1 t)
  set_register-Leaves cmd [] rest t never = absurd never
  set_register-Leaves cmd (c ∷ name) rest t percent =
      subst
        (λ d.
          Leaves (Safe L text t) (
            handle_command F cwd vars info load_address fuel cmd_set (cmd ∷ (d ∷ name) ∷ rest) 1 t))
        (sym percent) (percent-Safe cmd name rest t)
