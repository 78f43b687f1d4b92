-- ===== src/Commands/Repeat.antt =====
-- src/debugger.c and src/history.c: the commands that are executed for a sequence of lines.
use mathlib.Core.Option
use spray.Base.{◌≡◌, refl, ap, ◌∙◌, ◌⊎◌, inl, inr, Option, none, some, List, [], ◌∷◌, CString, map}
use spray.History.{History, read_command, save_command}
use spray.Commands.{get_command_tokens, next_token, choose_command}

-- What is chosen for each of the lines, with the history that the lines before leave.
unfoldable pub choose_commands : History → List CString → List (Option (List CString))
choose_commands history [] = []
choose_commands history (line ∷ lines) =
    let r = choose_command history line in r.0 ∷ choose_commands r.1 lines

-- The same without a history: `last` is the last command that was not empty.
unfoldable pub repeat_last :
    (last : Option (List CString)) (commands : List (List CString)) → List (Option (List CString))
repeat_last last [] = []
repeat_last last ([] ∷ commands) = last ∷ repeat_last last commands
repeat_last last ((token ∷ tokens) ∷ commands) =
    some (token ∷ tokens) ∷ repeat_last (some (token ∷ tokens)) commands

chosen_saved :
    (c : Option CString) (history : History)
    → elim c as (λ x. Option (List CString) × History) [
      | none ↦ (none, history)
      | some last ↦ (some (get_command_tokens last), history)
    ]
      ≡ (Option.map get_command_tokens c, history)
chosen_saved none history = refl
chosen_saved (some last) history = refl

pub choose_command_blank :
    (history : History) (line : CString)
    → get_command_tokens line ≡ []
    → choose_command history line ≡ (Option.map get_command_tokens history.command, history)
unfolding choose_command next_token read_command
choose_command_blank history line e = rw (e, choose_command) (chosen_saved history.command history)

pub choose_command_token :
    (history : History) (line token : CString) (tokens : List CString)
    → get_command_tokens line ≡ token ∷ tokens
    → choose_command history line ≡ (some (token ∷ tokens), save_command history line)
unfolding choose_command next_token
choose_command_token history line token tokens e =
    rw (e, choose_command) (ap (λ ts. (some ts, save_command history line)) e)

pub Tokens-cases :
    (ts : List CString)
    → (ts ≡ []) ⊎ ((token : CString) × (tokens : List CString) × (ts ≡ token ∷ tokens))
Tokens-cases [] = inl refl
Tokens-cases (token ∷ tokens) = inr (token, tokens, refl)

-- For each line of a sequence, the command that is executed has the line's tokens; if it has none, it
-- has those of the last line before it that had some, or else of the command that the history held
-- at first; and if there is no such command either, none is executed.
pub choose_commands_lem :
    (history : History) (lines : List CString)
    → choose_commands history lines
      ≡ repeat_last (Option.map get_command_tokens history.command) (map get_command_tokens lines)
unfolding choose_commands repeat_last save_command
choose_commands_lem history [] = refl
choose_commands_lem history (line ∷ lines) = elim (Tokens-cases (get_command_tokens line)) [
  | inl e ↦
      rw (choose_command_blank history line e, e, choose_commands, repeat_last)
        (ap (λ cs. Option.map get_command_tokens history.command ∷ cs)
          (choose_commands_lem history lines))
  | inr (token, tokens, e) ↦
      rw (choose_command_token history line token tokens e, e, choose_commands, repeat_last)
        (ap (λ cs. some (token ∷ tokens) ∷ cs)
          (choose_commands_lem (save_command history line) lines
            ∙ ap (λ ts. repeat_last (some ts) (map get_command_tokens lines)) e))
]
