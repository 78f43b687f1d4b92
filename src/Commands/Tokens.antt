-- ===== src/Commands/Tokens.antt =====
-- src/debugger.c: what `get_command_tokens` returns.
use mathlib.Core.Path.{subst}
use spray.Base.{
  ◌≡◌, refl, sym, ◌∙◌, ap, ◌↔◌, ◌⊎◌, ◌≢◌, ◌==◌, ==_iff, arith, inl, inr, Bool-cases, ℕ, true, false,
  List, [], ◌∷◌, ◌++◌, CString,
}
use spray.Commands.{is_delim, end_token, read_tokens, get_command_tokens}

pub data IsBlank : ℕ → Type 0 where
  space : IsBlank 32
  tab : IsBlank 9

pub data NoDelims : CString → Type 0 where
  no_chars : NoDelims []
  one_char : (c : ℕ) {s : CString} → c ≢ 32 → c ≢ 9 → NoDelims s → NoDelims (c ∷ s)

is_delim-IsBlank : {c : ℕ} → IsBlank c → is_delim c ≡ true
unfolding is_delim
is_delim-IsBlank space = refl
is_delim-IsBlank tab = refl

is_delim-char : (c : ℕ) → c ≢ 32 → c ≢ 9 → is_delim c ≡ false
unfolding is_delim
is_delim-char c h k = ground arith

delim-cases : (c : ℕ) → IsBlank c ⊎ ((c ≢ 32) × (c ≢ 9))
delim-cases c = elim (Bool-cases (c == 32)) [
  | inl h ↦ inl (subst IsBlank (sym ((==_iff c 32).0 h)) space)
  | inr h ↦ elim (Bool-cases (c == 9)) [
    | inl k ↦ inl (subst IsBlank (sym ((==_iff c 9).0 k)) tab)
    | inr k ↦ inr (ground arith, ground arith)
  ]
]

-- A line that is made of these words, with delimiters between and around them.
pub data Spelled : CString → List CString → Type 0 where
  empty : Spelled [] []
  last_word : (c : ℕ) (w : CString) → NoDelims (c ∷ w) → Spelled (c ∷ w) ((c ∷ w) ∷ [])
  delim : (d : ℕ) {s : CString} {ws : List CString} → IsBlank d → Spelled s ws → Spelled (d ∷ s) ws
  word :
      (c : ℕ) (w : CString) (d : ℕ) {s : CString} {ws : List CString}
      → NoDelims (c ∷ w)
      → IsBlank d
      → Spelled s ws
      → Spelled ((c ∷ w) ++ d ∷ s) ((c ∷ w) ∷ ws)

append_nil : (xs : CString) → xs ++ [] ≡ xs
append_nil [] = refl
append_nil (x ∷ xs) = ap (λ t. x ∷ t) (append_nil xs)

append_snoc : (xs : CString) (c : ℕ) (ys : CString) → (xs ++ c ∷ []) ++ ys ≡ xs ++ c ∷ ys
append_snoc [] c ys = refl
append_snoc (x ∷ xs) c ys = ap (λ t. x ∷ t) (append_snoc xs c ys)

snoc-NoDelims : (xs : CString) (c : ℕ) → NoDelims xs → c ≢ 32 → c ≢ 9 → NoDelims (xs ++ c ∷ [])
snoc-NoDelims [] c n h k = one_char c h k no_chars
snoc-NoDelims (x ∷ xs) c (one_char _ i j n) h k = one_char x i j (snoc-NoDelims xs c n h k)

read_tokens_delim :
    (token : CString) (d : ℕ) (s : CString)
    → is_delim d ≡ true
    → read_tokens token (d ∷ s) ≡ end_token token (read_tokens [] s)
unfolding read_tokens
read_tokens_delim token d s h = rw (h, read_tokens) refl

read_tokens_char :
    (token : CString) (c : ℕ) (s : CString)
    → is_delim c ≡ false
    → read_tokens token (c ∷ s) ≡ read_tokens (token ++ c ∷ []) s
unfolding read_tokens
read_tokens_char token c s h = rw (h, read_tokens) refl

read_tokens_word :
    (token w s : CString) → NoDelims w → read_tokens token (w ++ s) ≡ read_tokens (token ++ w) s
read_tokens_word token [] s no_chars = rw (append_nil token) refl
read_tokens_word token (c ∷ w) s (one_char _ h k n) =
    read_tokens_char token c (w ++ s) (is_delim-char c h k)
    ∙ read_tokens_word (token ++ c ∷ []) w s n
    ∙ ap (λ t. read_tokens t s) (append_snoc token c w)

Spelled→tokens : {s : CString} {ws : List CString} → Spelled s ws → read_tokens [] s ≡ ws
unfolding read_tokens end_token
Spelled→tokens empty = refl
Spelled→tokens (last_word c w n) =
    ap (read_tokens []) (sym (append_nil (c ∷ w))) ∙ read_tokens_word [] (c ∷ w) [] n
Spelled→tokens (delim d {s} h p) = read_tokens_delim [] d s (is_delim-IsBlank h) ∙ Spelled→tokens p
Spelled→tokens (word c w d {s} n h p) =
    read_tokens_word [] (c ∷ w) (d ∷ s) n
    ∙ read_tokens_delim (c ∷ w) d s (is_delim-IsBlank h)
    ∙ ap (λ ts. (c ∷ w) ∷ ts) (Spelled→tokens p)

end_token-Spelled :
    (token : CString) (d : ℕ) (s : CString) (ws : List CString)
    → NoDelims token
    → IsBlank d
    → Spelled s ws
    → Spelled (token ++ d ∷ s) (end_token token ws)
unfolding end_token
end_token-Spelled [] d s ws n h p = delim d h p
end_token-Spelled (c ∷ w) d s ws n h p = word c w d n h p

last_token-Spelled : (token : CString) → NoDelims token → Spelled token (end_token token [])
unfolding end_token
last_token-Spelled [] n = empty
last_token-Spelled (c ∷ w) n = last_word c w n

read_tokens-Spelled :
    (token s : CString) → NoDelims token → Spelled (token ++ s) (read_tokens token s)
unfolding read_tokens
read_tokens-Spelled token [] n = rw (append_nil token) (last_token-Spelled token n)
read_tokens-Spelled token (c ∷ s) n = elim (delim-cases c) [
  | inl h ↦
      rw (read_tokens_delim token c s (is_delim-IsBlank h))
        (end_token-Spelled token c s (read_tokens [] s) n h (read_tokens-Spelled [] s no_chars))
  | inr (h, k) ↦
      rw (read_tokens_char token c s (is_delim-char c h k), sym (append_snoc token c s))
        (read_tokens-Spelled (token ++ c ∷ []) s (snoc-NoDelims token c n h k))
]

-- A line's tokens are a list of words exactly if the line is made of these words, none of which is
-- empty or has a space or a tab, with spaces and tabs between and around them.
pub get_command_tokens_lem :
    (s : CString) (ws : List CString) → (get_command_tokens s ≡ ws) ↔ Spelled s ws
unfolding get_command_tokens
get_command_tokens_lem s ws =
    (λ e. subst (λ ts. Spelled s ts) e (read_tokens-Spelled [] s no_chars), λ p. Spelled→tokens p)
