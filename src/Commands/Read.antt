-- ===== src/Commands/Read.antt =====
-- src/debugger.c: the arguments of a command are read where they have the form that it takes.
use spray.Base.{
  ℕ, suc, true, false, Bool-cases, none, some, Option-cases, List, [], ◌∷◌, ◌≡◌, ◌≢◌, ◌⊎◌, inl, inr,
  refl, CString, ◌==◌, ==_iff, get_elem?,
}
use spray.Magic.Format.{FormatFilter}
use spray.Number.{parse_base10, parse_base16}
use spray.Registers.{X86Reg, get_register_from_name}
use spray.Info.{DebugInfo}
use spray.Commands.{
  PrintFilter, pf, pf_deref, default_filter, next_token, end_of_tokens, parse_filter,
}
use spray.Commands.Place.{is_valid_identifier, parse_break_location}
use spray.Commands.Handlers.{
  Message, trailing_characters, invalid_filter, invalid_register_name, invalid_location,
  invalid_value,
}
use spray.Commands.Arguments.{
  is_filter_delim, Argument, argument, rejected, valid_filter, read_filter, at_end, read_value,
  a_register, a_variable, a_memory, no_percent_subject, read_subject, read_print, read_set,
  read_location,
}

-- Nothing, or a bar and the name of a filter.
pub data IsFilter : List CString → Type 0 where
  no_filter : IsFilter []
  filtered :
      (bar name : CString)
      → is_filter_delim bar ≡ true
      → parse_filter (some name) ≢ pf FormatFilter.fmt_none
      → IsFilter (bar ∷ name ∷ [])

-- A register behind a percent sign, a variable, or an address.
pub data IsSubject : CString → Type 0 where
  register :
      (name : CString) (r : X86Reg) → get_register_from_name name ≡ some r → IsSubject (b'%' ∷ name)
  variable : (name : CString) → is_valid_identifier name ≡ true → IsSubject name
  memory : (s : CString) (addr : ℕ) → parse_base16 s ≡ some addr → IsSubject s

pub data IsValue : CString → Type 0 where
  decimal : (s : CString) (n : ℕ) → parse_base10 s ≡ some n → IsValue s
  hexadecimal : (s : CString) (n : ℕ) → parse_base16 s ≡ some n → IsValue s

-- An argument that is read where something holds, or a message.
abbrev ReadIf : {A : Type 0} → Type 0 → Argument A → Type 0
ReadIf {A} P r = (P × (a : A) × (r ≡ argument a)) ⊎ ((m : Message) × (r ≡ rejected m))

filter_name_lem :
    (filter : PrintFilter) (i : ℕ)
    → ((filter ≢ pf FormatFilter.fmt_none) × (valid_filter filter i ≡ argument (filter, i)))
      ⊎ (valid_filter filter i ≡ rejected invalid_filter)
filter_name_lem (pf FormatFilter.fmt_none) i = inr refl
filter_name_lem (pf FormatFilter.fmt_hex) i = inl (λ e. cc, refl)
filter_name_lem (pf FormatFilter.fmt_bits) i = inl (λ e. cc, refl)
filter_name_lem (pf FormatFilter.fmt_addr) i = inl (λ e. cc, refl)
filter_name_lem (pf FormatFilter.fmt_dec) i = inl (λ e. cc, refl)
filter_name_lem (pf FormatFilter.fmt_bytes) i = inl (λ e. cc, refl)
filter_name_lem pf_deref i = inl (λ e. cc, refl)

next_token-none :
    (tokens : List CString) (i : ℕ) → get_elem? tokens i ≡ none → next_token tokens i ≡ (none, i)
unfolding next_token
next_token-none tokens i h = rw (h, next_token) refl

next_token-some :
    (tokens : List CString) (i : ℕ) (s : CString)
    → get_elem? tokens i ≡ some s
    → next_token tokens i ≡ (some s, suc i)
unfolding next_token
next_token-some tokens i s h = rw (h, next_token) refl

end_of_tokens-none :
    (tokens : List CString) (i : ℕ) → get_elem? tokens i ≡ none → end_of_tokens tokens i ≡ true
unfolding end_of_tokens
end_of_tokens-none tokens i h = rw (h, end_of_tokens) refl

end_of_tokens-some :
    (tokens : List CString) (i : ℕ) (s : CString)
    → get_elem? tokens i ≡ some s
    → end_of_tokens tokens i ≡ false
unfolding end_of_tokens
end_of_tokens-some tokens i s h = rw (h, end_of_tokens) refl

-- `f` is what the tokens are from `i` on.
read_filter_lem :
    (tokens : List CString) (i : ℕ) (f : List CString)
    → get_elem? tokens i ≡ get_elem? f 0
    → get_elem? tokens (suc i) ≡ get_elem? f 1
    → get_elem? tokens (suc (suc i)) ≡ get_elem? f 2
    → ReadIf (IsFilter f) (at_end tokens (read_filter tokens i))
unfolding read_filter
read_filter_lem tokens i [] h0 h1 h2 =
    rw
      (
        next_token-none tokens i h0,
        read_filter,
        next_token-none tokens i h0,
        end_of_tokens-none tokens i h0,
      )
      (inl (no_filter, pf FormatFilter.fmt_none, refl))
read_filter_lem tokens i (d ∷ []) h0 h1 h2 = elim (Bool-cases (is_filter_delim d)) [
  | inl e ↦
      rw
        (
          next_token-some tokens i d h0,
          read_filter,
          next_token-some tokens i d h0,
          next_token-none tokens (suc i) h1,
          e,
        )
        (inr (invalid_filter, refl))
  | inr e ↦
      rw
        (
          next_token-some tokens i d h0,
          read_filter,
          next_token-some tokens i d h0,
          next_token-none tokens (suc i) h1,
          e,
        )
        (inr (trailing_characters, refl))
]
read_filter_lem tokens i (d ∷ s ∷ r) h0 h1 h2 = elim (Bool-cases (is_filter_delim d)) [
  | inr e ↦
      rw
        (
          next_token-some tokens i d h0,
          read_filter,
          next_token-some tokens i d h0,
          next_token-some tokens (suc i) s h1,
          e,
        )
        (inr (trailing_characters, refl))
  | inl e ↦
      rw
        (
          next_token-some tokens i d h0,
          read_filter,
          next_token-some tokens i d h0,
          next_token-some tokens (suc i) s h1,
          e,
        )
        (elim (filter_name_lem (parse_filter (some s)) (suc (suc i))) [
          | inr k ↦ rw k (inr (invalid_filter, refl))
          | inl (k, v) ↦ rw v (behind r h2 (filtered d s e k))
        ])
]
  where
    behind :
        (r' : List CString)
        → get_elem? tokens (suc (suc i)) ≡ get_elem? (d ∷ s ∷ r') 2
        → IsFilter (d ∷ s ∷ [])
        → ReadIf
            (IsFilter (d ∷ s ∷ r'))
            (at_end tokens (argument (parse_filter (some s), suc (suc i))))
    behind [] h p =
        rw (end_of_tokens-none tokens (suc (suc i)) h) (inl (p, parse_filter (some s), refl))
    behind (x ∷ r') h p =
        rw (end_of_tokens-some tokens (suc (suc i)) x h) (inr (trailing_characters, refl))

read_value_lem : (s : CString) (filter : PrintFilter) → ReadIf (IsValue s) (read_value s filter)
unfolding read_value
read_value_lem s filter = elim (Option-cases (parse_base10 s)) [
  | inr (n, e) ↦
      rw (e, read_value)
        (inl (decimal s n e, (n, default_filter filter (pf FormatFilter.fmt_dec)), refl))
  | inl e ↦ elim (Option-cases (parse_base16 s)) [
    | inr (n, k) ↦
        rw (e, read_value, k)
          (inl (hexadecimal s n k, (n, default_filter filter (pf FormatFilter.fmt_hex)), refl))
    | inl k ↦ rw (e, read_value, k) (inr (invalid_value, refl))
  ]
]

no_percent_lem : (s : CString) → ReadIf (IsSubject s) (no_percent_subject s)
no_percent_lem s = elim (Bool-cases (is_valid_identifier s)) [
  | inl e ↦ rw e (inl (variable s e, a_variable s, refl))
  | inr e ↦ elim (Option-cases (parse_base16 s)) [
    | inr (n, k) ↦ rw (e, k) (inl (memory s n k, a_memory n, refl))
    | inl k ↦ rw (e, k) (inr (invalid_location, refl))
  ]
]

read_subject_lem : (s : CString) → ReadIf (IsSubject s) (read_subject s)
unfolding read_subject
read_subject_lem [] = no_percent_lem []
read_subject_lem (c ∷ s) = elim (Bool-cases (c == b'%')) [
  | inr e ↦ rw (e, read_subject) (no_percent_lem (c ∷ s))
  | inl e ↦ elim (Option-cases (get_register_from_name s)) [
    | inr (r, k) ↦
        rw (e, read_subject, k)
          (inl (rw ((==_iff c b'%').0 e) (register s r k), a_register r s, refl))
    | inl k ↦ rw (e, read_subject, k) (inr (invalid_register_name, refl))
  ]
]

pub read_print_lem :
    (cmd loc : CString) (f : List CString)
    → ReadIf (IsSubject loc × IsFilter f) (read_print (cmd ∷ loc ∷ f) 1)
unfolding read_print next_token
read_print_lem cmd loc f = elim (read_filter_lem (cmd ∷ loc ∷ f) 2 f refl refl refl) [
  | inr (m, e) ↦ rw (e, read_print) (inr (m, refl))
  | inl (p, filter, e) ↦ elim (read_subject_lem loc) [
    | inr (m, k) ↦ rw (e, read_print, k) (inr (m, refl))
    | inl (q, subject, k) ↦ rw (e, read_print, k) (inl ((q, p), (subject, filter), refl))
  ]
]

pub read_set_lem :
    (cmd loc value : CString) (f : List CString)
    → ReadIf (IsSubject loc × IsValue value × IsFilter f) (read_set (cmd ∷ loc ∷ value ∷ f) 1)
unfolding read_set next_token
read_set_lem cmd loc value f = elim (read_filter_lem (cmd ∷ loc ∷ value ∷ f) 3 f refl refl refl) [
  | inr (m, e) ↦ rw (e, read_set) (inr (m, refl))
  | inl (p, given, e) ↦ elim (read_value_lem value given) [
    | inr (m, v) ↦ rw (e, read_set, v) (inr (m, refl))
    | inl (w, (n, filter), v) ↦ elim (read_subject_lem loc) [
      | inr (m, k) ↦ rw (e, read_set, v, k) (inr (m, refl))
      | inl (q, subject, k) ↦ rw (e, read_set, v, k) (inl ((q, w, p), (subject, n, filter), refl))
    ]
  ]
]

pub read_location_lem :
    (info : DebugInfo) (cmd loc : CString) (f : List CString)
    → ReadIf
        ((f ≡ []) × (addr : ℕ) × (parse_break_location info loc ≡ some addr))
        (read_location info (cmd ∷ loc ∷ f) 1)
unfolding read_location next_token end_of_tokens
read_location_lem info cmd loc f = elim (Option-cases (parse_break_location info loc)) [
  | inl e ↦ rw (e, read_location) (inr (invalid_location, refl))
  | inr (addr, e) ↦
      let k : read_location info (cmd ∷ loc ∷ f) 1 ≡ at_end (cmd ∷ loc ∷ f) (argument (addr, 2)) =
        rw (e, read_location) refl in
      rw k (behind f addr e)
]
  where
    behind :
        (f' : List CString) (addr : ℕ)
        → parse_break_location info loc ≡ some addr
        → ReadIf
            ((f' ≡ []) × (a : ℕ) × (parse_break_location info loc ≡ some a))
            (at_end (cmd ∷ loc ∷ f') (argument (addr, 2)))
    behind [] addr e = inl ((refl, addr, e), addr, refl)
    behind (x ∷ r) addr e = inr (trailing_characters, refl)
