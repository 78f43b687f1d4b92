-- ===== src/Commands/Arguments.antt =====
-- src/debugger.c: the arguments of a command, read from its tokens.
use spray.Base.{ℕ, Bool, false, Option, none, some, List, [], ◌∷◌, CString, ◌==◌, if◌then◌else◌}
use spray.Magic.Format.{FormatFilter, fmt_dec, fmt_hex}
use spray.Number.{parse_base10, parse_base16}
use spray.Registers.{X86Reg, get_register_from_name}
use spray.Info.{DebugInfo}
use spray.Commands.{PrintFilter, pf, next_token, end_of_tokens, parse_filter, default_filter}
use spray.Commands.Place.{is_valid_identifier, parse_break_location}
use spray.Commands.Handlers.{
  Message, trailing_characters, invalid_filter, invalid_register_name, missing_location,
  invalid_location, missing_value, invalid_value,
}

unfoldable pub is_filter_delim : CString → Bool
is_filter_delim [] = false
is_filter_delim (c ∷ []) = c == b'|'
is_filter_delim (c ∷ d ∷ s) = false

-- An argument, or the message with which the command is skipped.
pub data Argument {ℓ} (A : Type ℓ) : Type ℓ where
  argument : A → Argument A
  rejected : Message → Argument A

abbrev pub valid_filter : PrintFilter → ℕ → Argument (PrintFilter × ℕ)
valid_filter (pf FormatFilter.fmt_none) i = rejected invalid_filter
valid_filter filter i = argument (filter, i)

-- The filter behind a delimiter, if there is one, and the index behind it.
unfoldable pub read_filter : List CString → ℕ → Argument (PrintFilter × ℕ)
unfolding next_token parse_filter is_filter_delim
read_filter tokens i =
    let (delim_str, i') = next_token tokens i in
    elim delim_str [
      | none ↦ argument (pf FormatFilter.fmt_none, i')
      | some delim ↦
          let (filter_str, i'') = next_token tokens i' in
          if is_filter_delim delim
          then valid_filter (parse_filter filter_str) i''
          else rejected trailing_characters
    ]

-- Nothing may follow.
abbrev pub at_end : {A : Type 0} → List CString → Argument (A × ℕ) → Argument A
at_end tokens (rejected m) = rejected m
at_end tokens (argument (a, i)) =
    if end_of_tokens tokens i then argument a else rejected trailing_characters

-- The value to set, with the base that it is printed in by default.
unfoldable pub read_value : CString → PrintFilter → Argument (ℕ × PrintFilter)
unfolding default_filter
read_value value_str filter = elim (parse_base10 value_str) [
  | some value ↦ argument (value, default_filter filter (pf fmt_dec))
  | none ↦ elim (parse_base16 value_str) [
    | some value ↦ argument (value, default_filter filter (pf fmt_hex))
    | none ↦ rejected invalid_value
  ]
]

-- What print and set are about.
pub data Subject : Type 0 where
  a_register : X86Reg → CString → Subject
  a_variable : CString → Subject
  a_memory : ℕ → Subject

abbrev register_named : CString → Option X86Reg → Argument Subject
register_named reg_name none = rejected invalid_register_name
register_named reg_name (some reg) = argument (a_register reg reg_name)

abbrev address_at : Option ℕ → Argument Subject
address_at none = rejected invalid_location
address_at (some addr) = argument (a_memory addr)

abbrev pub no_percent_subject : CString → Argument Subject
no_percent_subject loc_str =
    if is_valid_identifier loc_str
    then argument (a_variable loc_str)
    else address_at (parse_base16 loc_str)

unfoldable pub read_subject : CString → Argument Subject
unfolding is_valid_identifier
read_subject [] = no_percent_subject []
read_subject (c ∷ s) =
    if c == b'%' then register_named s (get_register_from_name s) else no_percent_subject (c ∷ s)

-- `print`, from the token at `i` on: the subject and the filter.
unfoldable pub read_print : List CString → ℕ → Argument (Subject × PrintFilter)
unfolding next_token read_filter read_subject end_of_tokens
read_print tokens i =
    let (loc, i') = next_token tokens i in
    elim loc [
      | none ↦ rejected missing_location
      | some loc_str ↦ elim (at_end tokens (read_filter tokens i')) [
        | rejected m ↦ rejected m
        | argument filter ↦ elim (read_subject loc_str) [
          | rejected m ↦ rejected m
          | argument subject ↦ argument (subject, filter)
        ]
      ]
    ]

-- `set`: the subject, the value and the filter.
unfoldable pub read_set : List CString → ℕ → Argument (Subject × ℕ × PrintFilter)
unfolding next_token read_filter read_subject read_value end_of_tokens
read_set tokens i =
    let (loc, i') = next_token tokens i in
    elim loc [
      | none ↦ rejected missing_location
      | some loc_str ↦
          let (str, i'') = next_token tokens i' in
          elim str [
            | none ↦ rejected missing_value
            | some value_str ↦ elim (at_end tokens (read_filter tokens i'')) [
              | rejected m ↦ rejected m
              | argument given ↦ elim (read_value value_str given) [
                | rejected m ↦ rejected m
                | argument (value, filter) ↦ elim (read_subject loc_str) [
                  | rejected m ↦ rejected m
                  | argument subject ↦ argument (subject, value, filter)
                ]
              ]
            ]
          ]
    ]

-- `break` and `delete`: the debug address.
unfoldable pub read_location : DebugInfo → List CString → ℕ → Argument ℕ
unfolding next_token end_of_tokens parse_break_location
read_location info tokens i =
    let (loc, i') = next_token tokens i in
    elim loc [
      | none ↦ rejected missing_location
      | some loc_str ↦ elim (parse_break_location info loc_str) [
        | none ↦ rejected invalid_location
        | some addr ↦ at_end tokens (argument (addr, i'))
      ]
    ]
