-- ===== src/Args/Parsed.antt =====
-- Which command lines src/args.c accepts, and what it makes of them.
use spray.Base.{
  ℕ, suc, ◌+◌, ◌-◌, ◌≡◌, refl, ap, ◌⊎◌, inl, inr, Bool, true, false, ◌||◌, Option, some, none, List,
  [], ◌∷◌, ◌++◌, CString, bytes, arith, ltb, length, length-append, get_elem?, eq_bytes_iff,
  Bool-cases,
}
use mathlib.Core.Path.{subst}
use spray.Magic.{str_eq}
use spray.Args.{
  Flags, Args, parse_short_flag, parse_long_flag, starts_with, parse_flags_from, parse_flags,
  drop_args, store_args, parse_args, set_args, take_args, args_list,
}

-- A flag of the program.
abbrev pub IsFlag : CString → Type 0
IsFlag s = (bytes "-c" ≡ s) ⊎ (bytes "--no-color" ≡ s)

pub data AllFlags : List CString → Type 0 where
  no_flags : AllFlags []
  one_more : {s : CString} {fs : List CString} → IsFlag s → AllFlags fs → AllFlags (s ∷ fs)

abbrev pub given : List CString → Bool
given [] = false
given (f ∷ fs) = true

-- What becomes of the arguments behind the program's name.
data Read (no_color : Bool) (i : ℕ) : List CString → Option (ℕ × Flags) → Type 0 where
  file_found :
      (fs rest : List CString) (file : CString)
      → AllFlags fs
      → starts_with (bytes "-") file ≡ false
      → Read no_color i
          (fs ++ file ∷ rest)
          (some (length fs + i, record { no_color = given fs || no_color }))
  unknown_flag :
      (fs rest : List CString) (bad : CString)
      → AllFlags fs
      → starts_with (bytes "-") bad ≡ true
      → ¬ (IsFlag bad)
      → Read no_color i (fs ++ bad ∷ rest) none
  no_file : (fs : List CString) → AllFlags fs → Read no_color i fs none

Read-next :
    (no_color : Bool) (i : ℕ) (s : CString) (argv : List CString) (r : Option (ℕ × Flags))
    → IsFlag s
    → Read true (suc i) argv r
    → Read no_color i (s ∷ argv) r
Read-next no_color i s _ _ f (file_found fs rest file all plain) =
    let shift : length fs + suc i ≡ suc (length fs) + i = omega arith in
    let on : (given fs || true) ≡ true = elim (Bool-cases (given fs)) [
      | inl h ↦ rw h
      | inr h ↦ rw h
    ] in
    rw (shift, on) (file_found (s ∷ fs) rest file (one_more f all) plain)
Read-next no_color i s _ _ f (unknown_flag fs rest bad all dashed no') =
    unknown_flag (s ∷ fs) rest bad (one_more f all) dashed no'
Read-next no_color i s _ _ f (no_file fs all) = no_file (s ∷ fs) (one_more f all)

starts_with_short :
    (s : CString) → starts_with (bytes "--") s ≡ true → starts_with (bytes "-") s ≡ true
unfolding starts_with
starts_with_short [] h = cc
starts_with_short (c ∷ s) h = ground arith

long-not_short : (s : CString) → starts_with (bytes "--") s ≡ true → ¬ (bytes "-c" ≡ s)
unfolding starts_with
long-not_short s h e = let other : starts_with (bytes "--") s ≡ false = rw (← e) in cc

short-not_long : (s : CString) → starts_with (bytes "--") s ≡ false → ¬ (bytes "--no-color" ≡ s)
unfolding starts_with
short-not_long s h e = let other : starts_with (bytes "--") s ≡ true = rw (← e) in cc

not_dashed : (s : CString) → starts_with (bytes "-") s ≡ false → starts_with (bytes "--") s ≡ false
unfolding starts_with
not_dashed s h = elim (Bool-cases (starts_with (bytes "--") s)) [
  | inr no' ↦ no'
  | inl long ↦ let dashed = starts_with_short s long in cc
]

str_eq-eq : (a b : CString) → str_eq a b ≡ true → a ≡ b
unfolding str_eq
str_eq-eq a b h = (eq_bytes_iff a b).0 h

str_eq-ne : (a b : CString) → str_eq a b ≡ false → ¬ (a ≡ b)
unfolding str_eq
str_eq-ne a b h e = let same = (eq_bytes_iff a b).1 e in cc

file_here :
    (i : ℕ) (s : CString) (argv : List CString) (no_color : Bool)
    → starts_with (bytes "-") s ≡ false
    → Read no_color i (s ∷ argv) (some (i, record { no_color = no_color }))
file_here i s argv no_color plain =
    subst (λ k. Read no_color i (s ∷ argv) (some (k, record { no_color = no_color }))) (omega arith)
      (file_found [] argv s no_flags plain)

parse_flags_from_lem :
    (argv : List CString) (i : ℕ) (no_color : Bool)
    → Read no_color i argv (parse_flags_from argv i (record { no_color = no_color }))
unfolding parse_flags_from parse_short_flag parse_long_flag
parse_flags_from_lem [] i no_color = no_file [] no_flags
parse_flags_from_lem (s ∷ argv) i no_color = elim (Bool-cases (starts_with (bytes "--") s)) [
  | inl long ↦ elim (Bool-cases (str_eq (bytes "--no-color") s)) [
    | inl is ↦
        rw (long, parse_flags_from)
          (rw (is, parse_long_flag)
            (Read-next no_color i s argv _ (inr (str_eq-eq (bytes "--no-color") s is))
              (parse_flags_from_lem argv (suc i) true)))
    | inr other ↦
        rw (long, parse_flags_from)
          (rw (other, parse_long_flag)
            (unknown_flag [] argv s no_flags (starts_with_short s long)
              (not_flag s (long-not_short s long) (str_eq-ne (bytes "--no-color") s other))))
  ]
  | inr short ↦ elim (Bool-cases (starts_with (bytes "-") s)) [
    | inr plain ↦ rw (short, parse_flags_from) (rw plain (file_here i s argv no_color plain))
    | inl dashed ↦ elim (Bool-cases (str_eq (bytes "-c") s)) [
      | inl is ↦
          rw (short, parse_flags_from)
            (rw dashed (
              rw (is, parse_short_flag)
                (Read-next no_color i s argv _ (inl (str_eq-eq (bytes "-c") s is))
                  (parse_flags_from_lem argv (suc i) true))))
      | inr other ↦
          rw (short, parse_flags_from)
            (rw dashed (
              rw (other, parse_short_flag)
                (unknown_flag [] argv s no_flags dashed
                  (not_flag s (str_eq-ne (bytes "-c") s other) (short-not_long s short)))))
    ]
  ]
]
  where
    not_flag : (s : CString) → ¬ (bytes "-c" ≡ s) → ¬ (bytes "--no-color" ≡ s) → ¬ (IsFlag s)
    not_flag s a b (inl e) = a e
    not_flag s a b (inr e) = b e

-- The program's arguments behind its own flags.
abbrev pub initial : Args
initial = record { flags = record { no_color = false }; file = none; args = none; n_args = 0 }

-- What `parse_args` makes of a command line.
pub data ArgsParsed : List CString → Option Args → Type 0 where
  alone :
      (me file : CString) (fs : List CString)
      → AllFlags fs
      → starts_with (bytes "-") file ≡ false
      → ArgsParsed (me ∷ fs ++ file ∷ []) (
          some (record {
            flags = record { no_color = given fs };
            file = some file;
            args = none;
            n_args = 0;
          }))
  with_arguments :
      (me file arg : CString) (fs rest : List CString)
      → AllFlags fs
      → starts_with (bytes "-") file ≡ false
      → ArgsParsed (me ∷ fs ++ file ∷ arg ∷ rest) (
          some (record {
            flags = record { no_color = given fs };
            file = some file;
            args = some (file ∷ arg ∷ rest);
            n_args = suc (suc (length rest));
          }))
  refused_flag :
      (me bad : CString) (fs rest : List CString)
      → AllFlags fs
      → starts_with (bytes "-") bad ≡ true
      → ¬ (IsFlag bad)
      → ArgsParsed (me ∷ fs ++ bad ∷ rest) none
  only_flags : (me : CString) (fs : List CString) → AllFlags fs → ArgsParsed (me ∷ fs) none

get_elem?-file :
    (fs rest : List CString) (file : CString)
    → get_elem? (fs ++ file ∷ rest) (length fs) ≡ some file
get_elem?-file [] rest file = refl
get_elem?-file (f ∷ fs) rest file = get_elem?-file fs rest file

drop_args-file :
    (fs rest : List CString) (file : CString)
    → drop_args (length fs) (fs ++ file ∷ rest) ≡ file ∷ rest
unfolding drop_args
drop_args-file [] rest file = refl
drop_args-file (f ∷ fs) rest file = drop_args-file fs rest file

module _ (me file : CString) (fs rest : List CString) where
  abbrev argv : List CString
  argv = me ∷ fs ++ file ∷ rest

  next : length fs + 1 ≡ suc (length fs)
  next = omega arith

  count : length argv ≡ suc (length fs + suc (length rest))
  count = ap suc (length-append fs (file ∷ rest))

  get_elem?-argv : get_elem? argv (length fs + 1) ≡ some file
  get_elem?-argv = rw next (get_elem?-file fs rest file)

  drop_args-argv : drop_args (length fs + 1) argv ≡ file ∷ rest
  unfolding drop_args
  drop_args-argv = rw next (drop_args-file fs rest file)

  left_over : length argv - (length fs + 1) ≡ suc (length rest)
  left_over = omega (arith, count)

  no_color_given : (given fs || false) ≡ given fs
  no_color_given = elim (Bool-cases (given fs)) [ inl h ↦ rw h | inr h ↦ rw h ]

store_args_lem :
    (me : CString) (argv : List CString) (r : Option (ℕ × Flags))
    → Read false 1 argv r
    → ArgsParsed (me ∷ argv) (store_args (me ∷ argv) initial r)
store_args_lem me _ _ (unknown_flag fs rest bad all dashed no') =
    refused_flag me bad fs rest all dashed no'
store_args_lem me _ _ (no_file fs all) = only_flags me fs all
store_args_lem me _ _ (file_found fs [] file all plain) =
    let last : ltb (length fs + 1 + 1) (length (argv me file fs [])) ≡ false =
      ground (arith, count me file fs []) in
    rw (last, get_elem?-argv me file fs [], no_color_given me file fs [])
      (alone me file fs all plain)
store_args_lem me _ _ (file_found fs (arg ∷ rest) file all plain) =
    let more : ltb (length fs + 1 + 1) (length (argv me file fs (arg ∷ rest))) ≡ true =
      ground (arith, count me file fs (arg ∷ rest)) in
    rw
      (
        more,
        get_elem?-argv me file fs (arg ∷ rest),
        drop_args-argv me file fs (arg ∷ rest),
        left_over me file fs (arg ∷ rest),
        no_color_given me file fs (arg ∷ rest),
      )
      (with_arguments me file arg fs rest all plain)

-- A command line is accepted exactly if flags that the program knows are followed by a file that does not
-- start with a dash. Then the flags, the file, and the file with its arguments are stored; if the file has
-- no arguments, no argument vector is stored.
pub parse_args_lem :
    (me : CString) (argv : List CString) → ArgsParsed (me ∷ argv) (parse_args (me ∷ argv) initial)
unfolding parse_args parse_flags
parse_args_lem me argv = store_args_lem me argv _ (parse_flags_from_lem argv 1 false)

take_args-all : (argv : List CString) → take_args (length argv) argv ≡ argv
unfolding take_args
take_args-all [] = refl
take_args-all (arg ∷ argv) = ap (λ rest. arg ∷ rest) (take_args-all argv)

-- What is kept of the arguments.
pub record Stored (global_args args kept : Args) : Type 0 where
  pub flags_stored : kept.flags ≡ args.flags
  pub file_stored : kept.file ≡ args.file
  pub args_stored : kept.args ≡ some (args_list args.args)
  pub n_args_stored : kept.n_args ≡ global_args.n_args

Stored-parsed :
    (global_args a : Args) (argv : List CString) (r : Option Args)
    → ArgsParsed argv r
    → r ≡ some a
    → take_args a.n_args (args_list a.args) ≡ args_list a.args
unfolding take_args
Stored-parsed global_args a _ _ (alone me file fs all plain) e = ground arith
Stored-parsed global_args a _ _ (with_arguments me file arg fs rest all plain) e =
    let fields = take_args-all (file ∷ arg ∷ rest) in ground (arith, fields)
Stored-parsed global_args a _ _ (refused_flag me bad fs rest all dashed no') e = cc
Stored-parsed global_args a _ _ (only_flags me fs all) e = cc

-- After `set_args` with a parsed command line, the flags, the file and the whole argument vector are
-- stored, the vector being empty where there is none; the number of arguments stays what it was.
pub set_args_lem :
    (me : CString) (argv : List CString) (global_args a : Args)
    → parse_args (me ∷ argv) initial ≡ some a
    → Stored global_args a (set_args global_args a)
unfolding set_args
set_args_lem me argv global_args a e = record {
  flags_stored = refl;
  file_stored = refl;
  args_stored = ap some (Stored-parsed global_args a (me ∷ argv) _ (parse_args_lem me argv) e);
  n_args_stored = refl;
}
