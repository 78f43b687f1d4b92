-- ===== src/Args/Tests.antt =====
-- Some command lines: runs, and the theorem at one.
use spray.Base.{◌≡◌, refl, true, false, none, some, List, [], ◌∷◌, CString, bytes, map}
use spray.Magic.{str_eq}
use spray.Base.{eq_bytes}
use spray.Args.{
  parse_args, parse_flags, parse_flags_from, parse_short_flag, parse_long_flag, starts_with,
  drop_args, set_args,
}
use spray.Args.Parsed.{ArgsParsed, initial, Stored, parse_args_lem, set_args_lem}

abbrev command : List CString
command = bytes "spray" ∷ bytes "-c" ∷ bytes "a.out" ∷ bytes "-c" ∷ []

run_parse :
    map
      (λ argv. parse_args argv initial)
      (command
        ∷ (bytes "spray" ∷ bytes "-c" ∷ [])
        ∷ (bytes "spray" ∷ bytes "a.out" ∷ [])
        ∷ (bytes "spray" ∷ bytes "--color" ∷ bytes "a.out" ∷ [])
        ∷ [])
    ≡ some (record {
      flags = record { no_color = true };
      file = some (bytes "a.out");
      args = some (bytes "a.out" ∷ bytes "-c" ∷ []);
      n_args = 2;
    })
      ∷ none
      ∷ some (record {
        flags = record { no_color = false };
        file = some (bytes "a.out");
        args = none;
        n_args = 0;
      })
      ∷ none
      ∷ []
unfolding parse_args parse_flags parse_flags_from parse_short_flag parse_long_flag starts_with
    drop_args str_eq eq_bytes
run_parse = refl

parse_args_lem_example : ArgsParsed command (parse_args command initial)
parse_args_lem_example =
    parse_args_lem (bytes "spray") (bytes "-c" ∷ bytes "a.out" ∷ bytes "-c" ∷ [])

command_parsed :
    parse_args command initial
    ≡ some (record {
      flags = record { no_color = true };
      file = some (bytes "a.out");
      args = some (bytes "a.out" ∷ bytes "-c" ∷ []);
      n_args = 2;
    })
unfolding run_parse
command_parsed = refl

set_args_lem_example :
    Stored initial
      (record {
        flags = record { no_color = true };
        file = some (bytes "a.out");
        args = some (bytes "a.out" ∷ bytes "-c" ∷ []);
        n_args = 2;
      })
      (set_args initial (record {
        flags = record { no_color = true };
        file = some (bytes "a.out");
        args = some (bytes "a.out" ∷ bytes "-c" ∷ []);
        n_args = 2;
      }))
set_args_lem_example =
    set_args_lem (bytes "spray") (bytes "-c" ∷ bytes "a.out" ∷ bytes "-c" ∷ []) initial
      (record {
        flags = record { no_color = true };
        file = some (bytes "a.out");
        args = some (bytes "a.out" ∷ bytes "-c" ∷ []);
        n_args = 2;
      })
      command_parsed
