-- ===== src/Tests/Strings.antt =====
-- Strings, variables and errors at concrete inputs.
use libsarus.Base.{
  Text, Map, lookup, NodupKeys, codes, List, [], ◌∷◌, ◌++◌, ◌≡◌, ◌≢◌, refl, ◌↔◌, ◌⊎◌, none, some,
  arith,
}
use mathlib.Core.List.{cons-ne-nil}
use libsarus.Error.{Error, plain, warn, debug, sarus, error_what, get_error_trace, ok}
use libsarus.Error.Trace.{Handler, rethrow_all, entries_of, rethrow_all-trace}
use libsarus.Split.{split_on, join}
use libsarus.Split.Tokens.{split_on-IsSplit}
use libsarus.Strings.{replace, parse_key_value_pair, parse_map, remove_whitespaces}
use libsarus.Strings.Replace.{Replaced, replace-Replaced, replace_empty}
use libsarus.Strings.Maps.{Spell, Fresh, entries, parse_map-Spell, parse_map-join}
use libsarus.Environment.{parse_variable, parse_variables}
use libsarus.Environment.Variables.{Assigns, last_value, parse_variables-last_value}

replace_run : replace 20 (codes "a--b--") (codes "--") (codes "-") ≡ some (codes "a-b-")
unfolding replace
replace_run = refl

remove_whitespaces_run : remove_whitespaces (codes " a b ") ≡ codes "ab"
unfolding remove_whitespaces
remove_whitespaces_run = refl

replace-Replaced_example :
    (t : Text) × (replace 7 (codes "a--b--") (codes "--") (codes "-") ≡ some t)
    × Replaced (codes "--") (codes "-") (codes "a--b--") t
replace-Replaced_example =
    replace-Replaced (codes "a--b--") (codes "--") (codes "-") 7 (cons-ne-nil _ _) (omega arith)

replace_empty_example : replace 100 (codes "ab") [] (codes "-") ≡ none
replace_empty_example = replace_empty (codes "ab") (codes "-") 100

abbrev options : Map
options = (codes "type", codes "bind") ∷ (codes "src", codes "/a") ∷ []

parse_map_run : parse_map split_on (codes "type=bind,src=/a") b',' b'=' ≡ ok options
unfolding parse_map split_on
parse_map_run = refl

parse_map-Spell_example : (parse_map split_on (codes "type=bind,src=/a") b',' b'=' ≡ ok options) ↔ (
    ((codes "type=bind,src=/a" ≡ []) × (options ≡ []))
    ⊎ ((codes "type=bind,src=/a" ≢ [])
        × Spell b'=' (split_on b',' (codes "type=bind,src=/a")) options
        × Fresh [] options))
parse_map-Spell_example = parse_map-Spell split_on (codes "type=bind,src=/a") b',' b'=' options

parse_map-join_example :
    parse_map split_on (join b',' (entries b'=' options)) b',' b'=' ≡ ok options
parse_map-join_example =
    parse_map-join split_on split_on-IsSplit b',' b'=' options (λ h. absurd (omega (arith, h)))
      ((cons-ne-nil _ _, refl, refl, refl, refl), ((cons-ne-nil _ _, refl, refl, refl, refl), tt))
      (refl, (refl, tt))

abbrev env : List Text
env = codes "A=1" ∷ codes "B=2" ∷ codes "A=3" ∷ []

abbrev parsed : Map
parsed = (codes "A", codes "3") ∷ (codes "B", codes "2") ∷ []

parse_variables_run : parse_variables env ≡ ok parsed
unfolding parse_variables parse_variable parse_key_value_pair
parse_variables_run = refl

parse_variables-last_value_example :
    (row : Map) × Assigns env row
    × NodupKeys parsed
    × ((k : Text) → lookup k parsed ≡ last_value k row none)
parse_variables-last_value_example = parse_variables-last_value env parsed parse_variables_run

abbrev failure : Error
failure = record {
  log_level = warn;
  first_entry = record { error_message = plain "no such file"; function_name = "open" };
  later_entries = [];
}

abbrev handlers : List Handler
handlers =
    record { function = "load"; message = plain "cannot load"; level = none }
    ∷ record { function = "main"; message = plain "cannot start"; level = some debug }
    ∷ []

rethrow_all-trace_example :
    (e' : Error) × (rethrow_all (sarus failure) handlers ≡ sarus e')
    × (error_what e' ≡ plain "no such file")
    × (e'.log_level ≡ debug)
    × (get_error_trace e' ≡ get_error_trace failure ++ entries_of handlers)
rethrow_all-trace_example = rethrow_all-trace handlers failure
