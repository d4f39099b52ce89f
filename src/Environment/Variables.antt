-- ===== src/Environment/Variables.antt =====
-- `parseVariables` against the last assignment of each key.
use libsarus.Base.{
  Text, Map, insert, lookup, lookup-insert, NodupKeys, insert-NodupKeys, text_eq, List, [], ◌∷◌,
  Option, none, some, ◌≡◌, refl, arith, if◌then◌else◌,
}
use libsarus.Error.{ok}
use libsarus.Error.Trace.{>>=-eq-ok}
use libsarus.Strings.{parse_key_value_pair}
use libsarus.Strings.Pairs.{IsPair, parse_key_value_pair-IsPair}
use libsarus.Environment.{parse_variable, parse_variables_from, parse_variables}

-- The variables spell these assignments in order.
abbrev pub Assigns : List Text → Map → Type 0
Assigns [] [] = Unit
Assigns (t ∷ ts) ((k, v) ∷ m) = IsPair b'=' t k v × Assigns ts m
Assigns _ _ = ⊥

-- The last value that a row of assignments gives a key.
abbrev pub last_value : Text → Map → Option Text → Option Text
last_value k [] old = old
last_value k ((j, v) ∷ m) old = last_value k m (if text_eq j k then some v else old)

parse_variable-ok :
    (t k v : Text) → parse_variable t ≡ ok (k, v) → parse_key_value_pair t b'=' ≡ ok (k, v)
unfolding parse_variable
parse_variable-ok t k v h = ground arith

parse_variables_from-Assigns :
    (env : List Text) (old m : Map)
    → NodupKeys old
    → parse_variables_from env old ≡ ok m
    → (row : Map) × Assigns env row
      × NodupKeys m
      × ((k : Text) → lookup k m ≡ last_value k row (lookup k old))
unfolding parse_variables_from
parse_variables_from-Assigns [] old m u h = ([], tt, ground arith, λ k. ground arith)
parse_variables_from-Assigns (t ∷ env) old m u h =
    let ((k, v), parsed, rest) = >>=-eq-ok (parse_variable t) _ h in
    let (row, assigns, u', last) =
      parse_variables_from-Assigns env (insert k v old) m (insert-NodupKeys k v old u) rest in
    (
      (k, v) ∷ row,
      ((parse_key_value_pair-IsPair t b'=' k v).0 (parse_variable-ok t k v parsed), assigns),
      u',
      λ j. rw (last j, lookup-insert k j v old) refl,
    )

-- When `parseVariables` returns, each variable spells an assignment, and the map holds for each
-- key the value of its last assignment and no other key; no key stands in it twice.
pub parse_variables-last_value :
    (env : List Text) (m : Map)
    → parse_variables env ≡ ok m
    → (row : Map) × Assigns env row
      × NodupKeys m
      × ((k : Text) → lookup k m ≡ last_value k row none)
unfolding parse_variables
parse_variables-last_value env m h = parse_variables_from-Assigns env [] m tt h
