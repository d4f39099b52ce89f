-- ===== src/Base/Maps.antt =====
-- `std::unordered_map<std::string, std::string>` as an association list in its order of iteration.
use mathlib.Core.Path.{◌≡◌, refl}
use mathlib.Core.Bool.{Bool, true, false}
use mathlib.Core.Option.{Option, none, some}
use mathlib.Core.List.{List, [], ◌∷◌}
use native.Mathlib.Omega.{arith}
use libsarus.Base.Tests.{if◌then◌else◌}
use libsarus.Base.Bytes.{Text, text_eq, text_eq_iff, text_tests}

abbrev pub Map : Type 0
Map = List (Text × Text)

-- `m.find(k)`; `m.count(k)` is whether it is `some`, `m.at(k)` its value.
abbrev pub lookup : Text → Map → Option Text
lookup k [] = none
lookup k ((j, v) ∷ m) = if text_eq j k then some v else lookup k m

-- `m[k] = v`.
abbrev pub insert : Text → Text → Map → Map
insert k v [] = (k, v) ∷ []
insert k v ((j, w) ∷ m) = if text_eq j k then (j, v) ∷ m else (j, w) ∷ insert k v m

-- `m.erase(k)`.
abbrev pub erase : Text → Map → Map
erase k [] = []
erase k ((j, v) ∷ m) = let rest = erase k m in if text_eq j k then rest else (j, v) ∷ rest

abbrev pub has : Text → Map → Bool
has k m = elim (lookup k m) [ none ↦ false | some v ↦ true ]

-- The keys of a map are all different.
abbrev pub NodupKeys : Map → Type 0
NodupKeys [] = Unit
NodupKeys ((k, v) ∷ m) = (lookup k m ≡ none) × NodupKeys m

pub lookup-insert :
    (k j v : Text) (m : Map)
    → lookup j (insert k v m) ≡ (if text_eq k j then some v else lookup j m)
lookup-insert k j v [] = refl
lookup-insert k j v ((i, w) ∷ m) = grind (text_tests, lookup-insert k j v m)

pub insert-NodupKeys : (k v : Text) (m : Map) → NodupKeys m → NodupKeys (insert k v m)
insert-NodupKeys k v [] u = (refl, tt)
insert-NodupKeys k v ((j, w) ∷ m) u =
    ground
      (arith, text_eq_iff j k, text_eq_iff k j, lookup-insert k j v m, insert-NodupKeys k v m u.1)

pub lookup-erase :
    (k j : Text) (m : Map) → lookup j (erase k m) ≡ (if text_eq k j then none else lookup j m)
lookup-erase k j [] = ground arith
lookup-erase k j ((i, w) ∷ m) = grind (text_tests, lookup-erase k j m)
