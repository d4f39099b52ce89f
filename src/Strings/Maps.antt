-- ===== src/Strings/Maps.antt =====
-- `parseMap` against the pairs that its tokens spell.
use mathlib.Core.List.{cons-ne-nil}
use libsarus.Base.{
  append_laws, ℕ, Text, Map, lookup, insert, has, List, [], ◌∷◌, ◌++◌, All, count-append, none, ◌≡◌,
  ◌≢◌, refl, ◌∙◌, ◌↔◌, ◌⊎◌, inl, inr, arith, append-nil,
}
use libsarus.Error.{ok}
use libsarus.Error.Trace.{>>=-eq-ok, Result-cases}
use libsarus.Split.{Lacks, IsSplit, join}
use libsarus.Split.Tokens.{split-join}
use libsarus.Strings.{parse_key_value_pair, add_pair, parse_pairs, parse_map}
use libsarus.Strings.Pairs.{IsPair, parse_key_value_pair-IsPair, from_first_iff}

-- Each token spells the key and the value at its place, and no value holds the separator.
abbrev pub Spell : ℕ → List Text → Map → Type 0
Spell sep [] [] = Unit
Spell sep (t ∷ ts) ((k, v) ∷ m) = IsPair sep t k v × Lacks sep v × Spell sep ts m
Spell sep _ _ = ⊥

-- The keys of `m` are different from one another and from those of `old`.
abbrev pub Fresh : Map → Map → Type 0
Fresh old [] = Unit
Fresh old ((k, v) ∷ m) = (lookup k old ≡ none) × Fresh (old ++ ((k, v) ∷ [])) m

insert_fresh : (k v : Text) (m : Map) → lookup k m ≡ none → insert k v m ≡ m ++ ((k, v) ∷ [])
insert_fresh k v [] h = refl
insert_fresh k v ((j, w) ∷ m) h = ground (arith, insert_fresh k v m)

module _ (input : Text) (sep : ℕ) where
  add_pair-ok :
      (pair k v : Text) (old m : Map)
      → add_pair input pair sep k v old ≡ ok m
      → Lacks sep v × (lookup k old ≡ none) × (m ≡ old ++ ((k, v) ∷ []))
  unfolding add_pair
  add_pair-ok pair k v old m h = ground (arith, (from_first_iff sep v).0, insert_fresh k v old)

  add_pair_fresh :
      (pair k v : Text) (old : Map)
      → Lacks sep v
      → lookup k old ≡ none
      → add_pair input pair sep k v old ≡ ok (old ++ ((k, v) ∷ []))
  unfolding add_pair
  add_pair_fresh pair k v old lacks fresh =
      rw ((from_first_iff sep v).1 lacks, fresh, has, insert_fresh k v old fresh)

  parse_pairs_step :
      (t : Text) (ts : List Text) (old m : Map)
      → parse_pairs input sep (t ∷ ts) old ≡ ok m
      → (k v : Text) × (old' : Map) × (parse_key_value_pair t sep ≡ ok (k, v))
        × (add_pair input t sep k v old ≡ ok old')
        × (parse_pairs input sep ts old' ≡ ok m)
  unfolding parse_pairs
  parse_pairs_step t ts old m h = elim (Result-cases (parse_key_value_pair t sep)) [
    | inl ((k, v), parsed) ↦
        let ran = rw (parsed, parse_pairs) at h in
        let (old', added, rest) =
          >>=-eq-ok (add_pair input t sep k v old) (parse_pairs input sep ts) ran in
        (k, v, old', parsed, added, rest)
    | inr (e, failed) ↦ cc (rw (failed, parse_pairs) at h)
  ]

  parse_pairs-Spell :
      (ts : List Text) (old m : Map)
      → parse_pairs input sep ts old ≡ ok m
      → (new : Map) × (m ≡ old ++ new) × Spell sep ts new × Fresh old new
  unfolding parse_pairs
  parse_pairs-Spell [] old m h = ([], ground (arith, append-nil old), tt, tt)
  parse_pairs-Spell (t ∷ ts) old m h =
      let (k, v, old', parsed, added, rest) = parse_pairs_step t ts old m h in
      let (lacks, fresh, extended) = add_pair-ok t k v old old' added in
      let (new, e, spelled, new_fresh) = parse_pairs-Spell ts old' m rest in
      (
        (k, v) ∷ new,
        rw (e, extended) (simp append_laws),
        ((parse_key_value_pair-IsPair t sep k v).0 parsed, lacks, spelled),
        (fresh, rw extended at new_fresh),
      )

  Spell-parse_pairs :
      (ts : List Text) (old new : Map)
      → Spell sep ts new
      → Fresh old new
      → parse_pairs input sep ts old ≡ ok (old ++ new)
  unfolding parse_pairs
  Spell-parse_pairs [] old [] s f = simp append_laws
  Spell-parse_pairs [] old (p ∷ new) s f = absurd s
  Spell-parse_pairs (t ∷ ts) old [] s f = absurd s
  Spell-parse_pairs (t ∷ ts) old ((k, v) ∷ new) (pair, lacks, s) (fresh, f) =
      rw
        (
          (parse_key_value_pair-IsPair t sep k v).1 pair,
          parse_pairs,
          add_pair_fresh t k v old lacks fresh,
        )
        (Spell-parse_pairs ts (old ++ ((k, v) ∷ [])) new s f ∙ simp append_laws)

module _ (split : ℕ → Text → List Text) where
  -- `parseMap` returns `m` exactly when the input is empty and so is `m`, or each token of the
  -- input spells one entry of `m` in order, the values lack the key-value separator and no key
  -- repeats.
  pub parse_map-Spell :
      (input : Text) (pair_sep sep : ℕ) (m : Map)
      → (parse_map split input pair_sep sep ≡ ok m) ↔ (
          ((input ≡ []) × (m ≡ []))
          ⊎ ((input ≢ []) × Spell sep (split pair_sep input) m × Fresh [] m))
  unfolding parse_map
  parse_map-Spell [] pair_sep sep m = ground arith
  parse_map-Spell (c ∷ s) pair_sep sep m = (
    (λ h.
        let (new, e, spelled, fresh) = parse_pairs-Spell (c ∷ s) sep _ [] m h in
        inr (cons-ne-nil c s, rw e spelled, rw e fresh)),
    λ h. elim h [
      | inl (e, _) ↦ absurd (cons-ne-nil c s e)
      | inr (ne, spelled, fresh) ↦ Spell-parse_pairs (c ∷ s) sep _ [] m spelled fresh
    ],
  )

-- `key=value`, and the list of all entries.
abbrev pub entry : ℕ → Text × Text → Text
entry sep (k, v) = k ++ (sep ∷ v)

abbrev pub entries : ℕ → Map → List Text
entries sep [] = []
entries sep (p ∷ m) = entry sep p ∷ entries sep m

-- Keys are not empty, and neither separator stands in a key or a value.
abbrev pub IsClean : ℕ → ℕ → Text × Text → Type 0
IsClean pair_sep sep (k, v) =
    (k ≢ []) × Lacks sep k × Lacks sep v × Lacks pair_sep k × Lacks pair_sep v

module _ (pair_sep sep : ℕ) where
  entries-Spell : (m : Map) → All (IsClean pair_sep sep) m → Spell sep (entries sep m) m
  entries-Spell [] h = tt
  entries-Spell ((k, v) ∷ m) (c, h) = ((c.0, c.1, inl refl), c.2, entries-Spell m h)

  entry-Lacks :
      (k v : Text)
      → sep ≢ pair_sep
      → IsClean pair_sep sep (k, v)
      → Lacks pair_sep (entry sep (k, v))
  entry-Lacks k v ne c = ground (arith, count-append pair_sep k (sep ∷ v))

  entries-Lacks :
      (m : Map)
      → sep ≢ pair_sep
      → All (IsClean pair_sep sep) m
      → All (Lacks pair_sep) (entries sep m)
  entries-Lacks [] ne h = tt
  entries-Lacks ((k, v) ∷ m) ne (c, h) = (entry-Lacks k v ne c, entries-Lacks m ne h)

  join-entries-ne-nil :
      (m : Map) → m ≢ [] → All (IsClean pair_sep sep) m → join pair_sep (entries sep m) ≢ []
  join-entries-ne-nil [] ne h e = ne refl
  join-entries-ne-nil (([], v) ∷ m) ne (c, h) e = c.0 refl
  join-entries-ne-nil ((x ∷ k, v) ∷ []) ne (c, h) e = cons-ne-nil _ _ e
  join-entries-ne-nil ((x ∷ k, v) ∷ p ∷ m) ne (c, h) e = cons-ne-nil _ _ e

-- `parseMap` reads back every list of entries with different keys from its `key=value` form, for
-- any two different separators and a `boost::split` with its laws, if no key is empty and neither
-- separator stands in a key or a value.
pub parse_map-join :
    (split : ℕ → Text → List Text)
    → IsSplit split
    → (pair_sep sep : ℕ) (m : Map) → sep ≢ pair_sep
    → All (IsClean pair_sep sep) m
    → Fresh [] m
    → parse_map split (join pair_sep (entries sep m)) pair_sep sep ≡ ok m
parse_map-join split laws pair_sep sep [] ne clean fresh =
    (parse_map-Spell split [] pair_sep sep []).1 (inl (refl, refl))
parse_map-join split laws pair_sep sep (p ∷ m) ne clean fresh =
    let tokens =
      split-join split laws pair_sep (entries sep (p ∷ m)) (cons-ne-nil _ _)
        (entries-Lacks pair_sep sep (p ∷ m) ne clean) in
    (parse_map-Spell split _ pair_sep sep (p ∷ m)).1 (
      inr (
        join-entries-ne-nil pair_sep sep (p ∷ m) (cons-ne-nil p m) clean,
        rw tokens (entries-Spell pair_sep sep (p ∷ m) clean),
        fresh,
      ))
