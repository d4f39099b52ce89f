-- ===== src/Strings/Pairs.antt =====
-- `parseKeyValuePair` and `eraseFirstAndLastDoubleQuote` against what they cut off.
use libsarus.Base.{
  ℕ, suc, ◌-◌, Text, [], ◌∷◌, ◌++◌, length, take, drop, length-append, take-append, ◌≡◌, ◌≢◌, refl,
  ap, ◌↔◌, ◌⊎◌, inl, inr, arith,
}
use libsarus.Error.{ok}
use libsarus.Split.{Lacks}
use libsarus.Strings.{
  before, from_first, parse_key_value_pair, erase_first_and_last_double_quote, last_or,
}

-- `pair` spells the key and the value: with a separator, or as the key alone with no value.
abbrev pub IsPair : ℕ → Text → Text → Text → Type 0
IsPair sep pair key value =
    (key ≢ []) × Lacks sep key × ((pair ≡ key ++ (sep ∷ value)) ⊎ ((pair ≡ key) × (value ≡ [])))

before-Lacks : (sep : ℕ) (s : Text) → Lacks sep (before sep s)
before-Lacks sep [] = refl
before-Lacks sep (c ∷ s) = ground (arith, before-Lacks sep s)

from_first-cases :
    (sep : ℕ) (s : Text)
    → ((s ≡ before sep s ++ (sep ∷ drop 1 (from_first sep s)))
        × (from_first sep s ≡ sep ∷ drop 1 (from_first sep s)))
      ⊎ ((s ≡ before sep s) × (from_first sep s ≡ []))
from_first-cases sep [] = inr (refl, refl)
from_first-cases sep (c ∷ s) = ground (arith, from_first-cases sep s)

before-append : (sep : ℕ) (k v : Text) → Lacks sep k → before sep (k ++ (sep ∷ v)) ≡ k
before-append sep [] v h = ground arith
before-append sep (c ∷ k) v h = ground (arith, before-append sep k v)

from_first-append : (sep : ℕ) (k v : Text) → Lacks sep k → from_first sep (k ++ (sep ∷ v)) ≡ sep ∷ v
from_first-append sep [] v h = ground arith
from_first-append sep (c ∷ k) v h = ground (arith, from_first-append sep k v)

before_self : (sep : ℕ) (k : Text) → Lacks sep k → before sep k ≡ k
before_self sep [] h = refl
before_self sep (c ∷ k) h = ground (arith, before_self sep k)

pub from_first_iff : (sep : ℕ) (k : Text) → (from_first sep k ≡ []) ↔ Lacks sep k
from_first_iff sep [] = ground arith
from_first_iff sep (c ∷ k) = ground (arith, from_first_iff sep k)

pub parse_key_value_pair-Lacks :
    (pair : Text) (sep : ℕ) {key value : Text}
    → parse_key_value_pair pair sep ≡ ok (key, value)
    → IsPair sep pair key value
unfolding parse_key_value_pair
parse_key_value_pair-Lacks pair sep {key} {value} h = elim (from_first-cases sep pair) [
  | inl (e, f) ↦ (ground arith, ground (arith, before-Lacks sep pair), inl (ground arith))
  | inr (e, f) ↦
      (ground arith, ground (arith, before-Lacks sep pair), inr (ground arith, ground arith))
]

IsPair-parse :
    (pair : Text) (sep : ℕ) (key value : Text)
    → IsPair sep pair key value
    → parse_key_value_pair pair sep ≡ ok (key, value)
unfolding parse_key_value_pair
IsPair-parse pair sep [] value (ne, lacks, spelled) = absurd (ne refl)
IsPair-parse pair sep (c ∷ key) value (ne, lacks, inl e) =
    rw (e, before-append sep (c ∷ key) value lacks, from_first-append sep (c ∷ key) value lacks)
IsPair-parse pair sep (c ∷ key) value (ne, lacks, inr (e, f)) =
    rw (e, f, before_self sep (c ∷ key) lacks, (from_first_iff sep (c ∷ key)).1 lacks)

-- `parseKeyValuePair` returns exactly the pairs that the text spells: a key that is not empty and
-- lacks the separator, then the separator and any value, or the key alone with the empty value.
pub parse_key_value_pair-IsPair :
    (pair : Text) (sep : ℕ) (key value : Text)
    → (parse_key_value_pair pair sep ≡ ok (key, value)) ↔ IsPair sep pair key value
parse_key_value_pair-IsPair pair sep key value =
    (parse_key_value_pair-Lacks pair sep, IsPair-parse pair sep key value)

last_or-append : (d c : ℕ) (s : Text) → last_or d (s ++ (c ∷ [])) ≡ c
last_or-append d c [] = refl
last_or-append d c (x ∷ s) = last_or-append x c s

split_last : (d x : ℕ) (s : Text) → x ∷ s ≡ take (length s) (x ∷ s) ++ (last_or d (x ∷ s) ∷ [])
split_last d x [] = refl
split_last d x (y ∷ s) = ap (◌∷◌ x) (split_last x y s)

take_init : (n : ℕ) (s : Text) (c : ℕ) → n ≡ length s → take n (s ++ (c ∷ [])) ≡ s
take_init n s c e = rw e (take-append s (c ∷ []))

erase_quotes_sound :
    (s inner : Text)
    → erase_first_and_last_double_quote s ≡ ok inner
    → s ≡ b'"' ∷ (inner ++ (b'"' ∷ []))
unfolding erase_first_and_last_double_quote
erase_quotes_sound [] inner h = ground arith
erase_quotes_sound (x ∷ []) inner h = ground arith
erase_quotes_sound (x ∷ y ∷ s) inner h =
    let size : suc (suc (length s)) - 2 ≡ length s = omega arith in
    ground (arith, split_last x y s, size)

erase_quotes_complete :
    (inner : Text) → erase_first_and_last_double_quote (b'"' ∷ (inner ++ (b'"' ∷ []))) ≡ ok inner
unfolding erase_first_and_last_double_quote
erase_quotes_complete inner =
    let size = length-append inner (b'"' ∷ []) in
    let inner_size : suc (length (inner ++ (b'"' ∷ []))) - 2 ≡ length inner = omega (arith, size) in
    ground (
      arith,
      size,
      last_or-append b'"' b'"' inner,
      take_init (suc (length (inner ++ (b'"' ∷ []))) - 2) inner b'"' inner_size,
    )

-- `eraseFirstAndLastDoubleQuote` returns `inner` exactly on the text that is `inner` between two
-- double quotes.
pub erase_quotes_iff :
    (s inner : Text)
    → (erase_first_and_last_double_quote s ≡ ok inner) ↔ (s ≡ b'"' ∷ (inner ++ (b'"' ∷ [])))
erase_quotes_iff s inner = (erase_quotes_sound s inner, λ e. rw e (erase_quotes_complete inner))
