-- ===== src/Strings/Replace.antt =====
-- `replace` ends unless `from` is empty, and replaces the occurrences from left to right.
use libsarus.Base.{
  append_laws, ℕ, zero, suc, ◌+◌, ◌≤◌, ◌<◌, Text, false, [], ◌∷◌, ◌++◌, length, take, drop,
  length-append, length-take, drop-append, take-append, is_prefix, is_prefix_iff, none, some, ◌≡◌,
  ◌≢◌, refl, sym, ap, ◌∙◌, arith, Bool-cases, Option-cases, inl, inr,
}
use libsarus.Strings.{shifted, find_first, find, replace_at, replace_loop, replace}

-- `from` stands nowhere in `s`.
abbrev pub Absent : Text → Text → Type 0
Absent from s = (x y : Text) → s ≢ x ++ (from ++ y)

-- `t` is `s` with each occurrence of `from` replaced by `to`, leftmost occurrences first, and
-- occurrences that only the inserted text would make left alone.
pub data Replaced (from to : Text) : Text → Text → Type 0 where
  done : {s : Text} → Absent from s → Replaced from to s s
  next :
      {s t : Text} (a b : Text)
      → s ≡ a ++ (from ++ b)
      → ((x y : Text) → s ≡ x ++ (from ++ y) → length a ≤ length x)
      → Replaced from to b t
      → Replaced from to s (a ++ (to ++ t))

find_first-none : (s from : Text) → find_first s from ≡ none → Absent from s
unfolding find_first
find_first-none [] [] h x y e = ground arith
find_first-none [] (f ∷ from) h [] y e = ground arith
find_first-none [] (f ∷ from) h (c ∷ x) y e = ground arith
find_first-none (c ∷ s) from h [] y e = ground (arith, (is_prefix_iff from (c ∷ s)).1 (y, e))
find_first-none (c ∷ s) from h (d ∷ x) y e =
    let deeper : find_first s from ≡ none = ground arith in
    find_first-none s from deeper x y (ground arith)

-- The position found splits the text, and no occurrence stands further left.
pub record IsFirst (s from : Text) (p : ℕ) : Type 0 where
  pub left : Text
  pub right : Text
  pub splits : s ≡ left ++ (from ++ right)
  pub position : length left ≡ p
  pub leftmost : (x y : Text) → s ≡ x ++ (from ++ y) → p ≤ length x

find_first-some : (s from : Text) {p : ℕ} → find_first s from ≡ some p → IsFirst s from p
unfolding find_first
find_first-some [] [] {p} h = record {
  left = [];
  right = [];
  splits = refl;
  position = ground arith;
  leftmost = λ x y e. ground arith;
}
find_first-some [] (f ∷ from) h = absurd (ground arith)
find_first-some (c ∷ s) from {p} h = elim (Bool-cases (is_prefix from (c ∷ s))) [
  | inl here ↦
      let (rest, e) = (is_prefix_iff from (c ∷ s)).0 here in
      record {
        left = [];
        right = rest;
        splits = e;
        position = ground arith;
        leftmost = λ x y e'. ground arith;
      }
  | inr other ↦ elim (Option-cases (find_first s from)) [
    | inl nothing ↦ absurd (ground arith)
    | inr (q, found) ↦
        let at : p ≡ 1 + q = ground arith in
        let deeper = find_first-some s from found in
        record {
          left = c ∷ deeper.left;
          right = deeper.right;
          splits = ap (◌∷◌ c) deeper.splits;
          position = omega (arith, deeper.position);
          leftmost = later c s from p q at other deeper.leftmost;
        }
  ]
]
  where
    later :
        (c : ℕ) (s from : Text) (p q : ℕ)
        → p ≡ 1 + q
        → is_prefix from (c ∷ s) ≡ false
        → ((x y : Text) → s ≡ x ++ (from ++ y) → q ≤ length x)
        → (x y : Text) → c ∷ s ≡ x ++ (from ++ y)
        → p ≤ length x
    later c s from p q at other ih [] y e = ground (arith, (is_prefix_iff from (c ∷ s)).1 (y, e))
    later c s from p q at other ih (d ∷ x) y e = ground (arith, ih x y)

-- Looking behind `pre` is looking in what follows it.
find-append :
    (pre rest from : Text)
    → find (pre ++ rest) from (length pre) ≡ shifted (length pre) (find_first rest from)
unfolding find
find-append pre rest from = ground (arith, length-append pre rest, drop-append pre rest)

replace_at-append :
    (pre a from b to : Text)
    → replace_at (pre ++ (a ++ (from ++ b))) (length pre + length a) (length from) to
      ≡ (pre ++ (a ++ to)) ++ b
replace_at-append pre a from b to =
    let grouped : pre ++ (a ++ (from ++ b)) ≡ (pre ++ a) ++ (from ++ b) = simp append_laws in
    let whole : pre ++ (a ++ (from ++ b)) ≡ (pre ++ (a ++ from)) ++ b = simp append_laws in
    let here : length pre + length a ≡ length (pre ++ a) = sym (length-append pre a) in
    let behind : length pre + length a + length from ≡ length (pre ++ (a ++ from)) =
      omega (arith, length-append pre (a ++ from), length-append a from) in
    let front : take (length pre + length a) (pre ++ (a ++ (from ++ b))) ≡ pre ++ a =
      rw (grouped, here) (take-append (pre ++ a) (from ++ b)) in
    let tail : drop (length pre + length a + length from) (pre ++ (a ++ (from ++ b))) ≡ b =
      rw (whole, behind) (drop-append (pre ++ (a ++ from)) b) in
    rw (front, tail) (simp append_laws)

replace_at_found :
    (pre rest a from b to : Text) (p : ℕ)
    → rest ≡ a ++ (from ++ b)
    → length a ≡ p
    → replace_at (pre ++ rest) (length pre + p) (length from) to ≡ (pre ++ (a ++ to)) ++ b
replace_at_found pre rest a from b to p splits at =
    rw (splits, ← at) (replace_at-append pre a from b to)

module _ (fuel : ℕ) (buf from to : Text) (start : ℕ) where
  replace_loop_stop :
      find buf from start ≡ none → replace_loop (suc fuel) buf from to start ≡ some buf
  unfolding replace_loop
  replace_loop_stop e = rw (e, replace_loop)

  replace_loop_round :
      {p : ℕ}
      → find buf from start ≡ some p
      → replace_loop (suc fuel) buf from to start
        ≡ replace_loop fuel (replace_at buf p (length from) to) from to (p + length to)
  unfolding replace_loop
  replace_loop_round e = rw (e, replace_loop)

length-pos : (s : Text) → s ≢ [] → 0 < length s
length-pos [] ne = absurd (ne refl)
length-pos (c ∷ s) ne = omega arith

replace_loop-Replaced :
    (fuel : ℕ) (pre rest from to : Text)
    → from ≢ []
    → length rest < fuel
    → (t : Text) × (replace_loop fuel (pre ++ rest) from to (length pre) ≡ some (pre ++ t))
      × Replaced from to rest t
unfolding replace_loop
replace_loop-Replaced zero pre rest from to ne h = elim h [ ]
replace_loop-Replaced (suc fuel) pre rest from to ne h =
    elim (Option-cases (find_first rest from)) [
      | inl nothing ↦ (
        rest,
        replace_loop_stop fuel _ from to _ (rw (find-append pre rest from, nothing)),
        done (find_first-none rest from nothing),
      )
      | inr (p, found) ↦
          let first = find_first-some rest from found in
          let a = first.left in
          let b = first.right in
          let shorter : length b < fuel = omega (
            arith,
            ap length first.splits,
            length-append a (from ++ b),
            length-append from b,
            length-pos from ne,
          ) in
          let start : length pre + p + length to ≡ length (pre ++ (a ++ to)) =
            omega (arith, first.position, length-append pre (a ++ to), length-append a to) in
          let (t, runs, replaced) =
            replace_loop-Replaced fuel (pre ++ (a ++ to)) b from to ne shorter in
          let written : replace_at (pre ++ rest) (length pre + p) (length from) to
              ≡ (pre ++ (a ++ to)) ++ b =
            replace_at_found pre rest a from b to p first.splits first.position in
          (
            a ++ (to ++ t),
            replace_loop_round fuel _ from to _ {p = length pre + p}
                  (rw (find-append pre rest from, found))
                ∙ rw (written, start) (runs ∙ simp append_laws),
            next a b first.splits (λ x y e. rw first.position (first.leftmost x y e)) replaced,
          )
    ]

-- With a search text that is not empty and more fuel than the buffer has characters, `replace`
-- returns; the result is the buffer with the occurrences replaced from left to right.
pub replace-Replaced :
    (buf from to : Text) (fuel : ℕ)
    → from ≢ []
    → length buf < fuel
    → (t : Text) × (replace fuel buf from to ≡ some t) × Replaced from to buf t
unfolding replace
replace-Replaced buf from to fuel ne h = replace_loop-Replaced fuel [] buf from to ne h

find_first_empty : (s : Text) → find_first s [] ≡ some 0
unfolding find_first
find_first_empty [] = refl
find_first_empty (c ∷ s) = refl

find_empty : (buf : Text) (start : ℕ) → start ≤ length buf → find buf [] start ≡ some start
unfolding find
find_empty buf start h = ground (arith, find_first_empty (drop start buf))

replace_loop_empty :
    (fuel : ℕ) (buf to : Text) (start : ℕ)
    → start ≤ length buf
    → replace_loop fuel buf [] to start ≡ none
unfolding replace_loop
replace_loop_empty zero buf to start h = refl
replace_loop_empty (suc fuel) buf to start h =
    replace_loop_round fuel buf [] to start (find_empty buf start h)
    ∙ (replace_loop_empty fuel _ to (start + length to) (
        omega (
          arith,
          length-append (take start buf) (to ++ drop (start + 0) buf),
          length-append to (drop (start + 0) buf),
          length-take start buf,
        )))

-- With an empty search text the loop of `replace` never ends, whatever the buffer holds: no
-- amount of fuel is enough.
pub replace_empty : (buf to : Text) (fuel : ℕ) → replace fuel buf [] to ≡ none
unfolding replace
replace_empty buf to fuel = replace_loop_empty fuel buf to 0 (omega arith)
