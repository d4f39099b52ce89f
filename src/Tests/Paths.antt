-- ===== src/Tests/Paths.antt =====
-- POSIX paths as texts, which have the laws of the interface, and resolutions inside a root.
use libsarus.Base.{
  ℕ, Text, text_eq, text_eq_iff, Bool, true, false, List, [], ◌∷◌, ◌++◌, count, is_empty, ltb, ◌==◌,
  if◌then◌else◌, Option, none, some, ◌≡◌, ◌≢◌, refl, sym, arith, Bool-cases, inl, inr,
}
use mathlib.Core.List.{cons-ne-nil}
use libsarus.Split.{split_on}
use libsarus.Filesystem.Paths.{PathOps, root, IsName, IsCanonical, at_root, below, IsPathOps}

abbrev parts : Text → List Text
parts s = if is_empty s then [] else split_on b'/' s

abbrev path_elements : Text → List Text
path_elements [] = []
path_elements (c ∷ s) = if c == b'/' then root ∷ parts s else parts (c ∷ s)

abbrev pub begins_with_slash : Text → Bool
begins_with_slash [] = false
begins_with_slash (c ∷ s) = c == b'/'

-- A separator is put between the paths, unless the first is the root or the second begins with one.
abbrev pub path_append : Text → Text → Text
path_append [] e = e
path_append (x ∷ c) e =
    if begins_with_slash e
    then (x ∷ c) ++ e
    else if text_eq (x ∷ c) root
    then b'/' ∷ e
    else (x ∷ c) ++ (b'/' ∷ e)

-- What stands before the last slash.
abbrev before_last : Text → Option Text
before_last [] = none
before_last (c ∷ s) = elim (before_last s) [
  | some t ↦ some (c ∷ t)
  | none ↦ if c == b'/' then some [] else none
]

abbrev or_root : Option Text → Text
or_root none = []
or_root (some []) = root
or_root (some (c ∷ s)) = c ∷ s

abbrev pub ends_with : ℕ → Text → Bool
ends_with b [] = false
ends_with b (c ∷ []) = c == b
ends_with b (c ∷ d ∷ s) = ends_with b (d ∷ s)

abbrev without_last : Text → Text
without_last [] = []
without_last (c ∷ []) = []
without_last (c ∷ d ∷ s) = c ∷ without_last (d ∷ s)

abbrev strip : Text → Text
strip s = if ends_with b'/' s then without_last s else s

-- The texts in their order.
abbrev text_greater : Text → Text → Bool
text_greater [] t = false
text_greater (x ∷ s) [] = true
text_greater (x ∷ s) (y ∷ t) = if x == y then text_greater s t else ltb y x

abbrev name_of : Text → Text
name_of [] = []
name_of (c ∷ s) = let rest = name_of s in if c == b'/' then rest else c ∷ s

abbrev pub posix : PathOps
posix = record {
  elements = path_elements;
  append = path_append;
  parent_path = λ s. or_root (before_last s);
  remove_trailing_separator = strip;
  filename = name_of;
  is_absolute = begins_with_slash;
  greater = text_greater;
}

before_last_name : (e : Text) → count b'/' e ≡ 0 → before_last e ≡ none
before_last_name [] h = refl
before_last_name (c ∷ e) h = ground (arith, before_last_name e)

name_not_slash : (e : Text) → count b'/' e ≡ 0 → begins_with_slash e ≡ false
name_not_slash [] h = refl
name_not_slash (c ∷ e) h = ground arith

before_last-append : (c e : Text) → count b'/' e ≡ 0 → before_last (c ++ (b'/' ∷ e)) ≡ some c
before_last-append [] e h = rw (before_last_name e h) refl
before_last-append (x ∷ c) e h = rw (before_last-append c e h) refl

pub ends_with-append : (b : ℕ) (c e : Text) → ends_with b (c ++ (b'/' ∷ e)) ≡ ends_with b (b'/' ∷ e)
ends_with-append b [] e = refl
ends_with-append b (x ∷ []) e = refl
ends_with-append b (x ∷ y ∷ c) e = ends_with-append b (y ∷ c) e

ends_with_name : (x : ℕ) (e : Text) → e ≢ [] → count b'/' e ≡ 0 → ends_with b'/' (x ∷ e) ≡ false
ends_with_name x [] ne h = absurd (ne refl)
ends_with_name x (c ∷ []) ne h = ground arith
ends_with_name x (c ∷ d ∷ e) ne h = ends_with_name c (d ∷ e) (cons-ne-nil d e) (ground arith)

-- A path that begins with a slash, and what follows.
abbrev pub Begins : Text → Type 0
Begins c = (s : Text) × (c ≡ b'/' ∷ s)

pub path_append-Begins : (c e : Text) → Begins c → Begins (path_append c e)
path_append-Begins [] e (s, is) = absurd (cons-ne-nil _ s (sym is))
path_append-Begins (x ∷ c) e (s, is) = elim (Bool-cases (begins_with_slash e)) [
  | inl slash ↦ rw slash (c ++ e, ground arith)
  | inr name ↦ elim (Bool-cases (text_eq (x ∷ c) root)) [
    | inl here ↦ rw (name, here) (e, refl)
    | inr other ↦ rw (name, other) (c ++ (b'/' ∷ e), ground arith)
  ]
]

IsCanonical-Begins : {c : Text} → IsCanonical posix c → Begins c
IsCanonical-Begins at_root = ([], refl)
IsCanonical-Begins (below {c} e h n) = path_append-Begins c e (IsCanonical-Begins h)

or_root-Begins : (c : Text) → Begins c → or_root (some c) ≡ c
or_root-Begins [] (s, is) = absurd (cons-ne-nil _ s (sym is))
or_root-Begins (x ∷ c) b = refl

parent_of : (c e : Text) → Begins c → IsName e → or_root (before_last (strip (path_append c e))) ≡ c
parent_of [] e (s, is) n = absurd (cons-ne-nil _ s (sym is))
parent_of (x ∷ c) e b n = elim (Bool-cases (text_eq (x ∷ c) root)) [
  | inl here ↦
      rw
        (
          name_not_slash e n.no_slash,
          here,
          ends_with_name b'/' e n.name_ne_nil n.no_slash,
          before_last_name e n.no_slash,
        )
        (sym ((text_eq_iff (x ∷ c) root).0 here))
  | inr other ↦
      rw
        (
          name_not_slash e n.no_slash,
          other,
          ends_with-append b'/' (x ∷ c) e,
          ends_with_name b'/' e n.name_ne_nil n.no_slash,
          before_last-append (x ∷ c) e n.no_slash,
        )
        refl
]

greater_of : (c e : Text) → Begins c → IsName e → text_greater (path_append c e) root ≡ true
greater_of [] e (s, is) n = absurd (cons-ne-nil _ s (sym is))
greater_of (x ∷ []) [] b n = absurd (n.name_ne_nil refl)
greater_of (x ∷ []) (d ∷ e) (s, is) n = ground (arith, name_not_slash (d ∷ e) n.no_slash)
greater_of (x ∷ y ∷ c) e (s, is) n = ground (arith, name_not_slash e n.no_slash)

pub posix-IsPathOps : IsPathOps posix
posix-IsPathOps = record {
  parent-append = λ c e h n. parent_of c e (IsCanonical-Begins h) n;
  greater-append = λ c e h n. greater_of c e (IsCanonical-Begins h) n;
  greater-root = refl;
}
