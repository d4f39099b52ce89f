-- ===== src/Split/Tokens.antt =====
-- The laws determine the tokens.
use mathlib.Core.List.{cons-ne-nil}
use libsarus.Base.{
  ℕ, Text, false, List, [], ◌∷◌, ◌++◌, All, count, count-append, ◌≡◌, ◌≢◌, ◌==◌, arith, refl, ap,
  sym, Bool-cases, inl, inr,
}
use libsarus.Split.{join, Lacks, IsSplit, split_on, onto_first}

-- A text without the separator ends where the separator first stands.
pub first_part :
    (sep : ℕ) (t u x y : Text)
    → Lacks sep t
    → Lacks sep u
    → t ++ (sep ∷ x) ≡ u ++ (sep ∷ y)
    → (t ≡ u) × (x ≡ y)
first_part sep [] [] x y ht hu e = ground arith
first_part sep [] (b ∷ u) x y ht hu e = ground arith
first_part sep (a ∷ t) [] x y ht hu e = ground arith
first_part sep (a ∷ t) (b ∷ u) x y ht hu e = ground (arith, first_part sep t u x y)

pub Lacks-ne : (sep : ℕ) (t u x : Text) → Lacks sep t → t ≢ u ++ (sep ∷ x)
Lacks-ne sep t u x ht e =
    let counted : count sep t ≡ count sep (u ++ (sep ∷ x)) = ap (count sep) e in
    ground (arith, count-append sep u (sep ∷ x))

-- Texts without the separator are determined by their join, if there is at least one.
pub join-injective :
    (sep : ℕ) (ts us : List Text)
    → ts ≢ []
    → us ≢ []
    → All (Lacks sep) ts
    → All (Lacks sep) us
    → join sep ts ≡ join sep us
    → ts ≡ us
join-injective sep [] us nt nu ht hu e = absurd (nt refl)
join-injective sep (t ∷ ts) [] nt nu ht hu e = absurd (nu refl)
join-injective sep (t ∷ []) (u ∷ []) nt nu ht hu e = ground arith
join-injective sep (t ∷ []) (u ∷ u' ∷ us) nt nu ht hu e =
    absurd (Lacks-ne sep t u (join sep (u' ∷ us)) ht.0 e)
join-injective sep (t ∷ t' ∷ ts) (u ∷ []) nt nu ht hu e =
    absurd (Lacks-ne sep u t (join sep (t' ∷ ts)) hu.0 (sym e))
join-injective sep (t ∷ t' ∷ ts) (u ∷ u' ∷ us) nt nu ht hu e =
    let (same, rest) = first_part sep t u _ _ ht.0 hu.0 e in
    ground (
      arith,
      join-injective sep (t' ∷ ts) (u' ∷ us) (cons-ne-nil t' ts) (cons-ne-nil u' us) ht.1 hu.1 rest,
    )

module _ (split : ℕ → Text → List Text) (h : IsSplit split) where
  pub split-join :
      (sep : ℕ) (ts : List Text) → ts ≢ [] → All (Lacks sep) ts → split sep (join sep ts) ≡ ts
  split-join sep ts ne lacks =
      join-injective sep _ ts (h.some_token sep _) ne (h.no_separator sep _) lacks (h.joins sep _)

  pub split-Lacks : (sep : ℕ) (s : Text) → Lacks sep s → split sep s ≡ s ∷ []
  split-Lacks sep s l = split-join sep (s ∷ []) (cons-ne-nil s []) (l, tt)

onto_first-ne-nil : (c : ℕ) (ts : List Text) → onto_first c ts ≢ []
onto_first-ne-nil c [] = cons-ne-nil _ []
onto_first-ne-nil c (t ∷ ts) = cons-ne-nil _ ts

join-nil : (sep : ℕ) (ts : List Text) → ts ≢ [] → join sep ([] ∷ ts) ≡ sep ∷ join sep ts
join-nil sep [] ne = absurd (ne refl)
join-nil sep (t ∷ ts) ne = refl

join-onto_first : (sep c : ℕ) (ts : List Text) → join sep (onto_first c ts) ≡ c ∷ join sep ts
join-onto_first sep c [] = refl
join-onto_first sep c (t ∷ []) = refl
join-onto_first sep c (t ∷ t2 ∷ ts) = refl

onto_first-Lacks :
    (sep c : ℕ) (ts : List Text)
    → (c == sep) ≡ false
    → All (Lacks sep) ts
    → All (Lacks sep) (onto_first c ts)
onto_first-Lacks sep c [] ne h = ground arith
onto_first-Lacks sep c (t ∷ ts) ne h = ground arith

split_on-ne-nil : (sep : ℕ) (s : Text) → split_on sep s ≢ []
unfolding split_on
split_on-ne-nil sep [] = cons-ne-nil [] []
split_on-ne-nil sep (c ∷ s) = elim (Bool-cases (c == sep)) [
  | inl e ↦ rw e (cons-ne-nil [] _)
  | inr e ↦ rw e (onto_first-ne-nil c (split_on sep s))
]

split_on-joins : (sep : ℕ) (s : Text) → join sep (split_on sep s) ≡ s
unfolding split_on
split_on-joins sep [] = refl
split_on-joins sep (c ∷ s) = ground (
  arith,
  split_on-joins sep s,
  join-nil sep (split_on sep s) (split_on-ne-nil sep s),
  join-onto_first sep c (split_on sep s),
)

split_on-Lacks : (sep : ℕ) (s : Text) → All (Lacks sep) (split_on sep s)
unfolding split_on
split_on-Lacks sep [] = (refl, tt)
split_on-Lacks sep (c ∷ s) = elim (Bool-cases (c == sep)) [
  | inl e ↦ rw e (refl, split_on-Lacks sep s)
  | inr e ↦ rw e (onto_first-Lacks sep c _ e (split_on-Lacks sep s))
]

pub split_on-IsSplit : IsSplit split_on
split_on-IsSplit = record {
  joins = split_on-joins;
  some_token = split_on-ne-nil;
  no_separator = split_on-Lacks;
}
