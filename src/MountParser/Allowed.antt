-- ===== src/MountParser/Allowed.antt =====
-- The paths that the validation settings allow, and the loops that test for them.
use mathlib.Core.List.{cons-ne-nil}
use libsarus.Base.{
  sym, Text, text_eq, text_eq_iff, is_prefix, is_prefix_iff, Bool, true, false, List, [], ◌∷◌, ◌++◌,
  All, All-map, if◌then◌else◌, ◌≡◌, ◌≢◌, ◌↔◌, refl, arith, Bool-cases, inl, inr, is_empty,
}
use libsarus.Error.{Exception, Result, ok, throws, ◌>>=◌}
use libsarus.Error.Trace.{>>=-eq-ok, ok-injective}
use libsarus.MountParser.{check_each}

-- A path that is not empty, absolute, outside each disallowed prefix and not itself disallowed.
pub record IsAllowed (is_relative : Text → Bool) (prefixes exact : List Text) (path : Text)
    : Type 0 where
  pub path_ne_nil : path ≢ []
  pub is_absolute : is_relative path ≡ false
  pub outside : All (λ prefix. (rest : Text) → path ≢ prefix ++ rest) prefixes
  pub not_listed : All (λ listed. path ≢ listed) exact

pub data Throws {ℓ} {A : Type ℓ} : Result A → Type ℓ where
  thrown : (e : Exception) → Throws (throws e)

pub ok_not_thrown {ℓ} : {A : Type ℓ} {r : Result A} {a : A} → Throws r → r ≢ ok a
ok_not_thrown (thrown e) h = cc

module _ {ℓ} {A : Type ℓ} (test : A → Bool) (fail : A → Result (Unit {0})) where
  check_each-All :
      (xs : List A)
      → ((x : A) → Throws (fail x))
      → check_each test fail xs ≡ ok tt
      → All (λ x. test x ≡ false) xs
  unfolding check_each
  check_each-All [] f h = tt
  check_each-All (x ∷ xs) f h = elim (Bool-cases (test x)) [
    | inl e ↦ absurd (ok_not_thrown (f x) (rw (e, check_each) at h))
    | inr e ↦ (e, check_each-All xs f (rw (e, check_each) at h))
  ]

  All-check_each : (xs : List A) → All (λ x. test x ≡ false) xs → check_each test fail xs ≡ ok tt
  unfolding check_each
  All-check_each [] h = refl
  All-check_each (x ∷ xs) h = rw h.0 (All-check_each xs h.1)

  pub check_each_iff :
      (xs : List A)
      → ((x : A) → Throws (fail x))
      → (check_each test fail xs ≡ ok tt) ↔ All (λ x. test x ≡ false) xs
  check_each_iff xs f = (check_each-All xs f, All-check_each xs)

not_true : (b : Bool) → b ≢ true → b ≡ false
not_true true h = absurd (h refl)
not_true false h = refl

outside_iff :
    (path prefix : Text) → (is_prefix prefix path ≡ false) ↔ ((rest : Text) → path ≢ prefix ++ rest)
outside_iff path prefix = (
  (λ h rest e. ground (arith, (is_prefix_iff prefix path).1 (rest, e))),
  λ h.
      not_true (is_prefix prefix path)
        (λ e. let (rest, spelled) = (is_prefix_iff prefix path).0 e in h rest spelled),
)

pub outside-All :
    (path : Text) (prefixes : List Text)
    → All (λ prefix. is_prefix prefix path ≡ false) prefixes
      ↔ All (λ prefix. (rest : Text) → path ≢ prefix ++ rest) prefixes
outside-All path prefixes = (
  All-map _ _ prefixes (λ prefix. (outside_iff path prefix).0),
  All-map _ _ prefixes (λ prefix. (outside_iff path prefix).1),
)

pub listed-All :
    (path : Text) (exact : List Text)
    → All (λ listed. text_eq path listed ≡ false) exact ↔ All (λ listed. path ≢ listed) exact
listed-All path exact = (
  All-map _ _ exact (λ listed h. ground (arith, text_eq_iff path listed)),
  All-map _ _ exact (λ listed h. ground (arith, text_eq_iff path listed)),
)

module _ (is_relative : Text → Bool) (prefixes exact : List Text) (empty relative : Result Text)
    (with_prefix equal : Text → Result (Unit {0})) where
  -- The shape that both validations have.
  abbrev pub validated : Text → Result Text
  validated s =
      if is_empty s
      then empty
      else if is_relative s
      then relative
      else (check_each (λ prefix. is_prefix prefix s) with_prefix prefixes >>= λ _.
          (check_each (λ path. text_eq s path) equal exact >>= λ _. ok s))

  validated-IsAllowed :
      (s s' : Text)
      → Throws empty
      → Throws relative
      → ((x : Text) → Throws (with_prefix x))
      → ((x : Text) → Throws (equal x))
      → validated s ≡ ok s'
      → (s' ≡ s) × IsAllowed is_relative prefixes exact s
  validated-IsAllowed [] s' te tr tp tx h = absurd (ok_not_thrown te h)
  validated-IsAllowed (c ∷ s) s' te tr tp tx h = elim (Bool-cases (is_relative (c ∷ s))) [
    | inl e ↦ absurd (ok_not_thrown tr (rw e at h))
    | inr e ↦
        let (u, first, next) =
          >>=-eq-ok (check_each (λ prefix. is_prefix prefix (c ∷ s)) with_prefix prefixes)
            (λ _. (check_each (λ path. text_eq (c ∷ s) path) equal exact >>= λ _. ok (c ∷ s)))
            (rw e at h) in
        let (v, second, last) =
          >>=-eq-ok (check_each (λ path. text_eq (c ∷ s) path) equal exact) (λ _. ok (c ∷ s))
            next in
        (
          sym (ok-injective last),
          record {
            path_ne_nil = cons-ne-nil c s;
            is_absolute = e;
            outside =
                (outside-All (c ∷ s) prefixes).0 (check_each-All _ with_prefix prefixes tp first);
            not_listed = (listed-All (c ∷ s) exact).0 (check_each-All _ equal exact tx second);
          },
        )
  ]

  IsAllowed-validated : (s : Text) → IsAllowed is_relative prefixes exact s → validated s ≡ ok s
  IsAllowed-validated [] a = absurd (a.path_ne_nil refl)
  IsAllowed-validated (c ∷ s) a = rw (
    a.is_absolute,
    All-check_each _ with_prefix prefixes ((outside-All (c ∷ s) prefixes).1 a.outside),
    All-check_each _ equal exact ((listed-All (c ∷ s) exact).1 a.not_listed),
  )

  pub validated_iff :
      (s s' : Text)
      → Throws empty
      → Throws relative
      → ((x : Text) → Throws (with_prefix x))
      → ((x : Text) → Throws (equal x))
      → (validated s ≡ ok s') ↔ ((s' ≡ s) × IsAllowed is_relative prefixes exact s)
  validated_iff s s' te tr tp tx =
      (validated-IsAllowed s s' te tr tp tx, λ (e, a). rw e (IsAllowed-validated s a))
