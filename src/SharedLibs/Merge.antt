-- ===== src/SharedLibs/Merge.antt =====
-- Two versions: beginnings, and what `resolveAbi` makes of a version found before and a new one.
use libsarus.Base.{
  suc, ◌<◌, Text, text_eq_iff, Bool, true, false, List, [], ◌∷◌, ◌++◌, length, length-append, ltb,
  if◌then◌else◌, Bool-cases, inl, inr, ◌≡◌, ◌⊎◌, ◌↔◌, refl, sym, ap, ◌∙◌, arith, append_assoc,
  append-nil,
}
use mathlib.Core.List.{cons-ne-nil}
use libsarus.SharedLibs.{equal_beginning, merge_abi}

abbrev pub IsBeginning : List Text → List Text → Type 0
IsBeginning xs ys = (rest : List Text) × (ys ≡ xs ++ rest)

-- Neither version begins with the other.
abbrev pub IsIncompatible : List Text → List Text → Type 0
IsIncompatible xs ys = ¬ IsBeginning xs ys × ¬ IsBeginning ys xs

pub IsBeginning-trans :
    (xs ys zs : List Text) → IsBeginning xs ys → IsBeginning ys zs → IsBeginning xs zs
IsBeginning-trans xs ys zs (r, e) (t, k) = (r ++ t, k ∙ (ap (◌++ t) e ∙ append_assoc xs r t))

-- Two beginnings of one list.
IsBeginning-total :
    (xs ys zs : List Text)
    → IsBeginning xs zs
    → IsBeginning ys zs
    → IsBeginning xs ys ⊎ IsBeginning ys xs
IsBeginning-total [] ys zs h k = inl (ys, refl)
IsBeginning-total (x ∷ xs) [] zs h k = inr (x ∷ xs, refl)
IsBeginning-total (x ∷ xs) (y ∷ ys) [] (r, e) k = ground arith
IsBeginning-total (x ∷ xs) (y ∷ ys) (z ∷ zs) (r, e) (t, k) =
    elim (IsBeginning-total xs ys zs (r, ground arith) (t, ground arith)) [
      | inl (m, i) ↦ inl (m, ground arith)
      | inr (m, i) ↦ inr (m, ground arith)
    ]

equal_beginning_iff : (xs ys : List Text) → (equal_beginning xs ys ≡ true) ↔ IsBeginning xs ys
unfolding equal_beginning
equal_beginning_iff [] ys = (λ h. (ys, refl), λ h. refl)
equal_beginning_iff (x ∷ xs) [] = (λ h. cc h, λ (r, e). absurd (cons-ne-nil _ _ (sym e)))
equal_beginning_iff (x ∷ xs) (y ∷ ys) = (
  (λ h.
      let (r, e) = (equal_beginning_iff xs ys).0 (ground arith) in
      let same : x ≡ y = (text_eq_iff x y).0 (ground arith) in (r, ground arith)),
  λ (r, e).
      let rest = (equal_beginning_iff xs ys).1 (r, ground arith) in
      let same = (text_eq_iff x y).1 (ground arith) in ground arith,
)

IsBeginning-length : (xs ys : List Text) → IsBeginning xs ys → length ys < suc (length xs) → ys ≡ xs
IsBeginning-length xs ys ([], e) h = e ∙ append-nil xs
IsBeginning-length xs ys (r ∷ rs, e) h =
    absurd (omega (arith, ap length e, length-append xs (r ∷ rs), h))

-- For a first version that is not longer.
compare_versions :
    (xs ys : List Text)
    → length xs < suc (length ys)
    → ((equal_beginning xs ys ≡ true) × IsBeginning xs ys)
      ⊎ ((equal_beginning xs ys ≡ false) × IsIncompatible xs ys)
compare_versions xs ys h = elim (Bool-cases (equal_beginning xs ys)) [
  | inl e ↦ inl (e, (equal_beginning_iff xs ys).0 e)
  | inr e ↦
      let apart : ¬ IsBeginning xs ys = λ b. cc (e, (equal_beginning_iff xs ys).1 b) in
      inr (e, (apart, λ b. apart ([], sym (IsBeginning-length ys xs b h) ∙ sym (append-nil xs))))
]

-- What comes of two versions.
pub record IsMerge (abi so_far merged : List Text) : Type 0 where
  pub extends : IsBeginning so_far merged
  pub chosen : (merged ≡ so_far) ⊎ (merged ≡ abi)
  pub compatible : IsBeginning abi merged ⊎ IsIncompatible abi merged

IsMerge-kept :
    (abi so_far merged : List Text)
    → merged ≡ so_far
    → IsBeginning abi so_far ⊎ IsIncompatible abi so_far
    → IsMerge abi so_far merged
IsMerge-kept abi so_far merged e h = record {
  extends = ([], e ∙ sym (append-nil so_far));
  chosen = inl e;
  compatible = rw e h;
}

same_branches {ℓ} : {A : Type ℓ} (b : Bool) (x : A) → (if b then x else x) ≡ x
same_branches true x = refl
same_branches false x = refl

pub merge_abi-IsMerge : (abi so_far : List Text) → IsMerge abi so_far (merge_abi abi so_far)
unfolding merge_abi
merge_abi-IsMerge abi so_far = elim (Bool-cases (ltb (length so_far) (length abi))) [
  | inl long ↦
      let short : ltb (length abi) (length so_far) ≡ false = ground arith in
      elim (compare_versions so_far abi (ground arith)) [
        | inl (e, b) ↦ record {
          extends = rw (long, short, e) b;
          chosen = inr (rw (long, short, e) refl);
          compatible = inl ([], rw (long, short, e) (sym (append-nil abi)));
        }
        | inr (e, (apart, apart')) ↦
            IsMerge-kept abi so_far _ (rw (long, short, e) refl) (inr (apart', apart))
      ]
  | inr e ↦
      IsMerge-kept abi so_far _ (rw e (same_branches _ so_far))
        (elim (compare_versions abi so_far (ground arith)) [
          | inl (_, b) ↦ inl b
          | inr (_, apart) ↦ inr apart
        ])
]

-- What is not compatible with a version is not compatible with what extends it.
pub IsIncompatible-extends :
    (v m r : List Text) → IsIncompatible v m → IsBeginning m r → IsIncompatible v r
IsIncompatible-extends v m r (apart, apart') b = (
  (λ h. elim (IsBeginning-total v m r h b) [ inl x ↦ apart x | inr y ↦ apart' y ]),
  λ h. apart' (IsBeginning-trans m r v b h),
)

-- The first version is the beginning of what follows.
pub merge_abi-nil : (v : List Text) → IsBeginning v (merge_abi v [])
merge_abi-nil v =
    let m = merge_abi-IsMerge v [] in
    elim m.compatible [
      | inl b ↦ b
      | inr (apart, apart') ↦ elim m.chosen [
        | inl e ↦ absurd (apart' (v, rw e refl))
        | inr e ↦ ([], e ∙ sym (append-nil v))
      ]
    ]
