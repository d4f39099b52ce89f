-- ===== src/SharedLibs/Endings.antt =====
-- `boost::ends_with`.
use libsarus.Base.{
  text_eq, text_eq_iff, text_eq_refl, Text, true, false, [], ◌∷◌, ◌++◌, Bool-cases, inl, inr, ◌≡◌,
  ◌≢◌, refl, ap, arith,
}
use libsarus.SharedLibs.{ends_with}

ends_with-append : (t p : Text) → ends_with (t ++ p) p ≡ true
unfolding ends_with
ends_with-append [] [] = refl
ends_with-append [] (c ∷ p) = rw (text_eq_refl (c ∷ p)) refl
ends_with-append (c ∷ t) p = ground (arith, ends_with-append t p)

ends_with-true : (s p : Text) → ends_with s p ≡ true → (t : Text) × (s ≡ t ++ p)
unfolding ends_with
ends_with-true [] [] h = ([], refl)
ends_with-true [] (c ∷ p) h = cc h
ends_with-true (c ∷ s) p h = elim (Bool-cases (text_eq (c ∷ s) p)) [
  | inl e ↦ ([], (text_eq_iff (c ∷ s) p).0 e)
  | inr e ↦ let (t, is) = ends_with-true s p (rw e at h) in (c ∷ t, ap (c ∷◌) is)
]

-- A text with another ending.
abbrev pub LacksEnding : Text → Text → Type 0
LacksEnding p s = (t : Text) → s ≢ t ++ p

pub ends_with-LacksEnding : (s p : Text) → ends_with s p ≡ false → LacksEnding p s
ends_with-LacksEnding s p h t is = cc (h, ap (λ x. ends_with x p) is, ends_with-append t p)

pub LacksEnding-ends_with : (s p : Text) → LacksEnding p s → ends_with s p ≡ false
LacksEnding-ends_with s p h = elim (Bool-cases (ends_with s p)) [
  | inl e ↦ let (t, is) = ends_with-true s p e in absurd (h t is)
  | inr e ↦ e
]
