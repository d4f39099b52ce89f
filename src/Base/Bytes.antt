-- ===== src/Base/Bytes.antt =====
-- Texts are lists of bytes (`std::string`); literals are read through their code points.
use Prim.Native.Char.{code}
use Prim.Native.Nat.{ℕ, ◌+◌}
use Prim.Native.String.{String}
use mathlib.Core.Path.{◌≡◌, refl}
use mathlib.Core.Logic.{◌↔◌, ◌≢◌}
use mathlib.Core.Bool.{Bool, true, false, ◌&&◌}
use mathlib.Core.List.{List, [], ◌∷◌, ◌++◌, cons-ne-nil}
use native.Mathlib.Omega.{arith}
use libsarus.Base.Tests.{◌==◌, if◌then◌else◌}

abbrev pub Text : Type 0
Text = List ℕ

-- The code points of a literal: its bytes, if it is ASCII.
abbrev pub codes : String → Text
codes String.[] = []
codes (String.◌∷◌ c s) = code c ∷ codes s

-- `a == b` on `std::string`.
abbrev pub text_eq : Text → Text → Bool
text_eq [] [] = true
text_eq (x ∷ xs) (y ∷ ys) = x == y && text_eq xs ys
text_eq _ _ = false

pub text_eq_iff : (a b : Text) → (text_eq a b ≡ true) ↔ (a ≡ b)
text_eq_iff (x ∷ a) (y ∷ b) = ground (arith, text_eq_iff a b)
text_eq_iff _ _ = ground arith

pub text_eq_refl : (a : Text) → text_eq a a ≡ true
text_eq_refl a = (text_eq_iff a a).1 refl

pub text_eq_ne : (a b : Text) → a ≢ b → text_eq a b ≡ false
text_eq_ne a b ne = ground (arith, text_eq_iff a b)

-- For goals that branch on a comparison of texts.
pub ruleset text_tests = (arith, text_eq_iff)

-- `s.empty()`.
abbrev pub is_empty {ℓ} : {A : Type ℓ} → List A → Bool
is_empty [] = true
is_empty (x ∷ xs) = false

pub is_empty_iff {ℓ} : {A : Type ℓ} (xs : List A) → (is_empty xs ≡ false) ↔ (xs ≢ [])
is_empty_iff [] = (λ h e. cc, λ h. absurd (h refl))
is_empty_iff (x ∷ xs) = (λ h. cons-ne-nil x xs, λ h. refl)

-- How often a byte stands in a text.
abbrev pub count : ℕ → Text → ℕ
count b [] = 0
count b (c ∷ cs) = (if c == b then 1 else 0) + count b cs

pub count-append : (b : ℕ) (s t : Text) → count b (s ++ t) ≡ count b s + count b t
count-append b [] t = omega arith
count-append b (c ∷ s) t = omega (arith, count-append b s t)

-- What a C string holds of a text: the characters before the first null.
abbrev pub c_str : Text → Text
c_str [] = []
c_str (c ∷ s) = let rest = c_str s in if c == 0 then [] else c ∷ rest

-- A C string holds no null character.
abbrev pub IsCString : Text → Type 0
IsCString s = count 0 s ≡ 0

pub c_str-IsCString : (s : Text) → IsCString (c_str s)
c_str-IsCString [] = refl
c_str-IsCString (c ∷ s) = ground (arith, c_str-IsCString s)

pub c_str_self : (s : Text) → IsCString s → c_str s ≡ s
c_str_self [] h = refl
c_str_self (c ∷ s) h = ground (arith, c_str_self s)

-- `s.find(p) == 0`, and `boost::starts_with(s, p)` where the source calls that.
abbrev pub is_prefix : Text → Text → Bool
is_prefix [] s = true
is_prefix (x ∷ p) [] = false
is_prefix (x ∷ p) (y ∷ s) = x == y && is_prefix p s

pub is_prefix_iff : (p s : Text) → (is_prefix p s ≡ true) ↔ ((rest : Text) × (s ≡ p ++ rest))
is_prefix_iff [] s = (λ h. (s, refl), λ h. refl)
is_prefix_iff (x ∷ p) [] = (λ h. ground arith, λ (r, e). ground arith)
is_prefix_iff (x ∷ p) (y ∷ s) = (
  (λ h. let (r, e) = (is_prefix_iff p s).0 (ground arith) in (r, ground arith)),
  λ (r, e). ground (arith, (is_prefix_iff p s).1 (r, ground arith)),
)
