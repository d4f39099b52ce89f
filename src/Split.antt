-- ===== src/Split.antt =====
-- `boost::split(tokens, s, boost::is_any_of(<one character>))`, which the library calls and does not
-- implement: a function `split sep s` with the laws below. Its users take it as a parameter.
pub mod Tokens
use libsarus.Base.{
  ℕ, ◌+◌, Text, Bool, true, false, List, [], ◌∷◌, ◌++◌, All, count, ◌≡◌, ◌≢◌, ◌==◌, if◌then◌else◌,
}

-- The tokens with the separator between each two of them.
abbrev pub join : ℕ → List Text → Text
join sep [] = []
join sep (t ∷ []) = t
join sep (t ∷ ts) = t ++ (sep ∷ join sep ts)

abbrev pub Lacks : ℕ → Text → Type 0
Lacks sep t = count sep t ≡ 0

-- What the documentation of `boost::split` says of one separator without token compression: each
-- occurrence of the separator ends a token, and there is one token more than there are separators.
pub record IsSplit (split : ℕ → Text → List Text) : Type 0 where
  pub joins : (sep : ℕ) (s : Text) → join sep (split sep s) ≡ s
  pub some_token : (sep : ℕ) (s : Text) → split sep s ≢ []
  pub no_separator : (sep : ℕ) (s : Text) → All (Lacks sep) (split sep s)

abbrev onto_first : ℕ → List Text → List Text
onto_first c [] = (c ∷ []) ∷ []
onto_first c (t ∷ ts) = (c ∷ t) ∷ ts

-- A function that has the laws, for the examples.
unfoldable pub split_on : ℕ → Text → List Text
split_on sep [] = [] ∷ []
split_on sep (c ∷ s) =
    let rest = split_on sep s in if c == sep then [] ∷ rest else onto_first c rest
