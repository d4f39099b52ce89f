-- ===== src/Tests/Environs.antt =====
-- The environment of a process as a map, and lists of paths.
use libsarus.Base.{
  Bool, Bool-cases, inl, inr, not, ◌||◌, ◌==◌, count, c_str, Text, Map, lookup, insert,
  lookup-insert, codes, text_eq_refl, text_eq_ne, is_empty, true, false, List, [], ◌∷◌,
  if◌then◌else◌, some, ◌≡◌, ◌≢◌, ◌⊎◌, refl, sym, ◌∙◌,
}
use libsarus.Error.{ok}
use libsarus.Environment.Environ.{
  Environ, IsEnviron, default_path, get_variable, set_variable, clear_variables,
}
use libsarus.Environment.Cleared.{IsVariableName, set_variable_lem, clear_variables_lem}

-- setenv refuses the empty name and a name with '='.
abbrev refuses : Text → Bool
refuses k = is_empty k || not (count b'=' k == 0)

abbrev variables : Environ
variables = record {
  State = Map;
  getenv = λ s k. lookup k s;
  setenv = λ k v s. if refuses k then (false, s) else (true, insert k v s);
  clearenv = λ s. (true, []);
  strerror = λ s. codes "Invalid argument";
}

same_key : (k v : Text) (s : Map) → lookup k (insert k v s) ≡ some v
same_key k v s = lookup-insert k k v s ∙ rw (text_eq_refl k) refl

other_key : (k v j : Text) (s : Map) → j ≢ k → lookup j (insert k v s) ≡ lookup j s
other_key k v j s ne = lookup-insert k j v s ∙ rw (text_eq_ne k j (λ e. ne (sym e))) refl

set_same :
    (k v : Text) (s : Map)
    → (variables.setenv k v s).0 ≡ true
    → lookup k (variables.setenv k v s).1 ≡ some v
set_same k v s h = elim (Bool-cases (refuses k)) [
  | inl e ↦ cc (rw e at h)
  | inr e ↦ rw e (same_key k v s)
]

set_other : (k v j : Text) (s : Map) → j ≢ k → lookup j (variables.setenv k v s).1 ≡ lookup j s
set_other k v j s ne = elim (Bool-cases (refuses k)) [
  | inl e ↦ rw e refl
  | inr e ↦ rw e (other_key k v j s ne)
]

set_failed :
    (k v j : Text) (s : Map)
    → (variables.setenv k v s).0 ≡ false
    → lookup j (variables.setenv k v s).1 ≡ lookup j s
set_failed k v j s h = elim (Bool-cases (refuses k)) [ inl e ↦ rw e refl | inr e ↦ cc (rw e at h) ]

variables-IsEnviron : IsEnviron variables
variables-IsEnviron = record {
  getenv-setenv = λ k v s _ _ done. set_same k v s done;
  getenv-setenv-ne = λ k v j s _ _ _ _ ne. set_other k v j s ne;
  setenv_failed = λ k v j s _ _ _ failed. set_failed k v j s failed;
  getenv-clearenv = λ s k _ h. refl;
}

abbrev home : Map
home = (codes "HOME", codes "/root") ∷ []

set_variable_lem_example :
    ((set_variable variables (codes "A") (codes "1") home).0 ≡ ok tt)
      × ((j : Text)
          → c_str j ≡ c_str (codes "A")
          → get_variable variables (set_variable variables (codes "A") (codes "1") home).1 j
            ≡ ok (c_str (codes "1")))
      × ((j : Text)
          → IsVariableName variables variables-IsEnviron j
          → c_str j ≢ c_str (codes "A")
          → get_variable variables (set_variable variables (codes "A") (codes "1") home).1 j
            ≡ get_variable variables home j)
    ⊎ (((set_variable variables (codes "A") (codes "1") home).0 ≢ ok tt)
        × ((j : Text)
            → get_variable variables (set_variable variables (codes "A") (codes "1") home).1 j
              ≡ get_variable variables home j))
set_variable_lem_example =
    set_variable_lem variables variables-IsEnviron (codes "A") (codes "1") home

-- A value is cut at a null.
cut_run :
    get_variable variables
      (set_variable variables (codes "A") (b'1' ∷ 0 ∷ codes "2") home).1
      (codes "A")
    ≡ ok (codes "1")
unfolding set_variable get_variable
cut_run = refl

cleared : (clear_variables variables home).0 ≡ ok tt
unfolding clear_variables
cleared = refl

clear_variables_lem_example :
    ((j : Text)
      → c_str j ≡ codes "PATH"
      → get_variable variables (clear_variables variables home).1 j ≡ ok default_path)
    × ((j value : Text)
        → IsVariableName variables variables-IsEnviron j
        → c_str j ≢ codes "PATH"
        → get_variable variables (clear_variables variables home).1 j ≢ ok value)
clear_variables_lem_example = clear_variables_lem variables variables-IsEnviron home cleared

abbrev two_paths : List Text
two_paths = codes "/bin" ∷ codes "/usr/bin" ∷ []
