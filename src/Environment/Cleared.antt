-- ===== src/Environment/Cleared.antt =====
-- What setting and clearing leave in the environment.
use libsarus.Base.{
  count, c_str, IsCString, c_str-IsCString, Text, codes, true, none, ◌≡◌, ◌≢◌, ◌⊎◌, inl, inr, refl,
  ◌∙◌, Bool-cases,
}
use libsarus.Error.{ok}
use libsarus.Environment.Environ.{
  Environ, IsEnviron, default_path, get_variable, set_variable, clear_variables,
}

module _ (E : Environ) (laws : IsEnviron E) where
  -- The name that the C library sees holds no '='.
  abbrev pub IsVariableName : Text → Type 0
  IsVariableName key = count b'=' (c_str key) ≡ 0

  get-setenv :
      (k v j : Text) (s : E.State)
      → IsCString k
      → IsCString v
      → c_str j ≡ k
      → (E.setenv k v s).0 ≡ true
      → get_variable E (E.setenv k v s).1 j ≡ ok v
  unfolding get_variable
  get-setenv k v j s ck cv same done =
      rw (get_variable, same, laws.getenv-setenv k v s ck cv done) refl

  same_value :
      (s s' : E.State) (j : Text)
      → E.getenv s' (c_str j) ≡ E.getenv s (c_str j)
      → get_variable E s' j ≡ get_variable E s j
  unfolding get_variable
  same_value s s' j e = rw (get_variable, e) refl

  -- For such an environment: `setVariable` returns, and then `getVariable` gives the value up to
  -- its first null for the key, and what it gave before for every other key that holds no '='; or
  -- it does not return normally, and `getVariable` gives for every key what it gave before. Keys
  -- are read up to their first null.
  pub set_variable_lem :
      (key value : Text) (s : E.State)
      → ((set_variable E key value s).0 ≡ ok tt)
          × ((j : Text)
              → c_str j ≡ c_str key
              → get_variable E (set_variable E key value s).1 j ≡ ok (c_str value))
          × ((j : Text)
              → IsVariableName j
              → c_str j ≢ c_str key
              → get_variable E (set_variable E key value s).1 j ≡ get_variable E s j)
        ⊎ (((set_variable E key value s).0 ≢ ok tt)
            × ((j : Text) → get_variable E (set_variable E key value s).1 j ≡ get_variable E s j))
  unfolding set_variable
  set_variable_lem key value s =
      let ck = c_str-IsCString key in
      let cv = c_str-IsCString value in
      elim (Bool-cases (E.setenv (c_str key) (c_str value) s).0) [
        | inl done ↦ inl (
          rw done refl,
          (λ j same. get-setenv (c_str key) (c_str value) j s ck cv same done),
          λ j named ne. same_value s (E.setenv (c_str key) (c_str value) s).1 j (
              laws.getenv-setenv-ne (c_str key) (c_str value) (c_str j) s ck cv (c_str-IsCString j)
                named ne),
        )
        | inr failed ↦ inr (
          (λ h. cc (rw (failed, set_variable) at h)),
          λ j. same_value s (E.setenv (c_str key) (c_str value) s).1 j (
              laws.setenv_failed (c_str key) (c_str value) (c_str j) s ck cv (c_str-IsCString j)
                failed),
        )
      ]

  not_there :
      (s : E.State) (j value : Text) → E.getenv s (c_str j) ≡ none → get_variable E s j ≢ ok value
  unfolding get_variable
  not_there s j value e h = cc (rw (get_variable, e) at h)

  -- For the environment of a process with the laws of the C library's calls, where keys are read
  -- up to their first null: when `clearVariables` returns, `getVariable` gives the default path
  -- for 'PATH' and throws for every other key that holds no '='.
  pub clear_variables_lem :
      (s : E.State)
      → (clear_variables E s).0 ≡ ok tt
      → ((j : Text)
          → c_str j ≡ codes "PATH"
          → get_variable E (clear_variables E s).1 j ≡ ok default_path)
        × ((j value : Text)
            → IsVariableName j
            → c_str j ≢ codes "PATH"
            → get_variable E (clear_variables E s).1 j ≢ ok value)
  unfolding clear_variables
  clear_variables_lem s h = elim (Bool-cases (E.clearenv s).0) [
    | inr failed ↦ cc (rw (failed, clear_variables) at h)
    | inl done ↦ elim (Bool-cases (E.setenv (codes "PATH") default_path (E.clearenv s).1).0) [
      | inr failed ↦ cc (rw (done, clear_variables, failed) at h)
      | inl set ↦ (
        (λ j same.
            rw done (get-setenv (codes "PATH") default_path j (E.clearenv s).1 refl refl same set)),
        λ j value named ne. rw done (
            not_there (E.setenv (codes "PATH") default_path (E.clearenv s).1).1 j value (
              laws.getenv-setenv-ne (codes "PATH") default_path (c_str j) (E.clearenv s).1 refl refl
                (c_str-IsCString j) named ne
              ∙ laws.getenv-clearenv s (c_str j) (c_str-IsCString j) done)),
      )
    ]
  ]
