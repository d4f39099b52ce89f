-- ===== src/Environment/Environ.antt =====
-- src/utility/environment.cpp: `getVariable`, `setVariable` and `clearVariables`. The environment of
-- the process and the calls of the C library that act on it are an interface; `IsEnviron` states
-- what their manual pages say.
use libsarus.Base.{
  count, c_str, IsCString, Text, codes, Bool, true, false, Option, none, some, ◌≡◌, ◌≢◌,
  if◌then◌else◌,
}
use libsarus.Error.{Result, ok, throw_error, plain, format, text, end}

pub record Environ : Type 1 where
  pub State : Type 0
  pub getenv : State → Text → Option Text
  -- these return whether they succeeded; setenv overwrites
  pub setenv : Text → Text → State → Bool × State
  pub clearenv : State → Bool × State
  pub strerror : State → Text

-- The laws are about C strings. A name that holds '=' is none that setenv accepts; a look-up of one
-- can match the beginning of another variable's value.
pub record IsEnviron (E : Environ) : Type 0 where
  pub getenv-setenv :
      (k v : Text) (s : E.State)
      → IsCString k
      → IsCString v
      → (E.setenv k v s).0 ≡ true
      → E.getenv (E.setenv k v s).1 k ≡ some v
  pub getenv-setenv-ne :
      (k v j : Text) (s : E.State)
      → IsCString k
      → IsCString v
      → IsCString j
      → count b'=' j ≡ 0
      → j ≢ k
      → E.getenv (E.setenv k v s).1 j ≡ E.getenv s j
  -- a failed call leaves the environment as it was
  pub setenv_failed :
      (k v j : Text) (s : E.State)
      → IsCString k
      → IsCString v
      → IsCString j
      → (E.setenv k v s).0 ≡ false
      → E.getenv (E.setenv k v s).1 j ≡ E.getenv s j
  pub getenv-clearenv :
      (s : E.State) (k : Text)
      → IsCString k
      → (E.clearenv s).0 ≡ true
      → E.getenv (E.clearenv s).1 k ≡ none

-- The path that is left after clearing.
abbrev pub default_path : Text
default_path = codes "/bin:/sbin:/usr/bin"

module _ (E : Environ) where
  open E use {State, getenv, setenv, clearenv, strerror}

  unfoldable pub get_variable : State → Text → Result Text
  get_variable s key = elim (getenv s (c_str key)) [
    | some p ↦ ok p
    | none ↦
        throw_error "getVariable"
          (format "Environment doesn't contain variable with key %s" (text key end))
  ]

  unfoldable pub set_variable : Text → Text → State → Result (Unit {0}) × State
  set_variable key value s =
      let (done, s') = setenv (c_str key) (c_str value) s in
      (
        (if done
            then ok tt
            else throw_error "setVariable" (
                format "Failed to setenv(%s, %s, 1): %s"
                  (text key (text value (text (strerror s') end))))),
        s',
      )

  -- The second call is made if the first succeeds.
  abbrev set_path : State → Result (Unit {0}) × State
  set_path s =
      let (done, s') = setenv (codes "PATH") (c_str default_path) s in
      (
        (if done
            then ok tt
            else throw_error "clearVariables" (
                format "Failed to setenv(\"PATH\", %s, 1): %s"
                  (text default_path (text (strerror s') end)))),
        s',
      )

  unfoldable pub clear_variables : State → Result (Unit {0}) × State
  clear_variables s =
      let (done, s') = clearenv s in
      if done
      then set_path s'
      else (throw_error "clearVariables" (plain "Failed to clear host environment variables"), s')
