-- ===== src/System/Monad.antt =====
-- Operations that change the system's state, may throw and may run out of fuel.
use libsarus.Base.{Option, none, some, Bool, if◌then◌else◌}
use libsarus.Error.{Result, ok, throws, sarus, standard, Error}

module _ (State : Type 0) where
  -- `none` says that the fuel ran out.
  abbrev pub M : Type 0 → Type 0
  M A = State → Option (Result A × State)

module _ {State : Type 0} where
  infixl 5 ◌>>=◌ ◌>>◌
  abbrev pub ◌>>=◌ : {A B : Type 0} → M State A → (A → M State B) → M State B
  ◌>>=◌ m f s = elim (m s) [
    | none ↦ none
    | some (r, s') ↦ elim r [ ok a ↦ f a s' | throws e ↦ some (throws e, s') ]
  ]

  abbrev pub ◌>>◌ : {B : Type 0} → M State (Unit {0}) → M State B → M State B
  m >> k = m >>= λ _. k

  abbrev pub pure : {A : Type 0} → A → M State A
  pure a s = some (ok a, s)

  abbrev pub raise : {A : Type 0} → Result A → M State A
  raise r s = some (r, s)

  -- What only reads the state.
  abbrev pub reads : {A : Type 0} → (State → Result A) → M State A
  reads f s = some (f s, s)

  abbrev pub reads_fuel : {A : Type 0} → (State → Option (Result A)) → M State A
  reads_fuel f s = elim (f s) [ none ↦ none | some r ↦ some (r, s) ]

  -- A call that reports success or failure, with what is thrown on failure.
  abbrev pub checked : (State → Bool × State) → (State → Result (Unit {0})) → M State (Unit {0})
  checked call failure s = let (done, s') = call s in some (if done then ok tt else failure s', s')

  -- `try { m } catch (Error &e) { handler(e) }`: other exceptions go on.
  abbrev pub try_catch : {A : Type 0} → M State A → (Error → M State A) → M State A
  try_catch m handler s = elim (m s) [
    | none ↦ none
    | some (r, s') ↦ elim r [
      | ok a ↦ some (ok a, s')
      | throws e ↦ elim e [
        | sarus err ↦ handler err s'
        | standard c w ↦ some (throws (standard c w), s')
      ]
    ]
  ]
