-- ===== src/System/Outcome.antt =====
-- Total correctness of operations in `M`: an operation ends in a result and a state that satisfy a
-- postcondition. The rules take a `do` block apart.
use libsarus.Base.{
  Option-cases, ◌≢◌, true, false, Bool-cases, Bool, true, false, some, ◌≡◌, refl, Bool-cases, inl,
  inr,
}
use libsarus.Error.{Result, ok, throws, Exception, sarus, standard, Error}
use libsarus.System.Monad.{M, ◌>>=◌, reads, checked, try_catch}

module _ {State : Type 0} where
  abbrev pub Ends {ℓ} : {A : Type 0} → M State A → State → (Result A → State → Type ℓ) → Type ℓ
  Ends {A} m s Q = (r : Result A) × (s' : State) × (m s ≡ some (r, s')) × Q r s'

  pub bind-Ends {ℓ κ} :
      {A B : Type 0} (m : M State A) (f : A → M State B) (s : State) (P : Result A → State → Type ℓ)
      (Q : Result B → State → Type κ)
      → Ends m s P
      → ((a : A) (s' : State) → P (ok a) s' → Ends (f a) s' Q)
      → ((e : Exception) (s' : State) → P (throws e) s' → Q (throws e) s')
      → Ends (m >>= f) s Q
  bind-Ends m f s P Q (ok a, s', e, p) next stop =
      let (r, s'', e', q) = next a s' p in (r, s'', rw (e, ◌>>=◌) e', q)
  bind-Ends m f s P Q (throws x, s', e, p) next stop =
      (throws x, s', rw (e, ◌>>=◌) refl, stop x s' p)

  pub checked-Ends {ℓ} :
      (call : State → Bool × State) (failure : State → Result (Unit {0})) (s : State)
      (Q : Result (Unit {0}) → State → Type ℓ)
      → ((call s).0 ≡ true → Q (ok tt) (call s).1)
      → ((call s).0 ≡ false → Q (failure (call s).1) (call s).1)
      → Ends (checked call failure) s Q
  checked-Ends call failure s Q good bad = elim (Bool-cases (call s).0) [
    | inl e ↦ (ok tt, (call s).1, rw e refl, good e)
    | inr e ↦ (failure (call s).1, (call s).1, rw e refl, bad e)
  ]

  pub reads-Ends {ℓ} :
      {A : Type 0} (f : State → Result A) (s : State) (Q : Result A → State → Type ℓ)
      → Q (f s) s
      → Ends (reads f) s Q
  reads-Ends f s Q q = (f s, s, refl, q)

  pub weaken-Ends {ℓ κ} :
      {A : Type 0} (m : M State A) (s : State) (P : Result A → State → Type ℓ)
      (Q : Result A → State → Type κ)
      → Ends m s P
      → ((r : Result A) (s' : State) → P r s' → Q r s')
      → Ends m s Q
  weaken-Ends m s P Q (r, s', e, p) f = (r, s', e, f r s' p)

  pub try_catch-Ends {ℓ κ} :
      {A : Type 0} (m : M State A) (handler : Error → M State A) (s : State)
      (P : Result A → State → Type ℓ) (Q : Result A → State → Type κ)
      → Ends m s P
      → ((a : A) (s' : State) → P (ok a) s' → Q (ok a) s')
      → ((e : Error) (s' : State) → P (throws (sarus e)) s' → Ends (handler e) s' Q)
      → ((x : Exception) (s' : State)
          → P (throws x) s'
          → ((e : Error) → ¬ (x ≡ sarus e))
          → Q (throws x) s')
      → Ends (try_catch m handler) s Q
  try_catch-Ends m handler s P Q (ok a, s', e, p) fine caught other =
      (ok a, s', rw (e, try_catch) refl, fine a s' p)
  try_catch-Ends m handler s P Q (throws (sarus x), s', e, p) fine caught other =
      let (r, s'', e', q) = caught x s' p in (r, s'', rw (e, try_catch) e', q)
  try_catch-Ends m handler s P Q (throws (standard c w), s', e, p) fine caught other =
      (throws (standard c w), s', rw (e, try_catch) refl, other (standard c w) s' p (λ y h. cc))

  -- A call and what follows it return only if both do.
  pub bind-ok :
      {A B : Type 0} (m : M State A) (f : A → M State B) (s s' : State) {b : B}
      → (m >>= f) s ≡ some (ok b, s')
      → (a : A) × (t : State) × (m s ≡ some (ok a, t)) × (f a t ≡ some (ok b, s'))
  bind-ok m f s s' h = elim (Option-cases (m s)) [
    | inl e ↦ cc (rw (e, ◌>>=◌) at h)
    | inr ((ok a, t), e) ↦ (a, t, e, rw (e, ◌>>=◌) at h)
    | inr ((throws x, t), e) ↦ cc (rw (e, ◌>>=◌) at h)
  ]

  pub checked-ok :
      (call : State → Bool × State) (failure : State → Result (Unit {0})) (s s' : State)
      → ((t : State) → failure t ≢ ok tt)
      → checked call failure s ≡ some (ok tt, s')
      → call s ≡ (true, s')
  checked-ok call failure s s' fails h = elim (Bool-cases (call s).0) [
    | inl e ↦ cc (e, rw e at h)
    | inr e ↦ absurd (fails (call s).1 (cc (rw e at h)))
  ]
