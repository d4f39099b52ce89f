-- ===== src/FileLocks/Conversion.antt =====
-- A conversion that failed.
use libsarus.Base.{
  ℕ, zero, suc, ◌+◌, Text, Bool, true, false, ◌==◌, Option, none, some, Option-cases, Bool-cases,
  inl, inr, ◌⊎◌, ◌≡◌, refl, ◌∙◌,
}
use libsarus.Error.{Result, ok, throws, Exception}
use libsarus.System.Monad.{◌>>=◌}
use libsarus.FileLocks.{
  LockType, read_lock, write_lock, same_type, Descriptors, World, set_kernel, get_flock_flags,
  set_type, try_flock, open_and_flock, acquire_with, acquire_lock_atomically, wait_on, is_expired,
  timed_lock_acquisition, convert_to_type,
}

same_type_refl : (t : LockType) → same_type t t ≡ true
same_type_refl read_lock = refl
same_type_refl write_lock = refl

module _ (D : Descriptors) where
  -- The type of the lock is the same before and after.
  abbrev KeepsType {ℓ} : {A : Type ℓ} → World D → Option (A × World D) → Type 0
  KeepsType w none = Unit
  KeepsType w (some (r, w')) = w'.lock.lock_type ≡ w.lock.lock_type

  try_flock-KeepsType : (fd : ℕ) (w : World D) → KeepsType w (try_flock D fd w)
  unfolding try_flock
  try_flock-KeepsType fd w = refl

  open_and_flock-KeepsType : (path : Text) (w : World D) → KeepsType w (open_and_flock D path w)
  unfolding open_and_flock try_flock
  open_and_flock-KeepsType path w =
      elim (Option-cases (D.open_file path 0 (get_flock_flags w.lock.lock_type).0 w.kernel).0) [
        | inl e ↦ rw (e, open_and_flock) refl
        | inr (fd, e) ↦ rw (e, open_and_flock) refl
      ]

  acquire_with-KeepsType :
      (path : Option Text) (fd : Option ℕ) (w : World D) → KeepsType w (acquire_with D path fd w)
  acquire_with-KeepsType none fd w = tt
  acquire_with-KeepsType (some path) none w = open_and_flock-KeepsType path w
  acquire_with-KeepsType (some path) (some fd) w = try_flock-KeepsType fd w

  acquired-type :
      (w u : World D) (r : Result Bool)
      → acquire_lock_atomically D w ≡ some (r, u)
      → u.lock.lock_type ≡ w.lock.lock_type
  unfolding acquire_lock_atomically
  acquired-type w u r e = rw e at (acquire_with-KeepsType w.lock.lockfile w.lock.file_fd w)

  module _ (sleep : D.State → D.State) where
    wait_on-cases :
        (rest : World D → Option (Result (Unit {0}) × World D)) (elapsed : ℕ) (u w' : World D)
        (r : Result (Unit {0}))
        → wait_on D sleep rest elapsed u ≡ some (r, w')
        → (w' ≡ u) ⊎ (rest (set_kernel D (sleep u.kernel) u) ≡ some (r, w'))
    wait_on-cases rest elapsed u w' r h =
        elim (Bool-cases (is_expired D u.lock.timeout_time elapsed)) [
          | inl e ↦ inl (cc (rw e at h))
          | inr e ↦ elim (Bool-cases (u.lock.warning_time == 0)) [
            | inl undefined ↦ cc (rw (e, undefined) at h)
            | inr defined ↦ inr (rw (e, defined) at h)
          ]
        ]

    timed-type :
        (fuel elapsed : ℕ) (w w' : World D) (r : Result (Unit {0}))
        → timed_lock_acquisition D sleep fuel elapsed w ≡ some (r, w')
        → w'.lock.lock_type ≡ w.lock.lock_type
    unfolding timed_lock_acquisition
    timed-type zero elapsed w w' r h = cc h
    timed-type (suc fuel) elapsed w w' r h = elim (Option-cases (acquire_lock_atomically D w)) [
      | inl e ↦ cc (rw (e, ◌>>=◌) at h)
      | inr ((throws x, u), e) ↦
          let is : w' ≡ u = cc (rw (e, ◌>>=◌) at h) in rw is (acquired-type w u (throws x) e)
      | inr ((ok true, u), e) ↦
          let is : w' ≡ u = cc (rw (e, ◌>>=◌) at h) in rw is (acquired-type w u (ok true) e)
      | inr ((ok false, u), e) ↦
          elim (wait_on-cases (timed_lock_acquisition D sleep fuel (elapsed + 100)) elapsed u w' r
            (rw (e, ◌>>=◌) at h)) [
              | inl is ↦ rw is (acquired-type w u (ok false) e)
              | inr rest ↦
                  timed-type fuel (elapsed + 100) (set_kernel D (sleep u.kernel) u) w' r rest
                  ∙ acquired-type w u (ok false) e
            ]
    ]

    -- When `convertToType` throws, a second call for the same type returns at once, and changes
    -- nothing.
    pub convert_to_type_again :
        (fuel later : ℕ) (type : LockType) (w w' : World D) (e : Exception)
        → convert_to_type D sleep fuel type w ≡ some (throws e, w')
        → convert_to_type D sleep later type w' ≡ some (ok tt, w')
    unfolding convert_to_type
    convert_to_type_again fuel later type w w' e h =
        elim (Bool-cases (same_type type w.lock.lock_type)) [
          | inl same ↦ cc (rw (same, convert_to_type) at h)
          | inr other ↦
              let runs : timed_lock_acquisition D sleep fuel 0 (set_type D type w)
                  ≡ some (throws e, w') =
                rw (other, convert_to_type) at h in
              let now : w'.lock.lock_type ≡ type =
                timed-type fuel 0 (set_type D type w) w' (throws e) runs in
              let again : same_type type w'.lock.lock_type ≡ true = rw now (same_type_refl type) in
              rw (again, convert_to_type) refl
        ]
