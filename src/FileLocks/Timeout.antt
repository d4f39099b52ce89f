-- ===== src/FileLocks/Timeout.antt =====
-- With a timeout the acquisition ends, and when it returns the file is locked.
use libsarus.Base.{
  ℕ, zero, suc, ◌+◌, ◌*◌, ◌≤◌, Text, leb, Bool, true, false, ◌==◌, if◌then◌else◌, Option, none,
  some, Option-cases, Bool-cases, inl, inr, ◌⊎◌, ◌≡◌, ◌≢◌, refl, sym, ap, ◌∙◌, arith,
}
use libsarus.Error.{Result, ok}
use libsarus.System.Monad.{◌>>=◌}
use libsarus.FileLocks.{
  LockType, read_lock, write_lock, Descriptors, World, set_kernel, set_fd, get_flock_flags, lock_nb,
  try_flock, open_and_flock, acquire_with, acquire_lock_atomically, wait_on, expired,
  timed_lock_acquisition,
}

not_zero : (n : ℕ) → n ≢ 0 → (n == 0) ≡ false
not_zero n h = ground arith

-- flock(2) without waiting: LOCK_SH, which is 1, or LOCK_EX, which is 2, with LOCK_NB, which is 4.
abbrev operation_of : LockType → ℕ
operation_of read_lock = 5
operation_of write_lock = 6

get_flock_flags-operation_of : (t : LockType) → (get_flock_flags t).1 + lock_nb ≡ operation_of t
unfolding get_flock_flags
get_flock_flags-operation_of read_lock = refl
get_flock_flags-operation_of write_lock = refl

module _ (D : Descriptors) where
  -- The last call was a successful flock(2) on the object's descriptor, for its type of lock.
  pub record IsLocked (w : World D) : Type 0 where
    pub fd : ℕ
    pub before : D.State
    pub owns : w.lock.file_fd ≡ some fd
    pub is_locked : D.flock fd (operation_of w.lock.lock_type) before ≡ (true, w.kernel)

  -- What an attempt does not change.
  abbrev Settled : World D → World D → Type 0
  Settled w u =
      (u.lock.lockfile ≡ w.lock.lockfile)
      × (u.lock.timeout_time ≡ w.lock.timeout_time)
      × (u.lock.warning_time ≡ w.lock.warning_time)

  abbrev Attempted : World D → Option (Result Bool × World D) → Type 0
  Attempted w result =
      (b : Bool) × (u : World D) × (result ≡ some (ok b, u)) × Settled w u × (b ≡ true → IsLocked u)

  try_flock-Attempted :
      (fd : ℕ) (w : World D) → w.lock.file_fd ≡ some fd → Attempted w (try_flock D fd w)
  unfolding try_flock
  try_flock-Attempted fd w owned =
      let call : Bool × D.State =
        D.flock fd ((get_flock_flags w.lock.lock_type).1 + lock_nb) w.kernel in
      (
        call.0,
        set_kernel D call.1 w,
        refl,
        (refl, refl, refl),
        λ h. record {
          fd = fd;
          before = w.kernel;
          owns = owned;
          is_locked =
              ap (λ o. D.flock fd o w.kernel) (sym (get_flock_flags-operation_of w.lock.lock_type))
              ∙ ap (λ b. (b, call.1)) h;
        },
      )

  open_and_flock-Attempted : (path : Text) (w : World D) → Attempted w (open_and_flock D path w)
  unfolding open_and_flock
  open_and_flock-Attempted path w =
      let call : Option ℕ × D.State =
        D.open_file path 0 (get_flock_flags w.lock.lock_type).0 w.kernel in
      elim (Option-cases call.0) [
        | inl e ↦ (
          false,
          set_kernel D call.1 w,
          rw (e, open_and_flock) refl,
          (refl, refl, refl),
          λ h. cc h,
        )
        | inr (fd, e) ↦
            let (b, u, runs, same, locked) =
              try_flock-Attempted fd (set_fd D fd (set_kernel D call.1 w)) refl in
            (b, u, rw (e, open_and_flock) runs, same, locked)
      ]

  acquire_step :
      (path : Text) (fd : Option ℕ) (w : World D)
      → w.lock.lockfile ≡ some path
      → w.lock.file_fd ≡ fd
      → acquire_lock_atomically D w ≡ acquire_with D (some path) fd w
  unfolding acquire_lock_atomically
  acquire_step path fd w named owned =
      ap (λ o. acquire_with D o w.lock.file_fd w) named
      ∙ ap (λ f. acquire_with D (some path) f w) owned

  acquire-Attempted :
      (path : Text) (w : World D)
      → w.lock.lockfile ≡ some path
      → Attempted w (acquire_lock_atomically D w)
  acquire-Attempted path w named = elim (Option-cases w.lock.file_fd) [
    | inl e ↦
        let (b, u, runs, same, locked) = open_and_flock-Attempted path w in
        (b, u, acquire_step path none w named e ∙ runs, same, locked)
    | inr (fd, e) ↦
        let (b, u, runs, same, locked) = try_flock-Attempted fd w e in
        (b, u, acquire_step path (some fd) w named e ∙ runs, same, locked)
  ]

  module _ (sleep : D.State → D.State) (path : Text) (timeout_ms : ℕ) where
    -- What the acquisition needs of the object.
    pub record IsReady (w : World D) : Type 0 where
      pub has_path : w.lock.lockfile ≡ some path
      pub has_timeout : w.lock.timeout_time ≡ some timeout_ms
      pub warns : w.lock.warning_time ≢ 0

    Settled-IsReady : (w u : World D) → IsReady w → Settled w u → IsReady u
    Settled-IsReady w u h (a, b, c) = record {
      has_path = a ∙ h.has_path;
      has_timeout = b ∙ h.has_timeout;
      warns = λ z. h.warns (sym c ∙ z);
    }

    -- It returns with the lock, or throws that the timeout expired after an attempt.
    abbrev pub IsOutcome : Option (Result (Unit {0}) × World D) → Type 0
    IsOutcome result =
        (w' : World D) × (((result ≡ some (ok tt, w')) × IsLocked w')
          ⊎ (result ≡ some (expired D w'.lock, w')))

    round :
        (fuel elapsed : ℕ) (w u : World D) (b : Bool)
        → acquire_lock_atomically D w ≡ some (ok b, u)
        → timed_lock_acquisition D sleep (suc fuel) elapsed w ≡ (
            if b
            then some (ok tt, u)
            else wait_on D sleep (timed_lock_acquisition D sleep fuel (elapsed + 100)) elapsed u)
    unfolding timed_lock_acquisition
    round fuel elapsed w u true e = rw (e, ◌>>=◌) refl
    round fuel elapsed w u false e = rw (e, ◌>>=◌) refl

    first_round :
        (fuel elapsed : ℕ) (w : World D)
        → IsReady w
        → IsOutcome (timed_lock_acquisition D sleep (suc fuel) elapsed w)
          ⊎ ((u : World D) × IsReady u
              × (leb timeout_ms elapsed ≡ false)
              × (timed_lock_acquisition D sleep (suc fuel) elapsed w
                  ≡ timed_lock_acquisition D sleep fuel
                      (elapsed + 100)
                      (set_kernel D (sleep u.kernel) u)))
    first_round fuel elapsed w h =
        let (b, u, runs, same, locked) = acquire-Attempted path w h.has_path in
        let ready = Settled-IsReady w u h same in
        let step = round fuel elapsed w u b runs in
        elim (Bool-cases b) [
          | inl acquired ↦ inl (u, inl (rw acquired at step, locked acquired))
          | inr taken ↦
              let waits : timed_lock_acquisition D sleep (suc fuel) elapsed w
                  ≡ wait_on D sleep (timed_lock_acquisition D sleep fuel (elapsed + 100)) elapsed
                      u =
                rw taken at step in
              elim (Bool-cases (leb timeout_ms elapsed)) [
                | inl late ↦ inl (u, inr (waits ∙ rw (ready.has_timeout, late) refl))
                | inr early ↦
                    let warned : (u.lock.warning_time == 0) ≡ false =
                      not_zero u.lock.warning_time ready.warns in
                    inr (u, ready, early, waits ∙ rw (ready.has_timeout, early, warned) refl)
              ]
        ]

    -- For an object with a path, a timeout and a warning time that is not 0, and a round of fuel
    -- for each 100 ms of the timeout that are left and one more: the acquisition returns or
    -- throws that the timeout expired, and when it returns, the last call was a successful
    -- flock(2) on the descriptor that the object keeps, without waiting, shared (operation 5) for
    -- a read lock and exclusive (operation 6) for a write lock.
    pub timed_lock_acquisition-IsOutcome :
        (fuel elapsed : ℕ) (w : World D)
        → IsReady w
        → timeout_ms ≤ elapsed + 100 * fuel
        → IsOutcome (timed_lock_acquisition D sleep (suc fuel) elapsed w)
    timed_lock_acquisition-IsOutcome zero elapsed w h enough = elim (first_round 0 elapsed w h) [
      | inl ended ↦ ended
      | inr (u, ready, early, runs) ↦ absurd (ground arith)
    ]
    timed_lock_acquisition-IsOutcome (suc fuel) elapsed w h enough =
        elim (first_round (suc fuel) elapsed w h) [
          | inl ended ↦ ended
          | inr (u, ready, early, runs) ↦ rw runs (
              timed_lock_acquisition-IsOutcome fuel (elapsed + 100)
                (set_kernel D (sleep u.kernel) u)
                (record {
                  has_path = ready.has_path;
                  has_timeout = ready.has_timeout;
                  warns = ready.warns;
                })
                (omega (arith, enough)))
        ]
