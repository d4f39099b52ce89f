-- ===== src/LockFiles/Waiting.antt =====
-- The constructor: how long it waits, and what holds when it returns.
use libsarus.Base.{
  ℕ, zero, suc, ◌+◌, ◌*◌, ◌%◌, ◌^◌, ◌<◌, ◌≤◌, Text, leb, leb→le, Bool, true, false, ◌==◌,
  if◌then◌else◌, Option, some, Bool-cases, inl, inr, ◌≡◌, ◌≢◌, ◌⊎◌, refl, ap, ◌∙◌, arith,
}
use libsarus.Error.{Result, ok, throws}
use libsarus.System.Monad.{◌>>=◌}
use libsarus.LockFiles.{
  Files, IsFiles, World, set_files, no_timeout, close_failed, attempt, expired, wait_on,
  wait_for_lock, construct, convert_to_lockfile,
}
use libsarus.LockFiles.Attempts.{acquires, is_taken, leaks, attempt-Ends}

module _ (F : Files) (sleep : World F → World F) (i : ℕ) (p : Text) where
  -- Failed attempts, each followed by a sleep.
  pub data Waits : ℕ → World F → World F → Type 0 where
    no_wait : {w : World F} → Waits 0 w w
    wait :
        {k : ℕ} {w u v : World F}
        → attempt F i p w ≡ some (ok false, u)
        → Waits k (sleep u) v
        → Waits (suc k) w v

  module _ (timeout_ms warning_ms : ℕ) where
    -- What the constructor makes of its last attempt.
    abbrev pub last_result : Result Bool → Result (Unit {0})
    last_result (ok true) = ok tt
    last_result (ok false) = expired F sleep i p timeout_ms warning_ms
    last_result (throws e) = throws e

    wait_step :
        (fuel elapsed : ℕ) (w u : World F) (r : Result Bool)
        → attempt F i p w ≡ some (r, u)
        → wait_for_lock F sleep i p timeout_ms warning_ms (suc fuel) elapsed w ≡ (elim r [
          | ok acquired ↦
              if acquired
              then some (ok tt, u)
              else wait_on F sleep i p timeout_ms warning_ms
                  (wait_for_lock F sleep i p timeout_ms warning_ms fuel ((elapsed + 100) % 2 ^ 32))
                  elapsed
                  u
          | throws e ↦ some (throws e, u)
        ])
    unfolding wait_for_lock
    wait_step fuel elapsed w u (ok true) h = rw (h, ◌>>=◌) refl
    wait_step fuel elapsed w u (ok false) h = rw (h, ◌>>=◌) refl
    wait_step fuel elapsed w u (throws e) h = rw (h, ◌>>=◌) refl

    expires :
        (rest : World F → Option (Result (Unit {0}) × World F)) (elapsed : ℕ) (u : World F)
        → timeout_ms ≤ 4294967196
        → leb timeout_ms elapsed ≡ true
        → wait_on F sleep i p timeout_ms warning_ms rest elapsed u
          ≡ some (expired F sleep i p timeout_ms warning_ms, u)
    expires rest elapsed u short late =
        let limited : (timeout_ms == no_timeout) ≡ false = ground arith in rw (limited, late) refl

    goes_on :
        (rest : World F → Option (Result (Unit {0}) × World F)) (elapsed : ℕ) (u : World F)
        → timeout_ms ≤ 4294967196
        → warning_ms ≢ 0
        → leb timeout_ms elapsed ≡ false
        → wait_on F sleep i p timeout_ms warning_ms rest elapsed u ≡ rest (sleep u)
    goes_on rest elapsed u short warns early =
        let limited : (timeout_ms == no_timeout) ≡ false = ground arith in
        let warned : (warning_ms == 0) ≡ false = ground arith in rw (limited, early, warned) refl

    -- The end of waiting after a number of failed attempts.
    pub record HasWaited (elapsed : ℕ) (w : World F) (result : Option (Result (Unit {0}) × World F))
        : Type 0 where
      pub rounds : ℕ
      pub last : World F
      pub final : World F
      pub outcome : Result Bool
      pub waited : Waits rounds w last
      pub last_attempt : attempt F i p last ≡ some (outcome, final)
      pub is_result : result ≡ some (last_result outcome, final)
      pub in_time : (rounds ≡ 0) ⊎ (elapsed + 100 * rounds < timeout_ms + 100)
      pub not_early : outcome ≡ ok false → timeout_ms ≤ elapsed + 100 * rounds

    -- The lock file is taken and there is time left.
    abbrev GoesOn : ℕ → World F → Type 0
    GoesOn elapsed w =
        (u : World F) × (attempt F i p w ≡ some (ok false, u)) × (leb timeout_ms elapsed ≡ false)

    ends_now :
        (fuel elapsed : ℕ) (w u : World F) (r : Result Bool)
        → attempt F i p w ≡ some (r, u)
        → wait_for_lock F sleep i p timeout_ms warning_ms (suc fuel) elapsed w
          ≡ some (last_result r, u)
        → (r ≡ ok false → timeout_ms ≤ elapsed)
        → HasWaited elapsed w (wait_for_lock F sleep i p timeout_ms warning_ms (suc fuel) elapsed w)
    ends_now fuel elapsed w u r h runs late = record {
      rounds = 0;
      last = w;
      final = u;
      outcome = r;
      waited = no_wait;
      last_attempt = h;
      is_result = runs;
      in_time = inl refl;
      not_early = λ e. omega (arith, late e);
    }

    first_round :
        IsFiles F
        → timeout_ms ≤ 4294967196
        → (fuel elapsed : ℕ) (w : World F)
        → GoesOn elapsed w
          ⊎ HasWaited elapsed w
              (wait_for_lock F sleep i p timeout_ms warning_ms (suc fuel) elapsed w)
    first_round laws short fuel elapsed w = elim (attempt-Ends F laws i p w) [
      | acquires s e _ ↦ inr (
          ends_now fuel elapsed w _ (ok true) e (wait_step fuel elapsed w _ (ok true) e)
            (λ h. cc h))
      | leaks s e _ ↦ inr (
          ends_now fuel elapsed w _ (close_failed F p) e
            (wait_step fuel elapsed w _ (close_failed F p) e) (λ h. cc h))
      | is_taken s e _ ↦ elim (Bool-cases (leb timeout_ms elapsed)) [
        | inr early ↦ inl (set_files F s w, e, early)
        | inl late ↦ inr (
            ends_now fuel elapsed w _ (ok false) e
              (wait_step fuel elapsed w _ (ok false) e
                ∙ expires
                    (wait_for_lock F sleep i p timeout_ms warning_ms fuel
                      ((elapsed + 100) % 2 ^ 32))
                    elapsed (set_files F s w) short late)
              (λ h. leb→le timeout_ms elapsed late))
      ]
    ]

    -- The time is far from the bound of its type.
    no_wrap :
        (elapsed : ℕ)
        → timeout_ms ≤ 4294967196
        → leb timeout_ms elapsed ≡ false
        → (elapsed + 100) % 2 ^ 32 ≡ elapsed + 100
    no_wrap elapsed short early = ground arith

    later_rounds :
        (fuel elapsed : ℕ) (w u : World F)
        → timeout_ms ≤ 4294967196
        → warning_ms ≢ 0
        → attempt F i p w ≡ some (ok false, u)
        → leb timeout_ms elapsed ≡ false
        → HasWaited
            (elapsed + 100)
            (sleep u)
            (wait_for_lock F sleep i p timeout_ms warning_ms fuel (elapsed + 100) (sleep u))
        → HasWaited elapsed w (wait_for_lock F sleep i p timeout_ms warning_ms (suc fuel) elapsed w)
    later_rounds fuel elapsed w u short warns e early h = record {
      rounds = suc h.rounds;
      last = h.last;
      final = h.final;
      outcome = h.outcome;
      waited = wait e h.waited;
      last_attempt = h.last_attempt;
      is_result =
          wait_step fuel elapsed w u (ok false) e
          ∙ (goes_on
                (wait_for_lock F sleep i p timeout_ms warning_ms fuel ((elapsed + 100) % 2 ^ 32))
                elapsed u short warns early
              ∙ (ap (λ n. wait_for_lock F sleep i p timeout_ms warning_ms fuel n (sleep u))
                    (no_wrap elapsed short early)
                  ∙ h.is_result));
      in_time =
          inr (elim h.in_time [ inl zero_rounds ↦ ground arith | inr soon ↦ omega (arith, soon) ]);
      not_early = λ k. omega (arith, h.not_early k);
    }

    wait_for_lock-HasWaited :
        IsFiles F
        → timeout_ms ≤ 4294967196
        → warning_ms ≢ 0
        → (fuel elapsed : ℕ) (w : World F) → timeout_ms ≤ elapsed + 100 * fuel
        → HasWaited elapsed w (wait_for_lock F sleep i p timeout_ms warning_ms (suc fuel) elapsed w)
    wait_for_lock-HasWaited laws short warns zero elapsed w enough =
        elim (first_round laws short zero elapsed w) [
          | inr ends ↦ ends
          | inl (u, e, early) ↦ absurd (ground arith)
        ]
    wait_for_lock-HasWaited laws short warns (suc fuel) elapsed w enough =
        elim (first_round laws short (suc fuel) elapsed w) [
          | inr ends ↦ ends
          | inl (u, e, early) ↦ later_rounds (suc fuel) elapsed w u short warns e early (
              wait_for_lock-HasWaited laws short warns fuel (elapsed + 100) (sleep u)
                (omega (arith, enough)))
        ]

module _ (F : Files) (sleep : World F → World F) (i : ℕ) (file : Text)
    (timeout_ms warning_ms : ℕ) where
  -- With a timeout of at most 4294967196 ms, a warning time that is not 0, and a round of fuel
  -- for each 100 ms of the timeout and one more, the constructor ends after failed attempts, each
  -- followed by a sleep, and one last attempt: it returns if that makes the lock file, throws
  -- that the timeout expired if the file cannot be made, and otherwise throws what the attempt
  -- threw. If there was a failed attempt before, 100 ms for each of these are less than the
  -- timeout and 100 ms; if the timeout expired, they are not less than it.
  pub construct-HasWaited :
      IsFiles F
      → timeout_ms ≤ 4294967196
      → warning_ms ≢ 0
      → (fuel : ℕ) (w : World F) → timeout_ms ≤ 100 * fuel
      → HasWaited F sleep i
          (convert_to_lockfile file)
          timeout_ms
          warning_ms
          0
          w
          (construct F (suc fuel) sleep i file timeout_ms warning_ms w)
  unfolding construct
  construct-HasWaited laws short warns fuel w enough =
      wait_for_lock-HasWaited F sleep i (convert_to_lockfile file) timeout_ms warning_ms laws short
        warns fuel 0 w (omega (arith, enough))
