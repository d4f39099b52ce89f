-- ===== src/LockFiles/Owners.antt =====
-- An object that was constructed is the only owner of its lock file.
use libsarus.Base.{
  ℕ, zero, suc, ◌+◌, ◌%◌, ◌^◌, Text, leb, true, false, not, ◌&&◌, ◌==◌, ==_iff, Option, none, some,
  Bool-cases, inl, inr, ◌⊎◌, ◌≡◌, refl, ◌∙◌,
}
use libsarus.Error.{Result, ok}
use libsarus.System.Monad.{◌>>=◌}
use libsarus.LockFiles.{
  Files, IsFiles, World, set_files, set_member, no_timeout, close_failed, expired, wait_on,
  wait_for_lock, construct, convert_to_lockfile,
}
use libsarus.LockFiles.Attempts.{acquires, is_taken, leaks, attempt-Ends}
use libsarus.LockFiles.Steps.{attempts, Reaches, done, next, Reaches-trans}
use libsarus.LockFiles.Exclusive.{IsExclusive, Reaches-IsExclusive}

module _ (F : Files) (sleep : World F → World F) (i : ℕ) where
  -- While the constructor sleeps the others take steps, and none of them makes the object.
  pub record IsSleep : Type 0 where
    pub sleep-Reaches : (w : World F) → Reaches F w (sleep w)
    pub sleep-members : (w : World F) → (sleep w).members i ≡ w.members i

  module _ (p : Text) (timeout_ms warning_ms : ℕ) (laws : IsFiles F) (others : IsSleep) where
    -- What holds of a world in which the constructor ends.
    abbrev Constructs : World F → Result (Unit {0}) → World F → Type 0
    Constructs w r w' = Reaches F w w' × (r ≡ ok tt → w'.members i ≡ some p)

    own_member : (w : World F) → (set_member F i (some p) w).members i ≡ some p
    own_member w = rw ((==_iff i i).1 refl) refl

    wait_on-cases :
        (rest : World F → Option (Result (Unit {0}) × World F)) (elapsed : ℕ) (u w' : World F)
        (r : Result (Unit {0}))
        → wait_on F sleep i p timeout_ms warning_ms rest elapsed u ≡ some (r, w')
        → ((r ≡ expired F sleep i p timeout_ms warning_ms) × (w' ≡ u))
          ⊎ (rest (sleep u) ≡ some (r, w'))
    wait_on-cases rest elapsed u w' r h =
        elim (Bool-cases (not (timeout_ms == no_timeout) && leb timeout_ms elapsed)) [
          | inl e ↦ inl (cc (rw e at h), cc (rw e at h))
          | inr e ↦ elim (Bool-cases (warning_ms == 0)) [
            | inl undefined ↦ cc (rw (e, undefined) at h)
            | inr defined ↦ inr (rw (e, defined) at h)
          ]
        ]

    wait_for_lock-Constructs :
        (fuel elapsed : ℕ) (w w' : World F) (r : Result (Unit {0}))
        → w.members i ≡ none
        → wait_for_lock F sleep i p timeout_ms warning_ms fuel elapsed w ≡ some (r, w')
        → Constructs w r w'
    unfolding wait_for_lock
    wait_for_lock-Constructs zero elapsed w w' r empty h = absurd (cc h)
    wait_for_lock-Constructs (suc fuel) elapsed w w' r empty h = elim (attempt-Ends F laws i p w) [
      | acquires s e _ ↦
          let is : w' ≡ set_member F i (some p) (set_files F s w) = cc (rw (e, ◌>>=◌) at h) in
          (
            rw is (next (attempts i p (ok true) empty e) done),
            λ _. rw is (own_member (set_files F s w)),
          )
      | leaks s e _ ↦
          let is : w' ≡ set_files F s w = cc (rw (e, ◌>>=◌) at h) in
          (
            rw is (next (attempts i p (close_failed F p) empty e) done),
            λ k. cc (k, rw (e, ◌>>=◌) at h),
          )
      | is_taken s e _ ↦
          let u : World F = set_files F s w in
          let first : Reaches F w u = next (attempts i p (ok false) empty e) done in
          elim (wait_on-cases
            (wait_for_lock F sleep i p timeout_ms warning_ms fuel ((elapsed + 100) % 2 ^ 32))
            elapsed u w' r (rw (e, ◌>>=◌) at h)) [
              | inl (late, is) ↦ (rw is first, λ k. cc (k, late))
              | inr rest ↦
                  let (reaches, owns) =
                    wait_for_lock-Constructs fuel ((elapsed + 100) % 2 ^ 32) (sleep u) w' r
                      (others.sleep-members u ∙ empty) rest in
                  (Reaches-trans F (Reaches-trans F first (others.sleep-Reaches u)) reaches, owns)
            ]
    ]

  -- When the constructor of an object that has no lock file returns, the object owns the lock
  -- file, that exists, and no other object owns it. Before, each owned lock file existed and none
  -- had two owners; while the constructor sleeps, the others take any steps, and none of these
  -- concerns the member of this object.
  pub construct_owner :
      IsFiles F
      → IsSleep
      → (fuel : ℕ) (file : Text) (timeout_ms warning_ms : ℕ) (w w' : World F) → IsExclusive F w
      → w.members i ≡ none
      → construct F fuel sleep i file timeout_ms warning_ms w ≡ some (ok tt, w')
      → (w'.members i ≡ some (convert_to_lockfile file))
        × (F.exists w'.files (convert_to_lockfile file) ≡ true)
        × ((j : ℕ) → w'.members j ≡ some (convert_to_lockfile file) → j ≡ i)
  unfolding construct
  construct_owner laws others fuel file timeout_ms warning_ms w w' x empty h =
      let (reaches, owns) =
        wait_for_lock-Constructs (convert_to_lockfile file) timeout_ms warning_ms laws others fuel 0
          w w' (ok tt) empty h in
      let x' = Reaches-IsExclusive F laws reaches x in
      let own = owns refl in (own, x'.owned_exists i _ own, λ j other. x'.one_owner j i _ other own)
