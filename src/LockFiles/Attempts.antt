-- ===== src/LockFiles/Attempts.antt =====
-- How an attempt to make a lock file ends.
use libsarus.Base.{
  if◌then◌else◌, ℕ, Text, text_eq, text_eq_iff, Bool, true, false, some, Option-cases, Bool-cases,
  inl, inr, ◌≡◌, ◌≢◌, refl, ap, ◌∙◌,
}
use libsarus.Error.{Result, ok, throws}
use libsarus.System.Monad.{◌>>=◌}
use libsarus.LockFiles.{
  Files, IsFiles, World, set_files, set_member, close_failed, create_lockfile_atomically, attempt,
}

module _ (F : Files) where
  -- The lock file is new, and the other files are as they were.
  abbrev pub IsNew : Text → F.State → F.State → Type 0
  IsNew p s s' =
      (F.exists s p ≡ false)
      × (F.exists s' p ≡ true)
      × ((q : Text) → q ≢ p → F.exists s' q ≡ F.exists s q)

  abbrev pub Grows : F.State → F.State → Type 0
  Grows s s' = (p : Text) → F.exists s p ≡ true → F.exists s' p ≡ true

  pub IsNew-Grows : (p : Text) (s s' : F.State) → IsNew p s s' → Grows s s'
  IsNew-Grows p s s' (fresh, made, same) q there = elim (Bool-cases (text_eq q p)) [
    | inl e ↦ ap (F.exists s') ((text_eq_iff q p).0 e) ∙ made
    | inr e ↦ same q (λ is. cc (e, (text_eq_iff q p).1 is)) ∙ there
  ]

  -- The file is made and owned, or it cannot be made, or it is made and then close(2) fails.
  pub data Ends (i : ℕ) (p : Text) (w : World F) : Type 0 where
    acquires :
        (s : F.State)
        → attempt F i p w ≡ some (ok true, set_member F i (some p) (set_files F s w))
        → IsNew p w.files s
        → Ends i p w
    is_taken :
        (s : F.State)
        → attempt F i p w ≡ some (ok false, set_files F s w)
        → Grows w.files s
        → Ends i p w
    leaks :
        (s : F.State)
        → attempt F i p w ≡ some (close_failed F p, set_files F s w)
        → IsNew p w.files s
        → Ends i p w

  attempt_step :
      (i : ℕ) (p : Text) (w : World F) (r : Result Bool) (s : F.State)
      → create_lockfile_atomically F p w ≡ some (r, set_files F s w)
      → attempt F i p w ≡ (elim r [
        | ok acquired ↦ some (
          ok acquired,
          if acquired then set_member F i (some p) (set_files F s w) else set_files F s w,
        )
        | throws e ↦ some (throws e, set_files F s w)
      ])
  unfolding attempt
  attempt_step i p w r s h = rw (h, attempt, ◌>>=◌) refl

  module _ (laws : IsFiles F) where
    pub attempt-Ends : (i : ℕ) (p : Text) (w : World F) → Ends i p w
    unfolding create_lockfile_atomically
    attempt-Ends i p w =
        let s1 : F.State = (F.open_exclusive p w.files).1 in
        elim (Option-cases (F.open_exclusive p w.files).0) [
          | inl e ↦
              is_taken s1
                (attempt_step i p w (ok false) s1 (rw (e, create_lockfile_atomically) refl))
                (λ q there. laws.open_failed p q w.files e ∙ there)
          | inr (fd, e) ↦
              let s2 : F.State = (F.close fd s1).1 in
              let (fresh, made) = laws.open_created p w.files fd e in
              let is_new : IsNew p w.files s2 = (
                fresh,
                laws.close-exists fd p s1 ∙ made,
                λ q other. laws.close-exists fd q s1 ∙ laws.open_others p q w.files other,
              ) in
              elim (Bool-cases (F.close fd s1).0) [
                | inl closed ↦
                    acquires s2
                      (attempt_step i p w (ok true) s2
                        (rw (e, create_lockfile_atomically, closed) refl))
                      is_new
                | inr failed ↦
                    leaks s2
                      (attempt_step i p w (close_failed F p) s2
                        (rw (e, create_lockfile_atomically, failed) refl))
                      is_new
              ]
        ]
