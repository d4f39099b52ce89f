-- ===== src/LockFiles/Steps.antt =====
-- The steps of the processes that use lock files, in any order.
use libsarus.Base.{ℕ, Text, Bool, true, none, some, ◌≡◌}
use libsarus.Error.{Result}
use libsarus.LockFiles.{Files, World, set_files, attempt, move_construct, move_assign, destroy}

module _ (F : Files) where
  -- A step of an object ends, by returning or by throwing; or another program changes the files and
  -- removes none.
  pub data Step : World F → World F → Type 0 where
    attempts :
        {w w' : World F} (i : ℕ) (lockfile : Text) (r : Result Bool)
        → w.members i ≡ none
        → attempt F i lockfile w ≡ some (r, w')
        → Step w w'
    move_constructs :
        {w w' : World F} (i rhs : ℕ) (r : Result (Unit {0}))
        → w.members i ≡ none
        → move_construct F i rhs w ≡ some (r, w')
        → Step w w'
    move_assigns :
        {w w' : World F} (i rhs : ℕ) (r : Result (Unit {0}))
        → move_assign F i rhs w ≡ some (r, w')
        → Step w w'
    destroys :
        {w w' : World F} (i : ℕ) (r : Result (Unit {0})) → destroy F i w ≡ some (r, w') → Step w w'
    others :
        {w : World F} (s : F.State)
        → ((p : Text) → F.exists w.files p ≡ true → F.exists s p ≡ true)
        → Step w (set_files F s w)

  pub data Reaches : World F → World F → Type 0 where
    done : {w : World F} → Reaches w w
    next : {u v w : World F} → Step u v → Reaches v w → Reaches u w

  pub Reaches-trans : {u v w : World F} → Reaches u v → Reaches v w → Reaches u w
  Reaches-trans done k = k
  Reaches-trans (next s h) k = next s (Reaches-trans h k)
