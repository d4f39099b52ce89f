-- ===== src/FileLocks/Moves.antt =====
-- What becomes of a lock that was moved.
use libsarus.Base.{ℕ, Text, false, some, ◌≡◌, refl}
use libsarus.FileLocks.{Flock, Descriptors, destroy, release, move_construct}

-- close(2) frees the descriptor, whether it reports success or not.
pub record IsDescriptors (D : Descriptors) : Type 0 where
  pub close-is_open : (fd : ℕ) (s : D.State) → D.is_open (D.close fd s).1 fd ≡ false

module _ (D : Descriptors) (laws : IsDescriptors D) where
  release-closes :
      (l : Flock) (fd : ℕ) (k : D.State)
      → l.file_fd ≡ some fd
      → D.is_open (destroy D l k) fd ≡ false
  unfolding destroy release
  release-closes l fd k e = rw e (laws.close-is_open fd _)

  -- If close(2) frees a descriptor: after a move construction from an object with a path and a
  -- descriptor, the new object has the descriptor, and whenever the destructor of the object that
  -- was moved runs, the descriptor is closed afterwards.
  pub moved_lock_closed :
      (unspecified path : Text) (rhs : Flock) (fd : ℕ)
      → rhs.lockfile ≡ some path
      → rhs.file_fd ≡ some fd
      → (new : Flock) × (moved : Flock) × (move_construct D unspecified rhs ≡ some (new, moved))
        × (new.file_fd ≡ some fd)
        × ((k : D.State) → D.is_open (destroy D moved k) fd ≡ false)
  unfolding move_construct
  moved_lock_closed unspecified path rhs fd named owns = (
    rhs,
    record rhs { lockfile = some unspecified },
    rw named refl,
    owns,
    λ k. release-closes (record rhs { lockfile = some unspecified }) fd k owns,
  )
