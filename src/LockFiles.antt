-- ===== src/LockFiles.antt =====
-- src/Lockfile.cpp and include/libsarus/Lockfile.hpp: exclusive access by lock files. The objects of
-- all processes stand in one store: an object is a number, and its member `lockfile` is what the
-- store holds there. The parameters are the calls of the file system and what happens while a
-- constructor sleeps. What is logged is left out.
pub mod Attempts
pub mod Steps
pub mod Exclusive
pub mod Waiting
pub mod Owners
use libsarus.Base.{
  ℕ, zero, suc, ◌+◌, ◌%◌, ◌^◌, Text, codes, leb, Bool, true, false, not, ◌&&◌, ◌==◌, ◌++◌,
  if◌then◌else◌, Option, none, some, ◌≡◌, ◌≢◌,
}
use libsarus.Error.{Result, ok, throws, throw_error, Exception, format, text, number, end}
use libsarus.System.Monad.{M, ◌>>=◌, ◌>>◌, pure, raise}

pub record Files : Type 1 where
  pub State : Type 0
  pub exists : State → Text → Bool
  -- open(2) with O_CREAT | O_EXCL: a descriptor, or `none` for -1
  pub open_exclusive : Text → State → Option ℕ × State
  -- whether close(2) succeeded
  pub close : ℕ → State → Bool × State
  -- `boost::filesystem::remove`
  pub remove : Text → State → Result Bool × State

-- What the manual pages say of these calls. Different texts name different files.
pub record IsFiles (F : Files) : Type 0 where
  -- the call succeeds only if it makes the file
  pub open_created :
      (p : Text) (s : F.State) (fd : ℕ)
      → (F.open_exclusive p s).0 ≡ some fd
      → (F.exists s p ≡ false) × (F.exists (F.open_exclusive p s).1 p ≡ true)
  pub open_others :
      (p q : Text) (s : F.State) → q ≢ p → F.exists (F.open_exclusive p s).1 q ≡ F.exists s q
  pub open_failed :
      (p q : Text) (s : F.State)
      → (F.open_exclusive p s).0 ≡ none
      → F.exists (F.open_exclusive p s).1 q ≡ F.exists s q
  pub close-exists : (fd : ℕ) (q : Text) (s : F.State) → F.exists (F.close fd s).1 q ≡ F.exists s q
  pub remove_others :
      (p q : Text) (s : F.State) → q ≢ p → F.exists (F.remove p s).1 q ≡ F.exists s q
  pub remove_failed :
      (p q : Text) (s : F.State) (e : Exception)
      → (F.remove p s).0 ≡ throws e
      → F.exists (F.remove p s).1 q ≡ F.exists s q

-- `std::numeric_limits<unsigned int>::max()`.
abbrev pub no_timeout : ℕ
no_timeout = 4294967295

unfoldable pub convert_to_lockfile : Text → Text
convert_to_lockfile file = file ++ codes ".lock"

module _ (F : Files) where
  -- The files, and the member `lockfile` of each object.
  pub record World : Type 0 where
    pub files : F.State
    pub members : ℕ → Option Text

  abbrev pub set_files : F.State → World → World
  set_files s w = record w { files = s }

  abbrev pub set_member : ℕ → Option Text → World → World
  set_member i m w = record { files = w.files; members = λ j. if j == i then m else w.members j }

  abbrev pub close_failed : Text → Result Bool
  close_failed lockfile =
      throw_error "createLockfileAtomically"
        (format "failed to close file descriptor of lockfile %s" (text lockfile end))

  abbrev close_created : Text → ℕ → M World Bool
  close_created lockfile fd w =
      let (closed, s) = F.close fd w.files in
      some ((if not closed then close_failed lockfile else ok true), set_files s w)

  unfoldable pub create_lockfile_atomically : Text → M World Bool
  create_lockfile_atomically lockfile w =
      let (fd, s) = F.open_exclusive lockfile w.files in
      elim fd [
        | none ↦ some (ok false, set_files s w)
        | some d ↦ close_created lockfile d (set_files s w)
      ]

  -- An attempt of the constructor of an object. Once it succeeds the constructor returns, and only
  -- then the object's destructor will run: from then on the object owns the file.
  unfoldable pub attempt : ℕ → Text → M World Bool
  attempt i lockfile = do
    acquired ← create_lockfile_atomically lockfile
    λ w. some (ok acquired, if acquired then set_member i (some lockfile) w else w)

  -- The constructor; each round takes one unit of fuel. The times are of type `unsigned int`, and
  -- `none` also stands for the remainder by zero, which is not defined.
  module _ (sleep : World → World) (i : ℕ) (lockfile : Text) (timeout_ms warning_ms : ℕ) where
    abbrev pub expired : Result (Unit {0})
    expired = throw_error "Lockfile" (
        format "Failed to acquire lock on file %s (expired timeout of %d milliseconds)"
          (text lockfile (number timeout_ms end)))

    -- After a failed attempt.
    abbrev pub wait_on : M World (Unit {0}) → ℕ → M World (Unit {0})
    wait_on next elapsed w =
        if not (timeout_ms == no_timeout) && leb timeout_ms elapsed
        then some (expired, w)
        else if warning_ms == 0
        then none
        else next (sleep w)

    unfoldable pub wait_for_lock : ℕ → ℕ → M World (Unit {0})
    wait_for_lock zero elapsed_time_ms w = none
    wait_for_lock (suc fuel) elapsed_time_ms w =
        let next = wait_for_lock fuel ((elapsed_time_ms + 100) % 2 ^ 32) in
        (attempt i lockfile >>= λ acquired.
        if acquired then pure tt else wait_on next elapsed_time_ms)
          w

  unfoldable pub construct : ℕ → (World → World) → ℕ → Text → ℕ → ℕ → M World (Unit {0})
  construct fuel sleep i file timeout_ms warning_ms =
      wait_for_lock sleep i (convert_to_lockfile file) timeout_ms warning_ms fuel 0

  -- The move constructor of a new object `i`. The message reads `*rhs.lockfile`, which is not
  -- defined for an object without a lock file.
  unfoldable pub move_construct : ℕ → ℕ → M World (Unit {0})
  move_construct i rhs w = elim (w.members rhs) [
    | none ↦ none
    | some lockfile ↦ some (ok tt, set_member rhs none (set_member i (some lockfile) w))
  ]

  unfoldable pub remove_own : Option Text → M World (Unit {0})
  remove_own none w = some (ok tt, w)
  remove_own (some lockfile) w =
      let (removed, s) = F.remove lockfile w.files in
      some (elim removed [ ok b ↦ ok tt | throws e ↦ throws e ], set_files s w)

  -- The move assignment, of an object to itself too.
  unfoldable pub move_assign : ℕ → ℕ → M World (Unit {0})
  move_assign i rhs w = elim (w.members rhs) [
    | none ↦ none
    | some lockfile ↦
        (remove_own (w.members i) >>= λ done.
        λ w'. some (ok tt, set_member rhs none (set_member i (w'.members rhs) w')))
          w
  ]

  -- The destructor, after which there is no object. Where it throws the program is terminated.
  unfoldable pub destroy : ℕ → M World (Unit {0})
  destroy i w = (remove_own (w.members i) >>= λ done. λ w'. some (ok tt, set_member i none w')) w
