-- ===== src/FileLocks.antt =====
-- src/Flock.cpp and include/libsarus/Flock.hpp: shared and exclusive access by flock(2). The
-- parameters are the calls on descriptors and what happens while an object sleeps. What is logged is
-- left out. `none` stands for lack of fuel, for reading a path that is not there, and for the
-- remainder by zero, which are not defined.
pub mod Conversion
pub mod Moves
pub mod Timeout
use libsarus.Base.{
  ℕ, zero, suc, ◌+◌, Text, leb, Bool, true, false, not, ◌==◌, if◌then◌else◌, Option, none, some,
  ◌≡◌,
}
use libsarus.Error.{Result, ok, throw_error, format, text, number, end}
use libsarus.System.Monad.{M, ◌>>=◌, ◌>>◌, pure, raise}

pub data LockType : Type 0 where
  read_lock write_lock : LockType

abbrev pub same_type : LockType → LockType → Bool
same_type read_lock read_lock = true
same_type write_lock write_lock = true
same_type _ _ = false

-- A negative `fileFd` is `none`, and so is the timeout `noTimeout`, which is the -1 that the largest
-- unsigned number becomes. Times are in milliseconds; other negative ones, and the overflow of the
-- time elapsed after 2^63 of them, are left out.
pub record Flock : Type 0 where
  pub lockfile : Option Text
  pub lock_type : LockType
  pub file_fd : Option ℕ
  pub timeout_time : Option ℕ
  pub warning_time : ℕ

unfoldable pub default_flock : Flock
default_flock = record {
  lockfile = none;
  lock_type = read_lock;
  file_fd = none;
  timeout_time = none;
  warning_time = 1000;
}

pub record Descriptors : Type 1 where
  pub State : Type 0
  -- whether a descriptor of the process is open
  pub is_open : State → ℕ → Bool
  -- open(2) with flags and mode: a descriptor, or `none` for -1
  pub open_file : Text → ℕ → ℕ → State → Option ℕ × State
  -- these return whether they succeeded
  pub flock : ℕ → ℕ → State → Bool × State
  pub close : ℕ → State → Bool × State

-- LOCK_SH, LOCK_EX, LOCK_NB, LOCK_UN; O_RDONLY, O_RDWR.
abbrev pub lock_sh : ℕ
lock_sh = 1

abbrev pub lock_ex : ℕ
lock_ex = 2

abbrev pub lock_nb : ℕ
lock_nb = 4

abbrev pub lock_un : ℕ
lock_un = 8

abbrev pub o_rdonly : ℕ
o_rdonly = 0

abbrev pub o_rdwr : ℕ
o_rdwr = 2

-- The mode of opening and the operation.
unfoldable pub get_flock_flags : LockType → ℕ × ℕ
get_flock_flags read_lock = (o_rdonly, lock_sh)
get_flock_flags write_lock = (o_rdwr, lock_ex)

module _ (D : Descriptors) where
  -- An object and the rest of the system.
  pub record World : Type 0 where
    pub lock : Flock
    pub kernel : D.State

  abbrev pub set_kernel : D.State → World → World
  set_kernel k w = record w { kernel = k }

  abbrev pub set_fd : ℕ → World → World
  set_fd fd w = let l = w.lock in record w { lock = record l { file_fd = some fd } }

  abbrev pub set_type : LockType → World → World
  set_type t w = let l = w.lock in record w { lock = record l { lock_type = t } }

  -- `operation | LOCK_NB`; the bits are different ones.
  unfoldable pub try_flock : ℕ → M World Bool
  try_flock fd w =
      let (locked, k) = D.flock fd ((get_flock_flags w.lock.lock_type).1 + lock_nb) w.kernel in
      some (ok locked, set_kernel k w)

  -- `open(path, 0, openMode)`: the mode of opening stands where the permissions of a new file do.
  unfoldable pub open_and_flock : Text → M World Bool
  open_and_flock path w =
      let (fd, k) = D.open_file path 0 (get_flock_flags w.lock.lock_type).0 w.kernel in
      elim fd [
        | none ↦ some (ok false, set_kernel k w)
        | some d ↦ try_flock d (set_fd d (set_kernel k w))
      ]

  -- An object that has no path reads one that is not there.
  abbrev pub acquire_with : Option Text → Option ℕ → M World Bool
  acquire_with none fd w = none
  acquire_with (some path) none w = open_and_flock path w
  acquire_with (some path) (some fd) w = try_flock fd w

  unfoldable pub acquire_lock_atomically : M World Bool
  acquire_lock_atomically w = acquire_with w.lock.lockfile w.lock.file_fd w

  abbrev pub is_expired : Option ℕ → ℕ → Bool
  is_expired none elapsed = false
  is_expired (some t) elapsed = leb t elapsed

  abbrev pub or_zero : Option ℕ → ℕ
  or_zero none = 0
  or_zero (some t) = t

  abbrev path_of : Option Text → Text
  path_of none = libsarus.Base.[]
  path_of (some p) = p

  abbrev pub expired : Flock → Result (Unit {0})
  expired l = throw_error "timedLockAcquisition" (
      format "Failed to acquire lock on file %s (expired timeout of %d milliseconds)"
        (text (path_of l.lockfile) (number (or_zero l.timeout_time) end)))

  module _ (sleep : D.State → D.State) where
    -- After a failed attempt.
    abbrev pub wait_on : M World (Unit {0}) → ℕ → M World (Unit {0})
    wait_on next elapsed w =
        if is_expired w.lock.timeout_time elapsed
        then some (expired w.lock, w)
        else if w.lock.warning_time == 0
        then none
        else next (set_kernel (sleep w.kernel) w)

    -- A round takes one unit of fuel.
    unfoldable pub timed_lock_acquisition : ℕ → ℕ → M World (Unit {0})
    timed_lock_acquisition zero elapsed_time w = none
    timed_lock_acquisition (suc fuel) elapsed_time w =
        let next = timed_lock_acquisition fuel (elapsed_time + 100) in
        (acquire_lock_atomically >>= λ acquired.
        if acquired then pure tt else wait_on next elapsed_time)
          w

    unfoldable pub convert_to_type : ℕ → LockType → M World (Unit {0})
    convert_to_type fuel type w =
        let acquired = timed_lock_acquisition fuel 0 (set_type type w) in
        if not (same_type type w.lock.lock_type) then acquired else some (ok tt, w)

    -- The constructor, from the members that it is given.
    unfoldable pub construct :
        ℕ → Text → LockType → Option ℕ → ℕ → D.State → Option (Result (Unit {0}) × World)
    construct fuel file type timeout_ms warning_ms k = timed_lock_acquisition fuel 0 (record {
      lock = record {
        lockfile = some file;
        lock_type = type;
        file_fd = none;
        timeout_time = timeout_ms;
        warning_time = warning_ms;
      };
      kernel = k;
    })

  -- Unlocks and closes the descriptor, which stays in the member.
  unfoldable pub release : Flock → D.State → D.State
  release l k = elim l.file_fd [
    | none ↦ k
    | some fd ↦ (D.close fd (D.flock fd (lock_un + lock_nb) k).1).1
  ]

  -- The destructor.
  unfoldable pub destroy : Flock → D.State → D.State
  destroy l k = release l k

  -- The move constructor: the new object, and what it leaves of the other. The path is moved, to
  -- leave a text that is not specified; the descriptor is a number, which is copied.
  unfoldable pub move_construct : Text → Flock → Option (Flock × Flock)
  move_construct unspecified rhs = elim rhs.lockfile [
    | none ↦ none
    | some path ↦ some (rhs, record rhs { lockfile = some unspecified })
  ]

  -- The move assignment between two objects.
  unfoldable pub move_assign : Text → Flock → Flock → D.State → Option (Flock × Flock × D.State)
  move_assign unspecified this rhs k = elim rhs.lockfile [
    | none ↦ none
    | some path ↦ some (rhs, record rhs { lockfile = some unspecified }, release this k)
  ]
