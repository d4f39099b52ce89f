-- ===== src/Tests/FileLocks.antt =====
-- File locks where another process gives its lock back after some time.
use libsarus.Base.{
  ℕ, zero, suc, Text, codes, Bool, true, false, not, ◌||◌, List, [], ◌∷◌, ◌==◌, ==_iff, none, some,
  ◌≡◌, refl, arith,
}
use libsarus.Error.{ok}
use libsarus.FileLocks.{
  Flock, read_lock, write_lock, Descriptors, World, try_flock, open_and_flock,
  acquire_lock_atomically, destroy, move_construct, convert_to_type, expired,
  timed_lock_acquisition,
}
use libsarus.FileLocks.Conversion.{convert_to_type_again}
use libsarus.FileLocks.Moves.{IsDescriptors, moved_lock_closed}
use libsarus.FileLocks.Timeout.{IsOutcome, timed_lock_acquisition-IsOutcome}

-- The closed descriptors, and the sleeps that the other process still needs.
record Busy : Type 0 where
  closed : List ℕ
  sleeps : ℕ

abbrev holds : List ℕ → ℕ → Bool
holds [] fd = false
holds (c ∷ cs) fd = (c == fd) || holds cs fd

abbrev gets : ℕ → Bool
gets n = n == 0

abbrev one_less : ℕ → ℕ
one_less zero = zero
one_less (suc n) = n

abbrev busy : Descriptors
busy = record {
  State = Busy;
  is_open = λ s fd. not (holds s.closed fd);
  open_file = λ p flags mode s. (some 3, s);
  flock = λ fd op s. (gets s.sleeps, s);
  close = λ fd s. (true, record s { closed = fd ∷ s.closed });
}

abbrev sleep : Busy → Busy
sleep s = record s { sleeps = one_less s.sleeps }

busy-IsDescriptors : IsDescriptors busy
busy-IsDescriptors = record { close-is_open = λ fd s. rw ((==_iff fd fd).1 refl) refl }

abbrev path : Text
path = codes "/run/store"

abbrev waiting : ℕ → World busy
waiting n = record {
  lock = record {
    lockfile = some path;
    lock_type = read_lock;
    file_fd = none;
    timeout_time = some 250;
    warning_time = 100;
  };
  kernel = record { closed = []; sleeps = n };
}

timed_lock_acquisition-IsOutcome_example :
    IsOutcome busy sleep path 250 (timed_lock_acquisition busy sleep 4 0 (waiting 2))
timed_lock_acquisition-IsOutcome_example =
    timed_lock_acquisition-IsOutcome busy sleep path 250 3 0 (waiting 2)
      (record { has_path = refl; has_timeout = refl; warns = λ h. omega (arith, h) }) (omega arith)

-- After the failed conversion.
abbrev failed : World busy
failed = record {
  lock = record {
    lockfile = some path;
    lock_type = write_lock;
    file_fd = some 3;
    timeout_time = some 250;
    warning_time = 100;
  };
  kernel = record { closed = []; sleeps = 6 };
}

conversion_fails :
    convert_to_type busy sleep 4 write_lock (waiting 9) ≡ some (expired busy failed.lock, failed)
unfolding convert_to_type timed_lock_acquisition acquire_lock_atomically open_and_flock try_flock
conversion_fails = refl

convert_to_type_again_example :
    convert_to_type busy sleep 0 write_lock failed ≡ some (ok tt, failed)
convert_to_type_again_example =
    convert_to_type_again busy sleep 4 0 write_lock (waiting 9) failed _ conversion_fails

moved_lock_closed_example :
    (new : Flock) × (moved : Flock) × (move_construct busy [] failed.lock ≡ some (new, moved))
    × (new.file_fd ≡ some 3)
    × ((k : Busy) → busy.is_open (destroy busy moved k) 3 ≡ false)
moved_lock_closed_example =
    moved_lock_closed busy busy-IsDescriptors [] path failed.lock 3 refl refl
