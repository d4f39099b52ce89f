-- ===== src/ScopedPaths.antt =====
-- src/PathRAII.cpp: an object that removes its path at the end. The parameters are the calls of
-- `boost::filesystem`, which may throw. An exception of a destructor ends the program: there it is
-- the result of the operation.
pub mod Removal
use libsarus.Base.{ℕ, zero, suc, Text, Bool, true, false, if◌then◌else◌, Option, none, some}
use libsarus.Error.{Result, ok, throws, rethrow_error, format, end}
use libsarus.Filesystem.Status.{StatResult, is_symlink}
use libsarus.System.Monad.{M, ◌>>=◌, ◌>>◌, pure, raise, reads}

pub record PathRaii : Type 0 where
  pub path : Option Text

pub record Trees : Type 1 where
  pub State : Type 0
  pub Iterator : Type 0
  pub exists : State → Text → Result Bool
  pub is_regular_file : State → Text → Result Bool
  pub lstat : State → Text → StatResult
  -- adds the permissions of the owner to write and to search
  pub add_permissions : Text → State → Result (Unit {0}) × State
  pub remove_all : Text → State → Result (Unit {0}) × State
  -- `recursive_directory_iterator`; no entry is the end
  pub recursive_iterator : State → Text → Result Iterator
  pub entry : State → Iterator → Option Text
  pub increment : State → Iterator → Result Iterator

abbrev pub empty : PathRaii
empty = record { path = none }

-- The new object, and what it leaves of the other.
unfoldable pub move_construct : PathRaii → PathRaii × PathRaii
move_construct rhs = (record { path = rhs.path }, empty)

-- Between two objects; what the left one held is dropped.
unfoldable pub move_assign : PathRaii → PathRaii → PathRaii × PathRaii
move_assign this rhs = (record { path = rhs.path }, empty)

-- Of an object to itself.
unfoldable pub move_assign_self : PathRaii → PathRaii
move_assign_self this = empty

unfoldable pub release : PathRaii → PathRaii
release this = empty

module _ (T : Trees) where
  abbrev pub called : (T.State → Result (Unit {0}) × T.State) → M T.State (Unit {0})
  called call s = some (call s)

  -- The parameter is what the assignment of the path to the member throws, if it does.
  unfoldable pub construct : Text → Result Text → M T.State PathRaii
  construct path (ok p) = pure (record { path = some p })
  construct path (throws e) = do
    called (T.remove_all path)
    raise (
        throws
          (rethrow_error e "PathRAII" (format "Failed to initialize PathRAII's path member" end)))

  abbrev pub permit : Bool → Text → M T.State (Unit {0})
  permit true p = pure tt
  permit false p = called (T.add_permissions p)

  -- A step of the iteration takes one unit of fuel.
  unfoldable pub permit_entries : ℕ → T.Iterator → M T.State (Unit {0})
  permit_entries zero it s = none
  permit_entries (suc fuel) it s =
      let rest = permit_entries fuel in
      elim (T.entry s it) [
        | none ↦ some (ok tt, s)
        | some p ↦
            (permit (is_symlink (T.lstat s) p) p >> (reads (λ t. T.increment t it) >>= rest)) s
      ]

  abbrev pub permit_below : Bool → ℕ → Text → M T.State (Unit {0})
  permit_below true fuel p = pure tt
  permit_below false fuel p = reads (λ s. T.recursive_iterator s p) >>= permit_entries fuel

  unfoldable pub set_files_as_removable_by_owner : ℕ → Text → M T.State (Unit {0})
  set_files_as_removable_by_owner fuel p = do
    called (T.add_permissions p)
    regular ← reads (λ s. T.is_regular_file s p)
    permit_below regular fuel p

  abbrev pub remove_if : Bool → ℕ → Text → M T.State (Unit {0})
  remove_if false fuel p = pure tt
  remove_if true fuel p = do set_files_as_removable_by_owner fuel p; called (T.remove_all p)

  abbrev pub remove_path : Option Text → ℕ → M T.State (Unit {0})
  remove_path none fuel = pure tt
  remove_path (some p) fuel = do there ← reads (λ s. T.exists s p); remove_if there fuel p

  -- The destructor.
  unfoldable pub destroy : ℕ → PathRaii → M T.State (Unit {0})
  destroy fuel this = remove_path this.path fuel
