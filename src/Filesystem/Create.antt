-- ===== src/Filesystem/Create.antt =====
-- src/utility/filesystem.cpp: `setOwner`, `createFoldersIfNecessary` and `createFileIfNecessary`.
-- The assertion of `setOwner` and what is logged are left out; a failed chown(2) is not reported,
-- as in the source.
pub mod Ownership
use libsarus.Base.{
  ℕ, Text, Bool, true, false, not, ◌||◌, ◌==◌, if◌then◌else◌, List, [], ◌∷◌, ◌^◌, ◌-◌,
}
use libsarus.Error.{
  Result, ok, throws, throw_error, rethrow_error, catch_exception, format, text, end,
}
use libsarus.Filesystem.Paths.{PathOps}
use libsarus.System.{System}
use libsarus.System.Monad.{M, ◌>>=◌, ◌>>◌, pure, raise, reads}

-- `static_cast<uid_t>(-1)`.
abbrev pub no_id : ℕ
no_id = 4294967295

module _ (ops : PathOps) (S : System) where
  open S use {State, exists, is_directory, create_directory, chown, create_file}

  abbrev change_owner : Text → ℕ → ℕ → M State (Unit {0})
  change_owner path uid gid s = pure tt (chown path uid gid s).1

  abbrev require : Bool → Result (Unit {0}) → M State (Unit {0})
  require true failure = pure tt
  require false failure = raise failure

  unfoldable pub set_owner : Text → ℕ → ℕ → M State (Unit {0})
  set_owner path uid gid = if uid == no_id || gid == no_id then pure tt else do
    there ← reads (λ s. exists s path)
    require there (
        throw_error "setOwner"
          (format "attempted to change ownership of non existing path %s" (text path end)))
    change_owner path uid gid

  -- `create_directory`, with its exceptions rethrown.
  abbrev make_directory : Text → M State Bool
  make_directory path s =
      let (r, s') = create_directory path s in
      raise
        (catch_exception r (λ e. throws (
          rethrow_error e "createFoldersIfNecessary"
            (format "Failed to create directory %s" (text path end)))))
        s'

  -- The check after another process may have created the directory.
  abbrev check_created : Bool → Text → M State (Unit {0})
  check_created true path = pure tt
  check_created false path = do
    created ← reads (λ s. is_directory s path)
    require created (
        throw_error "createFoldersIfNecessary"
          (format "Failed to create directory %s" (text path end)))

  abbrev create_missing : Bool → Text → ℕ → ℕ → M State (Unit {0})
  create_missing true path uid gid = pure tt
  create_missing false path uid gid = do
    created ← make_directory path
    check_created created path
    set_owner path uid gid

  -- The loop over the elements of the path.
  unfoldable pub create_folders_from : List Text → Text → ℕ → ℕ → M State (Unit {0})
  create_folders_from [] current uid gid = pure tt
  create_folders_from (element ∷ elements) current uid gid =
      reads (λ s. exists s (ops.append current element)) >>= λ there.
      create_missing there (ops.append current element) uid gid >>= λ _.
      create_folders_from elements (ops.append current element) uid gid

  unfoldable pub create_folders_if_necessary : Text → ℕ → ℕ → M State (Unit {0})
  create_folders_if_necessary path uid gid = do
    _there ← reads (λ s. exists s path)
    create_folders_from (ops.elements path) [] uid gid

  abbrev open_file : Text → M State (Unit {0})
  open_file path s =
      let (opened, s') = create_file path s in
      require opened
        (throw_error "createFileIfNecessary" (format "Failed to create file %s" (text path end))) s'

  abbrev create_parent : Bool → Text → ℕ → ℕ → M State (Unit {0})
  create_parent true path uid gid = pure tt
  create_parent false path uid gid = create_folders_if_necessary path uid gid

  abbrev create_file_unless : Bool → Text → ℕ → ℕ → M State (Unit {0})
  create_file_unless true path uid gid = pure tt
  create_file_unless false path uid gid = do
    parent_there ← reads (λ s. exists s (ops.parent_path path))
    create_parent parent_there (ops.parent_path path) uid gid
    open_file path
    set_owner path uid gid

  unfoldable pub create_file_if_necessary : Text → ℕ → ℕ → M State (Unit {0})
  create_file_if_necessary path uid gid = do
    there ← reads (λ s. exists s path)
    create_file_unless there path uid gid
