-- ===== src/Filesystem/Create/Ownership.antt =====
-- Creating files and folders ends, and leaves the ids of the process alone.
use libsarus.Base.{
  ℕ, Text, Bool, true, false, ◌||◌, ◌==◌, if◌then◌else◌, List, [], ◌∷◌, ◌≡◌, refl, ◌∙◌,
}
use libsarus.Error.{Result, ok}
use libsarus.Filesystem.Paths.{PathOps}
use libsarus.System.{System, IsSystem}
use libsarus.System.Monad.{M, ◌>>=◌, pure, raise, reads}
use libsarus.System.Outcome.{Ends, bind-Ends}
use libsarus.Filesystem.Create.{
  no_id, change_owner, require, set_owner, make_directory, check_created, create_missing,
  create_folders_from, create_folders_if_necessary, open_file, create_parent, create_file_unless,
  create_file_if_necessary,
}

module _ (ops : PathOps) (S : System) (laws : IsSystem S) where
  -- An operation that ends in every state with the ids that it began with.
  abbrev pub KeepsIds : {A : Type 0} → M S.State A → Type 0
  KeepsIds m = (s : S.State) → Ends m s (λ _ s'. S.ids s' ≡ S.ids s)

  pub bind-KeepsIds :
      {A B : Type 0} (m : M S.State A) (f : A → M S.State B)
      → KeepsIds m
      → ((a : A) → KeepsIds (f a))
      → KeepsIds (m >>= f)
  bind-KeepsIds m f keeps next s =
      bind-Ends m f s (λ _ s'. S.ids s' ≡ S.ids s) (λ _ s'. S.ids s' ≡ S.ids s) (keeps s)
        (λ a s' e. let (r, s'', runs, e') = next a s' in (r, s'', runs, e' ∙ e)) (λ x s' e. e)

  pub raise-KeepsIds : {A : Type 0} (r : Result A) → KeepsIds (raise r)
  raise-KeepsIds r s = (r, s, refl, refl)

  pure-KeepsIds : KeepsIds (pure tt)
  pure-KeepsIds s = (ok tt, s, refl, refl)

  pub reads-KeepsIds : {A : Type 0} (f : S.State → Result A) → KeepsIds (reads f)
  reads-KeepsIds f s = (f s, s, refl, refl)

  require-KeepsIds : (b : Bool) (failure : Result (Unit {0})) → KeepsIds (require ops S b failure)
  require-KeepsIds true failure s = (ok tt, s, refl, refl)
  require-KeepsIds false failure s = (failure, s, refl, refl)

  change_owner-KeepsIds : (path : Text) (uid gid : ℕ) → KeepsIds (change_owner ops S path uid gid)
  change_owner-KeepsIds path uid gid s =
      (ok tt, (S.chown path uid gid s).1, refl, laws.chown-ids path uid gid s)

  owner_branch :
      (b : Bool) (m : M S.State (Unit {0})) → KeepsIds m → KeepsIds (if b then pure tt else m)
  owner_branch true m h = pure-KeepsIds
  owner_branch false m h = h

  set_owner-KeepsIds : (path : Text) (uid gid : ℕ) → KeepsIds (set_owner ops S path uid gid)
  unfolding set_owner
  set_owner-KeepsIds path uid gid = owner_branch (uid == no_id || gid == no_id) _ (
      bind-KeepsIds _ _ (reads-KeepsIds (λ s. S.exists s path)) (λ there.
        bind-KeepsIds _ _ (require-KeepsIds there _) (λ _. change_owner-KeepsIds path uid gid)))

  make_directory-KeepsIds : (path : Text) → KeepsIds (make_directory ops S path)
  make_directory-KeepsIds path s =
      (_, (S.create_directory path s).1, refl, laws.create_directory-ids path s)

  check_created-KeepsIds : (b : Bool) (path : Text) → KeepsIds (check_created ops S b path)
  check_created-KeepsIds true path = pure-KeepsIds
  check_created-KeepsIds false path =
      bind-KeepsIds _ _ (reads-KeepsIds (λ s. S.is_directory s path))
        (λ there. require-KeepsIds there _)

  create_missing-KeepsIds :
      (b : Bool) (path : Text) (uid gid : ℕ) → KeepsIds (create_missing ops S b path uid gid)
  create_missing-KeepsIds true path uid gid = pure-KeepsIds
  create_missing-KeepsIds false path uid gid =
      bind-KeepsIds _ _ (make_directory-KeepsIds path) (λ created.
        bind-KeepsIds _ _ (check_created-KeepsIds created path)
          (λ _. set_owner-KeepsIds path uid gid))

  create_folders_from-KeepsIds :
      (es : List Text) (current : Text) (uid gid : ℕ)
      → KeepsIds (create_folders_from ops S es current uid gid)
  unfolding create_folders_from
  create_folders_from-KeepsIds [] current uid gid = pure-KeepsIds
  create_folders_from-KeepsIds (e ∷ es) current uid gid =
      bind-KeepsIds _ _ (reads-KeepsIds (λ s. S.exists s (ops.append current e))) (λ there.
        bind-KeepsIds _ _ (create_missing-KeepsIds there (ops.append current e) uid gid)
          (λ _. create_folders_from-KeepsIds es (ops.append current e) uid gid))

  -- `createFoldersIfNecessary` returns or throws, whatever the calls report, and leaves the ids
  -- of the process alone.
  pub create_folders-KeepsIds :
      (path : Text) (uid gid : ℕ) → KeepsIds (create_folders_if_necessary ops S path uid gid)
  unfolding create_folders_if_necessary
  create_folders-KeepsIds path uid gid =
      bind-KeepsIds _ _ (reads-KeepsIds (λ s. S.exists s path))
        (λ _. create_folders_from-KeepsIds (ops.elements path) [] uid gid)

  open_file-KeepsIds : (path : Text) → KeepsIds (open_file ops S path)
  open_file-KeepsIds path s =
      let (r, s', runs, e) = require-KeepsIds (S.create_file path s).0 _ (S.create_file path s).1 in
      (r, s', runs, e ∙ laws.create_file-ids path s)

  create_parent-KeepsIds :
      (b : Bool) (path : Text) (uid gid : ℕ) → KeepsIds (create_parent ops S b path uid gid)
  create_parent-KeepsIds true path uid gid = pure-KeepsIds
  create_parent-KeepsIds false path uid gid = create_folders-KeepsIds path uid gid

  create_file_unless-KeepsIds :
      (b : Bool) (path : Text) (uid gid : ℕ) → KeepsIds (create_file_unless ops S b path uid gid)
  create_file_unless-KeepsIds true path uid gid = pure-KeepsIds
  create_file_unless-KeepsIds false path uid gid =
      bind-KeepsIds _ _ (reads-KeepsIds (λ s. S.exists s (ops.parent_path path))) (λ there.
        bind-KeepsIds _ _ (create_parent-KeepsIds there (ops.parent_path path) uid gid)
          (λ _. bind-KeepsIds _ _ (open_file-KeepsIds path) (λ _. set_owner-KeepsIds path uid gid)))

  -- `createFileIfNecessary` returns or throws, whatever the calls report, and leaves the ids of
  -- the process alone.
  pub create_file-KeepsIds :
      (path : Text) (uid gid : ℕ) → KeepsIds (create_file_if_necessary ops S path uid gid)
  unfolding create_file_if_necessary
  create_file-KeepsIds path uid gid =
      bind-KeepsIds _ _ (reads-KeepsIds (λ s. S.exists s path))
        (λ there. create_file_unless-KeepsIds there path uid gid)
