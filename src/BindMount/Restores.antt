-- ===== src/BindMount/Restores.antt =====
-- `validatedBindMount` gives the process its real identity back.
use libsarus.Base.{
  ℕ, Text, Bool, true, false, some, ◌≡◌, ◌≢◌, ◌⊎◌, inl, inr, refl, sym, ap, ◌∙◌, Option-cases,
}
use libsarus.Error.{Result, ok, throws, Error, sarus, standard, Exception}
use libsarus.Error.Trace.{Result-cases, ok-injective}
use libsarus.Mount.{UserIdentity}
use libsarus.Filesystem.Paths.{PathOps}
use libsarus.Filesystem.Create.Ownership.{
  KeepsIds, bind-KeepsIds, reads-KeepsIds, create_folders-KeepsIds, create_file-KeepsIds,
}
use libsarus.Process.{user_identity, switch_identity, set_filesystem_uid}
use libsarus.Process.Identity.{
  Switches, switched, switch_identity-Switches, SetsFsuid, set_filesystem_uid-SetsFsuid,
}
use libsarus.System.{System, IsSystem, Ids, MountCall}
use libsarus.System.Monad.{M, ◌>>=◌, reads, reads_fuel, checked, try_catch}
use libsarus.System.Outcome.{Ends, bind-Ends, checked-Ends, weaken-Ends, try_catch-Ends}
use libsarus.BindMount.{get_validated_mount_destination}
use libsarus.BindMount.Binding.{
  mount_error, propagation_error, bind_step, remount_step, propagation_step, rethrown, bind_mount,
  create_mount_point, mount_as, restore_and_rethrow, validated_bind_mount,
}

module _ (ops : PathOps) (S : System) (laws : IsSystem S) where
  checked_mount-KeepsIds :
      (c : MountCall) (failure : S.State → Result (Unit {0}))
      → KeepsIds ops S laws (checked (S.mount c) failure)
  checked_mount-KeepsIds c failure s =
      checked-Ends (S.mount c) failure s (λ _ s'. S.ids s' ≡ S.ids s) (λ e. laws.mount-ids c s)
        (λ e. laws.mount-ids c s)

  bind_mount-KeepsIds :
      (from to : Text) (flags : ℕ) → KeepsIds ops S laws (bind_mount ops S from to flags)
  unfolding bind_mount
  bind_mount-KeepsIds from to flags =
      bind-KeepsIds ops S laws (bind_step ops S from to) _
        (checked_mount-KeepsIds _
          (mount_error ops S "Failed to bind mount %s -> %s (error: %s)" from to))
        (λ _.
          bind-KeepsIds ops S laws (remount_step ops S from to flags)
            (λ _. propagation_step ops S to)
            (checked_mount-KeepsIds _
              (mount_error ops S "Failed to re-bind mount %s -> %s (error: %s)" from to))
            (λ _. checked_mount-KeepsIds _ (propagation_error ops S to)))

  create_mount_point-KeepsIds :
      (b : Bool) (path : Text) (user : UserIdentity)
      → KeepsIds ops S laws (create_mount_point ops S b path user)
  create_mount_point-KeepsIds true path user =
      create_folders-KeepsIds ops S laws path user.uid user.gid
  create_mount_point-KeepsIds false path user =
      create_file-KeepsIds ops S laws path user.uid user.gid

  -- The operation ends, and if it returns the ids are these.
  abbrev Leaves : {A : Type 0} → Ids → Result A → S.State → Type 0
  Leaves i (ok _) s = S.ids s ≡ i
  Leaves i (throws e) s = Unit

  -- From the ids `i` the operation ends, and if it returns it leaves the ids `j`.
  abbrev Moves : {A : Type 0} → M S.State A → Ids → Ids → Type 0
  Moves m i j = (s : S.State) → S.ids s ≡ i → Ends m s (Leaves j)

  bind-Moves :
      {A B : Type 0} (m : M S.State A) (f : A → M S.State B) (i j k : Ids)
      → Moves m i j
      → ((a : A) → Moves (f a) j k)
      → Moves (m >>= f) i k
  bind-Moves m f i j k runs next s e =
      bind-Ends m f s (Leaves j) (Leaves k) (runs s e) next (λ e s' _. tt)

  keep-Leaves :
      {A : Type 0} (i : Ids) (s : S.State)
      → S.ids s ≡ i
      → (r : Result A) (s' : S.State) → S.ids s' ≡ S.ids s
      → Leaves i r s'
  keep-Leaves i s e (ok _) s' e' = e' ∙ e
  keep-Leaves i s e (throws x) s' e' = tt

  KeepsIds-Moves : {A : Type 0} (m : M S.State A) (i : Ids) → KeepsIds ops S laws m → Moves m i i
  KeepsIds-Moves m i keeps s e =
      weaken-Ends m s (λ _ s'. S.ids s' ≡ S.ids s) (Leaves i) (keeps s) (keep-Leaves i s e)

  Switches-Leaves :
      (identity : UserIdentity) (i : Ids) (r : Result (Unit {0})) (s : S.State)
      → Switches S laws identity i r s
      → Leaves (switched S laws identity i) r s
  Switches-Leaves identity i (ok _) s q = q
  Switches-Leaves identity i (throws e) s q = tt

  switch_identity-Moves :
      (identity : UserIdentity) (i : Ids)
      → Moves (switch_identity S identity) i (switched S laws identity i)
  switch_identity-Moves identity i s e =
      weaken-Ends (switch_identity S identity) s (Switches S laws identity i)
        (Leaves (switched S laws identity i)) (rw e at (switch_identity-Switches S laws identity s))
        (Switches-Leaves identity i)

  -- The ids with another file system id.
  abbrev with_fsuid : ℕ → Ids → Ids
  with_fsuid u i = record i { fsuid = u }

  SetsFsuid-Leaves :
      (identity : UserIdentity) (i : Ids) (r : Result (Unit {0})) (s : S.State)
      → SetsFsuid S laws identity i r s
      → Leaves (with_fsuid identity.uid i) r s
  SetsFsuid-Leaves identity i (ok _) s q = q
  SetsFsuid-Leaves identity i (throws e) s q = tt

  set_filesystem_uid-Moves :
      (identity : UserIdentity) (i : Ids)
      → Moves (set_filesystem_uid S identity) i (with_fsuid identity.uid i)
  set_filesystem_uid-Moves identity i s e =
      weaken-Ends (set_filesystem_uid S identity) s (SetsFsuid S laws identity i)
        (Leaves (with_fsuid identity.uid i))
        (rw e at (set_filesystem_uid-SetsFsuid S laws identity s)) (SetsFsuid-Leaves identity i)

  module _ (fuel : ℕ) (source destination : Text) (user : UserIdentity) (rootfs_dir : Text)
      (flags : ℕ)
      (resolves : (s : S.State)
        → (r : Result Text) × (get_validated_mount_destination ops S fuel s destination rootfs_dir
            ≡ some r)) where
    destination-Moves :
        (i : Ids)
        → Moves
            (reads_fuel (λ s. get_validated_mount_destination ops S fuel s destination rootfs_dir))
            i
            i
    destination-Moves i s e = let (r, h) = resolves s in (r, s, rw (h, reads_fuel) refl, left r)
      where
        left : (r : Result Text) → Leaves i r s
        left (ok _) = e
        left (throws x) = tt

    -- What the body leaves if it returns: the root identity, on top of the user's.
    abbrev both : UserIdentity → Ids → Ids
    both root i = switched S laws root (switched S laws user i)

    mount_as-Moves :
        (root : UserIdentity) (i : Ids)
        → Moves (mount_as ops S fuel source destination user rootfs_dir flags root) i (both root i)
    unfolding mount_as
    mount_as-Moves root i =
        let as_user = switched S laws user i in
        let as_root = both root i in
        let mounting = with_fsuid user.uid as_root in
        bind-Moves _ _ i as_user as_root (switch_identity-Moves user i) (λ _.
          bind-Moves _ _ as_user as_user as_root
            (KeepsIds-Moves _ as_user (reads-KeepsIds ops S laws _))
            (λ src. bind-Moves _ _ as_user as_user as_root (destination-Moves as_user) (λ dst.
              bind-Moves _ _ as_user as_user as_root
                (KeepsIds-Moves _ as_user (reads-KeepsIds ops S laws _))
                (λ folder.
                  bind-Moves _ _ as_user as_root as_root (switch_identity-Moves root as_user) (λ _.
                    bind-Moves _ _ as_root as_root as_root
                      (KeepsIds-Moves _ as_root (create_mount_point-KeepsIds folder dst user))
                      (λ _.
                        bind-Moves _ _ as_root mounting as_root
                          (set_filesystem_uid-Moves user as_root)
                          (λ _.
                            bind-Moves _ _ mounting mounting as_root
                              (KeepsIds-Moves _ mounting (bind_mount-KeepsIds src dst flags))
                              (λ _. set_filesystem_uid-Moves root mounting))))))))

    -- The identity that `validatedBindMount` was called with, by the real ids.
    abbrev pub HasRealIds : Ids → Ids → Type 0
    HasRealIds i j = (j.euid ≡ i.ruid) × (j.egid ≡ i.rgid) × (j.fsuid ≡ i.ruid)

    -- How `validatedBindMount` ends from the ids `i`, given the identity that it read first.
    abbrev pub Restores : UserIdentity → Ids → Result (Unit {0}) → S.State → Type 0
    Restores root i (ok _) s' =
        HasRealIds i (S.ids s') × ((S.ids s').ruid ≡ i.ruid) × ((S.ids s').rgid ≡ i.rgid)
    Restores root i (throws (sarus e)) s' =
        HasRealIds i (S.ids s')
        ⊎ ((s0 : S.State) × (x : Exception) × (switch_identity S root s0 ≡ some (throws x, s')))
    Restores root i (throws (standard c w)) s' = Unit

    Restores-after :
        (root : UserIdentity) (i : Ids) (e : Error) (s0 : S.State)
        → root.uid ≡ i.ruid
        → root.gid ≡ i.rgid
        → Ends (switch_identity S root) s0 (Switches S laws root (S.ids s0))
        → Ends
            (restore_and_rethrow ops S fuel source destination user rootfs_dir flags root e)
            s0
            (Restores root i)
    unfolding restore_and_rethrow
    Restores-after root i e s0 eu eg (ok _, s', runs, q) = (
      rethrown ops S fuel source destination user rootfs_dir flags e,
      s',
      rw (runs, ◌>>=◌) refl,
      inl (ap Ids.euid q ∙ eu, ap Ids.egid q ∙ eg, ap Ids.fsuid q ∙ eu),
    )
    Restores-after root i e s0 eu eg (throws (sarus x), s', runs, q) =
        (throws (sarus x), s', rw (runs, ◌>>=◌) refl, inr (s0, sarus x, runs))
    Restores-after root i e s0 eu eg (throws (standard c w), s', runs, q) =
        (throws (standard c w), s', rw (runs, ◌>>=◌) refl, tt)

    user_identity_ids :
        (root : UserIdentity) (s : S.State)
        → user_identity S s ≡ ok root
        → (root.uid ≡ (S.ids s).ruid) × (root.gid ≡ (S.ids s).rgid)
    unfolding user_identity
    user_identity_ids root s h = elim (Option-cases (S.getgroups s)) [
      | inl e ↦ cc (rw (e, user_identity) at h)
      | inr (gs, e) ↦
          let same = ok-injective (rw (e, user_identity) at h) in
          (ap UserIdentity.uid (sym same), ap UserIdentity.gid (sym same))
    ]

    restored :
        (root : UserIdentity) (s : S.State)
        → root.uid ≡ (S.ids s).ruid
        → root.gid ≡ (S.ids s).rgid
        → Ends
            (try_catch
              (mount_as ops S fuel source destination user rootfs_dir flags root)
              (restore_and_rethrow ops S fuel source destination user rootfs_dir flags root))
            s
            (Restores root (S.ids s))
    restored root s eu eg =
        try_catch-Ends (mount_as ops S fuel source destination user rootfs_dir flags root)
          (restore_and_rethrow ops S fuel source destination user rootfs_dir flags root) s
          (Leaves (both root (S.ids s))) (Restores root (S.ids s))
          (mount_as-Moves root (S.ids s) s refl)
          (λ _ s' q. (
            (ap Ids.euid q ∙ eu, ap Ids.egid q ∙ eg, ap Ids.fsuid q ∙ eu),
            ap Ids.ruid q,
            ap Ids.rgid q,
          ))
          (λ e s' _.
            Restores-after root (S.ids s) e s' eu eg (switch_identity-Switches S laws root s'))
          (λ x s' _ other. escapes x s' other)
      where
        escapes :
            (x : Exception) (s' : S.State)
            → ((e : Error) → x ≢ sarus e)
            → Restores root (S.ids s) (throws x) s'
        escapes (sarus e) s' other = absurd (other e refl)
        escapes (standard c w) s' other = tt

    -- When in every state the fuel is enough to resolve the destination, `validatedBindMount`
    -- either throws and leaves the state as it was, or reads the real identity and then returns
    -- or throws. When it returns, the effective user and group ids and the file system id are the
    -- real ones, and the real ones are unchanged. When it throws an error of the library, these
    -- three are the real ones too, unless switching back itself threw. Nothing is said of the ids
    -- when a standard exception escapes.
    pub validated_bind_mount-Restores :
        (s : S.State)
        → ((e : Exception) × (validated_bind_mount ops S fuel source destination user rootfs_dir
                flags s
              ≡ some (throws e, s)))
          ⊎ ((root : UserIdentity) × (user_identity S s ≡ ok root)
              × Ends
                  (validated_bind_mount ops S fuel source destination user rootfs_dir flags)
                  s
                  (Restores root (S.ids s)))
    unfolding validated_bind_mount
    validated_bind_mount-Restores s = elim (Result-cases (user_identity S s)) [
      | inr (e, failed) ↦ inl (e, rw (failed, ◌>>=◌, reads) refl)
      | inl (root, read) ↦
          let (eu, eg) = user_identity_ids root s read in
          let (r, s', runs, q) = restored root s eu eg in
          inr (root, read, (r, s', rw (read, ◌>>=◌, reads) runs, q))
    ]
