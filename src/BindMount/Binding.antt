-- ===== src/BindMount/Binding.antt =====
-- src/utility/mount.cpp: `bindMount` and `validatedBindMount`, and src/Mount.cpp.
use Prim.Native.Nat.{bit_or, bit_and}
use libsarus.Base.{◌++◌, ℕ, Text, codes, Bool, true, false, ◌==◌, if◌then◌else◌, none, some, String}
use libsarus.Error.{
  Result, throws, Error, sarus, throw_error, rethrow_error, rethrow_error_at, plain, info, format,
  text, what, end, error_what,
}
use libsarus.Mount.{
  ms_mgc_val, UserIdentity, Mount, ms_rdonly, ms_nosuid, ms_remount, ms_bind, ms_rec, ms_private,
}
use libsarus.Filesystem.Paths.{PathOps}
use libsarus.Filesystem.Create.{create_folders_if_necessary, create_file_if_necessary}
use libsarus.Process.{user_identity, switch_identity, set_filesystem_uid}
use libsarus.System.{System, MountCall}
use libsarus.System.Monad.{M, ◌>>=◌, ◌>>◌, raise, reads, reads_fuel, checked, try_catch}
use libsarus.BindMount.{get_validated_mount_source, get_validated_mount_destination}

abbrev flags_for_bind_mount : ℕ
flags_for_bind_mount = bit_or ms_bind ms_rec

unfoldable pub flags_for_remount : ℕ → ℕ
flags_for_remount flags =
    let remount = bit_or ms_remount (bit_or ms_bind (bit_or ms_nosuid ms_rec)) in
    if bit_and flags ms_rdonly == 0 then remount else bit_or remount ms_rdonly

abbrev flags_for_propagation : ℕ
flags_for_propagation = bit_or ms_private ms_rec

module _ (ops : PathOps) (S : System) where
  open S use {State, is_directory, strerror, mount}

  abbrev pub mount_error : String → Text → Text → State → Result (Unit {0})
  mount_error m from to s =
      throw_error "bindMount" (format m (text from (text to (text (strerror s) end))))

  abbrev bind_call : Text → Text → ℕ → MountCall
  bind_call from to flags = record {
    source = some from;
    target = to;
    filesystem_type = some (codes "bind");
    mount_flags = flags;
    options = none;
  }

  abbrev pub bind_step : Text → Text → M State (Unit {0})
  bind_step from to =
      checked (mount (bind_call from to flags_for_bind_mount))
        (mount_error "Failed to bind mount %s -> %s (error: %s)" from to)

  abbrev pub remount_step : Text → Text → ℕ → M State (Unit {0})
  remount_step from to flags =
      checked (mount (bind_call from to (flags_for_remount flags)))
        (mount_error "Failed to re-bind mount %s -> %s (error: %s)" from to)

  abbrev pub propagation_error : Text → State → Result (Unit {0})
  propagation_error to s =
      throw_error "bindMount"
        (format "Failed to remount %s as non-shared (error: %s)" (text to (text (strerror s) end)))

  abbrev pub propagation_step : Text → M State (Unit {0})
  propagation_step to =
      checked
        (mount (record {
          source = none;
          target = to;
          filesystem_type = none;
          mount_flags = flags_for_propagation;
          options = none;
        }))
        (propagation_error to)

  unfoldable pub bind_mount : Text → Text → ℕ → M State (Unit {0})
  bind_mount from to flags = do bind_step from to; remount_step from to flags; propagation_step to

  -- The mount point is a folder if the source is one.
  abbrev pub create_mount_point : Bool → Text → UserIdentity → M State (Unit {0})
  create_mount_point true path user = create_folders_if_necessary ops S path user.uid user.gid
  create_mount_point false path user = create_file_if_necessary ops S path user.uid user.gid

  module _ (fuel : ℕ) (source destination : Text) (user : UserIdentity) (rootfs_dir : Text)
      (flags : ℕ) where
    -- The body of the `try` block; `root` is the identity to return to.
    unfoldable pub mount_as : UserIdentity → M State (Unit {0})
    mount_as root = do
      switch_identity S user
      source_real ← reads (λ s. get_validated_mount_source ops S s source)
      destination_real ←
          reads_fuel (λ s. get_validated_mount_destination ops S fuel s destination rootfs_dir)
      source_is_directory ← reads (λ s. is_directory s source_real)
      switch_identity S root
      create_mount_point source_is_directory destination_real user
      set_filesystem_uid S user
      bind_mount source_real destination_real flags
      set_filesystem_uid S root

    abbrev pub rethrown : Error → Result (Unit {0})
    rethrown e = throws (
        rethrow_error (sarus e) "validatedBindMount" (
          format "Failed to bind mount %s on container's %s: %s"
            (text source (text destination (what (error_what e) end)))))

    -- The handler.
    unfoldable pub restore_and_rethrow : UserIdentity → Error → M State (Unit {0})
    restore_and_rethrow root e = do switch_identity S root; raise (rethrown e)

    unfoldable pub validated_bind_mount : M State (Unit {0})
    validated_bind_mount =
        reads (user_identity S) >>= λ root. try_catch (mount_as root) (restore_and_rethrow root)

  -- `Mount::performMount`; what it logs is left out.
  unfoldable pub perform_mount : ℕ → Mount → M State (Unit {0})
  perform_mount fuel m =
      try_catch
        (validated_bind_mount fuel m.source m.destination m.user_identity m.rootfs_dir
          m.mount_flags)
        (λ e. raise (
          throws (
            rethrow_error_at (sarus e) "performMount" (plain "Failed to perform custom bind mount")
              info)))

  -- `boost::format{"lowerdir=%s,upperdir=%s,workdir=%s"}`.
  abbrev overlay_options : Text → Text → Text → Text
  overlay_options lower upper work =
      codes "lowerdir=" ++ (lower ++ (codes ",upperdir=" ++ (upper ++ (codes ",workdir=" ++ work))))

  unfoldable pub mount_overlayfs : Text → Text → Text → Text → M State (Unit {0})
  mount_overlayfs lower upper work mount_point =
      checked
        (mount (record {
          source = some (codes "overlay");
          target = mount_point;
          filesystem_type = some (codes "overlay");
          mount_flags = ms_mgc_val;
          options = some (overlay_options lower upper work);
        }))
        (λ s. throw_error "mountOverlayfs" (
          format "Failed to mount OverlayFS on %s (options: %s): %s"
            (text mount_point (text (overlay_options lower upper work) (text (strerror s) end)))))
