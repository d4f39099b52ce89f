-- ===== src/BindMount.antt =====
-- src/utility/mount.cpp: the validation of a bind mount, `getDevice`, `isPathOnAllowedDevice`,
-- `getValidatedMountSource` and `getValidatedMountDestination`. The fuel is that of `realpath_within_rootfs`. What is logged is left out.
pub mod Binding
pub mod Squashfs
pub mod Deepest
pub mod Devices
pub mod Calls
pub mod Restores
use libsarus.Base.{
  ℕ, Text, codes, Bool, true, false, not, List, [], ◌∷◌, ◌++◌, ◌==◌, ◌||◌, if◌then◌else◌, Option,
  none, some,
}
use libsarus.Error.{Result, ok, throws, throw_error, plain, format, text, end, ◌>>=◌}
use libsarus.Filesystem.Paths.{PathOps}
use libsarus.Filesystem.Status.{stat_or}
use libsarus.Filesystem.Resolve.{realpath_within_rootfs}
use libsarus.System.{System}

-- `std::find` on the devices.
abbrev elem : ℕ → List ℕ → Bool
elem d [] = false
elem d (x ∷ xs) = x == d || elem d xs

module _ (ops : PathOps) (S : System) where
  open S use {State, stat, exists, is_directory, realpath, lstat, read_link, strerror, mount}

  unfoldable pub get_device : State → Text → Result ℕ
  get_device s path =
      stat_or (stat s) "getDevice" "Failed to stat %s: %s" path >>= λ sb. ok sb.st_dev

  -- The device of a path that exists is added to the list.
  unfoldable pub push_if_exists : State → Text → List ℕ → Result (List ℕ)
  push_if_exists s path devices = exists s path >>= λ there.
      if there then (get_device s path >>= λ dev. ok (devices ++ (dev ∷ []))) else ok devices

  unfoldable pub is_path_on_allowed_device : State → Text → Text → Result Bool
  is_path_on_allowed_device s path rootfs_dir = do
    path_device ← get_device s path
    tmp_device ← get_device s (codes "/tmp")
    root_device ← get_device s rootfs_dir
    devices ← push_if_exists s (ops.append rootfs_dir (codes "dev")) (tmp_device ∷ root_device ∷ [])
    allowed_devices ←
        push_if_exists s (ops.append (ops.parent_path rootfs_dir) (codes "overlay/rootfs-lower"))
          devices
    ok (elem path_device allowed_devices)

  -- The loop that looks for the deepest folder that exists.
  unfoldable pub deepest_existing : State → List Text → Text → Option Text → Result (Option Text)
  deepest_existing s [] current found = ok found
  deepest_existing s (component ∷ components) current found =
      let next = ops.append current component in
      let deeper = deepest_existing s components next (some next) in
      exists s next >>= λ there. if there then deeper else ok found

  unfoldable pub get_validated_mount_source : State → Text → Result Text
  get_validated_mount_source s source = elim (realpath s source) [
    | none ↦
        throw_error "getValidatedMountSource"
          (format "Failed to find real path for mount source: %s" (text (strerror s) end))
    | some source_real ↦ exists s source_real >>= λ there.
        if there
        then ok source_real
        else throw_error "getValidatedMountSource"
            (format "Real path of mount source does not exist: %s" (text source_real end))
  ]

  -- The check of the path on whose device the destination stands; `shown` is in the message.
  abbrev require_allowed : State → Text → Text → Text → Text → Result Text
  require_allowed s path rootfs_dir shown destination_real =
      is_path_on_allowed_device s path rootfs_dir >>= λ allowed.
      if allowed
      then ok destination_real
      else throw_error "getValidatedMountDestination"
          (format "Mount destination (%s) is not on a device allowed for mounts" (text shown end))

  abbrev check_missing : State → Text → Text → Text → Result Text
  check_missing s destination rootfs_dir destination_real =
      deepest_existing s (ops.elements destination_real) [] none >>= λ deepest. elim deepest [
        | none ↦ throw_error "getValidatedMountDestination" (
            format "Internal error: failed to find existing parent folder of %s"
              (text destination end))
        | some folder ↦ require_allowed s folder rootfs_dir folder destination_real
      ]

  abbrev check_existing : State → Text → Text → Text → Result Text
  check_existing s destination rootfs_dir destination_real =
      is_directory s destination_real >>= λ folder.
      require_allowed s (if folder then destination_real else ops.parent_path destination_real)
        rootfs_dir destination destination_real

  unfoldable pub check_destination : State → Text → Text → Text → Result Text
  check_destination s destination rootfs_dir destination_real =
      exists s destination_real >>= λ there.
      if not there
      then check_missing s destination rootfs_dir destination_real
      else check_existing s destination rootfs_dir destination_real

  abbrev check_resolved : State → Text → Text → Option (Result Text) → Option (Result Text)
  check_resolved s destination rootfs_dir none = none
  check_resolved s destination rootfs_dir (some resolved) =
      some (
        resolved >>= λ real.
        check_destination s destination rootfs_dir (ops.append rootfs_dir real))

  unfoldable pub get_validated_mount_destination : ℕ → State → Text → Text → Option (Result Text)
  get_validated_mount_destination fuel s destination rootfs_dir =
      if not (ops.is_absolute destination)
      then some (
          throw_error "getValidatedMountDestination"
            (plain "Internal error: destination is not an absolute path"))
      else if not (ops.is_absolute rootfs_dir)
      then some (
          throw_error "getValidatedMountDestination"
            (plain "Internal error: rootfsDir is not an absolute path"))
      else check_resolved s destination rootfs_dir
          (realpath_within_rootfs ops (lstat s) (read_link s) rootfs_dir fuel destination)
