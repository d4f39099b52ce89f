-- ===== src/Tests/Processes.antt =====
-- Identities, new folders and bind mounts on a small system.
use libsarus.Base.{Text, codes, true, [], ◌∷◌, some, ◌≡◌, ◌⊎◌, inr, refl}
use libsarus.Error.{Exception, Result, ok, throws}
use libsarus.Mount.{UserIdentity}
use libsarus.Filesystem.Resolve.{
  realpath_within_rootfs, append_paths_within_rootfs, resolve_elements, resolve_element,
}
use libsarus.Filesystem.Status.{Stat, status, directory, is_symlink}
use libsarus.System.{System, Ids, IsSystem}
use libsarus.System.Outcome.{Ends}
use libsarus.Process.{user_identity, switch_identity}
use libsarus.Process.Identity.{Switches, switch_identity-Switches}
use libsarus.BindMount.{
  get_validated_mount_destination, check_destination, is_path_on_allowed_device, push_if_exists,
  get_device,
}
use libsarus.BindMount.Binding.{validated_bind_mount}
use libsarus.BindMount.Binding.{bind_mount}
use libsarus.BindMount.Calls.{Mounted, bind_mount-Mounted}
use libsarus.BindMount.Devices.{IsValidated, get_validated_mount_destination-IsValidated}
use libsarus.BindMount.Restores.{Restores, validated_bind_mount-Restores}
use libsarus.Tests.Paths.{posix}

abbrev folder : Stat
folder = record {
  st_type = directory;
  st_uid = 0;
  st_gid = 0;
  st_size = 0;
  st_dev = 5;
  st_rdev = 0;
}

-- Every call succeeds, and every path is a folder on one device.
abbrev machine : System
machine = record {
  State = Ids;
  ids = λ i. i;
  getgroups = λ i. some i.groups;
  setgroups = λ gs i. (true, record i { groups = gs });
  setegid = λ g i. (true, record i { egid = g });
  seteuid = λ u i. (true, record i { euid = u; fsuid = u });
  setfsuid = λ u i. (i.fsuid, record i { fsuid = u });
  mount = λ c i. (true, i);
  chown = λ p u g i. (true, i);
  create_file = λ p i. (true, i);
  stat = λ i p. status folder;
  lstat = λ i p. status folder;
  read_link = λ i p. [];
  realpath = λ i p. some p;
  exists = λ i p. ok true;
  is_directory = λ i p. ok true;
  create_directory = λ p i. (ok true, i);
  strerror = λ i. [];
}

machine-IsSystem : IsSystem machine
machine-IsSystem = record {
  setgroups-ids = λ gs s. refl;
  setegid-ids = λ g s. refl;
  seteuid-ids = λ u s. refl;
  setfsuid-ids = λ u s. inr refl;
  setfsuid-previous = λ u s. refl;
  mount-ids = λ c s. refl;
  chown-ids = λ p u g s. refl;
  create_file-ids = λ p s. refl;
  create_directory-ids = λ p s. refl;
}

abbrev as_root : Ids
as_root = record { ruid = 0; rgid = 0; euid = 0; egid = 0; fsuid = 0; groups = 0 ∷ [] }

abbrev user : UserIdentity
user = record { uid = 1000; gid = 100; supplementary_gids = 100 ∷ [] }

switch_identity_run :
    switch_identity machine user as_root
    ≡ some (
      ok tt,
      record { ruid = 0; rgid = 0; euid = 1000; egid = 100; fsuid = 1000; groups = 100 ∷ [] },
    )
unfolding switch_identity
switch_identity_run = refl

switch_identity-Switches_example :
    Ends (switch_identity machine user) as_root (Switches machine machine-IsSystem user as_root)
switch_identity-Switches_example = switch_identity-Switches machine machine-IsSystem user as_root

destination_resolves :
    (i : Ids)
    → (r : Result Text) × (get_validated_mount_destination posix machine 1 i
          (codes "/b")
          (codes "/root")
        ≡ some r)
unfolding get_validated_mount_destination realpath_within_rootfs append_paths_within_rootfs
    resolve_elements resolve_element is_symlink check_destination is_path_on_allowed_device
    push_if_exists get_device libsarus.Split.split_on
destination_resolves i = (ok (codes "/root/b"), refl)

validated_bind_mount-Restores_example :
    ((e : Exception) × (validated_bind_mount posix machine 1
          (codes "/a")
          (codes "/b")
          user
          (codes "/root")
          0
          as_root
        ≡ some (throws e, as_root)))
    ⊎ ((root : UserIdentity) × (user_identity machine as_root ≡ ok root)
        × Ends
            (validated_bind_mount posix machine 1 (codes "/a") (codes "/b") user (codes "/root") 0)
            as_root
            (Restores posix machine machine-IsSystem 1
              (codes "/a")
              (codes "/b")
              user
              (codes "/root")
              0
              destination_resolves
              root
              as_root))
validated_bind_mount-Restores_example =
    validated_bind_mount-Restores posix machine machine-IsSystem 1 (codes "/a") (codes "/b") user
      (codes "/root") 0 destination_resolves as_root

destination_run :
    get_validated_mount_destination posix machine 1 as_root (codes "/b") (codes "/root")
    ≡ some (ok (codes "/root/b"))
unfolding get_validated_mount_destination realpath_within_rootfs append_paths_within_rootfs
    resolve_elements resolve_element is_symlink check_destination is_path_on_allowed_device
    push_if_exists get_device libsarus.Split.split_on
destination_run = refl

get_validated_mount_destination-IsValidated_example :
    (posix.is_absolute (codes "/b") ≡ true)
    × (real : Text) × (realpath_within_rootfs posix
          (machine.lstat as_root)
          (machine.read_link as_root)
          (codes "/root")
          1
          (codes "/b")
        ≡ some (ok real))
    × (codes "/root/b" ≡ posix.append (codes "/root") real)
    × IsValidated posix machine as_root (codes "/root") (codes "/root/b")
get_validated_mount_destination-IsValidated_example =
    get_validated_mount_destination-IsValidated posix machine as_root (codes "/root") 1 (codes "/b")
      (codes "/root/b") destination_run

bind_mount_run :
    bind_mount posix machine (codes "/a") (codes "/b") 1 as_root ≡ some (ok tt, as_root)
unfolding bind_mount
bind_mount_run = refl

bind_mount-Mounted_example : Mounted posix machine (codes "/a") (codes "/b") 1 as_root as_root
bind_mount-Mounted_example =
    bind_mount-Mounted posix machine (codes "/a") (codes "/b") 1 as_root as_root bind_mount_run
