-- ===== src/Tests/Hooks.antt =====
-- A process with two capabilities that becomes unprivileged, and tables of a process.
use libsarus.Base.{
  Text, text_eq, none, ◌↔◌, ℕ, ltb, Bool, true, false, ◌&&◌, [], ◌∷◌, ◌==◌, if◌then◌else◌, Option,
  some, Bool-cases, inl, inr, ◌≡◌, refl, arith, codes,
}
use libsarus.Error.{Result, ok}
use libsarus.Split.{split_on}
use libsarus.Split.Tokens.{split_on-IsSplit}
use libsarus.Filesystem.Paths.{root}
use libsarus.Tests.Paths.{posix}
use libsarus.Hooks.Cgroups.{
  read_file, proc_file, find_subsystem_mount_paths, find_cgroup_path_in_hierarchy,
}
use libsarus.Hooks.Cgroups.MountLines.{IsFirst, find_subsystem_mount_paths_iff}
use libsarus.Hooks.Cgroups.Hierarchy.{ended, find_cgroup_path_undefined}
use libsarus.Hooks.Privileges.{
  Credentials, Kernel, IsKernel, dropped, invalid, switch_to_unprivileged_process,
}
use libsarus.Hooks.Privileges.Dropped.{
  IsUnprivileged, switch_to_unprivileged_process-IsUnprivileged,
}

-- The capabilities are 0 and 1.
abbrev masked : (ℕ → Bool) → ℕ → Bool
masked b j = ltb j 2 && b j

abbrev without : ℕ → (ℕ → Bool) → ℕ → Bool
without k b j = if j == k then false else b j

abbrev kernel : Kernel
kernel = record {
  State = Credentials;
  credentials = λ s. record s { bounding = masked s.bounding };
  drop_bounding = λ k s. (
    if ltb k 2 then dropped else invalid,
    if ltb k 2 then record s { bounding = without k s.bounding } else s,
  );
  clear_groups = λ s. (true, record s { groups = [] });
  setresgid = λ g s. (true, record s { rgid = g; egid = g; sgid = g });
  setresuid = λ u s. (true, record s { ruid = u; euid = u; suid = u });
  set_no_new_privs = λ s. (true, record s { no_new_privs = true });
  strerror = λ s. codes "error";
}

masked-without : (k : ℕ) (b : ℕ → Bool) (j : ℕ) → masked (without k b) j ≡ without k (masked b) j
masked-without k b j = elim (Bool-cases (j == k)) [
  | inl e ↦ elim (Bool-cases (ltb j 2)) [ inl h ↦ rw (e, h) refl | inr h ↦ rw (e, h) refl ]
  | inr e ↦ rw e refl
]

kernel-IsKernel : IsKernel kernel
kernel-IsKernel = record {
  capabilities = 2;
  drop-dropped = λ k s h. elim (Bool-cases (ltb k 2)) [
    | inl e ↦ rw e (λ i. record s { bounding = λ j. masked-without k s.bounding j i })
    | inr e ↦ cc (rw e at h)
  ];
  drop-invalid =
      λ k s h. elim (Bool-cases (ltb k 2)) [ inl e ↦ cc (rw e at h) | inr e ↦ ground arith ];
  drop_failed = λ k s h. elim (Bool-cases (ltb k 2)) [ inl e ↦ cc (rw e at h) | inr e ↦ rw e refl ];
  drop_beyond = λ k s h. let e : ltb k 2 ≡ false = ground arith in rw e refl;
  bounding_beyond = λ k s h. let e : ltb k 2 ≡ false = ground arith in rw e refl;
  clear_groups_lem = λ s. refl;
  setresgid_lem = λ g valid s. refl;
  setresuid_lem = λ u valid s. refl;
  set_no_new_privs_lem = λ s. refl;
}

abbrev privileged : Credentials
privileged = record {
  bounding = λ j. true;
  groups = 0 ∷ 10 ∷ [];
  rgid = 0;
  egid = 0;
  sgid = 0;
  ruid = 0;
  euid = 0;
  suid = 0;
  no_new_privs = false;
}

switch_to_unprivileged_process-IsUnprivileged_example :
    (r : Result (Unit {0})) × (s' : Credentials) × (switch_to_unprivileged_process kernel 3 1000 100
        privileged
      ≡ some (r, s'))
    × (r ≡ ok tt → IsUnprivileged 1000 100 (kernel.credentials s'))
unfolding kernel-IsKernel
switch_to_unprivileged_process-IsUnprivileged_example =
    switch_to_unprivileged_process-IsUnprivileged kernel kernel-IsKernel 3 1000 100 privileged
      (omega arith) (omega arith) (omega arith)

abbrev show : ℕ → Text
show n = b'7' ∷ []

-- A mount table of two lines, and the control groups of a process.
abbrev tables : Text → Option Text
tables path =
    if text_eq path (codes "/proc/7/mountinfo")
    then some (
        codes
          "1 0 0:2 / /sys rw - sysfs sysfs rw\n2 1 0:3 / /sys/fs/cgroup/devices rw,nosuid shared:9 - cgroup cgroup rw,devices")
    else if text_eq path (codes "/proc/7/cgroup")
    then some (ended b'\n' (codes "3:memory:/a" ∷ codes "2:freezer:/" ∷ []))
    else none

find_mount_run :
    find_subsystem_mount_paths split_on posix show tables (codes "devices") root 7
    ≡ ok (root, codes "/sys/fs/cgroup/devices")
unfolding find_subsystem_mount_paths libsarus.Hooks.Cgroups.find_mount
    libsarus.Hooks.Cgroups.read_file libsarus.Hooks.Cgroups.select_mount
    libsarus.Hooks.Cgroups.guard_mount libsarus.Strings.find_first libsarus.Split.split_on
find_mount_run = refl

find_subsystem_mount_paths_iff_example :
    (find_subsystem_mount_paths split_on posix show tables (codes "devices") root 7
      ≡ ok (root, codes "/sys/fs/cgroup/devices"))
    ↔ IsFirst split_on
        (codes "devices")
        (split_on b'\n'
          (read_file tables (proc_file split_on posix show tables root 7 (codes "mountinfo"))))
        root
        (codes "/sys/fs/cgroup/devices")
find_subsystem_mount_paths_iff_example =
    find_subsystem_mount_paths_iff split_on posix show tables (codes "devices") root root
      (codes "/sys/fs/cgroup/devices") 7

abbrev no_relative : Text → Text → Result Text
no_relative a b = ok a

find_cgroup_path_undefined_example :
    find_cgroup_path_in_hierarchy split_on posix show tables no_relative
      (codes "devices")
      root
      root
      7
    ≡ none
unfolding libsarus.Split.split_on libsarus.Strings.find_first
find_cgroup_path_undefined_example =
    find_cgroup_path_undefined split_on split_on-IsSplit posix show tables no_relative
      (codes "devices") root root 7 (codes "3:memory:/a" ∷ codes "2:freezer:/" ∷ []) refl
      (refl, (refl, tt)) (refl, (refl, tt))
