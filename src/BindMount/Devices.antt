-- ===== src/BindMount/Devices.antt =====
-- On which devices a validated destination stands.
use libsarus.Base.{
  ℕ, Text, codes, true, false, List, [], ◌∷◌, ◌++◌, Option, none, some, ◌≡◌, ◌⊎◌, inl, inr, refl,
  sym, ap, ◌∙◌, arith, Bool-cases, Option-cases,
}
use libsarus.Error.{Result, ok, throws, ◌>>=◌}
use libsarus.Error.Trace.{>>=-eq-ok, ok-injective}
use libsarus.Filesystem.Status.{Stat, StatResult, status, failed}
use libsarus.Filesystem.Paths.{PathOps}
use libsarus.Filesystem.Resolve.{realpath_within_rootfs}
use libsarus.System.{System}
use libsarus.BindMount.Deepest.{IsDeepest, deepest_existing-IsDeepest}
use libsarus.BindMount.{
  elem, get_device, push_if_exists, is_path_on_allowed_device, deepest_existing, check_destination,
  require_allowed, check_missing, check_existing, check_resolved, get_validated_mount_destination,
}

StatResult-cases :
    (r : StatResult) → ((sb : Stat) × (r ≡ status sb)) ⊎ ((reason : Text) × (r ≡ failed reason))
StatResult-cases (status sb) = inl (sb, refl)
StatResult-cases (failed reason) = inr (reason, refl)

module _ (ops : PathOps) (S : System) (s : S.State) (rootfs_dir : Text) where
  abbrev rootfs_dev : Text
  rootfs_dev = ops.append rootfs_dir (codes "dev")

  abbrev rootfs_lower : Text
  rootfs_lower = ops.append (ops.parent_path rootfs_dir) (codes "overlay/rootfs-lower")

  -- stat(2) tells the device of a path.
  abbrev HasDevice : Text → ℕ → Type 0
  HasDevice path dev = (sb : Stat) × (S.stat s path ≡ status sb) × (sb.st_dev ≡ dev)

  -- A device that stands at a path that exists.
  abbrev At : Text → ℕ → Type 0
  At path dev = (S.exists s path ≡ ok true) × HasDevice path dev

  -- The device of /tmp, of the root file system, of its /dev, or of the lower layer.
  abbrev pub AllowedDevice : ℕ → Type 0
  AllowedDevice dev =
      HasDevice (codes "/tmp") dev
      ⊎ HasDevice rootfs_dir dev
      ⊎ At rootfs_dev dev
      ⊎ At rootfs_lower dev

  abbrev pub IsOnAllowedDevice : Text → Type 0
  IsOnAllowedDevice path = (dev : ℕ) × HasDevice path dev × AllowedDevice dev

  get_device-HasDevice :
      (path : Text) (dev : ℕ) → get_device ops S s path ≡ ok dev → HasDevice path dev
  unfolding get_device
  get_device-HasDevice path dev h = elim (StatResult-cases (S.stat s path)) [
    | inl (sb, e) ↦ (sb, e, ok-injective (rw (e, get_device, ◌>>=◌) at h))
    | inr (reason, e) ↦ cc (rw (e, get_device, ◌>>=◌) at h)
  ]

  elem-append :
      (d : ℕ) (xs ys : List ℕ) → elem d (xs ++ ys) ≡ true → (elem d xs ≡ true) ⊎ (elem d ys ≡ true)
  elem-append d [] ys h = inr h
  elem-append d (x ∷ xs) ys h = ground (arith, elem-append d xs ys)

  elem_single : (d x : ℕ) → elem d (x ∷ []) ≡ true → x ≡ d
  elem_single d x h = ground arith

  -- A device in the longer list stood in the shorter one, or at the path.
  push_if_exists-elem :
      (path : Text) (devices devices' : List ℕ) (d : ℕ)
      → push_if_exists ops S s path devices ≡ ok devices'
      → elem d devices' ≡ true
      → (elem d devices ≡ true) ⊎ At path d
  unfolding push_if_exists
  push_if_exists-elem path devices devices' d h m =
      let (b, there, rest) = >>=-eq-ok (S.exists s path) _ h in
      elim (Bool-cases b) [
        | inr e ↦ inl (rw (sym (ok-injective (rw e at rest))) at m)
        | inl e ↦
            let (x, found, last) = >>=-eq-ok (get_device ops S s path) _ (rw e at rest) in
            elim (elem-append d devices (x ∷ []) (rw (sym (ok-injective last)) at m)) [
              | inl before ↦ inl before
              | inr here ↦ inr (
                there ∙ ap ok e,
                get_device-HasDevice path d (found ∙ ap ok (elem_single d x here)),
              )
            ]
      ]

  two_devices : (d t r : ℕ) → elem d (t ∷ r ∷ []) ≡ true → (t ≡ d) ⊎ (r ≡ d)
  two_devices d t r h = ground arith

  is_path_on_allowed_device-IsOn :
      (path : Text)
      → is_path_on_allowed_device ops S s path rootfs_dir ≡ ok true
      → IsOnAllowedDevice path
  unfolding is_path_on_allowed_device
  is_path_on_allowed_device-IsOn path h =
      let (d, own, h1) = >>=-eq-ok (get_device ops S s path) _ h in
      let (t, tmp, h2) = >>=-eq-ok (get_device ops S s (codes "/tmp")) _ h1 in
      let (r, root, h3) = >>=-eq-ok (get_device ops S s rootfs_dir) _ h2 in
      let (devices, dev, h4) = >>=-eq-ok (push_if_exists ops S s rootfs_dev (t ∷ r ∷ [])) _ h3 in
      let (allowed, lower, h5) = >>=-eq-ok (push_if_exists ops S s rootfs_lower devices) _ h4 in
      (
        d,
        get_device-HasDevice path d own,
        elim (push_if_exists-elem rootfs_lower devices allowed d lower (ok-injective h5)) [
          | inr there ↦ inr (inr (inr there))
          | inl m ↦ elim (push_if_exists-elem rootfs_dev (t ∷ r ∷ []) devices d dev m) [
            | inr there ↦ inr (inr (inl there))
            | inl m2 ↦ elim (two_devices d t r m2) [
              | inl e ↦ inl (get_device-HasDevice (codes "/tmp") d (tmp ∙ ap ok e))
              | inr e ↦ inr (inl (get_device-HasDevice rootfs_dir d (root ∙ ap ok e)))
            ]
          ]
        ],
      )

  require_allowed-ok :
      (path shown real d : Text)
      → require_allowed ops S s path rootfs_dir shown real ≡ ok d
      → (d ≡ real) × IsOnAllowedDevice path
  require_allowed-ok path shown real d h =
      let (b, allowed, rest) = >>=-eq-ok (is_path_on_allowed_device ops S s path rootfs_dir) _ h in
      elim (Bool-cases b) [
        | inl e ↦ (
          sym (ok-injective (rw e at rest)),
          is_path_on_allowed_device-IsOn path (allowed ∙ ap ok e),
        )
        | inr e ↦ cc (rw e at rest)
      ]

  -- The path on whose device a destination is checked: the deepest of the paths on the way to it that
  -- exists, or, where it exists, itself or the folder that it is in.
  pub data Checked (d path : Text) : Type 0 where
    missing : S.exists s d ≡ ok false → IsDeepest ops S s d path → Checked d path
    folder : S.exists s d ≡ ok true → S.is_directory s d ≡ ok true → path ≡ d → Checked d path
    file :
        S.exists s d ≡ ok true
        → S.is_directory s d ≡ ok false
        → path ≡ ops.parent_path d
        → Checked d path

  -- What validation promises of a destination.
  abbrev pub IsValidated : Text → Type 0
  IsValidated d = (path : Text) × Checked d path × IsOnAllowedDevice path

  check_existing-ok :
      (destination real d : Text)
      → S.exists s real ≡ ok true
      → check_existing ops S s destination rootfs_dir real ≡ ok d
      → (d ≡ real) × IsValidated real
  check_existing-ok destination real d there h =
      let (b, kind, rest) = >>=-eq-ok (S.is_directory s real) _ h in
      elim (Bool-cases b) [
        | inl e ↦
            let (same, on) = require_allowed-ok real destination real d (rw e at rest) in
            (same, (real, folder there (kind ∙ ap ok e) refl, on))
        | inr e ↦
            let (same, on) =
              require_allowed-ok (ops.parent_path real) destination real d (rw e at rest) in
            (same, (ops.parent_path real, file there (kind ∙ ap ok e) refl, on))
      ]

  check_missing-ok :
      (destination real d : Text)
      → S.exists s real ≡ ok false
      → check_missing ops S s destination rootfs_dir real ≡ ok d
      → (d ≡ real) × IsValidated real
  check_missing-ok destination real d absent h =
      let (deepest, found, rest) =
        >>=-eq-ok (deepest_existing ops S s (ops.elements real) [] none) _ h in
      elim (Option-cases deepest) [
        | inl e ↦ cc (rw e at rest)
        | inr (path, e) ↦
            let (same, on) = require_allowed-ok path path real d (rw e at rest) in
            (
              same,
              (
                path,
                missing absent (deepest_existing-IsDeepest ops S s real path (found ∙ ap ok e)),
                on,
              ),
            )
      ]

  check_destination-ok :
      (destination real d : Text)
      → check_destination ops S s destination rootfs_dir real ≡ ok d
      → (d ≡ real) × IsValidated real
  unfolding check_destination
  check_destination-ok destination real d h =
      let (b, there, rest) = >>=-eq-ok (S.exists s real) _ h in
      elim (Bool-cases b) [
        | inl e ↦ check_existing-ok destination real d (there ∙ ap ok e) (rw e at rest)
        | inr e ↦ check_missing-ok destination real d (there ∙ ap ok e) (rw e at rest)
      ]

  check_resolved-ok :
      (destination d : Text) (resolved : Option (Result Text))
      → check_resolved ops S s destination rootfs_dir resolved ≡ some (ok d)
      → (real : Text) × (resolved ≡ some (ok real))
        × (d ≡ ops.append rootfs_dir real)
        × IsValidated (ops.append rootfs_dir real)
  check_resolved-ok destination d none h = cc h
  check_resolved-ok destination d (some (throws e)) h = cc h
  check_resolved-ok destination d (some (ok real)) h =
      let (same, valid) = check_destination-ok destination (ops.append rootfs_dir real) d (cc h) in
      (real, refl, same, valid)

  -- When `getValidatedMountDestination` returns a path, the destination is absolute and resolves
  -- inside the root file system, the path is the root directory followed by the resolved one, and
  -- stat(2) tells one of the allowed devices for the place that is checked: the device of /tmp,
  -- of the root directory, of its /dev if it exists, or of the lower layer if it exists. This
  -- place is the path itself if it is a folder that exists, and its parent if it exists and is no
  -- folder. Otherwise it is the deepest path on the way that exists: it is made of the first
  -- elements, at least one, each of which leads to something that exists, and with the next
  -- element, if there is one, nothing exists.
  pub get_validated_mount_destination-IsValidated :
      (fuel : ℕ) (destination d : Text)
      → get_validated_mount_destination ops S fuel s destination rootfs_dir ≡ some (ok d)
      → (ops.is_absolute destination ≡ true)
        × (real : Text) × (realpath_within_rootfs ops
              (S.lstat s)
              (S.read_link s)
              rootfs_dir
              fuel
              destination
            ≡ some (ok real))
        × (d ≡ ops.append rootfs_dir real)
        × IsValidated d
  unfolding get_validated_mount_destination
  get_validated_mount_destination-IsValidated fuel destination d h =
      elim (Bool-cases (ops.is_absolute destination)) [
        | inr e ↦ cc (rw e at h)
        | inl absolute ↦ elim (Bool-cases (ops.is_absolute rootfs_dir)) [
          | inr e ↦ cc (rw (absolute, e) at h)
          | inl e ↦
              let (real, resolved, same, valid) =
                check_resolved-ok destination d
                  (realpath_within_rootfs ops (S.lstat s) (S.read_link s) rootfs_dir fuel
                    destination)
                  (rw (absolute, e) at h) in
              (absolute, real, resolved, same, rw same valid)
        ]
      ]
