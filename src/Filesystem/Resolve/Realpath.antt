-- ===== src/Filesystem/Resolve/Realpath.antt =====
-- `realpathWithinRootfs`, by what is known of the resolution of paths.
use libsarus.Base.{
  ℕ, suc, ◌<◌, Text, true, false, All, some, ◌≡◌, ◌⊎◌, inl, inr, refl, ap, Bool-cases,
}
use libsarus.Error.{ok, throws, Exception}
use libsarus.Filesystem.Paths.{PathOps, IsPathOps, IsElement}
use libsarus.Filesystem.Status.{StatResult}
use libsarus.Filesystem.Resolve.{relative_path, realpath_within_rootfs}
use libsarus.Filesystem.Resolve.Confined.{Ranks, IsResolved, at_root, append_paths-IsResolved}

module _ (ops : PathOps) (lstat : Text → StatResult) (read_link : Text → Text) (rootfs : Text) where
  relative_path_throws :
      (path : Text) → (e : Exception) × (relative_path ops lstat read_link rootfs path ≡ throws e)
  relative_path_throws path = (_, refl)

  -- Where each link leads only to names of lower rank, `realpathWithinRootfs` ends with fuel
  -- above the ranks of the path's elements and one more: it throws on a path that is not
  -- absolute, and on an absolute one it returns the root with names appended, none of them '.' or
  -- '..' and none a symbolic link where it stands.
  pub realpath_within_rootfs-IsResolved :
      (rank : Text → ℕ)
      → IsPathOps ops
      → Ranks ops lstat read_link rootfs rank
      → (fuel : ℕ) (path : Text) → All (λ x. IsElement x × (rank x < fuel)) (ops.elements path)
      → ((ops.is_absolute path ≡ false)
          × (e : Exception) × (realpath_within_rootfs ops lstat read_link rootfs (suc fuel) path
              ≡ some (throws e)))
        ⊎ ((ops.is_absolute path ≡ true)
            × (real : Text) × (realpath_within_rootfs ops lstat read_link rootfs (suc fuel) path
                ≡ some (ok real))
            × IsResolved ops lstat read_link rootfs real)
  unfolding realpath_within_rootfs
  realpath_within_rootfs-IsResolved rank laws ranks fuel path h =
      let (real, traversed, runs, resolved, links) =
        append_paths-IsResolved ops lstat read_link rootfs laws rank ranks fuel _ path at_root h in
      elim (Bool-cases (ops.is_absolute path)) [
        | inl e ↦ inr (e, real, rw (e, runs) refl, resolved)
        | inr e ↦ let (x, thrown) = relative_path_throws path in inl (e, x, rw e (ap some thrown))
      ]
