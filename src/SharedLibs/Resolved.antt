-- ===== src/SharedLibs/Resolved.antt =====
-- `resolveAbi` together with the resolution of paths inside a root file system.
use libsarus.Base.{ℕ, suc, ◌<◌, Text, Bool, true, List, [], ◌∷◌, ◌++◌, All, some, ◌≡◌, refl}
use libsarus.Error.{Result, ok}
use libsarus.Split.{IsSplit}
use libsarus.Filesystem.Paths.{PathOps, root, IsPathOps, IsElement}
use libsarus.Filesystem.Status.{StatResult}
use libsarus.Filesystem.Resolve.{append_paths_within_rootfs}
use libsarus.Filesystem.Resolve.Confined.{Ranks, at_root, append_paths-IsResolved}
use libsarus.SharedLibs.{is_shared_lib, process_paths, resolve_abi}
use libsarus.SharedLibs.Versions.{library_versions}
use libsarus.SharedLibs.Abi.{IsChosen, process_paths-IsChosen}

module _ (ops : PathOps) (is_directory : Text → Result Bool) (split : ℕ → Text → List Text)
    (lstat : Text → StatResult) (read_link : Text → Text) (root_dir : Text) where
  resolve_abi_step :
      (fuel : ℕ) (lib real : Text) (traversed chosen : List Text)
      → is_shared_lib ops is_directory lib ≡ ok true
      → append_paths_within_rootfs ops lstat read_link root_dir fuel root lib []
        ≡ some (real, traversed)
      → process_paths ops is_directory split lib (traversed ++ (real ∷ [])) [] ≡ ok chosen
      → resolve_abi ops is_directory split lstat read_link root_dir fuel lib ≡ some (ok chosen)
  unfolding resolve_abi
  resolve_abi_step fuel lib real traversed chosen is_lib resolved processed =
      rw (is_lib, resolve_abi, resolved, processed) refl

  -- For paths and a `boost::split` with their laws, links that lead only to names of lower rank,
  -- an `is_directory` that does not throw, and fuel above the ranks of the path's elements and
  -- one more: on a shared library `resolveAbi` returns a version. If that is not empty it is the
  -- version of one of the links traversed or of their target, and this has the linker name of the
  -- library; each such version is the beginning of it, or neither is the beginning of the other;
  -- and the first such version is the beginning of it.
  pub resolve_abi-IsChosen :
      IsPathOps ops
      → IsSplit split
      → (rank : Text → ℕ) → Ranks ops lstat read_link root_dir rank
      → (fuel : ℕ) (lib : Text) → All (λ x. IsElement x × (rank x < fuel)) (ops.elements lib)
      → ((path : Text) → (b : Bool) × (is_directory path ≡ ok b))
      → is_shared_lib ops is_directory lib ≡ ok true
      → (real : Text) × (traversed : List Text) × (chosen : List Text) × (append_paths_within_rootfs
            ops lstat read_link root_dir
            (suc fuel)
            root
            lib
            []
          ≡ some (real, traversed))
        × (resolve_abi ops is_directory split lstat read_link root_dir (suc fuel) lib
            ≡ some (ok chosen))
        × IsChosen ops is_directory split lib (traversed ++ (real ∷ [])) chosen
  resolve_abi-IsChosen paths laws rank ranks fuel lib ranked total is_lib =
      let (real, traversed, resolved, _, _) =
        append_paths-IsResolved ops lstat read_link root_dir paths rank ranks fuel root lib at_root
          ranked in
      let (linker, _, named, _, _, _) = library_versions ops is_directory split laws lib is_lib in
      let (chosen, processed, right) =
        process_paths-IsChosen ops is_directory split laws lib linker named total
          (traversed ++ (real ∷ [])) in
      (
        real,
        traversed,
        chosen,
        resolved,
        resolve_abi_step (suc fuel) lib real traversed chosen is_lib resolved processed,
        right,
      )
