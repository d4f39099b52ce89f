-- ===== src/Filesystem/Resolve.antt =====
-- src/utility/filesystem.cpp: `appendPathsWithinRootfs` and `realpathWithinRootfs`, which resolve a
-- path with its symbolic links inside a root file system. The parameters are the paths of Boost,
-- lstat(2), readlink(2) on a link (`getSymlinkTarget`), and the root directory. The links that are
-- traversed are always collected; the source does so if it is given a vector. A call for the target
-- of a link takes one unit of fuel; `none` says that it ran out.
pub mod Confined
pub mod Cycle
pub mod Realpath
use libsarus.Base.{
  ℕ, zero, suc, Text, codes, text_eq, Bool, true, false, not, ◌||◌, List, [], ◌∷◌, ◌++◌,
  if◌then◌else◌, Option, none, some,
}
use libsarus.Error.{Result, ok, throws, throw_error, format, text, end}
use libsarus.Filesystem.Paths.{PathOps, root}
use libsarus.Filesystem.Status.{StatResult, is_symlink}

-- The path so far, and the links traversed so far.
abbrev pub Progress : Type 0
Progress = Text × List Text

module _ (ops : PathOps) (lstat : Text → StatResult) (read_link : Text → Text) (rootfs : Text) where
  -- `rootfs / current / element`.
  abbrev pub within : Text → Text → Text
  within current element = ops.append (ops.append rootfs current) element

  -- The body of the loop; `call` is the recursive call, from a path and for a path.
  unfoldable pub resolve_element :
      (Text → Text → List Text → Option Progress) → Text → Text → List Text → Option Progress
  resolve_element call element current traversed =
      let up = ops.parent_path (ops.remove_trailing_separator current) in
      let target = read_link (within current element) in
      let traversed' = traversed ++ (ops.append current element ∷ []) in
      let follow = call (if ops.is_absolute target then root else current) target traversed' in
      if text_eq element root || text_eq element (codes ".")
      then some (current, traversed)
      else if text_eq element (codes "..")
      then some (if ops.greater current root then up else current, traversed)
      else if is_symlink lstat (within current element)
      then follow
      else some (ops.append current element, traversed)

  unfoldable pub resolve_elements :
      (Text → Text → List Text → Option Progress) → List Text → Text → List Text → Option Progress
  resolve_elements call [] current traversed = some (current, traversed)
  resolve_elements call (element ∷ elements) current traversed =
      elim (resolve_element call element current traversed) [
        | none ↦ none
        | some (current', traversed') ↦ resolve_elements call elements current' traversed'
      ]

  unfoldable pub append_paths_within_rootfs : ℕ → Text → Text → List Text → Option Progress
  append_paths_within_rootfs zero path0 path1 traversed = none
  append_paths_within_rootfs (suc fuel) path0 path1 traversed =
      resolve_elements (append_paths_within_rootfs fuel) (ops.elements path1) path0 traversed

  abbrev finished : Option Progress → Option (Result Text)
  finished none = none
  finished (some (current, traversed)) = some (ok current)

  abbrev pub relative_path : Text → Result Text
  relative_path path = throw_error "realpathWithinRootfs" (
      format "Failed to determine realpath within rootfs. %s is not an absolute path."
        (text path end))

  unfoldable pub realpath_within_rootfs : ℕ → Text → Option (Result Text)
  realpath_within_rootfs fuel path =
      let resolved = finished (append_paths_within_rootfs fuel root path []) in
      if not (ops.is_absolute path) then some (relative_path path) else resolved
