-- ===== src/Filesystem/Resolve/Cycle.antt =====
-- A symbolic link that leads back to itself.
use libsarus.Base.{
  ℕ, zero, suc, Text, codes, text_eq_ne, true, List, [], ◌∷◌, ◌++◌, Option, none, some, ◌≡◌, ◌⊎◌,
  inl, inr, Bool-cases, ◌∙◌, refl,
}
use libsarus.Filesystem.Paths.{PathOps, root, IsName}
use libsarus.Filesystem.Status.{StatResult, is_symlink}
use libsarus.Filesystem.Resolve.{
  Progress, within, resolve_element, resolve_elements, append_paths_within_rootfs,
}
use libsarus.Filesystem.Resolve.Confined.{name_ne_root}

module _ (ops : PathOps) (lstat : Text → StatResult) (read_link : Text → Text) (rootfs : Text) where
  -- The path begins with the element, as an absolute or as a relative path.
  abbrev BeginsWith : Text → Text → Type 0
  BeginsWith e path =
      (rest : List Text) × ((ops.elements path ≡ root ∷ e ∷ rest) ⊎ (ops.elements path ≡ e ∷ rest))

  -- A link in the root whose target begins with the link itself.
  pub record IsSelfLink (e : Text) : Type 0 where
    pub is_name : IsName e
    pub is_link : is_symlink lstat (within ops lstat read_link rootfs root e) ≡ true
    pub leads_back : BeginsWith e (read_link (within ops lstat read_link rootfs root e))

  cycle_step :
      (call : Text → Text → List Text → Option Progress) (e : Text) (traversed : List Text)
      → IsSelfLink e
      → resolve_element ops lstat read_link rootfs call e root traversed
        ≡ call root
            (read_link (within ops lstat read_link rootfs root e))
            (traversed ++ (ops.append root e ∷ []))
  unfolding resolve_element
  cycle_step call e traversed s =
      elim (Bool-cases (ops.is_absolute (read_link (within ops lstat read_link rootfs root e)))) [
        | inl absolute ↦ rw (
          name_ne_root s.is_name,
          text_eq_ne e (codes ".") s.is_name.ne_dot,
          text_eq_ne e (codes "..") s.is_name.ne_dot_dot,
          s.is_link,
          absolute,
        )
        | inr relative ↦ rw (
          name_ne_root s.is_name,
          text_eq_ne e (codes ".") s.is_name.ne_dot,
          text_eq_ne e (codes "..") s.is_name.ne_dot_dot,
          s.is_link,
          relative,
        )
      ]

  root_step :
      (call : Text → Text → List Text → Option Progress) (traversed : List Text)
      → resolve_element ops lstat read_link rootfs call root root traversed ≡ some (root, traversed)
  unfolding resolve_element
  root_step call traversed = refl

  elements_cycle :
      (call : Text → Text → List Text → Option Progress) (e : Text) (rest traversed : List Text)
      → IsSelfLink e
      → call root
          (read_link (within ops lstat read_link rootfs root e))
          (traversed ++ (ops.append root e ∷ []))
        ≡ none
      → resolve_elements ops lstat read_link rootfs call (e ∷ rest) root traversed ≡ none
  unfolding resolve_elements
  elements_cycle call e rest traversed s h =
      rw (resolve_elements, cycle_step call e traversed s, h) refl

  root_elements :
      (call : Text → Text → List Text → Option Progress) (es traversed : List Text)
      → resolve_elements ops lstat read_link rootfs call (root ∷ es) root traversed
        ≡ resolve_elements ops lstat read_link rootfs call es root traversed
  unfolding resolve_elements
  root_elements call es traversed = rw (resolve_elements, root_step call traversed) refl

  -- For a symbolic link in the root of the root file system whose target, absolute or relative,
  -- begins with the link itself: on a path that begins with this link, resolved from the root,
  -- the recursion of `appendPathsWithinRootfs` never ends: no amount of fuel is enough.
  pub append_paths_cycle :
      (e path : Text) (fuel : ℕ) (traversed : List Text)
      → IsSelfLink e
      → BeginsWith e path
      → append_paths_within_rootfs ops lstat read_link rootfs fuel root path traversed ≡ none
  unfolding append_paths_within_rootfs
  append_paths_cycle e path zero traversed s begins = refl
  append_paths_cycle e path (suc fuel) traversed s (rest, begins) =
      let call = append_paths_within_rootfs ops lstat read_link rootfs fuel in
      let again =
        append_paths_cycle e (read_link (within ops lstat read_link rootfs root e)) fuel
          (traversed ++ (ops.append root e ∷ [])) s s.leads_back in
      let ends = elements_cycle call e rest traversed s again in
      elim begins [
        | inl absolute ↦ rw absolute (root_elements call (e ∷ rest) traversed ∙ ends)
        | inr relative ↦ rw relative ends
      ]
