-- ===== src/Filesystem/Resolve/Confined.antt =====
-- A resolved path stays inside the root file system, and resolution ends where the links are ranked.
use libsarus.Base.{
  ℕ, zero, suc, ◌<◌, Text, codes, text_eq, text_eq_ne, count, Bool, true, false, List, [], ◌∷◌,
  ◌++◌, All, All-append, All-map, if◌then◌else◌, Option, some, ◌≡◌, refl, ap, arith, Bool-cases,
  inl, inr,
}
use libsarus.Filesystem.Paths.{
  PathOps, root, IsName, IsElement, a_root, a_dot, a_dot_dot, a_name, IsPathOps,
}
use libsarus.Filesystem.Paths
use libsarus.Filesystem.Status.{StatResult, is_symlink}
use libsarus.Filesystem.Resolve.{
  Progress, within, resolve_element, resolve_elements, append_paths_within_rootfs,
}

pub name_ne_root : {e : Text} → IsName e → text_eq e root ≡ false
name_ne_root {e} n =
    text_eq_ne e root (λ is. absurd (omega (arith, ap (count b'/') is, n.no_slash)))

module _ (ops : PathOps) (lstat : Text → StatResult) (read_link : Text → Text) (rootfs : Text) where
  -- The root with names appended, none of which is a symbolic link where it stands.
  pub data IsResolved : Text → Type 0 where
    at_root : IsResolved root
    below :
        {c : Text} (e : Text)
        → IsResolved c
        → IsName e
        → is_symlink lstat (within ops lstat read_link rootfs c e) ≡ false
        → IsResolved (ops.append c e)

  -- A path at which a symbolic link was met.
  pub record IsTraversed (l : Text) : Type 0 where
    pub folder : Text
    pub name : Text
    pub is_path : l ≡ ops.append folder name
    pub folder_resolved : IsResolved folder
    pub is_link : is_symlink lstat (within ops lstat read_link rootfs folder name) ≡ true

  -- Every element of the targets is an ordinary one, and a link leads only to names of lower rank.
  pub record Ranks (rank : Text → ℕ) : Type 0 where
    pub target_elements :
        (c e : Text)
        → is_symlink lstat (within ops lstat read_link rootfs c e) ≡ true
        → All
            (λ x. IsElement x × (rank x < rank e))
            (ops.elements (read_link (within ops lstat read_link rootfs c e)))

  abbrev Good : Progress → Type 0
  Good (current, traversed) = IsResolved current × All IsTraversed traversed

  abbrev Ends : Option Progress → Type 0
  Ends r = (g : Progress) × (r ≡ some g) × Good g

  IsResolved-IsCanonical : {c : Text} → IsResolved c → Paths.IsCanonical ops c
  IsResolved-IsCanonical at_root = Paths.IsCanonical.at_root
  IsResolved-IsCanonical (below e r n l) = Paths.IsCanonical.below e (IsResolved-IsCanonical r) n

  module _ (laws : IsPathOps ops) where
    up-IsResolved :
        (c : Text)
        → IsResolved c
        → IsResolved
            (if ops.greater c root then ops.parent_path (ops.remove_trailing_separator c) else c)
    up-IsResolved _ at_root = rw laws.greater-root at_root
    up-IsResolved _ (below {c} e r n l) =
        rw
          (
            laws.greater-append c e (IsResolved-IsCanonical r) n,
            laws.parent-append c e (IsResolved-IsCanonical r) n,
          )
          r

    start : {c : Text} (b : Bool) → IsResolved c → IsResolved (if b then root else c)
    start true r = at_root
    start false r = r

    resolve_element-Ends :
        (call : Text → Text → List Text → Option Progress) (e current : Text)
        (traversed : List Text)
        → IsElement e
        → Good (current, traversed)
        → ((c : Text) (t : List Text)
            → is_symlink lstat (within ops lstat read_link rootfs current e) ≡ true
            → Good (c, t)
            → Ends (call c (read_link (within ops lstat read_link rootfs current e)) t))
        → Ends (resolve_element ops lstat read_link rootfs call e current traversed)
    unfolding resolve_element
    resolve_element-Ends call e current traversed (a_root is) g next =
        ((current, traversed), rw is refl, g)
    resolve_element-Ends call e current traversed (a_dot is) g next =
        ((current, traversed), rw is refl, g)
    resolve_element-Ends call e current traversed (a_dot_dot is) g next = (
      (
        if ops.greater current root
            then ops.parent_path (ops.remove_trailing_separator current)
            else current,
        traversed,
      ),
      rw is refl,
      (up-IsResolved current g.0, g.1),
    )
    resolve_element-Ends call e current traversed (a_name n) g next =
        elim (Bool-cases (is_symlink lstat (within ops lstat read_link rootfs current e))) [
          | inl link ↦
              let target = read_link (within ops lstat read_link rootfs current e) in
              let (p, runs, good) =
                next (if ops.is_absolute target then root else current)
                  (traversed ++ (ops.append current e ∷ [])) link
                  (
                    start (ops.is_absolute target) g.0,
                    All-append IsTraversed traversed _ g.1 (
                      record {
                        folder = current;
                        name = e;
                        is_path = refl;
                        folder_resolved = g.0;
                        is_link = link;
                      },
                      tt,
                    ),
                  ) in
              (
                p,
                rw
                    (
                      name_ne_root n,
                      text_eq_ne e (codes ".") n.ne_dot,
                      text_eq_ne e (codes "..") n.ne_dot_dot,
                      link,
                    )
                    runs,
                good,
              )
          | inr plain ↦ (
            (ops.append current e, traversed),
            rw
                (
                  name_ne_root n,
                  text_eq_ne e (codes ".") n.ne_dot,
                  text_eq_ne e (codes "..") n.ne_dot_dot,
                  plain,
                )
                refl,
            (below e g.0 n plain, g.1),
          )
        ]

    resolve_elements-Ends :
        (call : Text → Text → List Text → Option Progress) (es : List Text) (current : Text)
        (traversed : List Text)
        → All IsElement es
        → Good (current, traversed)
        → All
            (λ e.
              (c0 c : Text) (t : List Text)
              → is_symlink lstat (within ops lstat read_link rootfs c0 e) ≡ true
              → Good (c, t)
              → Ends (call c (read_link (within ops lstat read_link rootfs c0 e)) t))
            es
        → Ends (resolve_elements ops lstat read_link rootfs call es current traversed)
    unfolding resolve_elements
    resolve_elements-Ends call [] current traversed h g next = ((current, traversed), refl, g)
    resolve_elements-Ends call (e ∷ es) current traversed h g next =
        let ((c, t), runs, good) =
          resolve_element-Ends call e current traversed h.0 g (next.0 current) in
        let (p, rest, good') = resolve_elements-Ends call es c t h.1 good next.1 in
        (p, rw (runs, resolve_elements) rest, good')

    below_rank :
        (rank : Text → ℕ) {n : ℕ} (e : Text) (es : List Text)
        → rank e < suc n
        → All (λ x. IsElement x × (rank x < rank e)) es
        → All (λ x. IsElement x × (rank x < n)) es
    below_rank rank e es h = All-map _ _ es (λ x k. (k.0, omega arith))

    append_paths-Ends :
        (rank : Text → ℕ)
        → Ranks rank
        → (fuel : ℕ) (path0 path1 : Text) (traversed : List Text)
        → All (λ x. IsElement x × (rank x < fuel)) (ops.elements path1)
        → Good (path0, traversed)
        → Ends
            (append_paths_within_rootfs ops lstat read_link rootfs (suc fuel) path0 path1 traversed)
    unfolding append_paths_within_rootfs
    append_paths-Ends rank ranks zero path0 path1 traversed h g =
        resolve_elements-Ends (append_paths_within_rootfs ops lstat read_link rootfs zero)
          (ops.elements path1) path0 traversed
          (All-map _ IsElement (ops.elements path1) (λ x k. k.0) h) g
          (All-map _ _ (ops.elements path1) (λ e k c0 c t link good. absurd (omega (arith, k.1))) h)
    append_paths-Ends rank ranks (suc n) path0 path1 traversed h g =
        resolve_elements-Ends (append_paths_within_rootfs ops lstat read_link rootfs (suc n))
          (ops.elements path1) path0 traversed
          (All-map _ IsElement (ops.elements path1) (λ x k. k.0) h) g
          (All-map _ _ (ops.elements path1)
            (λ e k c0 c t link good.
              append_paths-Ends rank ranks n c (read_link (within ops lstat read_link rootfs c0 e))
                t
                (below_rank rank e
                  (ops.elements (read_link (within ops lstat read_link rootfs c0 e))) k.1
                  (ranks.target_elements c0 e link))
                good)
            h)

    -- Where each link leads only to names of lower rank, resolving a path below an already
    -- resolved folder, or from the root, ends with fuel above the ranks of its elements and one
    -- more. Its result is the root with names appended, none of them '.' or '..' and none a
    -- symbolic link where it stands, so it does not leave the root file system; and each path
    -- collected is one at which a symbolic link was met.
    pub append_paths-IsResolved :
        (rank : Text → ℕ)
        → Ranks rank
        → (fuel : ℕ) (path0 path1 : Text) → IsResolved path0
        → All (λ x. IsElement x × (rank x < fuel)) (ops.elements path1)
        → (current : Text) × (traversed : List Text) × (append_paths_within_rootfs ops lstat
              read_link rootfs
              (suc fuel)
              path0
              path1
              []
            ≡ some (current, traversed))
          × IsResolved current
          × All IsTraversed traversed
    append_paths-IsResolved rank ranks fuel path0 path1 r h =
        let ((c, t), runs, good) = append_paths-Ends rank ranks fuel path0 path1 [] h (r, tt) in
        (c, t, runs, good.0, good.1)
