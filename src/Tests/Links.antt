-- ===== src/Tests/Links.antt =====
-- Resolutions with symbolic links: one that leads to a folder, and one that leads to itself.
use libsarus.Base.{
  ◌⊎◌, false, ℕ, Text, codes, text_eq, text_eq_iff, true, List, [], ◌∷◌, All, if◌then◌else◌, none,
  some, ◌≡◌, refl, sym, ap, ◌∙◌, arith, Bool-cases, inl, inr, ◌==◌, ==_iff,
}
use mathlib.Core.List.{cons-ne-nil}
use libsarus.Filesystem.Paths.{root, IsName, a_root, a_name}
use libsarus.Filesystem.Status.{Stat, StatResult, status, failed, symbolic_link, is_symlink}
use libsarus.Filesystem.Resolve.{
  realpath_within_rootfs, within, append_paths_within_rootfs, resolve_elements, resolve_element,
}
use libsarus.Filesystem.Resolve.Confined.{
  Ranks, IsResolved, at_root, IsTraversed, append_paths-IsResolved,
}
use libsarus.Filesystem.Resolve.Realpath.{realpath_within_rootfs-IsResolved}
use libsarus.Error.{Exception, ok, throws}
use libsarus.Filesystem.Resolve.Cycle.{IsSelfLink, append_paths_cycle}
use libsarus.Tests.Paths.{
  posix, posix-IsPathOps, ends_with, ends_with-append, path_append, path_append-Begins,
}

abbrev pub link : Stat
link = record {
  st_type = symbolic_link;
  st_uid = 0;
  st_gid = 0;
  st_size = 0;
  st_dev = 5;
  st_rdev = 0;
}

-- The paths that end in 'l' are symbolic links.
abbrev pub lstat : Text → StatResult
lstat path = if ends_with b'l' path then status link else failed (codes "not a link")

abbrev pub rootfs : Text
rootfs = codes "/r"

abbrev pub to_folder : Text → Text
to_folder path = codes "/d"

resolve_run :
    append_paths_within_rootfs posix lstat to_folder rootfs 4 root (codes "/l/../l/x") []
    ≡ some (codes "/d/x", codes "/l" ∷ codes "/l" ∷ [])
unfolding append_paths_within_rootfs resolve_elements resolve_element is_symlink
    libsarus.Split.split_on
resolve_run = refl

abbrev pub rank : Text → ℕ
rank e = if text_eq e root then 0 else if ends_with b'l' e then 2 else 1

is_symlink_ends : (path : Text) → is_symlink lstat path ≡ true → ends_with b'l' path ≡ true
unfolding is_symlink
is_symlink_ends path h = elim (Bool-cases (ends_with b'l' path)) [
  | inl e ↦ e
  | inr e ↦ cc (rw (e, is_symlink) at h)
]

-- What stands last in a path is its element.
ends_with-path_append :
    (x : ℕ) (c e : Text) → ends_with b'l' (path_append (x ∷ c) e) ≡ ends_with b'l' e
ends_with-path_append x c [] = elim (Bool-cases (text_eq (x ∷ c) root)) [
  | inl here ↦ rw here refl
  | inr other ↦ rw other (ends_with-append b'l' (x ∷ c) [])
]
ends_with-path_append x c (d ∷ e) = elim (Bool-cases (d == b'/')) [
  | inl slash ↦
      let is = (==_iff d b'/').0 slash in
      rw is (ends_with-append b'l' (x ∷ c) e ∙ ap (λ k. ends_with b'l' (k ∷ e)) (sym is))
  | inr name ↦ elim (Bool-cases (text_eq (x ∷ c) root)) [
    | inl here ↦ rw (name, here) refl
    | inr other ↦ rw (name, other) (ends_with-append b'l' (x ∷ c) (d ∷ e))
  ]
]

ends_with-within :
    (c e : Text) → ends_with b'l' (within posix lstat to_folder rootfs c e) ≡ ends_with b'l' e
ends_with-within c e =
    let (s, is) = path_append-Begins rootfs c (codes "r", refl) in
    ap (λ x. ends_with b'l' (path_append x e)) is ∙ ends_with-path_append b'/' s e

link_rank : (e : Text) → ends_with b'l' e ≡ true → rank e ≡ 2
link_rank e h = elim (Bool-cases (text_eq e root)) [
  | inl here ↦ cc (rw ((text_eq_iff e root).0 here) at h)
  | inr other ↦ rw (other, h) refl
]

d_IsName : IsName (codes "d")
d_IsName = record {
  name_ne_nil = cons-ne-nil _ _;
  no_slash = refl;
  ne_dot = λ h. cc h;
  ne_dot_dot = λ h. cc h;
}

pub l_IsName : IsName (codes "l")
l_IsName = record {
  name_ne_nil = cons-ne-nil _ _;
  no_slash = refl;
  ne_dot = λ h. cc h;
  ne_dot_dot = λ h. cc h;
}

pub folder_Ranks : Ranks posix lstat to_folder rootfs rank
unfolding libsarus.Split.split_on
folder_Ranks = record {
  target_elements = λ c e h.
      let two = link_rank e (
        sym (ends_with-within c e) ∙ is_symlink_ends (within posix lstat to_folder rootfs c e) h) in
      ((a_root refl, omega (arith, two)), ((a_name d_IsName, omega (arith, two)), tt));
}

append_paths-IsResolved_example :
    (current : Text) × (traversed : List Text) × (append_paths_within_rootfs posix lstat to_folder
        rootfs 4 root
        (codes "/l/d")
        []
      ≡ some (current, traversed))
    × IsResolved posix lstat to_folder rootfs current
    × All (IsTraversed posix lstat to_folder rootfs) traversed
unfolding libsarus.Split.split_on
append_paths-IsResolved_example =
    append_paths-IsResolved posix lstat to_folder rootfs posix-IsPathOps rank folder_Ranks 3 root
      (codes "/l/d") at_root
      (
        (a_root refl, omega arith),
        ((a_name l_IsName, omega arith), ((a_name d_IsName, omega arith), tt)),
      )

realpath_within_rootfs-IsResolved_example :
    ((posix.is_absolute (codes "/l/d") ≡ false)
      × (e : Exception) × (realpath_within_rootfs posix lstat to_folder rootfs 4 (codes "/l/d")
          ≡ some (throws e)))
    ⊎ ((posix.is_absolute (codes "/l/d") ≡ true)
        × (real : Text) × (realpath_within_rootfs posix lstat to_folder rootfs 4 (codes "/l/d")
            ≡ some (ok real))
        × IsResolved posix lstat to_folder rootfs real)
unfolding libsarus.Split.split_on
realpath_within_rootfs-IsResolved_example =
    realpath_within_rootfs-IsResolved posix lstat to_folder rootfs rank posix-IsPathOps folder_Ranks
      3 (codes "/l/d")
      (
        (a_root refl, omega arith),
        ((a_name l_IsName, omega arith), ((a_name d_IsName, omega arith), tt)),
      )

-- A relative target with more elements.
abbrev to_itself : Text → Text
to_itself path = codes "l/d"

l_IsSelfLink : IsSelfLink posix lstat to_itself rootfs (codes "l")
unfolding is_symlink libsarus.Split.split_on
l_IsSelfLink = record {
  is_name = l_IsName;
  is_link = refl;
  leads_back = (codes "d" ∷ [], inr refl);
}

append_paths_cycle_example :
    append_paths_within_rootfs posix lstat to_itself rootfs 1000 root (codes "/l/d") [] ≡ none
unfolding libsarus.Split.split_on
append_paths_cycle_example =
    append_paths_cycle posix lstat to_itself rootfs (codes "l") (codes "/l/d") 1000 [] l_IsSelfLink
      (codes "d" ∷ [], inl refl)
