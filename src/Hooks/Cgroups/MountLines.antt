-- ===== src/Hooks/Cgroups/MountLines.antt =====
-- The line of a mount table that `findSubsystemMountPaths` takes.
use libsarus.Base.{
  ℕ, Text, codes, false, List, [], ◌∷◌, ◌++◌, All, is_prefix, if◌then◌else◌, Option, none, some,
  Option-cases, Bool-cases, inl, inr, ◌≡◌, ◌↔◌, refl, sym, ap, ◌∙◌,
}
use libsarus.Error.{ok}
use libsarus.Filesystem.Paths.{PathOps}
use libsarus.Hooks.Cgroups.{
  select_mount, find_mount, parent_namespace, read_file, proc_file, find_subsystem_mount_paths,
}
use libsarus.Hooks.Cgroups.Fields.{IsMountLine, IsMountLine-select_mount, select_mount-IsMountLine}

module _ (split : ℕ → Text → List Text) where
  -- The first line that is taken, which is not rooted in a parent namespace.
  pub record IsFirst (subsystem : Text) (lines : List Text) (root point : Text) : Type 0 where
    pub before : List Text
    pub line : Text
    pub after : List Text
    pub is_lines : lines ≡ before ++ (line ∷ after)
    pub none_before : All (λ l. (r p : Text) → ¬ IsMountLine subsystem r p (split b' ' l)) before
    pub is_mount : IsMountLine subsystem root point (split b' ' line)
    pub own_namespace : is_prefix (codes "/..") root ≡ false

  passed_over :
      (subsystem path line : Text) (lines : List Text)
      → select_mount subsystem (split b' ' line) ≡ none
      → find_mount split subsystem path (line ∷ lines) ≡ find_mount split subsystem path lines
  unfolding find_mount
  passed_over subsystem path line lines e = rw (e, find_mount) refl

  taken :
      (subsystem path line : Text) (lines : List Text) (root point : Text)
      → select_mount subsystem (split b' ' line) ≡ some (root, point)
      → find_mount split subsystem path (line ∷ lines) ≡ (
          if is_prefix (codes "/..") root
          then parent_namespace split subsystem point
          else ok (root, point))
  unfolding find_mount
  taken subsystem path line lines root point e = rw (e, find_mount) refl

  find_mount-nil :
      (subsystem path root point : Text) → ¬ (find_mount split subsystem path [] ≡ ok (root, point))
  unfolding find_mount
  find_mount-nil subsystem path root point h = cc h

  find_mount-IsFirst :
      (subsystem path : Text) (lines : List Text) (root point : Text)
      → find_mount split subsystem path lines ≡ ok (root, point)
      → IsFirst subsystem lines root point
  find_mount-IsFirst subsystem path [] root point h =
      absurd (find_mount-nil subsystem path root point h)
  find_mount-IsFirst subsystem path (line ∷ lines) root point h =
      elim (Option-cases (select_mount subsystem (split b' ' line))) [
        | inl e ↦
            let x =
              find_mount-IsFirst subsystem path lines root point
                (sym (passed_over subsystem path line lines e) ∙ h) in
            record {
              before = line ∷ x.before;
              line = x.line;
              after = x.after;
              is_lines = ap (line ∷◌) x.is_lines;
              none_before = (
                (λ r p l. cc (e, IsMountLine-select_mount subsystem r p (split b' ' line) l)),
                x.none_before,
              );
              is_mount = x.is_mount;
              own_namespace = x.own_namespace;
            }
        | inr ((r, p), e) ↦
            let runs = sym (taken subsystem path line lines r p e) ∙ h in
            elim (Bool-cases (is_prefix (codes "/..") r)) [
              | inl foreign ↦ cc (rw foreign at runs)
              | inr own ↦
                  let same : (r, p) ≡ (root, point) = cc (rw own at runs) in
                  record {
                    before = [];
                    line = line;
                    after = lines;
                    is_lines = refl;
                    none_before = tt;
                    is_mount =
                        select_mount-IsMountLine subsystem root point (split b' ' line)
                          (e ∙ ap some same);
                    own_namespace = ap (is_prefix (codes "/..")) (ap (λ x. x.0) (sym same)) ∙ own;
                  }
            ]
      ]

  not_taken :
      (subsystem : Text) (tokens : List Text)
      → ((r p : Text) → ¬ IsMountLine subsystem r p tokens)
      → select_mount subsystem tokens ≡ none
  not_taken subsystem tokens h = elim (Option-cases (select_mount subsystem tokens)) [
    | inl e ↦ e
    | inr ((r, p), e) ↦ absurd (h r p (select_mount-IsMountLine subsystem r p tokens e))
  ]

  IsFirst-find_mount :
      (subsystem path root point : Text) (before : List Text) (line : Text) (after : List Text)
      → All (λ l. (r p : Text) → ¬ IsMountLine subsystem r p (split b' ' l)) before
      → IsMountLine subsystem root point (split b' ' line)
      → is_prefix (codes "/..") root ≡ false
      → find_mount split subsystem path (before ++ (line ∷ after)) ≡ ok (root, point)
  IsFirst-find_mount subsystem path root point [] line after h l own =
      taken subsystem path line after root point
        (IsMountLine-select_mount subsystem root point (split b' ' line) l)
      ∙ rw own refl
  IsFirst-find_mount subsystem path root point (x ∷ before) line after h l own =
      passed_over subsystem path x _ (not_taken subsystem (split b' ' x) h.0)
      ∙ IsFirst-find_mount subsystem path root point before line after h.1 l own

  module _ (ops : PathOps) (show : ℕ → Text) (contents : Text → Option Text) where
    -- `findSubsystemMountPaths` returns a mount root and a mount point exactly when they are the
    -- fourth and the fifth field of the first line of the mount table with these properties: at
    -- least ten fields, the third from the end is 'cgroup', the last holds the name of the
    -- subsystem, and neither root, point nor the last is empty; and the root does not begin with
    -- '/..'.
    pub find_subsystem_mount_paths_iff :
        (subsystem prefix root point : Text) (pid : ℕ)
        → (find_subsystem_mount_paths split ops show contents subsystem prefix pid
            ≡ ok (root, point))
          ↔ IsFirst subsystem
              (split b'\n' (
                read_file contents
                  (proc_file split ops show contents prefix pid (codes "mountinfo"))))
              root
              point
    unfolding find_subsystem_mount_paths
    find_subsystem_mount_paths_iff subsystem prefix root point pid =
        let path = proc_file split ops show contents prefix pid (codes "mountinfo") in
        (
          find_mount-IsFirst subsystem path (split b'\n' (read_file contents path)) root point,
          λ x.
              ap (find_mount split subsystem path) x.is_lines
              ∙ IsFirst-find_mount subsystem path root point x.before x.line x.after x.none_before
                  x.is_mount x.own_namespace,
        )
