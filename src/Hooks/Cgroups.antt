-- ===== src/Hooks/Cgroups.antt =====
-- src/utility/hook.cpp: `findSubsystemMountPaths`, `findCgroupPathInHierarchy` and `findCgroupPath`,
-- and `readFile` of src/utility/filesystem.cpp. The parameters are `boost::split` on one separator,
-- the paths of Boost, the contents of files, and the printing of numbers. What is logged is left out.
pub mod Fields
pub mod MountLines
pub mod Hierarchy
use libsarus.Base.{
  ℕ, ◌-◌, Text, codes, text_eq, Bool, true, false, not, ◌&&◌, ◌||◌, List, [], ◌∷◌, length,
  get_elem?, is_empty, is_prefix, ltb, if◌then◌else◌, Option, none, some,
}
use libsarus.Error.{Result, ok, throws, throw_error, format, text, number, end, ◌>>=◌}
use libsarus.Strings.{find_first}
use libsarus.Filesystem.Paths.{PathOps, root}

-- `s.find(part) != npos`.
abbrev pub contains : Text → Text → Bool
contains s part = elim (find_first s part) [ none ↦ false | some p ↦ true ]

abbrev pub or_empty : Option Text → Text
or_empty none = []
or_empty (some t) = t

-- `tokens[i]` for an index in range.
abbrev pub token : List Text → ℕ → Text
token tokens i = or_empty (get_elem? tokens i)

-- A file that cannot be opened reads as the empty text.
unfoldable pub read_file : (Text → Option Text) → Text → Text
read_file contents path = or_empty (contents path)

-- The guards of the loop of `findSubsystemMountPaths`: the number of tokens, and the four that it
-- reads.
unfoldable pub guard_mount : Text → ℕ → Text → Text → Text → Text → Option (Text × Text)
guard_mount subsystem_name size mount_root mount_point filesystem_type super_options =
    if ltb size 10
    then none
    else if is_empty mount_root
        || is_empty mount_point
        || is_empty filesystem_type
        || is_empty super_options
    then none
    else if not (text_eq filesystem_type (codes "cgroup"))
    then none
    else if not (contains super_options subsystem_name)
    then none
    else some (mount_root, mount_point)

-- What they let through: mount root and mount point.
unfoldable pub select_mount : Text → List Text → Option (Text × Text)
select_mount subsystem_name tokens =
    guard_mount subsystem_name (length tokens) (token tokens 3) (token tokens 4)
      (token tokens (length tokens - 3)) (token tokens (length tokens - 1))

module _ (split : ℕ → Text → List Text) where
  abbrev pub parent_namespace : Text → Text → Result (Text × Text)
  parent_namespace subsystem_name mount_point = throw_error "findSubsystemMountPaths" (
      format "\"%s\" cgroup subsystem mount at %s belongs to a parent cgroup namespace"
        (text subsystem_name (text mount_point end)))

  -- The loop over the lines of the file.
  unfoldable pub find_mount : Text → Text → List Text → Result (Text × Text)
  find_mount subsystem_name mountinfo_path [] = throw_error "findSubsystemMountPaths" (
      format "Could not find \"%s\" cgroup subsystem mount point within %s"
        (text subsystem_name (text mountinfo_path end)))
  find_mount subsystem_name mountinfo_path (line ∷ lines) =
      elim (select_mount subsystem_name (split b' ' line)) [
        | none ↦ find_mount subsystem_name mountinfo_path lines
        | some (mount_root, mount_point) ↦
            if is_prefix (codes "/..") mount_root
            then parent_namespace subsystem_name mount_point
            else ok (mount_root, mount_point)
      ]

  module _ (ops : PathOps) (show : ℕ → Text) (contents : Text → Option Text) where
    -- `procPrefixDir / "proc" / std::to_string(pid) / name`.
    abbrev pub proc_file : Text → ℕ → Text → Text
    proc_file proc_prefix_dir pid name =
        ops.append (ops.append (ops.append proc_prefix_dir (codes "proc")) (show pid)) name

    unfoldable pub find_subsystem_mount_paths : Text → Text → ℕ → Result (Text × Text)
    find_subsystem_mount_paths subsystem_name proc_prefix_dir pid =
        let path = proc_file proc_prefix_dir pid (codes "mountinfo") in
        find_mount subsystem_name path (split b'\n' (read_file contents path))

    module _ (relative : Text → Text → Result Text) where
      abbrev foreign_hierarchy : Text → ℕ → Result Text
      foreign_hierarchy subsystem_name pid = throw_error "findCgroupPathInHierarchy" (
          format "\"%s\" cgroup hierarchy for process %d is rooted in another cgroup namespace"
            (text subsystem_name (number pid end)))

      abbrev pub no_hierarchy : Text → ℕ → Text → Result Text
      no_hierarchy subsystem_name pid path = throw_error "findCgroupPathInHierarchy" (
          format "Could not find \"%s\" cgroup relative path for process %d within %s"
            (text subsystem_name (number pid (text path end))))

      -- The path of a line that was found.
      unfoldable pub cgroup_of_line : Text → Text → ℕ → Text → Result Text
      cgroup_of_line subsystem_name subsystem_mount_root pid cgroup_path =
          let below = relative cgroup_path subsystem_mount_root >>= λ p. ok (ops.append root p) in
          if is_prefix (codes "/..") cgroup_path
          then foreign_hierarchy subsystem_name pid
          else if not (text_eq subsystem_mount_root root)
              && is_prefix subsystem_mount_root cgroup_path
          then below
          else ok cgroup_path

      -- The loop over the lines. `tokens[1]` and `tokens[2]` are read without a test of their
      -- number: `none` says that the behaviour is not defined.
      unfoldable pub find_hierarchy : Text → Text → ℕ → Text → List Text → Option (Result Text)
      find_hierarchy subsystem_name mount_root pid path [] =
          some (no_hierarchy subsystem_name pid path)
      find_hierarchy subsystem_name mount_root pid path (line ∷ lines) =
          let tokens = split b':' line in
          let controllers = token tokens 1 in
          let cgroup_path = token tokens 2 in
          let rest = find_hierarchy subsystem_name mount_root pid path lines in
          if ltb (length tokens) 3
          then none
          else if is_empty controllers || is_empty cgroup_path
          then rest
          else if not (contains controllers subsystem_name)
          then rest
          else some (cgroup_of_line subsystem_name mount_root pid cgroup_path)

      unfoldable pub find_cgroup_path_in_hierarchy : Text → Text → Text → ℕ → Option (Result Text)
      find_cgroup_path_in_hierarchy subsystem_name proc_prefix_dir subsystem_mount_root pid =
          let path = proc_file proc_prefix_dir pid (codes "cgroup") in
          find_hierarchy subsystem_name subsystem_mount_root pid path
            (split b'\n' (read_file contents path))

      module _ (exists : Text → Result Bool) where
        abbrev pub missing : Text → ℕ → Text → Result Text
        missing subsystem_name pid path = throw_error "findCgroupPath" (
            format
              "Found cgroups \"%s\" subsystem for process %d in %s, but directory doesn't exist"
              (text subsystem_name (number pid (text path end))))

        unfoldable pub check_cgroup : Text → ℕ → Text → Result Text
        check_cgroup subsystem_name pid path = do
          there ← exists path
          if not there then missing subsystem_name pid path else ok path

        unfoldable pub find_cgroup_path : Text → Text → ℕ → Option (Result Text)
        find_cgroup_path subsystem_name proc_prefix_dir pid =
            elim (find_subsystem_mount_paths subsystem_name proc_prefix_dir pid) [
              | throws e ↦ some (throws e)
              | ok (mount_root, mount_point) ↦
                  elim (find_cgroup_path_in_hierarchy subsystem_name proc_prefix_dir mount_root
                    pid) [
                      | none ↦ none
                      | some r ↦
                          some
                            (r >>= λ p. check_cgroup subsystem_name pid (ops.append mount_point p))
                    ]
            ]
