-- ===== src/SharedLibs.antt =====
-- src/utility/sharedLibs.cpp, and `isSharedLib` of src/utility/filesystem.cpp: names and versions of
-- shared libraries. The parameters are the paths and `is_directory` of Boost, `boost::split`, and
-- for `resolveAbi` what the resolution of paths needs. Debug messages are left out.
pub mod Names
pub mod Endings
pub mod Versions
pub mod Merge
pub mod Abi
pub mod Resolved
pub mod Tools
use libsarus.Base.{
  ℕ, suc, ◌+◌, Text, codes, text_eq, Bool, true, false, not, ◌||◌, ◌&&◌, List, [], ◌∷◌, ◌++◌,
  length, drop, take, is_empty, is_prefix, ltb, ◌==◌, if◌then◌else◌, Option, none, some, String,
}
use libsarus.Error.{Result, ok, throws, throw_error, format, text, end, ◌>>=◌}
use libsarus.Filesystem.Paths.{PathOps, root}
use libsarus.Filesystem.Status.{StatResult}
use libsarus.Filesystem.Resolve.{append_paths_within_rootfs, Progress}

-- `boost::ends_with`.
unfoldable pub ends_with : Text → Text → Bool
ends_with [] p = is_empty p
ends_with (c ∷ s) p = let rest = ends_with s p in text_eq (c ∷ s) p || rest

abbrev later : Option ℕ → Option ℕ → Option ℕ
later none here = here
later (some p) here = some (suc p)

-- `std::find_end` for a pattern that is not empty: where it stands last; `none` is the end.
unfoldable pub find_end : Text → Text → Option ℕ
find_end [] p = none
find_end (c ∷ s) p = later (find_end s p) (if is_prefix p (c ∷ s) then some 0 else none)

abbrev pub extension : Text
extension = codes ".so"

-- The test of what follows the extension: nothing, or a dot.
abbrev pub ends_or_dot : Text → Bool
ends_or_dot [] = true
ends_or_dot (c ∷ s) = c == b'.'

-- The tests of the file name.
unfoldable pub has_library_name : Text → Option ℕ → Bool
has_library_name name none = false
has_library_name name (some pos) =
    not (ends_with name (codes ".conf"))
    && not (ends_with name (codes ".cache"))
    && ends_or_dot (drop (pos + 3) name)

-- `std::equal` of the shorter list with the beginning of the longer one.
unfoldable pub equal_beginning : List Text → List Text → Bool
equal_beginning [] ys = true
equal_beginning (x ∷ xs) [] = false
equal_beginning (x ∷ xs) (y ∷ ys) = text_eq x y && equal_beginning xs ys

-- The longer of two versions, if the shorter one is its beginning.
unfoldable pub merge_abi : List Text → List Text → List Text
merge_abi abi longest_abi_so_far =
    let shorter =
      if ltb (length abi) (length longest_abi_so_far) then abi else longest_abi_so_far in
    let longer = if ltb (length longest_abi_so_far) (length abi) then abi else longest_abi_so_far in
    if not (equal_beginning shorter longer) then longest_abi_so_far else longer

module _ (ops : PathOps) where
  abbrev invalid_library : Text → Result Text
  invalid_library path =
      throw_error "getLinkerName"
        (format "Failed to parse linker name from invalid library path '%s'" (text path end))

  -- The file name up to the extension, at the position of the last one.
  unfoldable pub linker_name_at : Text → Option ℕ → Result Text
  linker_name_at path none = invalid_library path
  linker_name_at path (some dot) =
      if not (ends_or_dot (drop (dot + 3) (ops.filename path)))
      then invalid_library path
      else ok (take (dot + 3) (ops.filename path))

  unfoldable pub get_linker_name : Text → Result Text
  get_linker_name path = linker_name_at path (find_end (ops.filename path) extension)

  module _ (is_directory : Text → Result Bool) where
    unfoldable pub is_shared_lib : Text → Result Bool
    is_shared_lib file = do
      folder ← is_directory file
      let name = ops.filename file
      ok (if folder then false else has_library_name name (find_end name extension))

    module _ (split : ℕ → Text → List Text) where
      unfoldable pub versions_at : Text → Option ℕ → Result (List Text)
      versions_at lib none = throw_error "parseAbi" (
          format
            "Failed to get version numbers of library %s. Expected a library with file extension '%s'."
            (text lib (text extension end)))
      versions_at lib (some pos) =
          if is_empty (drop (pos + 3) (ops.filename lib))
          then ok []
          else ok (split b'.' (drop (pos + 4) (ops.filename lib)))

      unfoldable pub parse_abi : Text → Result (List Text)
      parse_abi lib = do
        is_lib ← is_shared_lib lib
        if not is_lib
            then throw_error "parseAbi"
                (format "Cannot parse ABI version of '%s': not a shared library" (text lib end))
            else versions_at lib (find_end (ops.filename lib) extension)

      -- The body of the loop of `resolveAbi` for a path that is a library.
      unfoldable pub follow_library : Text → Text → List Text → Result (List Text)
      follow_library lib path longest_abi_so_far = do
        name ← get_linker_name path
        wanted ← get_linker_name lib
        let merged = parse_abi path >>= λ abi. ok (merge_abi abi longest_abi_so_far)
        if not (text_eq name wanted) then ok longest_abi_so_far else merged

      unfoldable pub follow_path : Text → Text → List Text → Result (List Text)
      follow_path lib path longest_abi_so_far = do
        is_lib ← is_shared_lib path
        let followed = follow_library lib path longest_abi_so_far
        if not is_lib then ok longest_abi_so_far else followed

      unfoldable pub process_paths : Text → List Text → List Text → Result (List Text)
      process_paths lib [] longest_abi_so_far = ok longest_abi_so_far
      process_paths lib (path ∷ paths) longest_abi_so_far =
          follow_path lib path longest_abi_so_far >>= process_paths lib paths

      module _ (lstat : Text → StatResult) (read_link : Text → Text) (root_dir : Text) where
        -- The links that were traversed, and then where they lead.
        abbrev process_resolved : Text → Option Progress → Option (Result (List Text))
        process_resolved lib none = none
        process_resolved lib (some (lib_real, traversed_symlinks)) =
            some (process_paths lib (traversed_symlinks ++ (lib_real ∷ [])) [])

        unfoldable pub resolve_abi : ℕ → Text → Option (Result (List Text))
        resolve_abi fuel lib = elim (is_shared_lib lib) [
          | throws e ↦ some (throws e)
          | ok is_lib ↦
              if not is_lib
              then some (
                  throw_error "resolveAbi" (
                    format "Cannot resolve ABI version of '%s': not a shared library"
                      (text lib end)))
              else process_resolved lib
                  (append_paths_within_rootfs ops lstat read_link root_dir fuel root lib [])
        ]
