-- ===== src/Tests/Libraries.antt =====
-- Names and versions of libraries, and a command whose output is read.
use libsarus.Base.{
  Text, codes, text_eq, Bool, true, false, List, [], ◌∷◌, ◌++◌, All, if◌then◌else◌, Option, none,
  some, inl, inr, ◌≡◌, ◌≢◌, ◌↔◌, ◌⊎◌, refl, sym, arith,
}
use mathlib.Core.List.{cons-ne-nil}
use libsarus.Error.{Result, ok}
use libsarus.Split.{Lacks, split_on}
use libsarus.Split.Tokens.{split_on-IsSplit}
use libsarus.Filesystem.Paths.{root, IsName, a_root, a_name}
use libsarus.Filesystem.Status.{StatResult, status, failed}
use libsarus.Filesystem.Resolve.{append_paths_within_rootfs}
use libsarus.Process.Commands.{Shell, exited, execute_command}
use libsarus.Process.Commands.Reading.{IsStream}
use libsarus.Process.Commands.Output.{Runs, execute_command-Runs}
use libsarus.SharedLibs.{get_linker_name, is_shared_lib, parse_abi, resolve_abi}
use libsarus.SharedLibs.Names.{IsLibraryName, get_linker_name_iff}
use libsarus.SharedLibs.Versions.{IsLibrary, dotted, is_shared_lib-parse_abi}
use libsarus.SharedLibs.Abi.{IsChosen}
use libsarus.SharedLibs.Resolved.{resolve_abi-IsChosen}
use libsarus.SharedLibs.Tools.{list_libraries}
use libsarus.Tests.Paths.{ends_with, posix, posix-IsPathOps}
use libsarus.Tests.Links.{link, lstat, to_folder, rootfs, rank, folder_Ranks, l_IsName}

abbrev is_directory : Text → Result Bool
is_directory path = ok (text_eq path (codes "/d"))

get_linker_name_iff_example :
    (get_linker_name posix (codes "/usr/lib/libmpi.so.12.0") ≡ ok (codes "libmpi.so")) ↔ (
      (version : Text) × IsLibraryName
        (posix.filename (codes "/usr/lib/libmpi.so.12.0"))
        (codes "libmpi.so")
        version)
get_linker_name_iff_example =
    get_linker_name_iff posix (codes "/usr/lib/libmpi.so.12.0") (codes "libmpi.so")

is_shared_lib-parse_abi_example :
    ((is_shared_lib posix is_directory (codes "/lib/libc.so.6") ≡ ok true)
      ↔ IsLibrary posix is_directory (codes "/lib/libc.so.6"))
    × (IsLibrary posix is_directory (codes "/lib/libc.so.6")
        → (linker : Text) × (versions : List Text) × (get_linker_name posix (codes "/lib/libc.so.6")
            ≡ ok linker)
          × (parse_abi posix is_directory split_on (codes "/lib/libc.so.6") ≡ ok versions)
          × (posix.filename (codes "/lib/libc.so.6") ≡ linker ++ dotted versions)
          × All (Lacks b'.') versions)
    × ((versions : List Text)
        → parse_abi posix is_directory split_on (codes "/lib/libc.so.6") ≡ ok versions
        → IsLibrary posix is_directory (codes "/lib/libc.so.6"))
is_shared_lib-parse_abi_example =
    is_shared_lib-parse_abi posix is_directory split_on split_on-IsSplit (codes "/lib/libc.so.6")

abbrev lib : Text
lib = codes "/l/libx.so.1"

lib_IsName : IsName (codes "libx.so.1")
lib_IsName = record {
  name_ne_nil = cons-ne-nil _ _;
  no_slash = refl;
  ne_dot = λ h. cc h;
  ne_dot_dot = λ h. cc h;
}

lib_is_library : is_shared_lib posix is_directory lib ≡ ok true
unfolding is_shared_lib libsarus.SharedLibs.has_library_name libsarus.SharedLibs.find_end
    libsarus.SharedLibs.ends_with
lib_is_library = refl

resolve_abi-IsChosen_example :
    (real : Text) × (traversed : List Text) × (chosen : List Text) × (append_paths_within_rootfs
        posix lstat to_folder rootfs 4 root lib []
      ≡ some (real, traversed))
    × (resolve_abi posix is_directory split_on lstat to_folder rootfs 4 lib ≡ some (ok chosen))
    × IsChosen posix is_directory split_on lib (traversed ++ (real ∷ [])) chosen
unfolding libsarus.Split.split_on
resolve_abi-IsChosen_example =
    resolve_abi-IsChosen posix is_directory split_on lstat to_folder rootfs posix-IsPathOps
      split_on-IsSplit rank folder_Ranks 3 lib
      (
        (a_root refl, omega arith),
        ((a_name l_IsName, omega arith), ((a_name lib_IsName, omega arith), tt)),
      )
      (λ path. (text_eq path (codes "/d"), refl)) lib_is_library

-- A link to a library with a longer version.
abbrev version_lstat : Text → StatResult
version_lstat path = if ends_with b'1' path then status link else failed (codes "not a link")

abbrev to_version : Text → Text
to_version path = codes "libx.so.1.2"

resolve_abi_run :
    resolve_abi posix is_directory split_on version_lstat to_version rootfs 3 (codes "/libx.so.1")
    ≡ some (ok (codes "1" ∷ codes "2" ∷ []))
unfolding resolve_abi libsarus.SharedLibs.process_paths libsarus.SharedLibs.follow_path
    libsarus.SharedLibs.follow_library libsarus.SharedLibs.merge_abi
    libsarus.SharedLibs.equal_beginning parse_abi libsarus.SharedLibs.versions_at get_linker_name
    libsarus.SharedLibs.linker_name_at is_shared_lib libsarus.SharedLibs.has_library_name
    libsarus.SharedLibs.find_end libsarus.SharedLibs.ends_with append_paths_within_rootfs
    libsarus.Filesystem.Resolve.resolve_elements libsarus.Filesystem.Resolve.resolve_element
    libsarus.Filesystem.Status.is_symlink libsarus.Split.split_on
resolve_abi_run = refl

list_libraries_run :
    list_libraries (codes "2 libs found" ∷ codes "libc.so.6 (libc6) => /lib/libc.so.6" ∷ [])
    ≡ codes "/lib/libc.so.6" ∷ []
unfolding list_libraries libsarus.SharedLibs.find_end
list_libraries_run = refl

-- A stream that gives one byte at a call.
abbrev bytewise : Text → Option Text × Text
bytewise [] = (none, [])
bytewise (c ∷ s) = (some (c ∷ []), s)

abbrev at_end : Text → Bool
at_end [] = true
at_end (c ∷ s) = false

abbrev pub echo_shell : Shell
echo_shell = record {
  State = Unit {0};
  Stream = Text;
  popen = λ command s. (some command, s);
  feof = at_end;
  fgets = bytewise;
  pclose = λ pipe s. (some (exited 0), s);
  strerror = λ s. codes "error";
}

bytes_are : (i : Text) → at_end i ≡ true → i ≡ []
bytes_are [] h = refl
bytes_are (c ∷ s) h = cc h

bytewise_lem :
    (i : Text)
    → ((b : Text) × ((bytewise i).0 ≡ some b) × (b ≢ []) × (i ≡ b ++ (bytewise i).1))
      ⊎ ((bytewise i).0 ≡ none)
        × ((at_end (bytewise i).1 ≡ false)
            ⊎ (i ≡ []) × ((bytewise i).1 ≡ []) × (at_end (bytewise i).1 ≡ true))
bytewise_lem [] = inr (refl, inr (refl, refl, refl))
bytewise_lem (c ∷ s) = inl (c ∷ [], refl, cons-ne-nil c [], refl)

pub echo-IsStream : IsStream echo_shell (λ i. i)
echo-IsStream = record { feof-contents = bytes_are; fgets_lem = bytewise_lem }

execute_command-Runs_example :
    ((r : Result Text) × (s' : Unit {0}) × (execute_command echo_shell 20 (codes "ls") tt
        ≡ some (r, s')))
    × ((output : Text) (s' : Unit {0})
        → (execute_command echo_shell 20 (codes "ls") tt ≡ some (ok output, s'))
          ↔ Runs echo_shell (λ i. i) echo-IsStream (codes "ls") tt output s')
execute_command-Runs_example =
    execute_command-Runs echo_shell (λ i. i) echo-IsStream 20 (codes "ls") tt
      (λ pipe t h. let is : codes "ls 2>&1" ≡ pipe = cc h in rw (sym is) (omega arith, refl))
