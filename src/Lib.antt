-- ===== src/Lib.antt =====
-- libsarus, a C++ library for container tools: a model of its requests, paths, identities and
-- bind mounts, and their correctness.
--
-- The parts, bottom up. An operation that may throw returns a `Result`, whose errors carry the
-- trace that the throw and rethrow macros build (Error: include/libsarus/Error.hpp,
-- src/errorHandling.cpp). Text utilities (Strings: src/utility/string.cpp; Environment:
-- src/utility/environment.cpp) parse key-value pairs, maps and variables. Two parsers make mounts
-- of user requests: MountParser (src/MountParser.cpp) of a map of options, and DeviceParser
-- (src/DeviceParser.cpp, src/DeviceMount.cpp) of `<source>:<destination>:<access>`, with
-- DeviceAccess (src/DeviceAccess.cpp) for the access. Mount holds their data
-- (include/libsarus/Mount.hpp, UserIdentity.hpp). Filesystem (src/utility/filesystem.cpp) has the
-- predicates on file status (Filesystem/Status), the resolution of paths inside a root file
-- system (Filesystem/Resolve) and the creation of files and folders (Filesystem/Create), and
-- lists of paths (Filesystem/PathList). Process (src/utility/process.cpp, src/UserIdentity.cpp)
-- switches identities. BindMount (src/utility/mount.cpp, src/Mount.cpp) puts these together: it
-- validates source and destination as the user, creates the mount point as root, mounts, and
-- restores the identity. Process/Commands (src/utility/process.cpp) runs a command and reads its
-- output, and Process/Children a program in a child; SharedLibs (src/utility/sharedLibs.cpp)
-- finds the linker name and the version of a library, in part through commands, and resolves the
-- version inside a root file system with Filesystem/Resolve. LockFiles (src/Lockfile.cpp) gives
-- exclusive access by lock files: its store holds the objects of all processes, and
-- LockFiles/Steps is the relation of their steps. FileLocks (src/Flock.cpp) gives shared and
-- exclusive access by flock(2), with a timeout and conversions. ScopedPaths (src/PathRAII.cpp)
-- removes a path with its object. Hooks (src/utility/hook.cpp) drops the privileges of a hook
-- (Hooks/Privileges) and finds the control groups of a process (Hooks/Cgroups). Logger
-- (src/Logger.cpp, src/utility/logging.cpp) is modelled by itself, over what the system tells at
-- the time of a call. PasswdDb (src/PasswdDB.cpp) reads and writes the password database, and
-- CliArguments (src/CLIArguments.cpp) is the vector of C strings that is passed to programs.
--
-- Functions keep the source's names in snake case: `validatedBindMount` is
-- `validated_bind_mount`. Texts are lists of bytes, and paths are their native texts. An
-- unordered map is an association list in its order of iteration. Code that is not in this
-- repository is a parameter: `boost::split` (Split, with its laws), `boost::filesystem::path`
-- (Filesystem/Paths, an interface with laws), `is_relative`, the exception of `boost::format`,
-- JSON readers, the environment of the process (Environment/Environ, an interface with laws),
-- `std::stoul`, `std::getline` and the printing of numbers (PasswdDb), popen(3) and its stream
-- (Process/Commands), fork(2) and what follows it (Process/Children), the calls on lock files
-- (LockFiles) and on descriptors (FileLocks), the trees of files (ScopedPaths), the calls that
-- change credentials in Hooks/Privileges, regular expressions (SharedLibs/Tools), and the system
-- calls with the credentials of the process (System, an interface with the laws of the manual
-- pages; its children have the monad of operations and rules for their total correctness).
-- `Tests` has instances of these interfaces, runs of the definitions, and each result at a
-- concrete input.
--
-- Fuel. `replace` takes one unit a round; more than the length of the buffer is enough if the
-- search text is not empty. `append_paths_within_rootfs` takes one unit for each followed link;
-- where links lead only to names of lower rank, more than the ranks of the elements is enough. A
-- read of a stream takes one unit for a call of fgets(3), the wait for a child one for a call of
-- waitpid(2), the constructor of a lock file and the acquisition of a file lock one for an
-- attempt, the iteration of a scoped path one for each file, and dropping the capabilities one
-- for each. `none` is lack of fuel there, undefined behaviour in CliArguments and Hooks/Cgroups,
-- and either in LockFiles, FileLocks and Process/Children.
--
-- Messages are format strings with their arguments, not rendered. File names and lines in a
-- trace, and assertions are left out; so is logging in all parts but Logger. Not modelled: random
-- texts, host name and CPU affinity, copying and writing files, JSON documents, and the rest of
-- the OCI hooks (src/utility/json.cpp, and parts of src/utility/process.cpp,
-- src/utility/filesystem.cpp and src/utility/hook.cpp).
pub mod Base
pub mod Error
pub mod Split
pub mod SharedLibs
pub mod Strings
pub mod Environment
pub mod DeviceAccess
pub mod Mount
pub mod MountParser
pub mod Filesystem
pub mod DeviceParser
pub mod Logger
pub mod FileLocks
pub mod LockFiles
pub mod ScopedPaths
pub mod PasswdDb
pub mod Hooks
pub mod CliArguments
pub mod System
pub mod Process
pub mod BindMount
pub mod Tests
