-- ===== src/Filesystem.antt =====
-- src/utility/filesystem.cpp, by topic: `Status` for what is read through stat(2), `Paths` for the
-- paths of Boost, `Resolve` for paths within a root file system, `Create` for new files and folders,
-- `PathList` for lists of paths.
pub mod Status
pub mod Paths
pub mod Resolve
pub mod Create
pub mod PathList
