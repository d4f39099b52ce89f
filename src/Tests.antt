-- ===== src/Tests.antt =====
-- The theorems at concrete inputs, and runs of the definitions.
mod Strings
mod Requests
mod Arguments
mod Paths
mod Links
mod Processes
mod Environs
mod Passwords
mod Libraries
mod Locks
mod FileLocks
mod Children
mod ScopedPaths
mod Hooks
mod Logging
