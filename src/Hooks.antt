-- ===== src/Hooks.antt =====
-- src/utility/hook.cpp, by topic: `Privileges` for what a hook gives up before it runs a program of
-- the user, `Cgroups` for the control groups of a process.
pub mod Privileges
pub mod Cgroups
