-- ===== src/Process.antt =====
-- src/utility/process.cpp: `switchIdentity` and `setFilesystemUid`, and src/UserIdentity.cpp. What
-- is logged is left out: `logProcessUserAndGroupIdentifiers` reads the ids, and its setfsuid(-1) and
-- setfsgid(-1) change none.
pub mod Identity
pub mod Children
pub mod Commands
use libsarus.Base.{
  ℕ, Text, Bool, true, false, not, List, [], ◌∷◌, ◌==◌, if◌then◌else◌, Option, none, some,
}
use libsarus.Error.{Result, ok, throws, throw_error, plain, format, text, end}
use libsarus.Mount.{UserIdentity}
use libsarus.System.{System, Ids}
use libsarus.System.Monad.{M, ◌>>=◌, ◌>>◌, pure, raise, reads, checked}

module _ (S : System) where
  open S use {State, ids, setgroups, setegid, seteuid, setfsuid}

  -- The constructor `UserIdentity()`: the real ids, and the supplementary groups.
  unfoldable pub user_identity : State → Result UserIdentity
  user_identity s = elim (S.getgroups s) [
    | none ↦ throw_error "UserIdentity" (format "Failed to getgroups: %s" (text (S.strerror s) end))
    | some gids ↦ ok (record { uid = (ids s).ruid; gid = (ids s).rgid; supplementary_gids = gids })
  ]

  abbrev fails : libsarus.Base.String → State → Result (Unit {0})
  fails m s = throw_error "switchIdentity" (plain m)

  -- The handler of a failed `seteuid`.
  abbrev restore_egid : ℕ → M State (Unit {0})
  restore_egid egid = do
    checked (setegid egid) (fails "Failed to seteuid and Failed to restore egid")
    raise (throw_error "switchIdentity" (plain "Failed to seteuid"))

  abbrev change_euid : UserIdentity → ℕ → M State (Unit {0})
  change_euid identity egid s =
      let (done, s') = seteuid identity.uid s in
      elim done [ true ↦ some (ok tt, s') | false ↦ restore_egid egid s' ]

  -- Unprivileged processes cannot call setgroups; the flag is `euid == 0`.
  abbrev change_groups : UserIdentity → Bool → M State (Unit {0})
  change_groups identity true =
      checked (setgroups identity.supplementary_gids) (fails "Failed to setgroups")
  change_groups identity false = pure tt

  unfoldable pub switch_identity : UserIdentity → M State (Unit {0})
  switch_identity identity s =
      let euid = (ids s).euid in
      let egid = (ids s).egid in
      (do
        change_groups identity (euid == 0)
        checked (setegid identity.gid) (fails "Failed to setegid")
        change_euid identity egid)
        s

  -- The id is set, and set once more to read it back.
  unfoldable pub set_filesystem_uid : UserIdentity → M State (Unit {0})
  set_filesystem_uid identity s =
      let (previous, s1) = setfsuid identity.uid s in
      let (current, s2) = setfsuid identity.uid s1 in
      some (
        (if not (current == identity.uid)
            then throw_error "setFilesystemUid" (plain "Failed to set filesystem uid")
            else ok tt),
        s2,
      )
