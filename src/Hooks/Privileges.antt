-- ===== src/Hooks/Privileges.antt =====
-- src/utility/hook.cpp: `switchToUnprivilegedProcess`. The parameter is an interface of the
-- credentials of the process and the calls that change them; `IsKernel` states what their manual
-- pages say.
pub mod Dropped
use libsarus.Base.{
  ℕ, zero, suc, ◌+◌, ◌≤◌, ◌<◌, Text, Bool, true, false, List, [], ◌==◌, if◌then◌else◌, Option, none,
  some, ◌≡◌,
}
use libsarus.Error.{Result, ok, throw_error, Message, format, number, text, end}
use libsarus.System.Monad.{M, ◌>>=◌, ◌>>◌, checked}

pub record Credentials : Type 0 where
  -- whether a capability is in the bounding set
  pub bounding : ℕ → Bool
  pub groups : List ℕ
  pub rgid : ℕ
  pub egid : ℕ
  pub sgid : ℕ
  pub ruid : ℕ
  pub euid : ℕ
  pub suid : ℕ
  pub no_new_privs : Bool

-- How prctl(PR_CAPBSET_DROP) ends: it succeeds, or fails with EINVAL, or with another error.
pub data Dropping : Type 0 where
  dropped invalid refused : Dropping

pub record Kernel : Type 1 where
  pub State : Type 0
  pub credentials : State → Credentials
  pub drop_bounding : ℕ → State → Dropping × State
  -- these return whether they succeeded
  pub clear_groups : State → Bool × State
  pub setresgid : ℕ → State → Bool × State
  pub setresuid : ℕ → State → Bool × State
  pub set_no_new_privs : State → Bool × State
  pub strerror : State → Text

-- A call that makes a change if it succeeds.
abbrev pub Changes :
    (K : Kernel) → (K.State → Bool × K.State) → (Credentials → Credentials) → Type 0
Changes K call change =
    (s : K.State)
    → K.credentials (call s).1 ≡ (if (call s).0 then change (K.credentials s) else K.credentials s)

-- A user or group id: a number of 32 bits other than `(uid_t)-1`.
abbrev pub IsId : ℕ → Type 0
IsId n = n < 4294967295

pub record IsKernel (K : Kernel) : Type 0 where
  -- the number of capabilities
  pub capabilities : ℕ
  pub drop-dropped :
      (k : ℕ) (s : K.State)
      → (K.drop_bounding k s).0 ≡ dropped
      → K.credentials (K.drop_bounding k s).1 ≡ (
          let c = K.credentials s in
          record c { bounding = λ j. if j == k then false else c.bounding j })
  pub drop-invalid : (k : ℕ) (s : K.State) → (K.drop_bounding k s).0 ≡ invalid → capabilities ≤ k
  pub drop_failed :
      (k : ℕ) (s : K.State)
      → (K.drop_bounding k s).0 ≡ invalid
      → K.credentials (K.drop_bounding k s).1 ≡ K.credentials s
  pub drop_beyond : (k : ℕ) (s : K.State) → capabilities ≤ k → (K.drop_bounding k s).0 ≡ invalid
  pub bounding_beyond :
      (k : ℕ) (s : K.State) → capabilities ≤ k → (K.credentials s).bounding k ≡ false
  pub clear_groups_lem : Changes K K.clear_groups (λ c. record c { groups = [] })
  -- The greatest number is the documented -1, which leaves an id as it is.
  pub setresgid_lem :
      (g : ℕ) → IsId g → Changes K (K.setresgid g) (λ c. record c { rgid = g; egid = g; sgid = g })
  pub setresuid_lem :
      (u : ℕ) → IsId u → Changes K (K.setresuid u) (λ c. record c { ruid = u; euid = u; suid = u })
  pub set_no_new_privs_lem : Changes K K.set_no_new_privs (λ c. record c { no_new_privs = true })

module _ (K : Kernel) where
  abbrev pub drop_error : ℕ → K.State → Result (Unit {0})
  drop_error cap_idx s = throw_error "switchToUnprivilegedProcess" (
      format "Failed to prctl(PR_CAPBSET_DROP, %d, 0, 0, 0): %s"
        (number cap_idx (text (K.strerror s) end)))

  -- The loop over the capabilities; a round takes one unit of fuel.
  unfoldable pub drop_capabilities : ℕ → ℕ → M K.State (Unit {0})
  drop_capabilities zero cap_idx s = none
  drop_capabilities (suc fuel) cap_idx s =
      let (ended, s') = K.drop_bounding cap_idx s in
      let rest = drop_capabilities fuel (suc cap_idx) s' in
      elim ended [
        | dropped ↦ rest
        | invalid ↦ some (ok tt, s')
        | refused ↦ some (drop_error cap_idx s', s')
      ]

  -- A call, or what is thrown with a message where it fails.
  abbrev pub or_throw : (K.State → Bool × K.State) → (K.State → Message) → M K.State (Unit {0})
  or_throw call m = checked call (λ s. throw_error "switchToUnprivilegedProcess" (m s))

  -- The messages of the calls that set ids.
  abbrev pub groups_message : K.State → Message
  groups_message s = format "Failed to setgroups(0, NULL): %s" (text (K.strerror s) end)

  abbrev pub gid_message : ℕ → K.State → Message
  gid_message gid s =
      format "Failed to setresgid(%1%, %1%, %1%): %2%" (number gid (text (K.strerror s) end))

  abbrev pub uid_message : ℕ → K.State → Message
  uid_message uid s =
      format "Failed to setresuid(%1%, %1%, %1%): %2%" (number uid (text (K.strerror s) end))

  abbrev pub privs_message : K.State → Message
  privs_message s =
      format "Failed to prctl(PR_SET_NO_NEW_PRIVS, 1, 0, 0, 0): %s" (text (K.strerror s) end)

  unfoldable pub switch_to_unprivileged_process : ℕ → ℕ → ℕ → M K.State (Unit {0})
  switch_to_unprivileged_process fuel target_uid target_gid = do
    drop_capabilities fuel 0
    or_throw K.clear_groups groups_message
    or_throw (K.setresgid target_gid) (gid_message target_gid)
    or_throw (K.setresuid target_uid) (uid_message target_uid)
    or_throw K.set_no_new_privs privs_message
