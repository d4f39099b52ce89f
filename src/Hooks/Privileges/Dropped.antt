-- ===== src/Hooks/Privileges/Dropped.antt =====
-- What a process has left after `switchToUnprivilegedProcess`.
use libsarus.Base.{
  leb, leb→le, ltb, ltb→lt, ℕ, zero, suc, ◌+◌, ◌≤◌, ◌<◌, Bool, true, false, [], ◌==◌, some,
  Bool-cases, inl, inr, ◌⊎◌, ◌≡◌, refl, sym, ap, ◌∙◌, arith,
}
use libsarus.Error.{Result, ok, throws, throw_error, Message}
use libsarus.System.Monad.{M, ◌>>◌}
use libsarus.System.Outcome.{Ends, bind-Ends, checked-Ends}
use libsarus.Hooks.Privileges.{
  Credentials, Kernel, IsId, IsKernel, Dropping, dropped, invalid, refused, Changes, drop_error,
  or_throw, groups_message, gid_message, uid_message, privs_message, drop_capabilities,
  switch_to_unprivileged_process,
}

-- No capability in the bounding set.
abbrev pub IsBounded : Credentials → Type 0
IsBounded c = (k : ℕ) → c.bounding k ≡ false

-- The credentials of an unprivileged process of a user.
pub record IsUnprivileged (uid gid : ℕ) (c : Credentials) : Type 0 where
  pub no_capability : IsBounded c
  pub no_groups : c.groups ≡ []
  pub own_gid : (c.rgid ≡ gid) × (c.egid ≡ gid) × (c.sgid ≡ gid)
  pub own_uid : (c.ruid ≡ uid) × (c.euid ≡ uid) × (c.suid ≡ uid)
  pub no_new : c.no_new_privs ≡ true

module _ (K : Kernel) (laws : IsKernel K) where
  abbrev Good : (Credentials → Type 0) → Result (Unit {0}) → K.State → Type 0
  Good P (ok a) s = P (K.credentials s)
  Good P (throws e) s = Unit

  Dropping-cases : (d : Dropping) → (d ≡ dropped) ⊎ (d ≡ invalid) ⊎ (d ≡ refused)
  Dropping-cases dropped = inl refl
  Dropping-cases invalid = inr (inl refl)
  Dropping-cases refused = inr (inr refl)

  -- Before the last capability a call does not fail with EINVAL.
  still_valid : (k : ℕ) (s : K.State) → (K.drop_bounding k s).0 ≡ dropped → k < laws.capabilities
  still_valid k s e = elim (Bool-cases (leb laws.capabilities k)) [
    | inl beyond ↦ cc (e, laws.drop_beyond k s (leb→le laws.capabilities k beyond))
    | inr before ↦ ground arith
  ]

  dropped_up_to :
      (k : ℕ) (s : K.State)
      → (K.drop_bounding k s).0 ≡ dropped
      → ((j : ℕ) → j < k → (K.credentials s).bounding j ≡ false)
      → (j : ℕ) → j < suc k
      → (K.credentials (K.drop_bounding k s).1).bounding j ≡ false
  dropped_up_to k s e before j h = elim (Bool-cases (j == k)) [
    | inl here ↦ ap (λ c. c.bounding j) (laws.drop-dropped k s e) ∙ rw here refl
    | inr other ↦
        ap (λ c. c.bounding j) (laws.drop-dropped k s e) ∙ rw other (before j (ground arith))
  ]

  none_left :
      (k : ℕ) (s : K.State)
      → (K.drop_bounding k s).0 ≡ invalid
      → ((j : ℕ) → j < k → (K.credentials s).bounding j ≡ false)
      → IsBounded (K.credentials (K.drop_bounding k s).1)
  none_left k s e before j = elim (Bool-cases (ltb j k)) [
    | inl h ↦ ap (λ c. c.bounding j) (laws.drop_failed k s e) ∙ before j (ltb→lt j k h)
    | inr h ↦
        laws.bounding_beyond j (K.drop_bounding k s).1 (ground (arith, laws.drop-invalid k s e))
  ]

  -- One round of the loop.
  round :
      (fuel k : ℕ) (s : K.State) (d : Dropping)
      → (K.drop_bounding k s).0 ≡ d
      → drop_capabilities K (suc fuel) k s ≡ (elim d [
        | dropped ↦ drop_capabilities K fuel (suc k) (K.drop_bounding k s).1
        | invalid ↦ some (ok tt, (K.drop_bounding k s).1)
        | refused ↦ some (drop_error K k (K.drop_bounding k s).1, (K.drop_bounding k s).1)
      ])
  unfolding drop_capabilities
  round fuel k s d e = rw (sym e) refl

  drop_capabilities-Ends :
      (fuel k : ℕ) (s : K.State)
      → laws.capabilities < fuel + k
      → k ≤ laws.capabilities
      → ((j : ℕ) → j < k → (K.credentials s).bounding j ≡ false)
      → Ends (drop_capabilities K fuel k) s (Good IsBounded)
  drop_capabilities-Ends zero k s enough valid before = absurd (omega (arith, enough, valid))
  drop_capabilities-Ends (suc fuel) k s enough valid before =
      elim (Dropping-cases (K.drop_bounding k s).0) [
        | inl e ↦
            let (r, s', runs, q) =
              drop_capabilities-Ends fuel (suc k) (K.drop_bounding k s).1 (omega (arith, enough))
                (omega (arith, still_valid k s e)) (dropped_up_to k s e before) in
            (r, s', round fuel k s dropped e ∙ runs, q)
        | inr (inl e) ↦
            (ok tt, (K.drop_bounding k s).1, round fuel k s invalid e, none_left k s e before)
        | inr (inr e) ↦ (
          drop_error K k (K.drop_bounding k s).1,
          (K.drop_bounding k s).1,
          round fuel k s refused e,
          tt,
        )
      ]

  -- A call that makes a change, or an error.
  change-Ends :
      (call : K.State → Bool × K.State) (m : K.State → Message) (change : Credentials → Credentials)
      (P Q : Credentials → Type 0) (s : K.State)
      → Changes K call change
      → ((c : Credentials) → P c → Q (change c))
      → P (K.credentials s)
      → Ends (or_throw K call m) s (Good Q)
  change-Ends call m change P Q s law step h =
      checked-Ends call (λ t. throw_error "switchToUnprivilegedProcess" (m t)) s (Good Q)
        (λ good.
          let is : K.credentials (call s).1 ≡ change (K.credentials s) = law s ∙ rw good refl in
          rw is (step (K.credentials s) h))
        (λ bad. tt)

  -- Calls in a row: an error ends it, and otherwise the credentials are good for the next call.
  in_turn :
      (m next_call : M K.State (Unit {0})) (P Q : Credentials → Type 0) (s : K.State)
      → Ends m s (Good P)
      → ((s' : K.State) → P (K.credentials s') → Ends next_call s' (Good Q))
      → Ends (m >> next_call) s (Good Q)
  in_turn m next_call P Q s h go =
      bind-Ends m (λ _. next_call) s (Good P) (Good Q) h (λ a s' p. go s' p) (λ e s' p. tt)

  abbrev drop_groups : M K.State (Unit {0})
  drop_groups = or_throw K K.clear_groups (groups_message K)

  abbrev change_gid : ℕ → M K.State (Unit {0})
  change_gid gid = or_throw K (K.setresgid gid) (gid_message K gid)

  abbrev change_uid : ℕ → M K.State (Unit {0})
  change_uid uid = or_throw K (K.setresuid uid) (uid_message K uid)

  abbrev forbid_privileges : M K.State (Unit {0})
  forbid_privileges = or_throw K K.set_no_new_privs (privs_message K)

  abbrev WithoutGroups : Credentials → Type 0
  WithoutGroups c = IsBounded c × (c.groups ≡ [])

  abbrev HasGids : ℕ → Credentials → Type 0
  HasGids gid c = WithoutGroups c × ((c.rgid ≡ gid) × (c.egid ≡ gid) × (c.sgid ≡ gid))

  abbrev HasIds : ℕ → ℕ → Credentials → Type 0
  HasIds uid gid c = HasGids gid c × ((c.ruid ≡ uid) × (c.euid ≡ uid) × (c.suid ≡ uid))

  unprivileged :
      (uid gid : ℕ) (c : Credentials)
      → HasIds uid gid c
      → IsUnprivileged uid gid (record c { no_new_privs = true })
  unprivileged uid gid c h = record {
    no_capability = h.0.0.0;
    no_groups = h.0.0.1;
    own_gid = h.0.1;
    own_uid = h.1;
    no_new = refl;
  }

  after_drop :
      (uid gid : ℕ)
      → IsId uid
      → IsId gid
      → (s : K.State) → IsBounded (K.credentials s)
      → Ends
          (drop_groups >> (change_gid gid >> (change_uid uid >> forbid_privileges)))
          s
          (Good (IsUnprivileged uid gid))
  after_drop uid gid uid_valid gid_valid s b =
      in_turn (drop_groups) (change_gid gid >> (change_uid uid >> forbid_privileges)) WithoutGroups
        (IsUnprivileged uid gid) s
        (change-Ends K.clear_groups (groups_message K) (λ c. record c { groups = [] }) IsBounded
          WithoutGroups s laws.clear_groups_lem (λ c h. (h, refl)) b)
        (λ s2 h2.
          in_turn (change_gid gid) (change_uid uid >> forbid_privileges) (HasGids gid)
            (IsUnprivileged uid gid) s2
            (change-Ends (K.setresgid gid) (gid_message K gid)
              (λ c. record c { rgid = gid; egid = gid; sgid = gid }) WithoutGroups (HasGids gid) s2
              (laws.setresgid_lem gid gid_valid) (λ c h. (h, (refl, refl, refl))) h2)
            (λ s3 h3.
              in_turn (change_uid uid) (forbid_privileges) (HasIds uid gid) (IsUnprivileged uid gid)
                s3
                (change-Ends (K.setresuid uid) (uid_message K uid)
                  (λ c. record c { ruid = uid; euid = uid; suid = uid }) (HasGids gid)
                  (HasIds uid gid) s3 (laws.setresuid_lem uid uid_valid)
                  (λ c h. (h, (refl, refl, refl))) h3)
                (λ s4 h4.
                  change-Ends K.set_no_new_privs (privs_message K)
                    (λ c. record c { no_new_privs = true }) (HasIds uid gid)
                    (IsUnprivileged uid gid) s4 laws.set_no_new_privs_lem (unprivileged uid gid)
                    h4)))

  Good-result :
      (r : Result (Unit {0})) (s : K.State) (uid gid : ℕ)
      → Good (IsUnprivileged uid gid) r s
      → r ≡ ok tt
      → IsUnprivileged uid gid (K.credentials s)
  Good-result (ok a) s uid gid q e = q
  Good-result (throws x) s uid gid q e = cc e

  -- For a kernel with its laws, more fuel than capabilities, and a user and a group id below
  -- 4294967295, which is the -1 that leaves ids as they are: `switchToUnprivilegedProcess`
  -- returns or throws, and when it returns no capability is in the bounding set, there are no
  -- supplementary groups, the real, effective and saved ids are the given user and group, and no
  -- new privileges can be gained.
  pub switch_to_unprivileged_process-IsUnprivileged :
      (fuel uid gid : ℕ) (s : K.State)
      → laws.capabilities < fuel
      → IsId uid
      → IsId gid
      → (r : Result (Unit {0})) × (s' : K.State) × (switch_to_unprivileged_process K fuel uid gid s
          ≡ some (r, s'))
        × (r ≡ ok tt → IsUnprivileged uid gid (K.credentials s'))
  unfolding switch_to_unprivileged_process
  switch_to_unprivileged_process-IsUnprivileged fuel uid gid s enough uid_valid gid_valid =
      let (r, s', runs, q) =
        in_turn (drop_capabilities K fuel 0)
          (drop_groups >> (change_gid gid >> (change_uid uid >> forbid_privileges))) IsBounded
          (IsUnprivileged uid gid) s
          (drop_capabilities-Ends fuel 0 s (omega (arith, enough)) (omega arith)
            (λ j h. absurd (omega (arith, h))))
          (after_drop uid gid uid_valid gid_valid) in
      (r, s', runs, Good-result r s' uid gid q)
