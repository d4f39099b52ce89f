-- ===== src/Process/Identity.antt =====
-- What switching the identity leaves, on every branch.
use libsarus.Base.{
  ℕ, Bool, true, false, List, ◌==◌, ==_iff, if◌then◌else◌, ◌≡◌, ◌⊎◌, inl, inr, refl, sym, ap, ◌∙◌,
  Bool-cases,
}
use libsarus.Error.{Result, ok, throws, throw_error, plain, Exception}
use libsarus.Mount.{UserIdentity}
use libsarus.System.{System, Ids, IsSystem}
use libsarus.System.Monad.{checked, ◌>>=◌}
use libsarus.System.Outcome.{Ends, weaken-Ends, bind-Ends, checked-Ends}
use libsarus.Process.{
  change_groups, change_euid, fails, restore_egid, switch_identity, set_filesystem_uid,
}

module _ (S : System) (laws : IsSystem S) where
  -- The groups that a switch sets: only a process with effective id 0 may set them.
  abbrev pub groups_set : UserIdentity → Ids → List ℕ
  groups_set identity i = if i.euid == 0 then identity.supplementary_gids else i.groups

  abbrev pub switched : UserIdentity → Ids → Ids
  switched identity i = record i {
    euid = identity.uid;
    fsuid = identity.uid;
    egid = identity.gid;
    groups = groups_set identity i;
  }

  abbrev Failed : UserIdentity → Ids → Ids → Type 0
  Failed identity i j =
      (j.euid ≡ i.euid)
      × (j.fsuid ≡ i.fsuid)
      × (j.ruid ≡ i.ruid)
      × (j.rgid ≡ i.rgid)
      × ((j.egid ≡ i.egid) ⊎ (j.egid ≡ identity.gid))
      × ((j.groups ≡ i.groups) ⊎ (j.groups ≡ groups_set identity i))

  -- What a switch from the ids `i` leaves.
  abbrev pub Switches : UserIdentity → Ids → Result (Unit {0}) → S.State → Type 0
  Switches identity i (ok _) s = S.ids s ≡ switched identity i
  Switches identity i (throws e) s = Failed identity i (S.ids s)

  abbrev regrouped : UserIdentity → Bool → Ids → Ids
  regrouped identity root i = record i {
    groups = if root then identity.supplementary_gids else i.groups;
  }

  -- What stands after the first call, made with the ids `i`.
  abbrev Grouped : UserIdentity → Bool → Ids → Result (Unit {0}) → S.State → Type 0
  Grouped identity root i (ok _) s = S.ids s ≡ regrouped identity root i
  Grouped identity root i (throws e) s = S.ids s ≡ i

  change_groups-Ends :
      (identity : UserIdentity) (root : Bool) (s : S.State)
      → Ends (change_groups S identity root) s (Grouped identity root (S.ids s))
  change_groups-Ends identity true s =
      checked-Ends (S.setgroups identity.supplementary_gids) (fails S "Failed to setgroups") s
        (Grouped identity true (S.ids s))
        (λ e. rw e at (laws.setgroups-ids identity.supplementary_gids s))
        (λ e. rw e at (laws.setgroups-ids identity.supplementary_gids s))
  change_groups-Ends identity false s = (ok tt, s, refl, refl)

  -- What stands after the second call.
  abbrev GroupedGid : UserIdentity → Ids → Result (Unit {0}) → S.State → Type 0
  GroupedGid identity j (ok _) s = S.ids s ≡ record j { egid = identity.gid }
  GroupedGid identity j (throws e) s = S.ids s ≡ j

  change_egid-Ends :
      (identity : UserIdentity) (s : S.State)
      → Ends
          (checked (S.setegid identity.gid) (fails S "Failed to setegid"))
          s
          (GroupedGid identity (S.ids s))
  change_egid-Ends identity s =
      checked-Ends (S.setegid identity.gid) (fails S "Failed to setegid") s
        (GroupedGid identity (S.ids s)) (λ e. rw e at (laws.setegid-ids identity.gid s))
        (λ e. rw e at (laws.setegid-ids identity.gid s))

  -- What the last step leaves, from the ids `j`.
  abbrev Finished : UserIdentity → ℕ → Ids → Result (Unit {0}) → S.State → Type 0
  Finished identity egid j (ok _) s =
      S.ids s ≡ record j { euid = identity.uid; fsuid = identity.uid }
  Finished identity egid j (throws e) s = (S.ids s ≡ j) ⊎ (S.ids s ≡ record j { egid = egid })

  restore_egid-Ends :
      (egid : ℕ) (identity : UserIdentity) (s : S.State)
      → Ends (restore_egid S egid) s (Finished identity egid (S.ids s))
  restore_egid-Ends egid identity s = elim (Bool-cases (S.setegid egid s).0) [
    | inl e ↦ (
      throw_error "switchIdentity" (plain "Failed to seteuid"),
      (S.setegid egid s).1,
      rw (e, restore_egid, ◌>>=◌) refl,
      inr (rw e at (laws.setegid-ids egid s)),
    )
    | inr e ↦ (
      throw_error "switchIdentity" (plain "Failed to seteuid and Failed to restore egid"),
      (S.setegid egid s).1,
      rw (e, restore_egid, ◌>>=◌) refl,
      inl (rw e at (laws.setegid-ids egid s)),
    )
  ]

  change_euid-Ends :
      (identity : UserIdentity) (egid : ℕ) (s : S.State)
      → Ends (change_euid S identity egid) s (Finished identity egid (S.ids s))
  change_euid-Ends identity egid s = elim (Bool-cases (S.seteuid identity.uid s).0) [
    | inl e ↦ (
      ok tt,
      (S.seteuid identity.uid s).1,
      rw (e, change_euid) refl,
      rw e at (laws.seteuid-ids identity.uid s),
    )
    | inr e ↦
        let same = rw e at (laws.seteuid-ids identity.uid s) in
        let (r, s', runs, q) = restore_egid-Ends egid identity (S.seteuid identity.uid s).1 in
        (r, s', rw (e, change_euid) runs, rw same at q)
  ]

  -- An exception after which the ids are these is one that `Switches` allows.
  Failed-at :
      (identity : UserIdentity) (i j : Ids) {s : S.State} (e : Exception)
      → S.ids s ≡ j
      → Failed identity i j
      → Switches identity i (throws e) s
  Failed-at identity i j e same f = rw same f

  abbrev grouped_gid : UserIdentity → Ids → Ids
  grouped_gid identity i =
      let j = regrouped identity (i.euid == 0) i in record j { egid = identity.gid }

  Finished-Switches :
      (identity : UserIdentity) (i : Ids) (r : Result (Unit {0})) (s : S.State)
      → Finished identity i.egid (grouped_gid identity i) r s
      → Switches identity i r s
  Finished-Switches identity i (ok _) s q = q
  Finished-Switches identity i (throws e) s (inl q) =
      Failed-at identity i (grouped_gid identity i) e q (refl, refl, refl, refl, inr refl, inr refl)
  Finished-Switches identity i (throws e) s (inr q) =
      let j = regrouped identity (i.euid == 0) i in
      Failed-at identity i j e q (refl, refl, refl, refl, inl refl, inr refl)

  -- `switchIdentity` always returns or throws. If it returns, the effective and file system ids
  -- are those of the identity, and so are the supplementary groups if the process had effective
  -- user id 0; otherwise the groups are left as they were. If it throws, the user ids are
  -- unchanged, the effective group id is the old one or the identity's, and the groups are the
  -- old ones or those that were set before the failure.
  pub switch_identity-Switches :
      (identity : UserIdentity) (s : S.State)
      → Ends (switch_identity S identity) s (Switches identity (S.ids s))
  unfolding switch_identity
  switch_identity-Switches identity s =
      let i = S.ids s in
      let root = i.euid == 0 in
      bind-Ends (change_groups S identity root) _ s (Grouped identity root i) (Switches identity i)
        (change_groups-Ends identity root s)
        (λ _ s1 grouped.
          bind-Ends (checked (S.setegid identity.gid) (fails S "Failed to setegid")) _ s1
            (GroupedGid identity (regrouped identity root i)) (Switches identity i)
            (rw grouped at (change_egid-Ends identity s1))
            (λ _ s2 with_gid.
              weaken-Ends (change_euid S identity i.egid) s2
                (Finished identity i.egid (grouped_gid identity i)) (Switches identity i)
                (rw with_gid at (change_euid-Ends identity i.egid s2))
                (Finished-Switches identity i))
            (λ e s2 q.
              Failed-at identity i (regrouped identity root i) e q
                (refl, refl, refl, refl, inl refl, inr refl)))
        (λ e s1 q. Failed-at identity i i e q (refl, refl, refl, refl, inl refl, inl refl))

  abbrev with_fsuid : ℕ → Ids → Ids
  with_fsuid u i = record i { fsuid = u }

  abbrev FsuidOrSame : ℕ → Ids → Ids → Type 0
  FsuidOrSame u i j = (j ≡ i) ⊎ (j ≡ with_fsuid u i)

  two_sets : (u : ℕ) (i j k : Ids) → FsuidOrSame u i j → FsuidOrSame u j k → FsuidOrSame u i k
  two_sets u i j k (inl a) (inl b) = inl (b ∙ a)
  two_sets u i j k (inl a) (inr b) = inr (b ∙ ap (with_fsuid u) a)
  two_sets u i j k (inr a) (inl b) = inr (b ∙ a)
  two_sets u i j k (inr a) (inr b) = inr (b ∙ ap (with_fsuid u) a)

  fsuid_confirmed :
      (u : ℕ) (i j k : Ids)
      → FsuidOrSame u i j
      → FsuidOrSame u j k
      → j.fsuid ≡ u
      → k ≡ with_fsuid u i
  fsuid_confirmed u i j k a (inr b) e = two_set_last a b
    where
      two_set_last : FsuidOrSame u i j → k ≡ with_fsuid u j → k ≡ with_fsuid u i
      two_set_last (inl a) b = b ∙ ap (with_fsuid u) a
      two_set_last (inr a) b = b ∙ ap (with_fsuid u) a
  fsuid_confirmed u i j k (inl a) (inl b) e = b ∙ eta_fsuid j u e ∙ ap (with_fsuid u) a
    where
      eta_fsuid : (j : Ids) (u : ℕ) → j.fsuid ≡ u → j ≡ with_fsuid u j
      eta_fsuid j u e = λ n. record j { fsuid = e n }
  fsuid_confirmed u i j k (inr a) (inl b) e = b ∙ a

  -- What setting the file system id leaves of the ids `i`.
  abbrev pub SetsFsuid : UserIdentity → Ids → Result (Unit {0}) → S.State → Type 0
  SetsFsuid identity i (ok _) s = S.ids s ≡ with_fsuid identity.uid i
  SetsFsuid identity i (throws e) s = FsuidOrSame identity.uid i (S.ids s)

  -- `setFilesystemUid` returns or throws, and changes no id but the file system id; if it
  -- returns, that is the identity's user id.
  pub set_filesystem_uid-SetsFsuid :
      (identity : UserIdentity) (s : S.State)
      → Ends (set_filesystem_uid S identity) s (SetsFsuid identity (S.ids s))
  unfolding set_filesystem_uid
  set_filesystem_uid-SetsFsuid identity s =
      let u = identity.uid in
      let s1 = (S.setfsuid u s).1 in
      let s2 = (S.setfsuid u s1).1 in
      elim (Bool-cases ((S.setfsuid u s1).0 == u)) [
        | inl e ↦
            let set : (S.ids s1).fsuid ≡ u =
              sym (laws.setfsuid-previous u s1) ∙ (==_iff (S.setfsuid u s1).0 u).0 e in
            (
              ok tt,
              s2,
              rw e refl,
              fsuid_confirmed u (S.ids s) (S.ids s1) (S.ids s2) (laws.setfsuid-ids u s)
                  (laws.setfsuid-ids u s1) set,
            )
        | inr e ↦ (
          throw_error "setFilesystemUid" (plain "Failed to set filesystem uid"),
          s2,
          rw e refl,
          two_sets u (S.ids s) (S.ids s1) (S.ids s2) (laws.setfsuid-ids u s)
              (laws.setfsuid-ids u s1),
        )
      ]
