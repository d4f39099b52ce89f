-- ===== src/BindMount/Calls.antt =====
-- The calls of mount(2) that `bindMount` makes.
use Prim.Native.Nat.{bit_and}
use libsarus.Base.{
  ℕ, Text, codes, true, ◌==◌, ==_iff, none, some, ◌≡◌, ◌≢◌, ◌⊎◌, inl, inr, refl, Bool-cases,
}
use libsarus.Error.{ok}
use libsarus.Mount.{ms_rdonly}
use libsarus.Filesystem.Paths.{PathOps}
use libsarus.System.{System, MountCall}
use libsarus.System.Monad.{◌>>=◌}
use libsarus.System.Outcome.{bind-ok, checked-ok}
use libsarus.BindMount.Binding.{
  flags_for_remount, mount_error, propagation_error, bind_step, remount_step, propagation_step,
  bind_mount,
}

-- MS_BIND | MS_REC.
abbrev pub bind_flags : ℕ
bind_flags = 20480

-- MS_REMOUNT | MS_BIND | MS_NOSUID | MS_REC, and the same with MS_RDONLY.
abbrev pub IsRemount : ℕ → ℕ → Type 0
IsRemount flags remount =
    ((bit_and flags ms_rdonly ≡ 0) × (remount ≡ 20514))
    ⊎ ((bit_and flags ms_rdonly ≢ 0) × (remount ≡ 20515))

-- MS_PRIVATE | MS_REC.
abbrev pub private_flags : ℕ
private_flags = 278528

flags_for_remount-IsRemount : (flags : ℕ) → IsRemount flags (flags_for_remount flags)
unfolding flags_for_remount
flags_for_remount-IsRemount flags = elim (Bool-cases (bit_and flags ms_rdonly == 0)) [
  | inl e ↦ inl ((==_iff (bit_and flags ms_rdonly) 0).0 e, rw e refl)
  | inr e ↦ inr ((λ zero. cc ((==_iff (bit_and flags ms_rdonly) 0).1 zero, e)), rw e refl)
]

module _ (ops : PathOps) (S : System) (from to : Text) where
  abbrev pub bind_from : ℕ → MountCall
  bind_from flags = record {
    source = some from;
    target = to;
    filesystem_type = some (codes "bind");
    mount_flags = flags;
    options = none;
  }

  abbrev pub make_private : MountCall
  make_private = record {
    source = none;
    target = to;
    filesystem_type = none;
    mount_flags = private_flags;
    options = none;
  }

  -- The three calls, each from the state that the one before leaves.
  pub record Mounted (flags : ℕ) (s s' : S.State) : Type 0 where
    pub after_bind : S.State
    pub after_remount : S.State
    pub remount_flags : ℕ
    pub is_remount : IsRemount flags remount_flags
    pub bound : S.mount (bind_from bind_flags) s ≡ (true, after_bind)
    pub remounted : S.mount (bind_from remount_flags) after_bind ≡ (true, after_remount)
    pub made_private : S.mount make_private after_remount ≡ (true, s')

  -- When `bindMount` returns, three calls of mount(2) succeeded in this order, each from the
  -- state that the one before left: the bind mount with MS_BIND | MS_REC; the same paths with
  -- MS_REMOUNT | MS_BIND | MS_NOSUID | MS_REC, and with MS_RDONLY exactly if the given flags have
  -- that bit; and the target with MS_PRIVATE | MS_REC. The last one left the final state.
  pub bind_mount-Mounted :
      (flags : ℕ) (s s' : S.State)
      → bind_mount ops S from to flags s ≡ some (ok tt, s')
      → Mounted flags s s'
  unfolding bind_mount
  bind_mount-Mounted flags s s' h =
      let (u, s1, first, h1) =
        bind-ok (bind_step ops S from to)
          (λ _. remount_step ops S from to flags >>= λ _. propagation_step ops S to) s s' h in
      let (v, s2, second, third) =
        bind-ok (remount_step ops S from to flags) (λ _. propagation_step ops S to) s1 s' h1 in
      record {
        after_bind = s1;
        after_remount = s2;
        remount_flags = flags_for_remount flags;
        is_remount = flags_for_remount-IsRemount flags;
        bound =
            checked-ok (S.mount (bind_from bind_flags))
              (mount_error ops S "Failed to bind mount %s -> %s (error: %s)" from to) s s1
              (λ t e. cc e) first;
        remounted =
            checked-ok (S.mount (bind_from (flags_for_remount flags)))
              (mount_error ops S "Failed to re-bind mount %s -> %s (error: %s)" from to) s1 s2
              (λ t e. cc e) second;
        made_private =
            checked-ok (S.mount make_private) (propagation_error ops S to) s2 s' (λ t e. cc e)
              third;
      }
