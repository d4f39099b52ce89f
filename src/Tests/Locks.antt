-- ===== src/Tests/Locks.antt =====
-- Lock files on a list of paths, and an object that waits for another one.
use libsarus.Base.{
  ℕ, Text, codes, text_eq, text_eq_iff, text_eq_refl, text_eq_ne, Bool, true, false, ◌||◌, List, [],
  ◌∷◌, ◌==◌, ==_iff, if◌then◌else◌, Option, none, some, Bool-cases, inl, inr, ◌≡◌, ◌≢◌, refl, sym,
  ap, ◌∙◌, arith,
}
use libsarus.Error.{ok}
use libsarus.LockFiles.{
  Files, IsFiles, World, set_files, set_member, construct, convert_to_lockfile,
}
use libsarus.LockFiles.Steps.{Reaches, done, next, destroys, move_constructs}
use libsarus.LockFiles.Exclusive.{IsExclusive, Reaches-IsExclusive}
use libsarus.LockFiles.Waiting.{HasWaited, construct-HasWaited}
use libsarus.LockFiles.Owners.{IsSleep, construct_owner}

abbrev has_path : List Text → Text → Bool
has_path [] p = false
has_path (q ∷ s) p = text_eq q p || has_path s p

abbrev without : Text → List Text → List Text
without p [] = []
without p (q ∷ s) = let rest = without p s in if text_eq q p then rest else q ∷ rest

abbrev listed : Files
listed = record {
  State = List Text;
  exists = has_path;
  open_exclusive =
      λ p s. (if has_path s p then none else some 3, if has_path s p then s else p ∷ s);
  close = λ fd s. (true, s);
  remove = λ p s. (ok (has_path s p), without p s);
}

has_path-without : (p q : Text) (s : List Text) → q ≢ p → has_path (without p s) q ≡ has_path s q
has_path-without p q [] ne = refl
has_path-without p q (x ∷ s) ne = elim (Bool-cases (text_eq x p)) [
  | inl e ↦
      let other : text_eq x q ≡ false =
        text_eq_ne x q (λ is. ne (sym is ∙ (text_eq_iff x p).0 e)) in
      rw (e, other) (has_path-without p q s ne)
  | inr e ↦ rw e (ap (◌||◌ (text_eq x q)) (has_path-without p q s ne))
]

listed-IsFiles : IsFiles listed
listed-IsFiles = record {
  open_created = λ p s fd h. elim (Bool-cases (has_path s p)) [
    | inl e ↦ cc (rw e at h)
    | inr e ↦ (e, rw (e, text_eq_refl p) refl)
  ];
  open_others = λ p q s ne. elim (Bool-cases (has_path s p)) [
    | inl e ↦ rw e refl
    | inr e ↦
        let other : text_eq p q ≡ false = text_eq_ne p q (λ is. ne (sym is)) in rw (e, other) refl
  ];
  open_failed =
      λ p q s h. elim (Bool-cases (has_path s p)) [ inl e ↦ rw e refl | inr e ↦ cc (rw e at h) ];
  close-exists = λ fd q s. refl;
  remove_others = λ p q s ne. has_path-without p q s ne;
  remove_failed = λ p q s e h. cc h;
}

abbrev lock : Text
lock = codes "/f.lock"

-- Object 1 owns the lock file of '/f'.
abbrev owned : World listed
owned = record { files = lock ∷ []; members = λ j. if j == 1 then some lock else none }

owned-IsExclusive : IsExclusive listed owned
owned-IsExclusive = record {
  owned_exists = λ i p h. elim (Bool-cases (i == 1)) [
    | inl e ↦ let is : lock ≡ p = cc (rw e at h) in rw (sym is) refl
    | inr e ↦ cc (rw e at h)
  ];
  one_owner = λ i j p h k. elim (Bool-cases (i == 1)) [
    | inr e ↦ cc (rw e at h)
    | inl e ↦ elim (Bool-cases (j == 1)) [
      | inr e' ↦ cc (rw e' at k)
      | inl e' ↦ (==_iff i 1).0 e ∙ sym ((==_iff j 1).0 e')
    ]
  ];
}

abbrev removed : Option Text → List Text → List Text
removed none s = s
removed (some p) s = without p s

-- While object 0 sleeps, object 1 is destroyed.
abbrev sleep : World listed → World listed
sleep w = set_member listed 1 none (set_files listed (removed (w.members 1) w.files) w)

sleep_step : (w : World listed) (m : Option Text) → w.members 1 ≡ m → Reaches listed w (sleep w)
unfolding libsarus.LockFiles.destroy libsarus.LockFiles.remove_own
sleep_step w none e = next (destroys 1 (ok tt) (rw e refl)) done
sleep_step w (some p) e = next (destroys 1 (ok tt) (rw e refl)) done

sleep-IsSleep : IsSleep listed sleep 0
sleep-IsSleep = record { sleep-Reaches = λ w. sleep_step w _ refl; sleep-members = λ w. refl }

Reaches-IsExclusive_example :
    IsExclusive listed (set_member listed 1 none (set_member listed 2 (some lock) owned))
unfolding libsarus.LockFiles.move_construct
Reaches-IsExclusive_example =
    Reaches-IsExclusive listed listed-IsFiles
      (next (move_constructs {w = owned} 2 1 (ok tt) refl refl) done) owned-IsExclusive

construct-HasWaited_example :
    HasWaited listed sleep 0
      (convert_to_lockfile (codes "/f"))
      100
      1000
      0
      owned
      (construct listed 2 sleep 0 (codes "/f") 100 1000 owned)
construct-HasWaited_example =
    construct-HasWaited listed sleep 0 (codes "/f") 100 1000 listed-IsFiles (omega arith)
      (λ h. omega (arith, h)) 1 owned (omega arith)

abbrev acquired : World listed
acquired =
    set_member listed 0 (some lock)
      (set_files listed (lock ∷ []) (sleep (set_files listed (lock ∷ []) owned)))

construct_run : construct listed 2 sleep 0 (codes "/f") 100 1000 owned ≡ some (ok tt, acquired)
unfolding construct libsarus.LockFiles.wait_for_lock libsarus.LockFiles.attempt
    libsarus.LockFiles.create_lockfile_atomically convert_to_lockfile
construct_run = refl

construct_owner_example :
    (acquired.members 0 ≡ some (convert_to_lockfile (codes "/f")))
    × (has_path acquired.files (convert_to_lockfile (codes "/f")) ≡ true)
    × ((j : ℕ) → acquired.members j ≡ some (convert_to_lockfile (codes "/f")) → j ≡ 0)
construct_owner_example =
    construct_owner listed sleep 0 listed-IsFiles sleep-IsSleep 2 (codes "/f") 100 1000 owned
      acquired owned-IsExclusive refl construct_run
