-- ===== src/ScopedPaths/Removal.antt =====
-- The destructor ends, and removes the path.
use libsarus.Base.{
  ℕ, zero, suc, ◌<◌, ◌≤◌, Text, Bool, true, false, Option-cases, some, inl, inr, ◌≡◌, refl, ◌∙◌,
  arith,
}
use libsarus.Error.{Result, ok}
use libsarus.Filesystem.Status.{is_symlink}
use libsarus.System.Monad.{◌>>=◌, ◌>>◌, reads}
use libsarus.System.Outcome.{Ends, bind-Ends, reads-Ends}
use libsarus.ScopedPaths.{
  PathRaii, Trees, move_construct, called, permit, permit_entries, permit_below,
  set_files_as_removable_by_owner, remove_if, destroy,
}

-- A tree has finitely many files. What is left of an iteration counts those that it has not met,
-- whatever their permissions, with the one where it stands.
pub record IsTrees (T : Trees) : Type 0 where
  pub files : T.State → Text → ℕ
  pub left : T.State → T.Iterator → ℕ
  pub iterator-left :
      (s : T.State) (p : Text) (it : T.Iterator)
      → T.recursive_iterator s p ≡ ok it
      → left s it ≤ files s p
  pub increment-left :
      (s : T.State) (it it' : T.Iterator) (p : Text)
      → T.entry s it ≡ some p
      → T.increment s it ≡ ok it'
      → left s it' < left s it
  -- a change of permissions adds no file, and does not move an iterator
  pub permit-left :
      (s : T.State) (p : Text) (it : T.Iterator) → left (T.add_permissions p s).1 it ≡ left s it
  pub permit-entry :
      (s : T.State) (p : Text) (it : T.Iterator)
      → T.entry (T.add_permissions p s).1 it ≡ T.entry s it
  pub permit-files : (s : T.State) (p q : Text) → files (T.add_permissions p s).1 q ≡ files s q
  pub remove_all-exists :
      (s : T.State) (p : Text)
      → (T.remove_all p s).0 ≡ ok tt
      → T.exists (T.remove_all p s).1 p ≡ ok false

module _ (T : Trees) (laws : IsTrees T) where
  -- What a step of the iteration leaves as it was.
  abbrev Same : T.State → T.State → Type 0
  Same s t = (it : T.Iterator) → (T.entry t it ≡ T.entry s it) × (laws.left t it ≡ laws.left s it)

  permit-Same : (b : Bool) (p : Text) (s : T.State) → Ends (permit T b p) s (λ r t. Same s t)
  permit-Same true p s = (ok tt, s, refl, λ it. (refl, refl))
  permit-Same false p s = (_, _, refl, λ it. (laws.permit-entry s p it, laws.permit-left s p it))

  -- Nothing more than that the operation ends.
  abbrev Anyhow : Result (Unit {0}) → T.State → Type 0
  Anyhow r t = Unit

  permit_entries_step :
      (fuel : ℕ) (it : T.Iterator) (s : T.State) (p : Text)
      → T.entry s it ≡ some p
      → permit_entries T (suc fuel) it s
        ≡ (permit T (is_symlink (T.lstat s) p) p
              >> (reads (λ t. T.increment t it) >>= permit_entries T fuel))
            s
  unfolding permit_entries
  permit_entries_step fuel it s p e = rw (e, permit_entries) refl

  permit_entries-Ends :
      (fuel : ℕ) (it : T.Iterator) (s : T.State)
      → laws.left s it < fuel
      → Ends (permit_entries T fuel it) s Anyhow
  unfolding permit_entries
  permit_entries-Ends zero it s enough = absurd (omega (arith, enough))
  permit_entries-Ends (suc fuel) it s enough = elim (Option-cases (T.entry s it)) [
    | inl e ↦ (ok tt, s, rw (e, permit_entries) refl, tt)
    | inr (p, e) ↦
        let (r, t, runs, _) =
          bind-Ends (permit T (is_symlink (T.lstat s) p) p)
            (λ _. reads (λ t. T.increment t it) >>= permit_entries T fuel) s (λ r t. Same s t)
            Anyhow (permit-Same (is_symlink (T.lstat s) p) p s)
            (λ a t same.
              bind-Ends (reads (λ t. T.increment t it)) (permit_entries T fuel) t
                (λ r u. (u ≡ t) × (T.increment t it ≡ r)) Anyhow
                (reads-Ends (λ t. T.increment t it) t (λ r u. (u ≡ t) × (T.increment t it ≡ r))
                  (refl, refl))
                (λ it' u (is, moves).
                  let less = laws.increment-left t it it' p ((same it).0 ∙ e) moves in
                  let bound : laws.left u it' < fuel =
                    rw is (omega (arith, less, (same it).1, enough)) in
                  permit_entries-Ends fuel it' u bound)
                (λ x u _. tt))
            (λ x t _. tt) in
        (r, t, permit_entries_step fuel it s p e ∙ runs, tt)
  ]

  permit_below-Ends :
      (b : Bool) (fuel : ℕ) (p : Text) (s : T.State)
      → laws.files s p < fuel
      → Ends (permit_below T b fuel p) s Anyhow
  permit_below-Ends true fuel p s enough = (ok tt, s, refl, tt)
  permit_below-Ends false fuel p s enough =
      bind-Ends (reads (λ t. T.recursive_iterator t p)) (permit_entries T fuel) s
        (λ r u. (u ≡ s) × (T.recursive_iterator s p ≡ r)) Anyhow
        (reads-Ends (λ t. T.recursive_iterator t p) s
          (λ r u. (u ≡ s) × (T.recursive_iterator s p ≡ r)) (refl, refl))
        (λ it u (is, begins).
          let most = laws.iterator-left s p it begins in
          permit_entries-Ends fuel it u (rw is (omega (arith, most, enough))))
        (λ x u _. tt)

  set_files-Ends :
      (fuel : ℕ) (p : Text) (s : T.State)
      → laws.files s p < fuel
      → Ends (set_files_as_removable_by_owner T fuel p) s Anyhow
  unfolding set_files_as_removable_by_owner
  set_files-Ends fuel p s enough =
      bind-Ends (called T (T.add_permissions p))
        (λ _. reads (λ t. T.is_regular_file t p) >>= λ regular. permit_below T regular fuel p) s
        (λ r t. laws.files t p < fuel) Anyhow (_, _, refl, rw (laws.permit-files s p p) enough)
        (λ _ t below.
          bind-Ends (reads (λ t. T.is_regular_file t p)) (λ regular. permit_below T regular fuel p)
            t (λ r u. u ≡ t) Anyhow (reads-Ends (λ t. T.is_regular_file t p) t (λ r u. u ≡ t) refl)
            (λ regular u is. permit_below-Ends regular fuel p u (rw is below)) (λ x u _. tt))
        (λ x t _. tt)

  -- When it returns, the path is not there.
  abbrev pub IsRemoved : Text → Result (Unit {0}) → T.State → Type 0
  IsRemoved p r t = r ≡ ok tt → T.exists t p ≡ ok false

  remove_if-IsRemoved :
      (there : Bool) (fuel : ℕ) (p : Text) (s : T.State)
      → laws.files s p < fuel
      → T.exists s p ≡ ok there
      → Ends (remove_if T there fuel p) s (IsRemoved p)
  remove_if-IsRemoved false fuel p s enough e = (ok tt, s, refl, λ _. e)
  remove_if-IsRemoved true fuel p s enough e =
      bind-Ends (set_files_as_removable_by_owner T fuel p) (λ _. called T (T.remove_all p)) s Anyhow
        (IsRemoved p) (set_files-Ends fuel p s enough)
        (λ _ t _. (_, _, refl, λ h. laws.remove_all-exists t p h)) (λ x t _ h. cc h)

  -- For file trees with their laws: after a move construction from an object with a path, the
  -- destructor of that object returns and changes nothing; the destructor of the new object, with
  -- more fuel than the tree has files, returns or throws, and when it returns the path is not
  -- there.
  pub moved-IsRemoved :
      (fuel : ℕ) (rhs : PathRaii) (p : Text) (s : T.State)
      → rhs.path ≡ some p
      → laws.files s p < fuel
      → (destroy T 0 (move_construct rhs).1 s ≡ some (ok tt, s))
        × Ends (destroy T fuel (move_construct rhs).0) s (IsRemoved p)
  unfolding destroy move_construct
  moved-IsRemoved fuel rhs p s holds enough = (
    refl,
    rw holds (
        bind-Ends (reads (λ t. T.exists t p)) (λ there. remove_if T there fuel p) s
          (λ r u. (u ≡ s) × (T.exists s p ≡ r)) (IsRemoved p)
          (reads-Ends (λ t. T.exists t p) s (λ r u. (u ≡ s) × (T.exists s p ≡ r)) (refl, refl))
          (λ there u (is, asks). rw is (remove_if-IsRemoved there fuel p s enough asks))
          (λ x u _ h. cc h)),
  )
