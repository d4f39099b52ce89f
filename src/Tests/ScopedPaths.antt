-- ===== src/Tests/ScopedPaths.antt =====
-- A scoped path to a tree with two files below it.
use libsarus.Base.{
  ℕ, zero, suc, ◌<◌, Text, codes, Bool, true, false, Option, none, some, ◌≡◌, refl, arith,
}
use libsarus.Error.{ok}
use libsarus.Filesystem.Status.{failed}
use libsarus.System.Outcome.{Ends}
use libsarus.ScopedPaths.{PathRaii, Trees, move_construct, destroy}
use libsarus.ScopedPaths.Removal.{IsTrees, IsRemoved, moved-IsRemoved}

abbrev met : ℕ → Option Text
met zero = none
met (suc n) = some (codes "/tmp/store/file")

abbrev one_less : ℕ → ℕ
one_less zero = zero
one_less (suc n) = n

-- The state is whether the tree is there, and an iterator the number of files left.
abbrev tree : Trees
tree = record {
  State = Bool;
  Iterator = ℕ;
  exists = λ s p. ok s;
  is_regular_file = λ s p. ok false;
  lstat = λ s p. failed (codes "not there");
  add_permissions = λ p s. (ok tt, s);
  remove_all = λ p s. (ok tt, false);
  recursive_iterator = λ s p. ok 2;
  entry = λ s it. met it;
  increment = λ s it. ok (one_less it);
}

shrinks : (it it' : ℕ) (p : Text) → met it ≡ some p → ok (one_less it) ≡ ok it' → it' < it
shrinks zero it' p e moves = cc e
shrinks (suc n) it' p e moves = let is : n ≡ it' = cc moves in omega (arith, is)

abbrev tree_laws : IsTrees tree
tree_laws = record {
  files = λ s p. 2;
  left = λ s it. it;
  iterator-left = λ s p it e. let is : 2 ≡ it = cc e in omega (arith, is);
  increment-left = λ s it it' p e moves. shrinks it it' p e moves;
  permit-left = λ s p it. refl;
  permit-entry = λ s p it. refl;
  permit-files = λ s p q. refl;
  remove_all-exists = λ s p h. refl;
}

abbrev store : PathRaii
store = record { path = some (codes "/tmp/store") }

moved-IsRemoved_example :
    (destroy tree 0 (move_construct store).1 true ≡ some (ok tt, true))
    × Ends
        (destroy tree 3 (move_construct store).0)
        true
        (IsRemoved tree tree_laws (codes "/tmp/store"))
moved-IsRemoved_example =
    moved-IsRemoved tree tree_laws 3 store (codes "/tmp/store") true refl (omega arith)

destroy_run : destroy tree 3 store true ≡ some (ok tt, false)
unfolding destroy libsarus.ScopedPaths.set_files_as_removable_by_owner
    libsarus.ScopedPaths.permit_entries libsarus.Filesystem.Status.is_symlink
destroy_run = refl
