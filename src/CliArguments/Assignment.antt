-- ===== src/CliArguments/Assignment.antt =====
-- The assignment operators, on two objects and on one.
use mathlib.Core.Path.{ap₂}
use libsarus.Base.{
  IsCString, ℕ, Text, false, not, ◌&&◌, List, [], ◌++◌, All, map, ◌⊎◌, ap, ◌==◌, ==_iff,
  if◌then◌else◌, none, some, ◌≡◌, ◌≢◌, refl, ◌∙◌, sym, arith, Bool-cases, inl, inr,
}
use libsarus.CliArguments.{
  CliArguments, empty_arguments, init, empty, push_all, clear, Store, write, stored, assign,
  add_assign,
}
use libsarus.CliArguments.Contents.{holding, init-holding, push_all-holding, empty-holding}

write_eq : (l : ℕ) (args : CliArguments) (s : Store) → write l args s l ≡ args
write_eq l args s = ground arith

write_ne : (l a : ℕ) (args : CliArguments) (s : Store) → a ≢ l → write l args s a ≡ s a
write_ne l a args s ne = ground arith

assign_step :
    (l r : ℕ) (s : Store) (args : CliArguments)
    → push_all (init (write l empty_arguments s r)) empty_arguments ≡ some args
    → assign l r s ≡ some (write l args (write l empty_arguments s))
unfolding assign clear
assign_step l r s args e =
    let cleared : Store = write l empty_arguments s in
    ap (stored l cleared) (ap (push_all (init (cleared r))) (write_eq l empty_arguments s) ∙ e)

module _ (s : Store) (l : ℕ) (args : CliArguments) where
  -- A store that holds the arguments at `l` and is `s` elsewhere.
  abbrev Updates : Store → Type 0
  Updates s' = (s' l ≡ args) × ((a : ℕ) → a ≢ l → s' a ≡ s a)

  write-Updates : Updates (write l args (write l empty_arguments s))
  write-Updates = (
    write_eq l args (write l empty_arguments s),
    λ a ne. write_ne l a args (write l empty_arguments s) ne ∙ write_ne l a empty_arguments s ne,
  )

-- Assigning an object to another copies its arguments and changes nothing else; assigning an
-- object to itself leaves it with no argument. The arguments of the right side have no null
-- character.
pub assign-holding :
    (s : Store) (l r : ℕ) (ls rs : List Text)
    → s l ≡ holding ls
    → s r ≡ holding rs
    → All IsCString rs
    → (s' : Store) × (assign l r s ≡ some s')
      × (s' l ≡ holding (if l == r then [] else rs))
      × ((a : ℕ) → a ≢ l → s' a ≡ s a)
assign-holding s l r ls rs hl hr cs = elim (Bool-cases (l == r)) [
  | inl e ↦
      let same : r ≡ l = sym ((==_iff l r).0 e) in
      let reads : init (write l empty_arguments s r) ≡ [] =
        rw (same, write_eq l empty_arguments s) in
      let nothing : push_all (init (write l empty_arguments s r)) empty_arguments
          ≡ some (holding []) =
        rw reads (push_all-holding [] [] tt) in
      (
        write l (holding []) (write l empty_arguments s),
        assign_step l r s (holding []) nothing,
        rw e (write-Updates s l (holding [])).0,
        (write-Updates s l (holding [])).1,
      )
  | inr e ↦
      let other : r ≢ l = λ same. cc ((==_iff l r).1 (sym same)) in
      let reads : init (write l empty_arguments s r) ≡ map some rs =
        rw (write_ne l r empty_arguments s other, hr) (init-holding rs) in
      let copied : push_all (init (write l empty_arguments s r)) empty_arguments
          ≡ some (holding rs) =
        rw reads (push_all-holding rs [] cs) in
      (
        write l (holding rs) (write l empty_arguments s),
        assign_step l r s (holding rs) copied,
        rw e (write-Updates s l (holding rs)).0,
        (write-Updates s l (holding rs)).1,
      )
]

abbrev Appended : Store → ℕ → ℕ → List Text → Type 0
Appended s l r args =
    (s' : Store) × (add_assign l r s ≡ some s')
    × (s' l ≡ holding args)
    × ((a : ℕ) → a ≢ l → s' a ≡ s a)

add_assign_runs :
    (s : Store) (l r : ℕ) (ls rs : List Text)
    → s l ≡ holding ls
    → s r ≡ holding rs
    → All IsCString rs
    → ((l == r) && not (empty (s r))) ≡ false
    → Appended s l r (ls ++ rs)
unfolding add_assign
add_assign_runs s l r ls rs hl hr cs free = (
  write l (holding (ls ++ rs)) s,
  rw free (
      ap (stored l s) (ap₂ push_all (ap init hr ∙ init-holding rs) hl ∙ push_all-holding rs ls cs)),
  write_eq l (holding (ls ++ rs)) s,
  λ a ne. write_ne l a (holding (ls ++ rs)) s ne,
)

-- `+=` on two objects, or on one that has no argument, is defined: it appends the arguments of
-- the right side and changes nothing else. On one object that has arguments it is not defined.
-- The arguments of the right side have no null character.
pub add_assign-holding :
    (s : Store) (l r : ℕ) (ls rs : List Text)
    → s l ≡ holding ls
    → s r ≡ holding rs
    → All IsCString rs
    → ((l ≡ r) × (rs ≢ []) × (add_assign l r s ≡ none))
      ⊎ (((l ≢ r) ⊎ (rs ≡ [])) × Appended s l r (ls ++ rs))
unfolding add_assign
add_assign-holding s l r ls rs hl hr cs = elim (Bool-cases (l == r)) [
  | inr other ↦
      inr (
        inl (λ same. cc ((==_iff l r).1 same)),
        add_assign_runs s l r ls rs hl hr cs (rw other refl),
      )
  | inl same ↦ elim (Bool-cases (empty (s r))) [
    | inl none_there ↦ inr (
      inr ((empty-holding rs).0 (rw hr at none_there)),
      add_assign_runs s l r ls rs hl hr cs (rw (same, none_there) refl),
    )
    | inr some_there ↦ inl (
      (==_iff l r).0 same,
      (λ nothing. cc ((empty-holding rs).1 nothing, rw hr at some_there)),
      rw (same, some_there) refl,
    )
  ]
]
