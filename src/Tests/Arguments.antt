-- ===== src/Tests/Arguments.antt =====
-- Command line arguments at concrete inputs.
use libsarus.Base.{
  c_str, ℕ, Text, codes, Bool, true, List, [], ◌∷◌, ◌++◌, ◌==◌, if◌then◌else◌, some, ◌≡◌, ◌≢◌, refl,
  ◌↔◌,
}
use libsarus.CliArguments.{
  Store, empty_arguments, argc, empty, of_list, copy_arguments, add, push_back, equal, assign,
  print,
}
use libsarus.CliArguments.Contents.{holding, holding_implements}
use libsarus.CliArguments.Assignment.{assign-holding}

abbrev mount_args : List Text
mount_args = codes "mount" ∷ codes "-n" ∷ []

abbrev more_args : List Text
more_args = codes "-o" ∷ []

abbrev left : ℕ
left = 0

abbrev right : ℕ
right = 1

-- Three objects: two with arguments, and the rest without.
abbrev objects : Store
objects a =
    if a == 0 then holding mount_args else if a == 1 then holding more_args else empty_arguments

print_run : print (holding mount_args) ≡ some (codes "[\"mount\", \"-n\"]")
unfolding print
print_run = refl

holding_implements_example :
    (argc (holding mount_args) ≡ 2)
    × ((empty (holding mount_args) ≡ true) ↔ (mount_args ≡ []))
    × (of_list more_args (holding mount_args) ≡ holding (mount_args ++ more_args))
    × (copy_arguments (holding mount_args) ≡ some (holding mount_args))
    × (add (holding mount_args) (holding more_args) ≡ some (holding (mount_args ++ more_args)))
    × (push_back (codes "x") (holding mount_args)
        ≡ holding (mount_args ++ (c_str (codes "x") ∷ [])))
    × ((b : Bool) × (equal (holding mount_args) (holding more_args) ≡ some b)
        × ((b ≡ true) ↔ (mount_args ≡ more_args)))
holding_implements_example =
    holding_implements mount_args more_args (codes "x") (refl, (refl, tt)) (refl, tt)

assign-holding_example :
    (s' : Store) × (assign left right objects ≡ some s')
    × (s' left ≡ holding more_args)
    × ((a : ℕ) → a ≢ left → s' a ≡ objects a)
assign-holding_example = assign-holding objects left right mount_args more_args refl refl (refl, tt)
