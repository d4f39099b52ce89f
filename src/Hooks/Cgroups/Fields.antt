-- ===== src/Hooks/Cgroups/Fields.antt =====
-- The fields of a line of a mount table, as the guards of `findSubsystemMountPaths` read them.
use libsarus.Base.{
  ℕ, suc, ◌+◌, ◌-◌, ◌≤◌, Text, codes, text_eq, text_eq_iff, Bool, true, false, not, ◌||◌, List, [],
  ◌∷◌, ◌++◌, length, length-append, get_elem?, is_empty, is_empty_iff, ltb, if◌then◌else◌, Option,
  none, some, ◌≡◌, ◌≢◌, refl, sym, ap, ◌∙◌, arith,
}
use libsarus.Hooks.Cgroups.{contains, or_empty, token, guard_mount, select_mount}

-- A line of the mount table for a version 1 control group with the subsystem among its options: the
-- root and the mount point are the fourth and the fifth field, and the last three are the type of
-- the file system, the source and the options.
pub record IsMountLine (subsystem root point : Text) (tokens : List Text) : Type 0 where
  pub id : Text
  pub parent : Text
  pub device : Text
  pub middle : List Text
  pub source : Text
  pub options : Text
  pub is_line :
      tokens
      ≡ id ∷ parent ∷ device ∷ root ∷ point ∷ (middle ++ (codes "cgroup" ∷ source ∷ options ∷ []))
  pub two_fields : 2 ≤ length middle
  pub some_root : root ≢ []
  pub some_point : point ≢ []
  pub some_options : options ≢ []
  pub has_subsystem : contains options subsystem ≡ true

get_elem?-append {ℓ} :
    {A : Type ℓ} (xs ys : List A) (i : ℕ) → get_elem? (xs ++ ys) (length xs + i) ≡ get_elem? ys i
get_elem?-append [] ys i = let e : 0 + i ≡ i = omega arith in rw e refl
get_elem?-append (x ∷ xs) ys i =
    let e : suc (length xs) + i ≡ suc (length xs + i) = omega arith in
    rw e (get_elem?-append xs ys i)

last_three {ℓ} :
    {A : Type ℓ} (xs : List A)
    → 5 ≤ length xs
    → (middle : List A) × (a : A) × (b : A) × (c : A) × (xs ≡ middle ++ (a ∷ b ∷ c ∷ []))
      × (2 ≤ length middle)
last_three (a ∷ b ∷ c ∷ d ∷ e ∷ []) h = (a ∷ b ∷ [], c, d, e, refl, omega arith)
last_three (a ∷ b ∷ c ∷ d ∷ e ∷ f ∷ xs) h =
    let (m, x, y, z, is, two) = last_three (b ∷ c ∷ d ∷ e ∷ f ∷ xs) (omega arith) in
    (a ∷ m, x, y, z, ap (a ∷◌) is, omega (arith, two))
last_three [] h = absurd (omega (arith, h))
last_three (a ∷ []) h = absurd (omega (arith, h))
last_three (a ∷ b ∷ []) h = absurd (omega (arith, h))
last_three (a ∷ b ∷ c ∷ []) h = absurd (omega (arith, h))
last_three (a ∷ b ∷ c ∷ d ∷ []) h = absurd (omega (arith, h))

first_five {ℓ} :
    {A : Type ℓ} (xs : List A)
    → 10 ≤ length xs
    → (a : A) × (b : A) × (c : A) × (d : A) × (e : A) × (ys : List A) × (xs
        ≡ a ∷ b ∷ c ∷ d ∷ e ∷ ys)
      × (5 ≤ length ys)
first_five (a ∷ b ∷ c ∷ d ∷ e ∷ ys) h = (a, b, c, d, e, ys, refl, omega (arith, h))
first_five [] h = absurd (omega (arith, h))
first_five (a ∷ []) h = absurd (omega (arith, h))
first_five (a ∷ b ∷ []) h = absurd (omega (arith, h))
first_five (a ∷ b ∷ c ∷ []) h = absurd (omega (arith, h))
first_five (a ∷ b ∷ c ∷ d ∷ []) h = absurd (omega (arith, h))

-- The fields that the function reads from a line with the shape of a mount line.
module _ (a b c root point : Text) (middle : List Text) (kind source options : Text) where
  abbrev fields : List Text
  fields = a ∷ b ∷ c ∷ root ∷ point ∷ (middle ++ (kind ∷ source ∷ options ∷ []))

  length-fields : length fields ≡ 8 + length middle
  length-fields = omega (arith, length-append middle (kind ∷ source ∷ options ∷ []))

  -- The fields behind the middle ones.
  late_field :
      (i j : ℕ)
      → j ≡ suc (suc (suc (suc (suc (length middle + i)))))
      → token fields j ≡ or_empty (get_elem? (kind ∷ source ∷ options ∷ []) i)
  late_field i j e = rw e (ap or_empty (get_elem?-append middle (kind ∷ source ∷ options ∷ []) i))

  kind_field : token fields (length fields - 3) ≡ kind
  kind_field = late_field 0 _ (omega (arith, length-fields))

  options_field : token fields (length fields - 1) ≡ options
  options_field = late_field 2 _ (omega (arith, length-fields))

  select_mount_step :
      (subsystem : Text)
      → select_mount subsystem fields
        ≡ guard_mount subsystem (length fields) root point kind options
  unfolding select_mount
  select_mount_step subsystem =
      ap
        (λ k. guard_mount subsystem (length fields) root point k (token fields (length fields - 1)))
        kind_field
      ∙ ap (guard_mount subsystem (length fields) root point kind) options_field

-- What passes the guards.
record Passes (subsystem : Text) (size : ℕ) (root point kind options : Text) : Type 0 where
  ten_fields : 10 ≤ size
  some_root : root ≢ []
  some_point : point ≢ []
  some_options : options ≢ []
  is_cgroup : kind ≡ codes "cgroup"
  has_subsystem : contains options subsystem ≡ true

guard_some {ℓ} :
    {A : Type ℓ} (b : Bool) (o : Option A) (x : A)
    → (if b then none else o) ≡ some x
    → (b ≡ false) × (o ≡ some x)
guard_some true o x h = cc h
guard_some false o x h = (refl, h)

not-false : (b : Bool) → not b ≡ false → b ≡ true
not-false true h = refl
not-false false h = cc h

not_fewer : (size : ℕ) → ltb size 10 ≡ false → 10 ≤ size
not_fewer size h = ground arith

all_filled :
    (a b c d : Bool)
    → (a || b || c || d) ≡ false
    → (a ≡ false) × (b ≡ false) × (c ≡ false) × (d ≡ false)
all_filled false false false false h = (refl, refl, refl, refl)
all_filled true _ _ _ h = ground arith
all_filled false true _ _ h = ground arith
all_filled false false true _ h = ground arith
all_filled false false false true h = ground arith

guard_mount-Passes :
    (subsystem : Text) (size : ℕ) (root point kind options : Text) (found : Text × Text)
    → guard_mount subsystem size root point kind options ≡ some found
    → Passes subsystem size root point kind options × ((root, point) ≡ found)
unfolding guard_mount
guard_mount-Passes subsystem size root point kind options found h =
    let (long, h1) = guard_some (ltb size 10) _ found h in
    let (filled, h2) =
      guard_some (is_empty root || is_empty point || is_empty kind || is_empty options) _ found
        h1 in
    let (cgroup, h3) = guard_some (not (text_eq kind (codes "cgroup"))) _ found h2 in
    let (included, h4) =
      guard_some (not (contains options subsystem)) (some (root, point)) found h3 in
    let (r, p, k, o) =
      all_filled (is_empty root) (is_empty point) (is_empty kind) (is_empty options) filled in
    (
      record {
        ten_fields = not_fewer size long;
        some_root = (is_empty_iff root).0 r;
        some_point = (is_empty_iff point).0 p;
        some_options = (is_empty_iff options).0 o;
        is_cgroup =
            (text_eq_iff kind (codes "cgroup")).0
              (not-false (text_eq kind (codes "cgroup")) cgroup);
        has_subsystem = not-false (contains options subsystem) included;
      },
      cc h4,
    )

Passes-guard_mount :
    (subsystem : Text) (size : ℕ) (root point kind options : Text)
    → Passes subsystem size root point kind options
    → guard_mount subsystem size root point kind options ≡ some (root, point)
unfolding guard_mount
Passes-guard_mount subsystem size root point kind options p =
    let long : ltb size 10 ≡ false = ground (arith, p.ten_fields) in
    rw
      (
        long,
        (is_empty_iff root).1 p.some_root,
        (is_empty_iff point).1 p.some_point,
        (is_empty_iff options).1 p.some_options,
        p.is_cgroup,
        p.has_subsystem,
      )
      refl

pub IsMountLine-select_mount :
    (subsystem root point : Text) (tokens : List Text)
    → IsMountLine subsystem root point tokens
    → select_mount subsystem tokens ≡ some (root, point)
IsMountLine-select_mount subsystem root point tokens l =
    ap (select_mount subsystem) l.is_line
    ∙ (select_mount_step l.id l.parent l.device root point l.middle (codes "cgroup") l.source
          l.options subsystem
        ∙ Passes-guard_mount subsystem _ root point (codes "cgroup") l.options (record {
          ten_fields = omega (
            arith,
            length-fields l.id l.parent l.device root point l.middle (codes "cgroup") l.source
                l.options,
            l.two_fields,
          );
          some_root = l.some_root;
          some_point = l.some_point;
          some_options = l.some_options;
          is_cgroup = refl;
          has_subsystem = l.has_subsystem;
        }))

select_mount-size :
    (subsystem : Text) (tokens : List Text) (found : Text × Text)
    → select_mount subsystem tokens ≡ some found
    → 10 ≤ length tokens
unfolding select_mount
select_mount-size subsystem tokens found h =
    let (p, _) =
      guard_mount-Passes subsystem (length tokens) (token tokens 3) (token tokens 4)
        (token tokens (length tokens - 3)) (token tokens (length tokens - 1)) found h in
    p.ten_fields

pub select_mount-IsMountLine :
    (subsystem root point : Text) (tokens : List Text)
    → select_mount subsystem tokens ≡ some (root, point)
    → IsMountLine subsystem root point tokens
select_mount-IsMountLine subsystem root point tokens h =
    let (a, b, c, r, q, ys, is, five) =
      first_five tokens (select_mount-size subsystem tokens (root, point) h) in
    let (m, kind, source, options, is', two) = last_three ys five in
    let all : tokens ≡ a ∷ b ∷ c ∷ r ∷ q ∷ (m ++ (kind ∷ source ∷ options ∷ [])) =
      is ∙ ap (λ zs. a ∷ b ∷ c ∷ r ∷ q ∷ zs) is' in
    let step = select_mount_step a b c r q m kind source options subsystem in
    let (p, same) =
      guard_mount-Passes subsystem _ r q kind options (root, point)
        (sym step ∙ (ap (select_mount subsystem) (sym all) ∙ h)) in
    let same_root : r ≡ root = cc same in
    let same_point : q ≡ point = cc same in
    record {
      id = a;
      parent = b;
      device = c;
      middle = m;
      source = source;
      options = options;
      is_line = all ∙ cc (same_root, same_point, p.is_cgroup);
      two_fields = two;
      some_root = rw (sym same_root) p.some_root;
      some_point = rw (sym same_point) p.some_point;
      some_options = p.some_options;
      has_subsystem = p.has_subsystem;
    }
