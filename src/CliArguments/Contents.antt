-- ===== src/CliArguments/Contents.antt =====
-- Every operation against the list of the arguments.
use libsarus.Base.{
  c_str, IsCString, c_str_self, append_laws, ℕ, suc, ◌+◌, Text, text_eq, text_eq_iff, Bool, true,
  false, not, List, [], ◌∷◌, ◌++◌, All, map, length, length-append, get_elem?, ◌==◌, if◌then◌else◌,
  Option, none, some, ◌≡◌, ◌↔◌, refl, sym, ap, ◌∙◌, arith, append_assoc, Bool-cases, inl, inr,
}
use libsarus.CliArguments.{
  CliArguments, init, push_back, argc, empty, push_all, push_argv, copy_arguments, of_list,
  equal_argv, equal, add,
}

-- The object that holds these arguments.
abbrev pub holding : List Text → CliArguments
holding [] = none ∷ []
holding (s ∷ ss) = some s ∷ holding ss

pub init-holding : (ss : List Text) → init (holding ss) ≡ map some ss
init-holding [] = refl
init-holding (s ∷ []) = refl
init-holding (s ∷ t ∷ ss) = ap (◌∷◌ (some s)) (init-holding (t ∷ ss))

map-holding :
    (ss : List Text) (s : Text) → map some ss ++ (some s ∷ none ∷ []) ≡ holding (ss ++ (s ∷ []))
map-holding [] s = refl
map-holding (t ∷ ss) s = ap (◌∷◌ (some t)) (map-holding ss s)

pub push_back-holding :
    (ss : List Text) (s : Text) → push_back s (holding ss) ≡ holding (ss ++ (c_str s ∷ []))
unfolding push_back
push_back-holding ss s = rw (init-holding ss) (map-holding ss (c_str s))

push_all_step :
    (s : Text) (ptrs : List (Option Text)) (args : CliArguments)
    → push_all (some s ∷ ptrs) args ≡ push_all ptrs (push_back s args)
unfolding push_all
push_all_step s ptrs args = refl

pub push_all-holding :
    (ts ss : List Text)
    → All IsCString ts
    → push_all (map some ts) (holding ss) ≡ some (holding (ss ++ ts))
unfolding push_all
push_all-holding [] ss h = simp append_laws
push_all-holding (t ∷ ts) ss h =
    push_all_step t (map some ts) (holding ss)
    ∙ rw (push_back-holding ss t, c_str_self t h.0)
        (push_all-holding ts (ss ++ (t ∷ [])) h.1 ∙ simp append_laws)

length-holding : (ss : List Text) → length (holding ss) ≡ length ss + 1
length-holding [] = omega arith
length-holding (s ∷ ss) = omega (arith, length-holding ss)

argc-holding : (ss : List Text) → argc (holding ss) ≡ length ss
unfolding argc
argc-holding [] = omega arith
argc-holding (s ∷ ss) = omega (arith, length-holding ss)

get_elem?-holding :
    (pre ss : List Text) (s : Text)
    → get_elem? (holding (pre ++ (s ∷ ss))) (length pre) ≡ some (some s)
get_elem?-holding [] ss s = refl
get_elem?-holding (t ∷ pre) ss s = get_elem?-holding pre ss s

push_argv_step :
    (rounds i : ℕ) (argv args : CliArguments) (s : Text)
    → get_elem? argv i ≡ some (some s)
    → push_argv (suc rounds) i argv args ≡ push_argv rounds (i + 1) argv (push_back s args)
unfolding push_argv
push_argv_step rounds i argv args s e = rw (e, push_argv)

length-snoc : (pre : List Text) (s : Text) → length (pre ++ (s ∷ [])) ≡ length pre + 1
length-snoc pre s = length-append pre (s ∷ [])

push_argv-holding :
    (ts pre ss : List Text)
    → All IsCString ts
    → push_argv (length ts) (length pre) (holding (pre ++ ts)) (holding ss)
      ≡ some (holding (ss ++ ts))
push_argv-holding [] pre ss h = unfold push_argv in simp append_laws
push_argv-holding (t ∷ ts) pre ss h =
    push_argv_step (length ts) (length pre) _ _ t (get_elem?-holding pre ts t)
    ∙ rw (push_back-holding ss t, c_str_self t h.0, ← length-snoc pre t)
        (push_argv-snoc (push_argv-holding ts (pre ++ (t ∷ [])) (ss ++ (t ∷ [])) h.1))
  where
    push_argv-snoc :
        push_argv
            (length ts)
            (length (pre ++ (t ∷ [])))
            (holding ((pre ++ (t ∷ [])) ++ ts))
            (holding (ss ++ (t ∷ [])))
          ≡ some (holding ((ss ++ (t ∷ [])) ++ ts))
        → push_argv
            (length ts)
            (length (pre ++ (t ∷ [])))
            (holding (pre ++ (t ∷ ts)))
            (holding (ss ++ (t ∷ [])))
          ≡ some (holding (ss ++ (t ∷ ts)))
    push_argv-snoc h = simp append_assoc at h

copy-holding : (ss : List Text) → All IsCString ss → copy_arguments (holding ss) ≡ some (holding ss)
unfolding copy_arguments
copy-holding ss h = rw (argc-holding ss) (push_argv-holding ss [] [] h)

equal_argv_step :
    (rounds i : ℕ) (lhs rhs : CliArguments) (s t : Text)
    → get_elem? lhs i ≡ some (some s)
    → get_elem? rhs i ≡ some (some t)
    → equal_argv (suc rounds) i lhs rhs
      ≡ (if not (text_eq s t) then some false else equal_argv rounds (i + 1) lhs rhs)
unfolding equal_argv
equal_argv_step rounds i lhs rhs s t e f = rw (e, equal_argv, f)

-- Equality of two lists of texts.
abbrev lists_equal : List Text → List Text → Bool
lists_equal [] [] = true
lists_equal (s ∷ ss) (t ∷ ts) =
    let rest = lists_equal ss ts in if not (text_eq s t) then false else rest
lists_equal _ _ = false

lists_equal_iff : (ss ts : List Text) → (lists_equal ss ts ≡ true) ↔ (ss ≡ ts)
lists_equal_iff (s ∷ ss) (t ∷ ts) = ground (arith, text_eq_iff s t, lists_equal_iff ss ts)
lists_equal_iff _ _ = ground arith

if-some : (b c : Bool) → (if b then some false else some c) ≡ some (if b then false else c)
if-some true c = refl
if-some false c = refl

equal_argv_shift :
    (ss ts pre qre : List Text) (s t : Text)
    → equal_argv
        (length ss)
        (length (pre ++ (s ∷ [])))
        (holding ((pre ++ (s ∷ [])) ++ ss))
        (holding ((qre ++ (t ∷ [])) ++ ts))
      ≡ some (lists_equal ss ts)
    → equal_argv
        (length ss)
        (length pre + 1)
        (holding (pre ++ (s ∷ ss)))
        (holding (qre ++ (t ∷ ts)))
      ≡ some (lists_equal ss ts)
equal_argv_shift ss ts pre qre s t h = rw (← length-snoc pre s) (simp append_assoc at h)

equal_argv-holding :
    (ss ts pre qre : List Text)
    → length ss ≡ length ts
    → length pre ≡ length qre
    → equal_argv (length ss) (length pre) (holding (pre ++ ss)) (holding (qre ++ ts))
      ≡ some (lists_equal ss ts)
equal_argv-holding [] [] pre qre h k = unfold equal_argv in refl
equal_argv-holding [] (t ∷ ts) pre qre h k = absurd (omega arith)
equal_argv-holding (s ∷ ss) [] pre qre h k = absurd (omega arith)
equal_argv-holding (s ∷ ss) (t ∷ ts) pre qre h k =
    equal_argv_step (length ss) (length pre) _ _ s t (get_elem?-holding pre ss s)
      (rw k (get_elem?-holding qre ts t))
    ∙ ap (λ r. if not (text_eq s t) then some false else r)
        (equal_argv_shift ss ts pre qre s t (
          equal_argv-holding ss ts (pre ++ (s ∷ [])) (qre ++ (t ∷ [])) (omega arith)
            (omega (arith, length-snoc pre s, length-snoc qre t))))
    ∙ if-some (not (text_eq s t)) (lists_equal ss ts)

lists_equal-length :
    (ss ts : List Text) → (length ss == length ts) ≡ false → lists_equal ss ts ≡ false
lists_equal-length [] [] h = ground arith
lists_equal-length [] (t ∷ ts) h = refl
lists_equal-length (s ∷ ss) [] h = refl
lists_equal-length (s ∷ ss) (t ∷ ts) h = ground (arith, lists_equal-length ss ts)

equal-holding : (ss ts : List Text) → equal (holding ss) (holding ts) ≡ some (lists_equal ss ts)
unfolding equal
equal-holding ss ts =
    rw (argc-holding ss, argc-holding ts)
      (elim (Bool-cases (length ss == length ts)) [
        | inl e ↦ rw e (equal_argv-holding ss ts [] [] (ground arith) refl)
        | inr e ↦ rw e (ap some (sym (lists_equal-length ss ts e)))
      ])

of_list-holding :
    (ts ss : List Text) → All IsCString ts → of_list ts (holding ss) ≡ holding (ss ++ ts)
unfolding of_list
of_list-holding [] ss h = simp append_laws
of_list-holding (t ∷ ts) ss h =
    rw (push_back-holding ss t, c_str_self t h.0)
      (of_list-holding ts (ss ++ (t ∷ [])) h.1 ∙ simp append_laws)

add-holding :
    (ss ts : List Text)
    → All IsCString ss
    → All IsCString ts
    → add (holding ss) (holding ts) ≡ some (holding (ss ++ ts))
unfolding add
add-holding ss ts h k = rw (copy-holding ss h, add, init-holding ts) (push_all-holding ts ss k)

pub empty-holding : (ss : List Text) → (empty (holding ss) ≡ true) ↔ (ss ≡ [])
unfolding empty
empty-holding [] = (λ h. refl, λ h. refl)
empty-holding (s ∷ []) = (λ h. cc, λ h. cc)
empty-holding (s ∷ t ∷ ss) = (λ h. cc, λ h. cc)

-- On arguments without null characters the class implements lists: `argc` is the length, `empty`
-- tells whether there is no argument, the constructors from a list and from another object and
-- `operator+` never read a null pointer and give the list, its copy and the concatenation,
-- `operator==` compares the lists, and `push_back` appends its argument up to the first null.
pub holding_implements :
    (ss ts : List Text) (s : Text)
    → All IsCString ss
    → All IsCString ts
    → (argc (holding ss) ≡ length ss)
      × ((empty (holding ss) ≡ true) ↔ (ss ≡ []))
      × (of_list ts (holding ss) ≡ holding (ss ++ ts))
      × (copy_arguments (holding ss) ≡ some (holding ss))
      × (add (holding ss) (holding ts) ≡ some (holding (ss ++ ts)))
      × (push_back s (holding ss) ≡ holding (ss ++ (c_str s ∷ [])))
      × ((b : Bool) × (equal (holding ss) (holding ts) ≡ some b) × ((b ≡ true) ↔ (ss ≡ ts)))
holding_implements ss ts s h k = (
  argc-holding ss,
  empty-holding ss,
  of_list-holding ts ss k,
  copy-holding ss h,
  add-holding ss ts h k,
  push_back-holding ss s,
  (lists_equal ss ts, equal-holding ss ts, lists_equal_iff ss ts),
)
