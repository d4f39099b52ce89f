-- ===== src/Hooks/Cgroups/Hierarchy.antt =====
-- `findCgroupPathInHierarchy` on a file whose last line ends with a newline, as those of proc(5) do.
use libsarus.Base.{
  ℕ, Text, codes, Bool, true, false, not, ◌||◌, List, [], ◌∷◌, ◌++◌, All, length, ltb, is_empty,
  if◌then◌else◌, Option, none, some, ◌≡◌, ◌≢◌, refl, sym, ap, ◌∙◌, All-append,
}
use mathlib.Core.List.{cons-ne-nil}
use libsarus.Error.{Result}
use libsarus.Split.{join, Lacks, IsSplit}
use libsarus.Split.Tokens.{split-join, split-Lacks}
use libsarus.Filesystem.Paths.{PathOps}
use libsarus.Hooks.Cgroups.{
  contains, token, or_empty, read_file, proc_file, cgroup_of_line, find_hierarchy,
  find_cgroup_path_in_hierarchy,
}

-- The text of lines that each end with a separator.
abbrev pub ended : ℕ → List Text → Text
ended sep [] = []
ended sep (l ∷ ls) = l ++ (sep ∷ ended sep ls)

join-ended : (sep : ℕ) (ls : List Text) → join sep (ls ++ ([] ∷ [])) ≡ ended sep ls
join-ended sep [] = refl
join-ended sep (l ∷ []) = refl
join-ended sep (l ∷ k ∷ ls) = ap (λ t. l ++ (sep ∷ t)) (join-ended sep (k ∷ ls))

append-ne-nil : (ls : List Text) (l : Text) → ls ++ (l ∷ []) ≢ []
append-ne-nil [] l = cons-ne-nil l []
append-ne-nil (k ∷ ls) l = cons-ne-nil k (ls ++ (l ∷ []))

all_none {ℓ} :
    {A : Type ℓ} (a b c : Bool) (rest found : Option A)
    → c ≡ false
    → rest ≡ none
    → (if a then none else if b then rest else if not c then rest else found) ≡ none
all_none true b c rest found h k = refl
all_none false true c rest found h k = k
all_none false false c rest found h k = rw h k

module _ (split : ℕ → Text → List Text) (laws : IsSplit split) (ops : PathOps) (show : ℕ → Text)
    (contents : Text → Option Text) (relative : Text → Text → Result Text) where
  -- A line whose second field does not name the subsystem.
  abbrev pub NamesNot : Text → Text → Type 0
  NamesNot subsystem line = contains (token (split b':' line) 1) subsystem ≡ false

  last_line :
      (subsystem root : Text) (pid : ℕ) (path : Text)
      → find_hierarchy split ops show contents relative subsystem root pid path ([] ∷ []) ≡ none
  unfolding find_hierarchy
  last_line subsystem root pid path = rw (split-Lacks split laws b':' [] refl) refl

  find_hierarchy_undefined :
      (subsystem root : Text) (pid : ℕ) (path : Text) (ls : List Text)
      → All (NamesNot subsystem) ls
      → find_hierarchy split ops show contents relative subsystem root pid path (ls ++ ([] ∷ []))
        ≡ none
  unfolding find_hierarchy
  find_hierarchy_undefined subsystem root pid path [] h = last_line subsystem root pid path
  find_hierarchy_undefined subsystem root pid path (l ∷ ls) h =
      let tokens = split b':' l in
      all_none (ltb (length tokens) 3) (is_empty (token tokens 1) || is_empty (token tokens 2))
        (contains (token tokens 1) subsystem)
        (find_hierarchy split ops show contents relative subsystem root pid path (ls ++ ([] ∷ [])))
        (some (cgroup_of_line split ops show contents relative subsystem root pid (token tokens 2)))
        h.0 (find_hierarchy_undefined subsystem root pid path ls h.1)

  -- For a `boost::split` with its laws, on a file whose lines each end with a newline and hold no
  -- other: if the second field of no line holds the name of the subsystem,
  -- `findCgroupPathInHierarchy` does not throw that the path was not found; its behaviour is not
  -- defined.
  pub find_cgroup_path_undefined :
      (subsystem prefix root : Text) (pid : ℕ) (lines : List Text)
      → contents (proc_file split ops show contents prefix pid (codes "cgroup"))
        ≡ some (ended b'\n' lines)
      → All (Lacks b'\n') lines
      → All (NamesNot subsystem) lines
      → find_cgroup_path_in_hierarchy split ops show contents relative subsystem prefix root pid
        ≡ none
  unfolding find_cgroup_path_in_hierarchy read_file
  find_cgroup_path_undefined subsystem prefix root pid lines is lacks h =
      let path = proc_file split ops show contents prefix pid (codes "cgroup") in
      let whole : split b'\n' (ended b'\n' lines) ≡ lines ++ ([] ∷ []) =
        ap (split b'\n') (sym (join-ended b'\n' lines))
        ∙ split-join split laws b'\n' (lines ++ ([] ∷ [])) (append-ne-nil lines [])
            (All-append (Lacks b'\n') lines ([] ∷ []) lacks (refl, tt)) in
      ap
        (λ o.
          find_hierarchy split ops show contents relative subsystem root pid path
            (split b'\n' (or_empty o)))
        is
      ∙ (ap (find_hierarchy split ops show contents relative subsystem root pid path) whole
          ∙ find_hierarchy_undefined subsystem root pid path lines h)
