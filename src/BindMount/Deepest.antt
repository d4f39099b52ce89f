-- ===== src/BindMount/Deepest.antt =====
-- The search for the deepest path on the way to a destination that exists.
use libsarus.Base.{
  ◌≢◌, Text, true, false, List, [], ◌∷◌, ◌++◌, Option, none, some, ◌≡◌, ◌⊎◌, inl, inr, refl, ap,
  ◌∙◌, Bool-cases,
}
use mathlib.Core.List.{cons-ne-nil}
use libsarus.Error.{ok}
use libsarus.Error.Trace.{>>=-eq-ok, ok-injective}
use libsarus.Filesystem.Paths.{PathOps}
use libsarus.System.{System}
use libsarus.BindMount.{deepest_existing}

module _ (ops : PathOps) (S : System) (s : S.State) where
  -- Elements appended one by one, and that each path on the way exists.
  abbrev joined : Text → List Text → Text
  joined current [] = current
  joined current (e ∷ es) = joined (ops.append current e) es

  abbrev AllExist : Text → List Text → Type 0
  AllExist current [] = Unit
  AllExist current (e ∷ es) =
      (S.exists s (ops.append current e) ≡ ok true) × AllExist (ops.append current e) es

  -- Nothing exists one element further.
  abbrev Stops : Text → List Text → Type 0
  Stops path [] = Unit
  Stops path (e ∷ es) = S.exists s (ops.append path e) ≡ ok false

  -- The path is made of the first elements, at least one; each path on the way exists, and the next
  -- one does not, if there is one.
  abbrev pub IsDeepest : Text → Text → Type 0
  IsDeepest d path =
      (before : List Text) × (after : List Text) × (ops.elements d ≡ before ++ after)
      × (before ≢ [])
      × (path ≡ joined [] before)
      × AllExist [] before
      × Stops path after

  abbrev Found : List Text → Text → Option Text → Text → Type 0
  Found es current found path =
      (before : List Text) × (after : List Text) × (es ≡ before ++ after)
      × AllExist current before
      × Stops (joined current before) after
      × (((before ≡ []) × (found ≡ some path)) ⊎ ((before ≢ []) × (path ≡ joined current before)))

  deepest_existing-Found :
      (es : List Text) (current : Text) (found : Option Text) (path : Text)
      → deepest_existing ops S s es current found ≡ ok (some path)
      → Found es current found path
  unfolding deepest_existing
  deepest_existing-Found [] current found path h =
      ([], [], refl, tt, tt, inl (refl, ok-injective h))
  deepest_existing-Found (e ∷ es) current found path h =
      let (b, there, rest) = >>=-eq-ok (S.exists s (ops.append current e)) _ h in
      elim (Bool-cases b) [
        | inr absent ↦ (
          [],
          e ∷ es,
          refl,
          tt,
          there ∙ ap ok absent,
          inl (refl, ok-injective (rw absent at rest)),
        )
        | inl present ↦
            let (before, after, is, exist, stops, where_found) =
              deepest_existing-Found es (ops.append current e) (some (ops.append current e)) path
                (rw present at rest) in
            (
              e ∷ before,
              after,
              ap (e ∷◌) is,
              (there ∙ ap ok present, exist),
              stops,
              inr (
                cons-ne-nil e before,
                elim where_found [
                  | inl (none_more, at) ↦ cc (at, ap (joined (ops.append current e)) none_more)
                  | inr (_, at) ↦ at
                ],
              ),
            )
      ]

  pub deepest_existing-IsDeepest :
      (d path : Text)
      → deepest_existing ops S s (ops.elements d) [] none ≡ ok (some path)
      → IsDeepest d path
  deepest_existing-IsDeepest d path h =
      let (before, after, is, exist, stops, where_found) =
        deepest_existing-Found (ops.elements d) [] none path h in
      elim where_found [
        | inl (_, at) ↦ cc at
        | inr (some_element, at) ↦ (before, after, is, some_element, at, exist, rw at stops)
      ]
