-- ===== src/SharedLibs/Abi.antt =====
-- The version that `resolveAbi` chooses among those of the links and of their target.
use libsarus.Base.{
  ℕ, Text, text_eq, text_eq_iff, Bool, true, not, List, [], ◌∷◌, ◌++◌, All, if◌then◌else◌,
  Bool-cases, inl, inr, ◌≡◌, ◌⊎◌, refl, sym, ap, ◌∙◌, append-nil,
}
use libsarus.Error.{Result, ok}
use libsarus.Error.Trace.{ok-injective}
use libsarus.Split.{IsSplit}
use libsarus.Filesystem.Paths.{PathOps}
use libsarus.SharedLibs.{
  get_linker_name, is_shared_lib, parse_abi, merge_abi, follow_library, follow_path, process_paths,
}
use libsarus.SharedLibs.Versions.{library_versions, parse_abi-is_shared_lib, is_shared_lib-returns}
use libsarus.SharedLibs.Merge.{
  IsBeginning, IsIncompatible, IsBeginning-trans, merge_abi-IsMerge, merge_abi-nil,
  IsIncompatible-extends,
}

module _ (ops : PathOps) (is_directory : Text → Result Bool) (split : ℕ → Text → List Text) where
  -- A path whose version counts: a shared library with the linker name of `lib`.
  pub record IsCandidate (lib path : Text) (version : List Text) : Type 0 where
    pub linker : Text
    pub own_linker : get_linker_name ops path ≡ ok linker
    pub same_linker : get_linker_name ops lib ≡ ok linker
    pub own_version : parse_abi ops is_directory split path ≡ ok version

  -- A path of a list.
  abbrev IsAmong : Text → List Text → Type 0
  IsAmong path paths =
      (before : List Text) × (after : List Text) × (paths ≡ before ++ (path ∷ after))

  IsAmong-later : (q path : Text) (paths : List Text) → IsAmong q paths → IsAmong q (path ∷ paths)
  IsAmong-later q path paths (before, after, is) = (path ∷ before, after, ap (path ∷◌) is)

  -- The version that is chosen: it stems from a candidate, if there is one; each candidate's
  -- version is the beginning of it, or neither is the beginning of the other; and the first
  -- candidate's version is the beginning of it.
  pub record IsChosen (lib : Text) (paths : List Text) (chosen : List Text) : Type 0 where
    pub from_candidate :
        (chosen ≡ []) ⊎ ((path : Text) × IsAmong path paths × IsCandidate lib path chosen)
    pub each_candidate :
        All
          (λ path.
            (v : List Text)
            → IsCandidate lib path v
            → IsBeginning v chosen ⊎ IsIncompatible v chosen)
          paths
    pub first_candidate :
        (before : List Text) (path : Text) (after : List Text) (v : List Text)
        → paths ≡ before ++ (path ∷ after)
        → All (λ q. (w : List Text) → ¬ IsCandidate lib q w) before
        → IsCandidate lib path v
        → IsBeginning v chosen

  module _ (laws : IsSplit split) (lib : Text) where
    follow_library_step :
        (path l k : Text) (v so_far : List Text)
        → get_linker_name ops path ≡ ok l
        → get_linker_name ops lib ≡ ok k
        → parse_abi ops is_directory split path ≡ ok v
        → follow_library ops is_directory split lib path so_far
          ≡ (if not (text_eq l k) then ok so_far else ok (merge_abi v so_far))
    unfolding follow_library
    follow_library_step path l k v so_far own wanted abi = rw (own, wanted, abi) refl

    follow_path_step :
        (path : Text) (so_far : List Text) (b : Bool)
        → is_shared_lib ops is_directory path ≡ ok b
        → follow_path ops is_directory split lib path so_far
          ≡ (if not b then ok so_far else follow_library ops is_directory split lib path so_far)
    unfolding follow_path
    follow_path_step path so_far b h = rw h refl

    abbrev Skips : Text → List Text → Type 0
    Skips path so_far =
        (follow_path ops is_directory split lib path so_far ≡ ok so_far)
        × ((w : List Text) → ¬ IsCandidate lib path w)

    follow_path-cases :
        (linker path : Text) (so_far : List Text)
        → get_linker_name ops lib ≡ ok linker
        → (b : Bool) × (is_directory path ≡ ok b)
        → Skips path so_far
          ⊎ ((v : List Text) × IsCandidate lib path v
              × (follow_path ops is_directory split lib path so_far ≡ ok (merge_abi v so_far)))
    follow_path-cases linker path so_far named total =
        let (b, is_lib) = is_shared_lib-returns ops is_directory path total in
        elim (Bool-cases b) [
          | inr not_lib ↦ inl (
            follow_path_step path so_far b is_lib ∙ rw not_lib refl,
            λ w c. cc (
              parse_abi-is_shared_lib ops is_directory split laws path w c.own_version,
              is_lib,
              not_lib,
            ),
          )
          | inl lib_name ↦
              let (l, vs, own, abi, _, _) =
                library_versions ops is_directory split laws path (is_lib ∙ ap ok lib_name) in
              let runs : follow_path ops is_directory split lib path so_far
                  ≡ (if not (text_eq l linker) then ok so_far else ok (merge_abi vs so_far)) =
                follow_path_step path so_far true (is_lib ∙ ap ok lib_name)
                ∙ follow_library_step path l linker vs so_far own named abi in
              elim (Bool-cases (text_eq l linker)) [
                | inl same ↦ inr (
                  vs,
                  record {
                    linker = linker;
                    own_linker = own ∙ ap ok ((text_eq_iff l linker).0 same);
                    same_linker = named;
                    own_version = abi;
                  },
                  runs ∙ rw same refl,
                )
                | inr other ↦ inl (
                  runs ∙ rw other refl,
                  λ w c. cc (
                    other,
                    (text_eq_iff l linker).1
                        (ok-injective (sym own ∙ (c.own_linker ∙ (sym c.same_linker ∙ named)))),
                  ),
                )
              ]
        ]

    -- The value of the loop from a version that was found before.
    abbrev IsLoopValue : List Text → List Text → List Text → Type 0
    IsLoopValue so_far paths chosen =
        IsBeginning so_far chosen
        × ((chosen ≡ so_far) ⊎ ((path : Text) × IsAmong path paths × IsCandidate lib path chosen))
        × All
            (λ path.
              (v : List Text)
              → IsCandidate lib path v
              → IsBeginning v chosen ⊎ IsIncompatible v chosen)
            paths

    later_source :
        (path : Text) (paths so_far chosen : List Text)
        → (chosen ≡ so_far) ⊎ ((q : Text) × IsAmong q paths × IsCandidate lib q chosen)
        → (chosen ≡ so_far) ⊎ ((q : Text) × IsAmong q (path ∷ paths) × IsCandidate lib q chosen)
    later_source path paths so_far chosen (inl e) = inl e
    later_source path paths so_far chosen (inr (q, m, c)) = inr (q, IsAmong-later q path paths m, c)

    own_abi :
        (path : Text) (v w : List Text) → IsCandidate lib path v → IsCandidate lib path w → v ≡ w
    own_abi path v w c d = ok-injective (sym c.own_version ∙ d.own_version)

    IsLoopValue-merge :
        (path : Text) (paths v so_far chosen : List Text)
        → IsCandidate lib path v
        → IsLoopValue (merge_abi v so_far) paths chosen
        → IsLoopValue so_far (path ∷ paths) chosen
    IsLoopValue-merge path paths v so_far chosen c (b, source, each) =
        let m = merge_abi-IsMerge v so_far in
        (
          IsBeginning-trans so_far (merge_abi v so_far) chosen m.extends b,
          elim source [
            | inl e ↦ elim m.chosen [
              | inl old ↦ inl (e ∙ old)
              | inr new ↦ inr (path, ([], paths, refl), rw (e ∙ new) c)
            ]
            | inr (q, in_rest, d) ↦ inr (q, IsAmong-later q path paths in_rest, d)
          ],
          (
            (λ w d. rw (own_abi path w v d c) (elim m.compatible [
              | inl begins ↦ inl (IsBeginning-trans v (merge_abi v so_far) chosen begins b)
              | inr apart ↦ inr (IsIncompatible-extends v (merge_abi v so_far) chosen apart b)
            ])),
            each,
          ),
        )

    module _ (linker : Text) (named : get_linker_name ops lib ≡ ok linker)
        (total : (path : Text) → (b : Bool) × (is_directory path ≡ ok b)) where
      process_paths-Ends :
          (paths so_far : List Text)
          → (chosen : List Text) × (process_paths ops is_directory split lib paths so_far
              ≡ ok chosen)
            × IsLoopValue so_far paths chosen
      unfolding process_paths
      process_paths-Ends [] so_far = (so_far, refl, (([], sym (append-nil so_far)), inl refl, tt))
      process_paths-Ends (path ∷ paths) so_far =
          elim (follow_path-cases linker path so_far named (total path)) [
            | inl (runs, none_here) ↦
                let (r, rest, (b, source, each)) = process_paths-Ends paths so_far in
                (
                  r,
                  rw runs rest,
                  (
                    b,
                    later_source path paths so_far r source,
                    ((λ v c. absurd (none_here v c)), each),
                  ),
                )
            | inr (v, c, runs) ↦
                let (r, rest, value) = process_paths-Ends paths (merge_abi v so_far) in
                (r, rw runs rest, IsLoopValue-merge path paths v so_far r c value)
          ]

      process_paths_first :
          (before : List Text) (path : Text) (after v chosen : List Text)
          → All (λ q. (w : List Text) → ¬ IsCandidate lib q w) before
          → IsCandidate lib path v
          → process_paths ops is_directory split lib (before ++ (path ∷ after)) [] ≡ ok chosen
          → IsBeginning v chosen
      unfolding process_paths
      process_paths_first [] path after v chosen none_before c h =
          elim (follow_path-cases linker path [] named (total path)) [
            | inl (runs, none_here) ↦ absurd (none_here v c)
            | inr (w, d, runs) ↦
                let (r, rest, (b, _, _)) = process_paths-Ends after (merge_abi w []) in
                let same : r ≡ chosen = ok-injective (sym rest ∙ (rw runs at h)) in
                rw (own_abi path v w c d, sym same)
                  (IsBeginning-trans w (merge_abi w []) r (merge_abi-nil w) b)
          ]
      process_paths_first (q ∷ before) path after v chosen none_before c h =
          elim (follow_path-cases linker q [] named (total q)) [
            | inl (runs, none_here) ↦
                process_paths_first before path after v chosen none_before.1 c (rw runs at h)
            | inr (w, d, runs) ↦ absurd (none_before.0 w d)
          ]

      pub process_paths-IsChosen :
          (paths : List Text)
          → (chosen : List Text) × (process_paths ops is_directory split lib paths [] ≡ ok chosen)
            × IsChosen lib paths chosen
      process_paths-IsChosen paths =
          let (r, runs, (_, source, each)) = process_paths-Ends paths [] in
          (
            r,
            runs,
            record {
              from_candidate = source;
              each_candidate = each;
              first_candidate = λ before path after v is none_before c.
                  process_paths_first before path after v r none_before c
                    (ap (λ ps. process_paths ops is_directory split lib ps []) (sym is) ∙ runs);
            },
          )
