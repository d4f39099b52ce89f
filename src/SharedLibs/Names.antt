-- ===== src/SharedLibs/Names.antt =====
-- What a library's name consists of: linker name and versions.
use mathlib.Core.List.{cons-ne-nil}
use libsarus.Base.{
  length-append, ℕ, ◌+◌, Text, codes, true, false, [], ◌∷◌, ◌++◌, length, take, drop, drop-append,
  take-append, is_prefix, is_prefix_iff, Option, none, some, Option-cases, Bool-cases, inl, inr,
  ◌≡◌, ◌≢◌, ◌↔◌, ◌⊎◌, refl, sym, ap, ◌∙◌, arith, append_assoc,
}
use libsarus.Error.{ok}
use libsarus.Error.Trace.{ok-injective}
use libsarus.Filesystem.Paths.{PathOps}
use libsarus.SharedLibs.{find_end, extension, ends_or_dot, get_linker_name, linker_name_at}

-- A text in which the extension does not occur.
abbrev pub LacksExtension : Text → Type 0
LacksExtension s = (x y : Text) → s ≢ x ++ (extension ++ y)

find_end-none :
    (c : ℕ) (s : Text)
    → find_end (c ∷ s) extension ≡ none
    → (find_end s extension ≡ none) × (is_prefix extension (c ∷ s) ≡ false)
unfolding find_end
find_end-none c s h = elim (Option-cases (find_end s extension)) [
  | inl e ↦ elim (Bool-cases (is_prefix extension (c ∷ s))) [
    | inl here ↦ cc (rw (find_end, e, here) at h)
    | inr other ↦ (e, other)
  ]
  | inr (p, e) ↦ cc (rw (find_end, e) at h)
]

pub find_end_absent : (s : Text) → find_end s extension ≡ none → LacksExtension s
find_end_absent [] h [] y e = absurd (cons-ne-nil _ _ (sym e))
find_end_absent [] h (d ∷ x) y e = absurd (cons-ne-nil _ _ (sym e))
find_end_absent (c ∷ s) h [] y e =
    cc ((is_prefix_iff extension (c ∷ s)).1 (y, e), (find_end-none c s h).1)
find_end_absent (c ∷ s) h (d ∷ x) y e = find_end_absent s (find_end-none c s h).0 x y (ground arith)

pub find_end_found :
    (s : Text) (n : ℕ)
    → find_end s extension ≡ some n
    → (a : Text) × (v : Text) × (s ≡ a ++ (extension ++ v))
      × (length a ≡ n)
      × (find_end (codes "so" ++ v) extension ≡ none)
unfolding find_end
find_end_found [] n h = cc h
find_end_found (c ∷ s) n h = elim (Option-cases (find_end s extension)) [
  | inl e ↦ elim (Bool-cases (is_prefix extension (c ∷ s))) [
    | inl here ↦
        let (v, is) = (is_prefix_iff extension (c ∷ s)).0 here in
        let tail : s ≡ codes "so" ++ v = ground arith in
        ([], v, is, cc (rw (find_end, e, here) at h), ap (λ t. find_end t extension) (sym tail) ∙ e)
    | inr other ↦ cc (rw (find_end, e, other) at h)
  ]
  | inr (p, e) ↦
      let (a, v, is, long, last) = find_end_found s p e in
      (c ∷ a, v, ap (c ∷◌) is, cc (long, rw (find_end, e) at h), last)
]

find_end_last :
    (a v : Text)
    → find_end (codes "so" ++ v) extension ≡ none
    → find_end (a ++ (extension ++ v)) extension ≡ some (length a)
unfolding find_end
find_end_last [] v h = rw h refl
find_end_last (c ∷ a) v h = rw (find_end_last a v h) refl

pub after_extension :
    (name a v : Text)
    → name ≡ a ++ (extension ++ v)
    → (drop (length a + 3) name ≡ v) × (take (length a + 3) name ≡ a ++ extension)
after_extension name a v is =
    let long : length a + 3 ≡ length (a ++ extension) = omega (arith, length-append a extension) in
    let whole : name ≡ (a ++ extension) ++ v = is ∙ sym (append_assoc a extension v) in
    (
      rw (long, whole) (drop-append (a ++ extension) v),
      rw (long, whole) (take-append (a ++ extension) v),
    )

-- A file name that is a linker name, which ends in the last extension, and a version, which is
-- empty or begins with a dot.
pub record IsLibraryName (name linker version : Text) : Type 0 where
  pub whole : name ≡ linker ++ version
  pub stem : (s : Text) × (linker ≡ s ++ extension)
  pub dotted_version : ends_or_dot version ≡ true
  pub last_extension : LacksExtension (codes "so" ++ version)

pub IsLibraryName-found :
    (name linker version : Text)
    → IsLibraryName name linker version
    → (a : Text) × (name ≡ a ++ (extension ++ version))
      × (linker ≡ a ++ extension)
      × (find_end name extension ≡ some (length a))
IsLibraryName-found name linker version h =
    let (a, is) = h.stem in
    let split_name : name ≡ a ++ (extension ++ version) =
      h.whole ∙ ap (◌++ version) is ∙ append_assoc a extension version in
    let none_later : find_end (codes "so" ++ version) extension ≡ none =
      elim (Option-cases (find_end (codes "so" ++ version) extension)) [
        | inl e ↦ e
        | inr (p, e) ↦
            let (x, y, there, _, _) = find_end_found (codes "so" ++ version) p e in
            absurd (h.last_extension x y there)
      ] in
    (a, split_name, is, rw split_name (find_end_last a version none_later))

module _ (ops : PathOps) where
  get_linker_name_at :
      (path : Text) (o : Option ℕ)
      → find_end (ops.filename path) extension ≡ o
      → get_linker_name ops path ≡ linker_name_at ops path o
  unfolding get_linker_name
  get_linker_name_at path o h = ap (linker_name_at ops path) h

  linker_name_step :
      (path a v : Text)
      → ops.filename path ≡ a ++ (extension ++ v)
      → ((ends_or_dot v ≡ true) × (linker_name_at ops path (some (length a)) ≡ ok (a ++ extension)))
        ⊎ ((ends_or_dot v ≡ false)
            × ((l : Text) → linker_name_at ops path (some (length a)) ≢ ok l))
  unfolding linker_name_at
  linker_name_step path a v is =
      let (rest, begins) = after_extension (ops.filename path) a v is in
      elim (Bool-cases (ends_or_dot v)) [
        | inl e ↦ inl (e, rw (rest, e, begins) refl)
        | inr e ↦ inr (e, λ l h. cc (rw (rest, e) at h))
      ]

  pub get_linker_name-returns :
      (path linker version : Text)
      → IsLibraryName (ops.filename path) linker version
      → get_linker_name ops path ≡ ok linker
  get_linker_name-returns path linker version h =
      let (a, is, ending, found) = IsLibraryName-found _ _ _ h in
      elim (linker_name_step path a version is) [
        | inl (_, e) ↦ get_linker_name_at path _ found ∙ (e ∙ ap ok (sym ending))
        | inr (undotted, e) ↦ cc (undotted, h.dotted_version)
      ]

  get_linker_name-IsLibraryName :
      (path linker : Text)
      → get_linker_name ops path ≡ ok linker
      → (version : Text) × IsLibraryName (ops.filename path) linker version
  unfolding linker_name_at
  get_linker_name-IsLibraryName path linker h =
      elim (Option-cases (find_end (ops.filename path) extension)) [
        | inl e ↦ cc (sym (get_linker_name_at path none e) ∙ h)
        | inr (p, e) ↦
            let (a, v, is, long, last) = find_end_found (ops.filename path) p e in
            elim (linker_name_step path a v is) [
              | inl (dotted, runs) ↦
                  let same : a ++ extension ≡ linker =
                    ok-injective
                      (sym runs ∙ (sym (get_linker_name_at path _ (e ∙ ap some (sym long))) ∙ h)) in
                  (
                    v,
                    record {
                      whole = is ∙ (sym (append_assoc a extension v) ∙ ap (◌++ v) same);
                      stem = (a, sym same);
                      dotted_version = dotted;
                      last_extension = find_end_absent (codes "so" ++ v) last;
                    },
                  )
              | inr (_, fails) ↦
                  absurd
                    (fails linker (sym (get_linker_name_at path _ (e ∙ ap some (sym long))) ∙ h))
            ]
      ]

  -- `getLinkerName` returns a name exactly when the file name is this name, which ends in '.so',
  -- followed by nothing or by a text that begins with a dot, and '.so' stands nowhere behind.
  pub get_linker_name_iff :
      (path linker : Text)
      → (get_linker_name ops path ≡ ok linker)
        ↔ ((version : Text) × IsLibraryName (ops.filename path) linker version)
  get_linker_name_iff path linker = (
    get_linker_name-IsLibraryName path linker,
    λ (version, h). get_linker_name-returns path linker version h,
  )
