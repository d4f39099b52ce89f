-- ===== src/MountParser/Source.antt =====
-- `getValidatedMountSource`: which source a request names, and when it is accepted.
use libsarus.Base.{
  Text, Map, lookup, codes, Bool, none, some, ◌≡◌, ◌↔◌, ◌⊎◌, inl, inr, refl, arith, ◌∙◌,
  Option-cases,
}
use libsarus.Error.{Exception, ok}
use libsarus.MountParser.{MountParser, validate_source, get_validated_mount_source}
use libsarus.MountParser.Allowed.{IsAllowed, thrown, validated_iff}

-- Exactly one of the two keys is given, with this value.
abbrev pub NamesSource : Map → Text → Type 0
NamesSource m s =
    ((lookup (codes "source") m ≡ some s) × (lookup (codes "src") m ≡ none))
    ⊎ ((lookup (codes "source") m ≡ none) × (lookup (codes "src") m ≡ some s))

module _ (is_relative : Text → Bool) (too_many_args : Exception) (p : MountParser) (m : Map) where
  open p.validation_settings use {source_disallowed_with_prefix, source_disallowed_exact}

  abbrev pub IsAllowedSource : Text → Type 0
  IsAllowedSource = IsAllowed is_relative source_disallowed_with_prefix source_disallowed_exact

  validate_source_iff :
      (s s' : Text)
      → (validate_source is_relative too_many_args p m s ≡ ok s') ↔ ((s' ≡ s) × IsAllowedSource s)
  unfolding validate_source
  validate_source_iff s s' =
      validated_iff is_relative source_disallowed_with_prefix source_disallowed_exact _ _ _ _ s s'
        (thrown _) (thrown _) (λ x. thrown _) (λ x. thrown _)

  get-NamesSource :
      (s : Text)
      → get_validated_mount_source is_relative too_many_args p m ≡ ok s
      → (r : Text) × NamesSource m r × (validate_source is_relative too_many_args p m r ≡ ok s)
  unfolding get_validated_mount_source
  get-NamesSource s h = elim (Option-cases (lookup (codes "source") m)) [
    | inl absent ↦ elim (Option-cases (lookup (codes "src") m)) [
      | inl absent' ↦ absurd (ground arith)
      | inr (r, found) ↦ (r, inr (absent, found), ground arith)
    ]
    | inr (r, found) ↦ elim (Option-cases (lookup (codes "src") m)) [
      | inl absent ↦ (r, inl (found, absent), ground arith)
      | inr (r', found') ↦ absurd (ground arith)
    ]
  ]

  NamesSource-get :
      (s : Text)
      → NamesSource m s
      → get_validated_mount_source is_relative too_many_args p m
        ≡ validate_source is_relative too_many_args p m s
  unfolding get_validated_mount_source
  NamesSource-get s h = ground arith

  -- The source is returned exactly when one of 'source' and 'src' is given, not both, and its
  -- value is an allowed path.
  pub get_validated_mount_source_iff :
      (s : Text)
      → (get_validated_mount_source is_relative too_many_args p m ≡ ok s)
        ↔ (NamesSource m s × IsAllowedSource s)
  get_validated_mount_source_iff s = (
    (λ h.
        let (r, named, valid) = get-NamesSource s h in
        let (same, allowed) = (validate_source_iff r s).0 valid in
        (rw same named, rw same allowed)),
    λ (named, allowed). NamesSource-get s named ∙ (validate_source_iff s s).1 (refl, allowed),
  )
