-- ===== src/MountParser/Destination.antt =====
-- `getValidatedMountDestination`: which destination a request names, and when it is accepted.
use libsarus.Base.{
  Text, Map, lookup, codes, Bool, none, some, ◌≡◌, ◌↔◌, ◌⊎◌, inl, inr, refl, arith, ◌∙◌,
  Option-cases,
}
use libsarus.Error.{Exception, ok}
use libsarus.MountParser.{MountParser, validate_destination, get_validated_mount_destination}
use libsarus.MountParser.Allowed.{IsAllowed, thrown, validated_iff}

-- Exactly one of the three keys is given, with this value.
abbrev pub NamesDestination : Map → Text → Type 0
NamesDestination m s =
    ((lookup (codes "destination") m ≡ some s)
      × (lookup (codes "dst") m ≡ none)
      × (lookup (codes "target") m ≡ none))
    ⊎ ((lookup (codes "destination") m ≡ none)
        × (lookup (codes "dst") m ≡ some s)
        × (lookup (codes "target") m ≡ none))
    ⊎ ((lookup (codes "destination") m ≡ none)
        × (lookup (codes "dst") m ≡ none)
        × (lookup (codes "target") m ≡ some s))

module _ (is_relative : Text → Bool) (too_many_args : Exception) (p : MountParser) (m : Map) where
  open p.validation_settings use {destination_disallowed_with_prefix, destination_disallowed_exact}

  abbrev pub IsAllowedDestination : Text → Type 0
  IsAllowedDestination =
      IsAllowed is_relative destination_disallowed_with_prefix destination_disallowed_exact

  validate_destination_iff :
      (s s' : Text)
      → (validate_destination is_relative too_many_args p m s ≡ ok s')
        ↔ ((s' ≡ s) × IsAllowedDestination s)
  unfolding validate_destination
  validate_destination_iff s s' =
      validated_iff is_relative destination_disallowed_with_prefix destination_disallowed_exact _ _
        _ _ s s' (thrown _) (thrown _) (λ x. thrown _) (λ x. thrown _)

  get-NamesDestination :
      (s : Text)
      → get_validated_mount_destination is_relative too_many_args p m ≡ ok s
      → (r : Text) × NamesDestination m r
        × (validate_destination is_relative too_many_args p m r ≡ ok s)
  unfolding get_validated_mount_destination
  get-NamesDestination s h = elim (Option-cases (lookup (codes "destination") m)) [
    | inr (r, found) ↦ (r, ground arith, ground arith)
    | inl absent ↦ elim (Option-cases (lookup (codes "dst") m)) [
      | inr (r, found) ↦ (r, ground arith, ground arith)
      | inl absent' ↦ elim (Option-cases (lookup (codes "target") m)) [
        | inr (r, found) ↦ (r, inr (inr (absent, absent', found)), ground arith)
        | inl absent'' ↦ absurd (ground arith)
      ]
    ]
  ]

  NamesDestination-get :
      (s : Text)
      → NamesDestination m s
      → get_validated_mount_destination is_relative too_many_args p m
        ≡ validate_destination is_relative too_many_args p m s
  unfolding get_validated_mount_destination
  NamesDestination-get s h = ground arith

  -- The destination is returned exactly when one of 'destination', 'dst' and 'target' is given,
  -- no two of them, and its value is an allowed path.
  pub get_validated_mount_destination_iff :
      (s : Text)
      → (get_validated_mount_destination is_relative too_many_args p m ≡ ok s)
        ↔ (NamesDestination m s × IsAllowedDestination s)
  get_validated_mount_destination_iff s = (
    (λ h.
        let (r, named, valid) = get-NamesDestination s h in
        let (same, allowed) = (validate_destination_iff r s).0 valid in
        (rw same named, rw same allowed)),
    λ (named, allowed).
        NamesDestination-get s named ∙ (validate_destination_iff s s).1 (refl, allowed),
  )
