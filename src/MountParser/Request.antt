-- ===== src/MountParser/Request.antt =====
-- `parseMountRequest` as a whole, and the restrictions that a configuration adds.
use libsarus.Base.{
  Text, Map, lookup, codes, text_eq_iff, Bool, ◌++◌, All, All-split, some, ◌≡◌, ◌≢◌, ◌↔◌, refl,
  arith, Option-cases, inl, inr,
}
use libsarus.Error.{Exception, ok}
use libsarus.Error.Trace.{>>=-eq-ok, ok-injective}
use libsarus.Mount.{Mount}
use libsarus.MountParser.{
  MountParser, DestinationRestrictions, set_mount_destination_restrictions,
  get_validated_mount_source, get_validated_mount_destination, convert_bind_mount_flags,
  parse_bind_mount_request, parse_mount_request,
}
use libsarus.MountParser.Source.{NamesSource, IsAllowedSource, get_validated_mount_source_iff}
use libsarus.MountParser.Destination.{
  NamesDestination, IsAllowedDestination, get_validated_mount_destination_iff,
}
use libsarus.MountParser.Flags.{OnlyOptions, flags_of, convert_bind_mount_flags_iff}

module _ (is_relative : Text → Bool) (too_many_args : Exception) where
  -- What a bind mount request asks for, and that it may.
  pub record Grants (p : MountParser) (m : Map) (mount : Mount) : Type 0 where
    pub is_bind : lookup (codes "type") m ≡ some (codes "bind")
    pub names_source : NamesSource m mount.source
    pub source_allowed : IsAllowedSource is_relative too_many_args p m mount.source
    pub names_destination : NamesDestination m mount.destination
    pub destination_allowed : IsAllowedDestination is_relative too_many_args p m mount.destination
    pub only_options : OnlyOptions m
    pub flags : mount.mount_flags ≡ flags_of m
    pub rootfs_dir : mount.rootfs_dir ≡ p.rootfs_dir
    pub user_identity : mount.user_identity ≡ p.user_identity

  module _ (p : MountParser) (m : Map) (mount : Mount) where
    parse-Grants :
        lookup (codes "type") m ≡ some (codes "bind")
        → parse_bind_mount_request is_relative too_many_args p m ≡ ok mount
        → Grants p m mount
    unfolding parse_bind_mount_request
    parse-Grants bind h =
        let (s, hs, h1) =
          >>=-eq-ok (get_validated_mount_source is_relative too_many_args p m) _ h in
        let (d, hd, h2) =
          >>=-eq-ok (get_validated_mount_destination is_relative too_many_args p m) _ h1 in
        let (f, hf, h3) = >>=-eq-ok (convert_bind_mount_flags m) _ h2 in
        let e = ok-injective h3 in
        let (ns, sa) = (get_validated_mount_source_iff is_relative too_many_args p m s).0 hs in
        let (nd, ad) = (get_validated_mount_destination_iff is_relative too_many_args p m d).0 hd in
        let (only, ef) = (convert_bind_mount_flags_iff m f).0 hf in
        rw (← e) (record {
          is_bind = bind;
          names_source = ns;
          source_allowed = sa;
          names_destination = nd;
          destination_allowed = ad;
          only_options = only;
          flags = ef;
          rootfs_dir = refl;
          user_identity = refl;
        })

    Grants-parse :
        Grants p m mount → parse_bind_mount_request is_relative too_many_args p m ≡ ok mount
    unfolding parse_bind_mount_request
    Grants-parse g =
        rw
          (
            (get_validated_mount_source_iff is_relative too_many_args p m mount.source).1
                (g.names_source, g.source_allowed),
            (get_validated_mount_destination_iff is_relative too_many_args p m mount.destination).1
                (g.names_destination, g.destination_allowed),
            (convert_bind_mount_flags_iff m mount.mount_flags).1 (g.only_options, g.flags),
          )
          (cc (g.rootfs_dir, g.user_identity))

    parse_mount_request_bind :
        parse_mount_request is_relative too_many_args p m ≡ ok mount
        → (lookup (codes "type") m ≡ some (codes "bind"))
          × (parse_bind_mount_request is_relative too_many_args p m ≡ ok mount)
    unfolding parse_mount_request
    parse_mount_request_bind h = elim (Option-cases (lookup (codes "type") m)) [
      | inl absent ↦ absurd (ground arith)
      | inr (t, found) ↦ ground (arith, text_eq_iff t (codes "bind"))
    ]

    -- `parseMountRequest` returns a mount exactly when the request's type is 'bind', one source
    -- and one destination are named, both are absolute and outside what the settings disallow,
    -- and every option is one of 'type', 'source', 'src', 'destination', 'dst', 'target' and
    -- 'readonly'; the mount then has that source and destination, the flags of the request, and
    -- the parser's rootfs and identity.
    pub parse_mount_request-Grants :
        (parse_mount_request is_relative too_many_args p m ≡ ok mount) ↔ Grants p m mount
    unfolding parse_mount_request
    parse_mount_request-Grants = (
      (λ h. let (bind, runs) = parse_mount_request_bind h in parse-Grants bind runs),
      λ g. rw (g.is_bind, parse_mount_request) (Grants-parse g),
    )

  restricted-Grants :
      (p : MountParser) (m : Map) (mount : Mount) (r : DestinationRestrictions)
      → Grants (set_mount_destination_restrictions r p) m mount
      → Grants p m mount
        × All
            (λ prefix. (rest : Text) → mount.destination ≢ prefix ++ rest)
            r.not_allowed_prefixes_of_path
        × All (λ path. mount.destination ≢ path) r.not_allowed_paths
  unfolding set_mount_destination_restrictions
  restricted-Grants p m mount r g =
      let allowed = g.destination_allowed in
      let (old, new) =
        All-split _ p.validation_settings.destination_disallowed_with_prefix
          r.not_allowed_prefixes_of_path allowed.outside in
      let (old', new') =
        All-split _ p.validation_settings.destination_disallowed_exact r.not_allowed_paths
          allowed.not_listed in
      (
        record {
          is_bind = g.is_bind;
          names_source = g.names_source;
          source_allowed = g.source_allowed;
          names_destination = g.names_destination;
          destination_allowed = record {
            path_ne_nil = allowed.path_ne_nil;
            is_absolute = allowed.is_absolute;
            outside = old;
            not_listed = old';
          };
          only_options = g.only_options;
          flags = g.flags;
          rootfs_dir = g.rootfs_dir;
          user_identity = g.user_identity;
        },
        new,
        new',
      )

  -- Restrictions only take mounts away: what a parser returns after they were set it returned
  -- before, and no such mount has a destination under a newly disallowed prefix or at a newly
  -- disallowed path.
  pub parse_mount_request_restricted :
      (p : MountParser) (m : Map) (mount : Mount) (r : DestinationRestrictions)
      → parse_mount_request is_relative too_many_args (set_mount_destination_restrictions r p) m
        ≡ ok mount
      → (parse_mount_request is_relative too_many_args p m ≡ ok mount)
        × All
            (λ prefix. (rest : Text) → mount.destination ≢ prefix ++ rest)
            r.not_allowed_prefixes_of_path
        × All (λ path. mount.destination ≢ path) r.not_allowed_paths
  parse_mount_request_restricted p m mount r h =
      let (g, outside, elsewhere) =
        restricted-Grants p m mount r ((parse_mount_request-Grants _ m mount).0 h) in
      ((parse_mount_request-Grants p m mount).1 g, outside, elsewhere)
