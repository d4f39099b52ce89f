-- ===== src/DeviceParser/Requests.antt =====
-- The requests that the parser accepts, by their grammar.
use mathlib.Core.List.{cons-ne-nil}
use libsarus.Base.{
  ℕ, Text, codes, is_empty, is_empty_iff, count, Bool, true, false, List, [], ◌∷◌, ◌++◌, length,
  ltb, All, if◌then◌else◌, ◌≡◌, ◌≢◌, ◌↔◌, ◌⊎◌, inl, inr, refl, sym, ap, ◌∙◌, arith, Bool-cases,
}
use libsarus.Error.{ok}
use libsarus.Error.Trace.{>>=-eq-ok, ok-injective, catch_error_iff}
use libsarus.DeviceAccess.{DeviceAccess, parse_input}
use libsarus.Filesystem.Status.{StatResult, is_device_file, get_device_id, get_device_type}
use libsarus.Filesystem.Status.Devices.{IsDevice, IsDevice_iff}
use libsarus.Mount.{Mount, default_flags}
use libsarus.Split.{join, Lacks, IsSplit}
use libsarus.Split.Tokens.{split-join}
use libsarus.DeviceParser.{
  DeviceMount, DeviceParser, device_mount, identify, create_device_access, first_token, all_access,
  validate_mount_path, choose_fields, build_device_mount, parse_device_request,
}

-- `<source>`, `<source>:<access>`, `<source>:<destination>` or `<source>:<destination>:<access>`. A
-- second part that is a relative path is the access; the destination is the source and the access
-- 'rwm' where they are not given.
abbrev pub Spells : (Text → Bool) → Text → Text → Text → Text → Type 0
Spells is_relative request s d a =
    Lacks b':' s
    × (((request ≡ s) × (d ≡ s) × (a ≡ all_access))
        ⊎ (Lacks b':' a × (request ≡ s ++ (b':' ∷ a)) × (is_relative a ≡ true) × (d ≡ s))
        ⊎ (Lacks b':' d × (request ≡ s ++ (b':' ∷ d)) × (is_relative d ≡ false) × (a ≡ all_access))
        ⊎ (Lacks b':' d × Lacks b':' a × (request ≡ s ++ (b':' ∷ (d ++ (b':' ∷ a))))))

module _ (is_relative : Text → Bool) where
  -- The tokens have this reading.
  abbrev Reads : List Text → Text → Text → Text → Type 0
  Reads tokens s d a =
      (ltb 3 (length tokens) ≡ false)
      × (first_token tokens ≡ s)
      × (choose_fields is_relative (first_token tokens) tokens ≡ (d, a))

  Reads-Spells :
      (tokens : List Text) (s d a : Text)
      → tokens ≢ []
      → All (Lacks b':') tokens
      → Reads tokens s d a
      → Spells is_relative (join b':' tokens) s d a
  unfolding choose_fields
  Reads-Spells [] s d a ne l r = absurd (ne refl)
  Reads-Spells (t ∷ []) s d a ne l r = ground arith
  Reads-Spells (t ∷ u ∷ []) s d a ne l r = ground arith
  Reads-Spells (t ∷ u ∷ v ∷ []) s d a ne l r = ground arith
  Reads-Spells (t ∷ u ∷ v ∷ w ∷ ts) s d a ne l r = absurd (ground arith)

  module _ (split : ℕ → Text → List Text) (laws : IsSplit split) (request s d a : Text) where
    Spells-Reads : Spells is_relative request s d a → Reads (split b':' request) s d a
    unfolding choose_fields
    Spells-Reads (ls, inl (e, ed, ea)) =
        rw (e, split-join split laws b':' (s ∷ []) (cons-ne-nil s []) (ls, tt)) (ground arith)
    Spells-Reads (ls, inr (inl (la, e, rel, ed))) =
        rw (e, split-join split laws b':' (s ∷ a ∷ []) (cons-ne-nil s _) (ls, (la, tt)))
          (ground arith)
    Spells-Reads (ls, inr (inr (inl (ld, e, rel, ea)))) =
        rw (e, split-join split laws b':' (s ∷ d ∷ []) (cons-ne-nil s _) (ls, (ld, tt)))
          (ground arith)
    Spells-Reads (ls, inr (inr (inr (ld, la, e)))) =
        rw (e, split-join split laws b':' (s ∷ d ∷ a ∷ []) (cons-ne-nil s _) (ls, (ld, (la, tt))))
          (refl, refl, refl)

    pub Reads-iff : Reads (split b':' request) s d a ↔ Spells is_relative request s d a
    Reads-iff = (
      (λ r. rw (laws.joins b':' request) at (
          Reads-Spells (split b':' request) s d a (laws.some_token b':' request)
            (laws.no_separator b':' request) r)),
      Spells-Reads,
    )

module _ (is_relative : Text → Bool) (split : ℕ → Text → List Text) (stat : Text → StatResult) where
  -- What a device request asks for, and that it may.
  pub record Grants (p : DeviceParser) (request : Text) (m : DeviceMount) : Type 0 where
    pub request_ne_nil : request ≢ []
    pub access_string : Text
    pub spelled : Spells is_relative request m.base.source m.base.destination access_string
    pub access_parsed : parse_input access_string ≡ ok m.access
    pub source_ne_nil : m.base.source ≢ []
    pub source_absolute : is_relative m.base.source ≡ false
    pub destination_ne_nil : m.base.destination ≢ []
    pub destination_absolute : is_relative m.base.destination ≡ false
    pub device : IsDevice stat m.base.source m.id m.type
    pub flags : m.base.mount_flags ≡ default_flags
    pub rootfs_dir : m.base.rootfs_dir ≡ p.rootfs_dir
    pub user_identity : m.base.user_identity ≡ p.user_identity

  validate_mount_path_iff :
      (path : Text) (context : libsarus.Base.String)
      → (validate_mount_path is_relative path context ≡ ok tt)
        ↔ ((path ≢ []) × (is_relative path ≡ false))
  unfolding validate_mount_path
  validate_mount_path_iff [] context = ground arith
  validate_mount_path_iff (c ∷ path) context = ground arith

  abbrev IsDeviceMount : Mount → DeviceAccess → DeviceMount → Type 0
  IsDeviceMount base access m =
      (is_device_file stat base.source ≡ ok true)
      × (get_device_id stat base.source ≡ ok m.id)
      × (get_device_type stat base.source ≡ ok m.type)
      × (m.base ≡ base)
      × (m.access ≡ access)

  identify-ok :
      (base : Mount) (access : DeviceAccess) (m : DeviceMount)
      → is_device_file stat base.source ≡ ok true
      → identify stat base access ≡ ok m
      → IsDeviceMount base access m
  unfolding identify
  identify-ok base access m dev h =
      let (i, hi, h1) = >>=-eq-ok (get_device_id stat base.source) _ h in
      let (t, ht, h2) = >>=-eq-ok (get_device_type stat base.source) _ h1 in
      rw (← ok-injective h2) (dev, hi, ht, refl, refl)

  device_mount_iff :
      (base : Mount) (access : DeviceAccess) (m : DeviceMount)
      → (device_mount stat base access ≡ ok m) ↔ IsDeviceMount base access m
  unfolding device_mount
  device_mount_iff base access m = (
    (λ h.
        let (b, dev, h1) = >>=-eq-ok (is_device_file stat base.source) _ h in
        elim (Bool-cases b) [
          | inl e ↦ identify-ok base access m (dev ∙ ap ok e) (rw e at h1)
          | inr e ↦ cc (rw e at h1)
        ]),
    λ (dev, id, type, eb, ea). rw (dev, id, type) (cc (eb, ea)),
  )

  create_device_access_iff :
      (s : Text) (access : DeviceAccess)
      → (create_device_access s ≡ ok access) ↔ (parse_input s ≡ ok access)
  unfolding create_device_access
  create_device_access_iff s access = catch_error_iff (parse_input s) _ access

  module _ (laws : IsSplit split) (p : DeviceParser) (request : Text) (m : DeviceMount) where
    build-Grants :
        (s d a : Text)
        → request ≢ []
        → Spells is_relative request s d a
        → build_device_mount is_relative split stat p s d a ≡ ok m
        → Grants p request m
    unfolding build_device_mount
    build-Grants s d a ne spelled h =
        let (u, hs, h1) = >>=-eq-ok (validate_mount_path is_relative s "host") _ h in
        let (v, hd, h2) = >>=-eq-ok (validate_mount_path is_relative d "container") _ h1 in
        let (access, ha, h3) = >>=-eq-ok (create_device_access a) _ h2 in
        let (dev, id, type, eb, ea) = (device_mount_iff _ access m).0 h3 in
        let (sn, sr) = (validate_mount_path_iff s "host").0 hs in
        let (dn, dr) = (validate_mount_path_iff d "container").0 hd in
        let es : m.base.source ≡ s = ap Mount.source eb in
        let ed : m.base.destination ≡ d = ap Mount.destination eb in
        record {
          request_ne_nil = ne;
          access_string = a;
          spelled = rw (es, ed) spelled;
          access_parsed = (create_device_access_iff a access).0 ha ∙ ap ok (sym ea);
          source_ne_nil = rw es sn;
          source_absolute = rw es sr;
          destination_ne_nil = rw ed dn;
          destination_absolute = rw ed dr;
          device =
              (IsDevice_iff stat m.base.source m.id m.type).1 (rw es dev, rw es id, rw es type);
          flags = ap Mount.mount_flags eb;
          rootfs_dir = ap Mount.rootfs_dir eb;
          user_identity = ap Mount.user_identity eb;
        }

    Grants-build :
        (g : Grants p request m)
        → build_device_mount is_relative split stat p m.base.source m.base.destination
            g.access_string
          ≡ ok m
    unfolding build_device_mount
    Grants-build g =
        rw
          (
            (validate_mount_path_iff m.base.source "host").1 (g.source_ne_nil, g.source_absolute),
            (validate_mount_path_iff m.base.destination "container").1
                (g.destination_ne_nil, g.destination_absolute),
            (create_device_access_iff g.access_string m.access).1 g.access_parsed,
          )
          ((device_mount_iff _ m.access m).1 (
            let (dev, id, type) = (IsDevice_iff stat m.base.source m.id m.type).0 g.device in
            (dev, id, type, cc (g.flags, g.rootfs_dir, g.user_identity), refl)))

    parse-Grants : parse_device_request is_relative split stat p request ≡ ok m → Grants p request m
    unfolding parse_device_request
    parse-Grants h = elim (Bool-cases (is_empty request)) [
      | inl empty ↦ cc (rw empty at h)
      | inr some_request ↦ elim (Bool-cases (ltb 3 (length (split b':' request)))) [
        | inl many ↦ cc (rw (some_request, many) at h)
        | inr few ↦
            let source = first_token (split b':' request) in
            let fields = choose_fields is_relative source (split b':' request) in
            build-Grants source fields.0 fields.1 ((is_empty_iff request).0 some_request)
              ((Reads-iff is_relative split laws request source fields.0 fields.1).0
                (few, refl, refl))
              ((catch_error_iff _ _ m).0 (rw (some_request, few) at h))
      ]
    ]

    Grants-parse : Grants p request m → parse_device_request is_relative split stat p request ≡ ok m
    unfolding parse_device_request
    Grants-parse g =
        let (few, source, fields) = (Reads-iff is_relative split laws request _ _ _).1 g.spelled in
        let built : build_device_mount is_relative split stat p (first_token (split b':' request))
              (choose_fields is_relative (first_token (split b':' request)) (split b':' request)).0
              (choose_fields is_relative (first_token (split b':' request)) (split b':' request)).1
            ≡ ok m =
          rw (fields, source) (Grants-build g) in
        rw ((is_empty_iff request).1 g.request_ne_nil, few) ((catch_error_iff _ _ m).1 built)

    -- For a `boost::split` with its laws, `parseDeviceRequest` returns a device mount exactly
    -- when the request spells source, destination and access by the grammar of `Spells`, the
    -- access is valid, both paths are absolute, and stat(2) shows a block or a character device
    -- at the source; the mount has these fields, the device's id (st_rdev) and type, MS_REC |
    -- MS_PRIVATE, and the parser's rootfs and identity.
    pub parse_device_request-Grants :
        (parse_device_request is_relative split stat p request ≡ ok m) ↔ Grants p request m
    parse_device_request-Grants = (parse-Grants, Grants-parse)
