-- ===== src/MountParser.antt =====
-- src/MountParser.cpp and include/libsarus/MountParser.hpp: from a map of options to a bind mount.
-- The parameters stand for Boost: `path::is_relative`, and what `boost::format` throws when it is
-- given more arguments than its text has directives. What is logged is what is thrown.
pub mod Allowed
pub mod Source
pub mod Destination
pub mod Flags
pub mod Request
use Prim.Native.Nat.{bit_or}
use libsarus.Base.{
  ℕ, ◌+◌, Text, Map, lookup, erase, has, codes, text_eq, is_prefix, is_empty, Bool, true, false,
  not, ◌&&◌, List, [], ◌∷◌, ◌++◌, ltb, if◌then◌else◌, Option, none, some, String,
}
use libsarus.Error.{
  Exception, Result, ok, throws, throw_error_at, info, Message, Args, format, text, end, ◌>>=◌,
  ◌>>◌,
}
use libsarus.Mount.{UserIdentity, Mount, default_flags, ms_rdonly}

pub record ValidationSettings : Type 0 where
  pub destination_disallowed_with_prefix : List Text
  pub destination_disallowed_exact : List Text
  pub source_disallowed_with_prefix : List Text
  pub source_disallowed_exact : List Text

pub record MountParser : Type 0 where
  pub validation_settings : ValidationSettings
  pub rootfs_dir : Text
  pub user_identity : UserIdentity

abbrev pub no_restrictions : ValidationSettings
no_restrictions = record {
  destination_disallowed_with_prefix = [];
  destination_disallowed_exact = [];
  source_disallowed_with_prefix = [];
  source_disallowed_exact = [];
}

-- The constructor.
abbrev pub mount_parser : Text → UserIdentity → MountParser
mount_parser rootfs_dir user_identity = record {
  validation_settings = no_restrictions;
  rootfs_dir = rootfs_dir;
  user_identity = user_identity;
}

-- The two arrays of strings that `setMountDestinationRestrictions` reads from its JSON value.
pub record DestinationRestrictions : Type 0 where
  pub not_allowed_prefixes_of_path : List Text
  pub not_allowed_paths : List Text

unfoldable pub set_mount_destination_restrictions :
    DestinationRestrictions → MountParser → MountParser
set_mount_destination_restrictions r p =
    let s = p.validation_settings in
    record p {
      validation_settings = record s {
        destination_disallowed_with_prefix =
            s.destination_disallowed_with_prefix ++ r.not_allowed_prefixes_of_path;
        destination_disallowed_exact = s.destination_disallowed_exact ++ r.not_allowed_paths;
      };
    }

-- `convertRequestMapToString`; the flag is `isFirstValue`.
unfoldable pub convert_from : Bool → Map → Text
convert_from first [] = []
convert_from first ((key, value) ∷ m) =
    (if first then [] else b',' ∷ [])
    ++ (key ++ ((if is_empty value then [] else b'=' ∷ value) ++ convert_from false m))

unfoldable pub convert_request_map_to_string : Map → Text
unfolding convert_from
convert_request_map_to_string m = convert_from true m

-- `logMessage` and `SARUS_THROW_ERROR` with the level `INFO`; the request is the first argument.
abbrev pub refuse {ℓ} : {A : Type ℓ} → String → String → Map → Args → Result A
refuse function m request_map args =
    throw_error_at function (format m (text (convert_request_map_to_string request_map) args)) info

-- The loops over disallowed prefixes and paths: the first that applies throws.
unfoldable pub check_each {ℓ} :
    {A : Type ℓ} → (A → Bool) → (A → Result (Unit {0})) → List A → Result (Unit {0})
check_each test fail [] = ok tt
check_each test fail (x ∷ xs) =
    let rest = check_each test fail xs in if test x then fail x else rest

unfoldable pub convert_flags_from : Map → Map → ℕ → Result ℕ
convert_flags_from request_map [] flags = ok flags
convert_flags_from request_map ((key, value) ∷ rest) flags =
    let tail = convert_flags_from request_map rest (bit_or flags ms_rdonly) in
    if text_eq key (codes "readonly")
    then tail
    else refuse "convertBindMountFlags"
        "Invalid mount request '%s': '%s' is not a valid bind mount option" request_map
        (text key end)

-- The options that are not mount flags are erased from a copy of the map.
abbrev pub flags_map : Map → Map
flags_map m = erase (codes "target") (
    erase (codes "dst") (
      erase (codes "destination")
        (erase (codes "src") (erase (codes "source") (erase (codes "type") m)))))

unfoldable pub convert_bind_mount_flags : Map → Result ℕ
unfolding convert_flags_from
convert_bind_mount_flags request_map =
    convert_flags_from request_map (flags_map request_map) default_flags

module _ (is_relative : Text → Bool) (too_many_args : Exception) where
  -- `getValidatedMountSource` behind the choice of the key.
  unfoldable pub validate_source : MountParser → Map → Text → Result Text
  unfolding check_each
  validate_source p m source =
      if is_empty source
      then refuse "getValidatedMountSource" "Invalid mount request '%s': source is empty" m end
      else if is_relative source
      then refuse "getValidatedMountSource"
          "Invalid mount request '%s': source must be an absolute path" m end
      else do
        check_each (λ prefix. is_prefix prefix source) (λ prefix. throws too_many_args)
            p.validation_settings.source_disallowed_with_prefix
        check_each (λ path. text_eq source path)
            (λ path.
              refuse "getValidatedMountSource"
                "Invalid mount request '%s': '%s' is not allowed as mount source" m (text path end))
            p.validation_settings.source_disallowed_exact
        ok source

  unfoldable pub get_validated_mount_source : MountParser → Map → Result Text
  unfolding validate_source
  get_validated_mount_source p m =
      if has (codes "source") m && has (codes "src") m
      then refuse "getValidatedMountSource"
          "Invalid mount request '%s': multiple formats used to specify mount source. Use either 'source' or 'src'."
          m end
      else elim (lookup (codes "source") m) [
        | some source ↦ validate_source p m source
        | none ↦ elim (lookup (codes "src") m) [
          | some source ↦ validate_source p m source
          | none ↦
              refuse "getValidatedMountSource"
                "Invalid mount request '%s': no source specified. Use either 'source' or 'src'." m
                end
        ]
      ]

  -- `getValidatedMountDestination` behind the choice of the key.
  unfoldable pub validate_destination : MountParser → Map → Text → Result Text
  unfolding check_each
  validate_destination p m destination =
      if is_empty destination
      then refuse "getValidatedMountDestination" "Invalid mount request '%s': destination is empty"
          m end
      else if is_relative destination
      then refuse "getValidatedMountDestination"
          "Invalid mount request '%s': destination must be an absolute path" m end
      else do
        check_each (λ prefix. is_prefix prefix destination)
            (λ prefix.
              refuse "getValidatedMountDestination"
                "Invalid mount request '%s': destination cannot be a subdirectory of '%s'" m
                (text prefix end))
            p.validation_settings.destination_disallowed_with_prefix
        check_each (λ path. text_eq destination path)
            (λ path.
              refuse "getValidatedMountDestination"
                "Invalid mount request '%s': '%s' is not allowed as mount destination" m
                (text path end))
            p.validation_settings.destination_disallowed_exact
        ok destination

  -- `count` is 0 or 1.
  abbrev pub counted : Text → Map → ℕ
  counted key m = if has key m then 1 else 0

  unfoldable pub get_validated_mount_destination : MountParser → Map → Result Text
  unfolding validate_destination
  get_validated_mount_destination p m =
      if ltb 1
        (counted (codes "destination") m + counted (codes "dst") m + counted (codes "target") m)
      then refuse "getValidatedMountDestination"
          "Invalid mount request '%s': multiple formats used to specify mount destination. Use one of 'destination', 'dst' or 'target'."
          m end
      else elim (lookup (codes "destination") m) [
        | some destination ↦ validate_destination p m destination
        | none ↦ elim (lookup (codes "dst") m) [
          | some destination ↦ validate_destination p m destination
          | none ↦ elim (lookup (codes "target") m) [
            | some destination ↦ validate_destination p m destination
            | none ↦
                refuse "getValidatedMountDestination"
                  "Invalid mount request '%s': no destination specified. Use either 'destination', 'dst' or 'target'."
                  m end
          ]
        ]
      ]

  unfoldable pub parse_bind_mount_request : MountParser → Map → Result Mount
  parse_bind_mount_request p m = do
    source ← get_validated_mount_source p m
    destination ← get_validated_mount_destination p m
    flags ← convert_bind_mount_flags m
    ok (record {
      source = source;
      destination = destination;
      mount_flags = flags;
      rootfs_dir = p.rootfs_dir;
      user_identity = p.user_identity;
    })

  unfoldable pub parse_mount_request : MountParser → Map → Result Mount
  parse_mount_request p m = elim (lookup (codes "type") m) [
    | none ↦ refuse "parseMountRequest" "Invalid mount request '%s': 'type' must be specified" m end
    | some type ↦
        if text_eq type (codes "bind")
        then parse_bind_mount_request p m
        else refuse "parseMountRequest" "Invalid mount request '%s': '%s' is not a valid mount type"
            m (text type end)
  ]
