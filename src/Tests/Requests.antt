-- ===== src/Tests/Requests.antt =====
-- Mount and device requests at concrete inputs.
use libsarus.Base.{
  ℕ, Text, Map, codes, text_eq, Bool, true, false, not, [], ◌∷◌, ◌++◌, All, ◌==◌, if◌then◌else◌,
  ◌≡◌, ◌≢◌, refl, ◌↔◌,
}
use libsarus.Error.{Exception, standard, other_exception, plain, ok}
use libsarus.DeviceAccess.{DeviceAccess, no_access, parse_input}
use libsarus.DeviceAccess.Accepts
use libsarus.Mount.{UserIdentity, Mount, default_flags}
use libsarus.MountParser.{
  MountParser, mount_parser, DestinationRestrictions, set_mount_destination_restrictions,
  get_validated_mount_source, get_validated_mount_destination, convert_bind_mount_flags,
  parse_bind_mount_request, parse_mount_request,
}
use libsarus.MountParser.Destination.{
  NamesDestination, IsAllowedDestination, get_validated_mount_destination_iff,
}
use libsarus.MountParser.Flags.{OnlyOptions, flags_of, convert_bind_mount_flags_iff}
use libsarus.MountParser.Request.{
  Grants, parse_mount_request-Grants, parse_mount_request_restricted,
}
use libsarus.Filesystem.Status.{Stat, StatResult, status, failed, character_device}
use libsarus.Split.{split_on}
use libsarus.Split.Tokens.{split_on-IsSplit}
use libsarus.DeviceParser.{DeviceParser, DeviceMount, parse_device_request}
use libsarus.DeviceParser.Requests

abbrev relative : Text → Bool
relative [] = true
relative (c ∷ s) = not (c == b'/')

abbrev too_many : Exception
too_many = standard other_exception (plain "too many arguments")

abbrev user : UserIdentity
user = record { uid = 1000; gid = 100; supplementary_gids = 100 ∷ [] }

abbrev restrictions : DestinationRestrictions
restrictions = record {
  not_allowed_prefixes_of_path = codes "/etc" ∷ [];
  not_allowed_paths = codes "/" ∷ [];
}

abbrev parser : MountParser
parser = mount_parser (codes "/root") user

abbrev request : Map
request =
    (codes "type", codes "bind")
    ∷ (codes "src", codes "/a")
    ∷ (codes "dst", codes "/b")
    ∷ (codes "readonly", [])
    ∷ []

abbrev mount : Mount
mount = record {
  source = codes "/a";
  destination = codes "/b";
  mount_flags = 278529;
  rootfs_dir = codes "/root";
  user_identity = user;
}

parse_mount_request_run :
    parse_mount_request relative too_many
      (set_mount_destination_restrictions restrictions parser)
      request
    ≡ ok mount
unfolding parse_mount_request parse_bind_mount_request get_validated_mount_source
    get_validated_mount_destination convert_bind_mount_flags set_mount_destination_restrictions
parse_mount_request_run = refl

parse_mount_request-Grants_example :
    (parse_mount_request relative too_many parser request ≡ ok mount)
    ↔ Grants relative too_many parser request mount
parse_mount_request-Grants_example =
    parse_mount_request-Grants relative too_many parser request mount

parse_mount_request_restricted_example :
    (parse_mount_request relative too_many parser request ≡ ok mount)
    × All (λ prefix. (rest : Text) → codes "/b" ≢ prefix ++ rest) (codes "/etc" ∷ [])
    × All (λ path. codes "/b" ≢ path) (codes "/" ∷ [])
parse_mount_request_restricted_example =
    parse_mount_request_restricted relative too_many parser request mount restrictions
      parse_mount_request_run

get_validated_mount_destination_iff_example :
    (get_validated_mount_destination relative too_many parser request ≡ ok (codes "/b")) ↔ (
      NamesDestination request (codes "/b")
      × IsAllowedDestination relative too_many parser request (codes "/b"))
get_validated_mount_destination_iff_example =
    get_validated_mount_destination_iff relative too_many parser request (codes "/b")

convert_bind_mount_flags_iff_example :
    (convert_bind_mount_flags request ≡ ok 278529)
    ↔ (OnlyOptions request × (278529 ≡ flags_of request))
convert_bind_mount_flags_iff_example = convert_bind_mount_flags_iff request 278529

abbrev read_mknod : DeviceAccess
read_mknod = record { read = true; write = false; mknod = true }

parse_input_run : parse_input (codes "mr") ≡ ok read_mknod
unfolding parse_input
parse_input_run = refl

parse_input-Spells_example :
    (parse_input (codes "mr") ≡ ok read_mknod)
    ↔ ((codes "mr" ≢ []) × Accepts.Spells no_access (codes "mr") read_mknod)
parse_input-Spells_example = Accepts.parse_input-Spells (codes "mr") read_mknod

-- A character device at /dev/x, and nothing else.
abbrev dev_x : Stat
dev_x = record {
  st_type = character_device;
  st_uid = 0;
  st_gid = 0;
  st_size = 0;
  st_dev = 5;
  st_rdev = 259;
}

abbrev character : ℕ
character = b'c'

abbrev stat : Text → StatResult
stat path = if text_eq path (codes "/dev/x") then status dev_x else failed (codes "ENOENT")

abbrev device_parser : DeviceParser
device_parser = record { rootfs_dir = codes "/root"; user_identity = user }

abbrev device : DeviceMount
device = record {
  base = record {
    source = codes "/dev/x";
    destination = codes "/dev/x";
    mount_flags = default_flags;
    rootfs_dir = codes "/root";
    user_identity = user;
  };
  id = 259;
  type = b'c';
  access = read_mknod;
}

parse_device_request-Grants_example :
    (parse_device_request relative split_on stat device_parser (codes "/dev/x:rm") ≡ ok device)
    ↔ Requests.Grants relative split_on stat device_parser (codes "/dev/x:rm") device
parse_device_request-Grants_example =
    Requests.parse_device_request-Grants relative split_on stat split_on-IsSplit device_parser
      (codes "/dev/x:rm") device
