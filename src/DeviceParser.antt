-- ===== src/DeviceParser.antt =====
-- src/DeviceParser.cpp and src/DeviceMount.cpp: from `<host device>:<container device>:<access>` to
-- a device mount. The parameters are `boost::split`, `path::is_relative` and stat(2); `major` and
-- `minor` of <sys/sysmacros.h> only read the device's id and are left out.
pub mod Requests
use libsarus.Base.{
  ℕ, Text, codes, is_empty, Bool, true, false, List, [], ◌∷◌, length, ltb, if◌then◌else◌, String,
}
use libsarus.Error.{
  Error, Result, ok, throws, sarus, throw_error, throw_error_at, rethrow_error_at, catch_error,
  info, format, text, what, end, plain, back, error_what, ◌>>=◌, ◌>>◌,
}
use libsarus.DeviceAccess.{DeviceAccess, parse_input}
use libsarus.Filesystem.Status.{StatResult, is_device_file, get_device_id, get_device_type}
use libsarus.Mount.{UserIdentity, Mount, default_flags}

pub record DeviceMount : Type 0 where
  pub base : Mount
  pub id : ℕ
  pub type : ℕ
  pub access : DeviceAccess

pub record DeviceParser : Type 0 where
  pub rootfs_dir : Text
  pub user_identity : UserIdentity

identify : (Text → StatResult) → Mount → DeviceAccess → Result DeviceMount
identify stat base access = do
  id ← get_device_id stat base.source
  type ← get_device_type stat base.source
  ok (record { base = base; id = id; type = type; access = access })

-- The constructor of `DeviceMount`: its test, and then the id and the type.
unfoldable pub device_mount : (Text → StatResult) → Mount → DeviceAccess → Result DeviceMount
unfolding identify
device_mount stat base access = is_device_file stat base.source >>= λ is_device.
    if is_device
    then identify stat base access
    else throw_error "DeviceMount"
        (format "Source path %s is not a device file" (text base.source end))

unfoldable pub create_device_access : Text → Result DeviceAccess
create_device_access access_string = catch_error (parse_input access_string) (λ e. throws (
    rethrow_error_at (sarus e) "createDeviceAccess"
      (format
        "%s. Device access must be entered as a combination of 'rwm' characters, with no repetitions"
        (what (error_what e) end))
      info))

-- `requestVector[0]`; `boost::split` gives at least one token.
abbrev pub first_token : List Text → Text
first_token [] = []
first_token (t ∷ ts) = t

abbrev pub all_access : Text
all_access = codes "rwm"

module _ (is_relative : Text → Bool) where
  unfoldable pub validate_mount_path : Text → String → Result (Unit {0})
  validate_mount_path path context =
      if is_empty path
      then throw_error_at "validateMountPath"
          (format "detected empty %s device path" (text (codes context) end)) info
      else if is_relative path
      then throw_error_at "validateMountPath"
          (format "%s device path '%s' must be absolute" (text (codes context) (text path end)))
          info
      else ok tt

  -- The destination and the access, from the tokens.
  unfoldable pub choose_fields : Text → List Text → Text × Text
  choose_fields source (t ∷ destination ∷ access ∷ []) = (destination, access)
  choose_fields source (t ∷ u ∷ []) = if is_relative u then (source, u) else (u, all_access)
  choose_fields source _ = (source, all_access)

  module _ (split : ℕ → Text → List Text) (stat : Text → StatResult) where
    -- The body of the `try` block.
    unfoldable pub build_device_mount : DeviceParser → Text → Text → Text → Result DeviceMount
    build_device_mount p source destination access_string = do
      validate_mount_path source "host"
      validate_mount_path destination "container"
      access ← create_device_access access_string
      device_mount stat
          (record {
            source = source;
            destination = destination;
            mount_flags = default_flags;
            rootfs_dir = p.rootfs_dir;
            user_identity = p.user_identity;
          })
          access

    unfoldable pub parse_device_request : DeviceParser → Text → Result DeviceMount
    parse_device_request p request =
        let tokens = split b':' request in
        let source = first_token tokens in
        let fields = choose_fields source tokens in
        if is_empty request
        then throw_error_at "parseDeviceRequest"
            (plain "Invalid device request: no values provided") info
        else if ltb 3 (length tokens)
        then throw_error_at "parseDeviceRequest"
            (format
              "Invalid device request '%s': too many tokens provided. The format of the option value must be at most '<host device>:<container device>:<access>'"
              (text request end))
            info
        else catch_error (build_device_mount p source fields.0 fields.1) (λ e. throws (
            rethrow_error_at (sarus e) "parseDeviceRequest"
              (format "Invalid device request '%s': %s"
                (text request (what (back e).error_message end)))
              info))
