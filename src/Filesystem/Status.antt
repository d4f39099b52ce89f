-- ===== src/Filesystem/Status.antt =====
-- src/utility/filesystem.cpp: `getFileSize`, `getOwner`, `getDeviceID`, `getDeviceType`,
-- `isDeviceFile`, `isBlockDevice`, `isCharacterDevice` and `isSymlink`. The parameter is the system
-- call, which gives a status or the text of its error.
pub mod Devices
use libsarus.Base.{ℕ, Text, Bool, true, false, ◌||◌, if◌then◌else◌, String}
use libsarus.Error.{Result, ok, throws, throw_error, format, text, end, ◌>>=◌}

-- The file types of `st_mode`.
pub data FileType : Type 0 where
  regular directory symbolic_link block_device character_device other_type : FileType

-- The fields of `struct stat` that the library reads.
pub record Stat : Type 0 where
  pub st_type : FileType
  pub st_uid : ℕ
  pub st_gid : ℕ
  pub st_size : ℕ
  pub st_dev : ℕ
  pub st_rdev : ℕ

pub data StatResult : Type 0 where
  status : Stat → StatResult
  failed : Text → StatResult

-- `S_ISBLK`, `S_ISCHR`, `S_ISLNK`.
abbrev pub s_isblk : FileType → Bool
s_isblk block_device = true
s_isblk _ = false

abbrev pub s_ischr : FileType → Bool
s_ischr character_device = true
s_ischr _ = false

abbrev pub s_islnk : FileType → Bool
s_islnk symbolic_link = true
s_islnk _ = false

module _ (stat : Text → StatResult) where
  -- A call of stat(2), and the error that is thrown when it fails.
  abbrev pub stat_or : String → String → Text → Result Stat
  stat_or function m path = elim (stat path) [
    | status sb ↦ ok sb
    | failed reason ↦ throw_error function (format m (text path (text reason end)))
  ]

  unfoldable pub get_file_size : Text → Result ℕ
  get_file_size path = do
    sb ← stat_or "getFileSize" "Failed to retrieve size of file %s. Stat failed: %s" path
    ok sb.st_size

  unfoldable pub get_owner : Text → Result (ℕ × ℕ)
  get_owner path = do
    sb ← stat_or "getOwner" "Failed to retrieve owner of file %s. Stat failed: %s" path
    ok (sb.st_uid, sb.st_gid)

  unfoldable pub get_device_id : Text → Result ℕ
  get_device_id path = do
    sb ← stat_or "getDeviceID" "Failed to retrieve device ID of file %s. Stat failed: %s" path
    ok sb.st_rdev

  unfoldable pub is_device_file : Text → Result Bool
  is_device_file path = do
    sb ← stat_or "isDeviceFile" "Failed to check if file %s is a device file. Stat failed: %s" path
    ok (s_isblk sb.st_type || s_ischr sb.st_type)

  unfoldable pub is_block_device : Text → Result Bool
  is_block_device path = do
    sb ←
        stat_or "isBlockDevice" "Failed to check if file %s is a block device. Stat failed: %s" path
    ok (s_isblk sb.st_type)

  unfoldable pub is_character_device : Text → Result Bool
  is_character_device path = do
    sb ←
        stat_or "isCharacterDevice"
          "Failed to check if file %s is a charater device. Stat failed: %s" path
    ok (s_ischr sb.st_type)

  -- The second test is made where the first fails.
  abbrev block_or_fail : Text → Bool → Result ℕ
  block_or_fail path is_block =
      if is_block
      then ok b'b'
      else throw_error "getDeviceType" (
          format
            "Failed to recognize device type of file %s. File is not a device or has unknown device type."
            (text path end))

  unfoldable pub get_device_type : Text → Result ℕ
  unfolding is_character_device is_block_device
  get_device_type path = do
    is_character ← is_character_device path
    let other = is_block_device path >>= block_or_fail path
    if is_character then ok b'c' else other

  -- `isSymlink` goes by lstat(2), which is the parameter here, and throws nothing.
  unfoldable pub is_symlink : Text → Bool
  is_symlink path = elim (stat path) [ status sb ↦ s_islnk sb.st_type | failed reason ↦ false ]
