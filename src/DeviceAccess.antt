-- ===== src/DeviceAccess.antt =====
-- src/DeviceAccess.cpp and include/libsarus/DeviceAccess.hpp: the access permissions of a device.
-- The constructor starts from no permission and runs `parseInput`; its debug message is left out.
pub mod Accepts
use libsarus.Base.{
  ℕ, Text, Bool, true, false, [], ◌∷◌, ◌++◌, length, is_empty, ltb, ◌==◌, if◌then◌else◌, String,
}
use libsarus.Error.{Result, ok, throws, throw_error, plain, Message, format, text, end, Args}

pub record DeviceAccess : Type 0 where
  pub read : Bool
  pub write : Bool
  pub mknod : Bool

abbrev pub no_access : DeviceAccess
no_access = record { read = false; write = false; mknod = false }

abbrev pub allow_read : DeviceAccess → DeviceAccess
allow_read d = record d { read = true }

abbrev pub allow_write : DeviceAccess → DeviceAccess
allow_write d = record d { write = true }

abbrev pub allow_mknod : DeviceAccess → DeviceAccess
allow_mknod d = record d { mknod = true }

abbrev fail : String → Text → Result DeviceAccess
fail m input = throw_error "parseInput" (format m (text input end))

abbrev repeated : String
repeated = "Input string for device access '%s' has repeated characters"

-- The body of the loop over the characters of `input`.
unfoldable pub parse_char : Text → ℕ → DeviceAccess → Result DeviceAccess
parse_char input c d =
    if c == b'r'
    then (if d.read then fail repeated input else ok (allow_read d))
    else if c == b'w'
    then (if d.write then fail repeated input else ok (allow_write d))
    else if c == b'm'
    then (if d.mknod then fail repeated input else ok (allow_mknod d))
    else fail "Input string for device access '%s' contains an invalid character" input

unfoldable pub parse_chars : Text → Text → DeviceAccess → Result DeviceAccess
parse_chars input [] d = ok d
parse_chars input (c ∷ cs) d = elim (parse_char input c d) [
  | ok d' ↦ parse_chars input cs d'
  | throws e ↦ throws e
]

unfoldable pub parse_input : Text → Result DeviceAccess
unfolding parse_chars parse_char
parse_input input =
    if is_empty input
    then throw_error "parseInput" (plain "Input string for device access is empty")
    else if ltb 3 (length input)
    then fail "Input string for device access '%s' is longer than 3 characters" input
    else parse_chars input input no_access

-- `DeviceAccess::string`.
unfoldable pub string : DeviceAccess → Text
string d =
    (if d.read then b'r' ∷ [] else [])
    ++ ((if d.write then b'w' ∷ [] else []) ++ (if d.mknod then b'm' ∷ [] else []))
