-- ===== src/DeviceAccess/Accepts.antt =====
-- Which inputs the constructor accepts, and what it makes of them.
use mathlib.Core.List.{cons-ne-nil}
use libsarus.Base.{
  ℕ, ◌+◌, ◌≤◌, Text, Bool, true, false, [], ◌∷◌, length, count, if◌then◌else◌, ◌≡◌, refl, ◌↔◌, ◌≢◌,
  arith,
}
use libsarus.Error.{ok}
use libsarus.DeviceAccess.{
  DeviceAccess, no_access, allow_read, allow_write, allow_mknod, parse_char, parse_chars,
  parse_input, string,
}

abbrev pub bit : Bool → ℕ
bit b = if b then 1 else 0

-- `s` spells each permission of `d` that `d0` lacks once, and nothing else.
pub record Spells (d0 : DeviceAccess) (s : Text) (d : DeviceAccess) : Type 0 where
  pub reads : count b'r' s + bit d0.read ≡ bit d.read
  pub writes : count b'w' s + bit d0.write ≡ bit d.write
  pub mknods : count b'm' s + bit d0.mknod ≡ bit d.mknod
  pub nothing_else : length s ≡ count b'r' s + count b'w' s + count b'm' s

parse_chars-Spells :
    (input s : Text) (d0 d : DeviceAccess) → parse_chars input s d0 ≡ ok d → Spells d0 s d
unfolding parse_chars parse_char
parse_chars-Spells input [] d0 d h = ground arith
parse_chars-Spells input (c ∷ s) d0 d h = ground (
  arith,
  parse_chars-Spells input s (allow_read d0) d,
  parse_chars-Spells input s (allow_write d0) d,
  parse_chars-Spells input s (allow_mknod d0) d,
)

counts_fit : (s : Text) → count b'r' s + count b'w' s + count b'm' s ≤ length s
counts_fit [] = omega arith
counts_fit (c ∷ s) = ground (arith, counts_fit s)

Spells-parse_chars :
    (input s : Text) (d0 d : DeviceAccess) → Spells d0 s d → parse_chars input s d0 ≡ ok d
unfolding parse_chars parse_char
Spells-parse_chars input [] d0 d h = ground arith
Spells-parse_chars input (c ∷ s) d0 d h = ground (
  arith,
  counts_fit s,
  Spells-parse_chars input s (allow_read d0) d,
  Spells-parse_chars input s (allow_write d0) d,
  Spells-parse_chars input s (allow_mknod d0) d,
)

bit-le : (b : Bool) → bit b ≤ 1
bit-le true = omega arith
bit-le false = omega arith

Spells-length : {s : Text} {d : DeviceAccess} → Spells no_access s d → length s ≤ 3
Spells-length {s} {d} h = omega (arith, bit-le d.read, bit-le d.write, bit-le d.mknod)

-- The constructor accepts exactly the non-empty texts that hold each of 'r', 'w' and 'm' at most
-- once and no other character, and then allows exactly the operations whose letter occurs.
pub parse_input-Spells :
    (s : Text) (d : DeviceAccess) → (parse_input s ≡ ok d) ↔ ((s ≢ []) × Spells no_access s d)
unfolding parse_input
parse_input-Spells [] d = ground arith
parse_input-Spells (c ∷ s) d = (
  (λ h. (cons-ne-nil c s, parse_chars-Spells (c ∷ s) (c ∷ s) no_access d (ground arith))),
  λ (ne, h). ground (arith, Spells-length h, Spells-parse_chars (c ∷ s) (c ∷ s) no_access d h),
)

Spells-string : (d : DeviceAccess) → Spells no_access (string d) d
unfolding string
Spells-string d = ground arith

string-ne-nil : (d : DeviceAccess) → d ≢ no_access → string d ≢ []
unfolding string
string-ne-nil d ne = ground arith

-- Printing an access and parsing the text gives the access back exactly when it has some
-- permission.
pub parse_input-string : (d : DeviceAccess) → (parse_input (string d) ≡ ok d) ↔ (d ≢ no_access)
parse_input-string d = (
  (λ h e. ((parse_input-Spells (string d) d).0 h).0 (rw e (unfold string in refl))),
  λ ne. (parse_input-Spells (string d) d).1 (string-ne-nil d ne, Spells-string d),
)
