-- ===== src/Filesystem/Paths.antt =====
-- The operations of `boost::filesystem::path` that the library calls on POSIX paths, as an
-- interface, with the documented laws that the proofs rest on. A path is its native text.
use libsarus.Base.{Text, codes, Bool, true, false, List, [], count, ◌≡◌, ◌≢◌}

pub record PathOps : Type 0 where
  -- the elements that an iteration gives
  pub elements : Text → List Text
  -- `a / b`
  pub append : Text → Text → Text
  pub parent_path : Text → Text
  pub remove_trailing_separator : Text → Text
  pub filename : Text → Text
  pub is_absolute : Text → Bool
  -- `a > b`
  pub greater : Text → Text → Bool

abbrev pub root : Text
root = codes "/"

-- A file name: not empty, without '/', and neither '.' nor '..'.
pub record IsName (e : Text) : Type 0 where
  pub name_ne_nil : e ≢ []
  pub no_slash : count b'/' e ≡ 0
  pub ne_dot : e ≢ codes "."
  pub ne_dot_dot : e ≢ codes ".."

-- An element of a path that does not begin with two slashes.
pub data IsElement : Text → Type 0 where
  a_root : {e : Text} → e ≡ root → IsElement e
  a_dot : {e : Text} → e ≡ codes "." → IsElement e
  a_dot_dot : {e : Text} → e ≡ codes ".." → IsElement e
  a_name : {e : Text} → IsName e → IsElement e

module _ (ops : PathOps) where
  -- The root with names appended one by one.
  pub data IsCanonical : Text → Type 0 where
    at_root : IsCanonical root
    below : {c : Text} (e : Text) → IsCanonical c → IsName e → IsCanonical (ops.append c e)

  pub record IsPathOps : Type 0 where
    -- the parent of `/a/b` is `/a`, and that of `/a` is `/`
    pub parent-append :
        (c e : Text)
        → IsCanonical c
        → IsName e
        → ops.parent_path (ops.remove_trailing_separator (ops.append c e)) ≡ c
    -- paths compare by their elements
    pub greater-append :
        (c e : Text) → IsCanonical c → IsName e → ops.greater (ops.append c e) root ≡ true
    pub greater-root : ops.greater root root ≡ false
