-- ===== src/Strings.antt =====
-- src/utility/string.cpp: `removeWhitespaces`, `replace`, `eraseFirstAndLastDoubleQuote`,
-- `parseKeyValuePair` and `parseMap`. `generateRandom` draws from the system's random device and is
-- not modelled. The messages that `parseMap` also logs are those that it throws.
pub mod Replace
pub mod Pairs
pub mod Maps
use libsarus.Base.{
  ℕ, zero, suc, ◌+◌, ◌-◌, Text, Map, lookup, insert, has, codes, Bool, true, false, not, ◌||◌, List,
  [], ◌∷◌, ◌++◌, length, take, drop, is_empty, is_prefix, count, ltb, ◌==◌, if◌then◌else◌, Option,
  none, some, String,
}
use libsarus.Error.{
  Result, ok, throws, throw_error, throw_error_at, info, Message, Args, format, text, what, end,
  plain, exception_what, ◌>>=◌,
}

-- `iswspace` on the characters of the "C" locale.
abbrev pub iswspace : ℕ → Bool
iswspace c = c == b' ' || c == b'\t' || c == b'\n' || c == 11 || c == 12 || c == b'\r'

unfoldable pub remove_whitespaces : Text → Text
remove_whitespaces [] = []
remove_whitespaces (c ∷ s) =
    let rest = remove_whitespaces s in if iswspace c then rest else c ∷ rest

abbrev pub shifted : ℕ → Option ℕ → Option ℕ
shifted n none = none
shifted n (some p) = some (n + p)

-- `s.find(from)`: the first position at which `from` stands.
unfoldable pub find_first : Text → Text → Option ℕ
find_first [] from = if is_empty from then some 0 else none
find_first (c ∷ s) from =
    let later = shifted 1 (find_first s from) in if is_prefix from (c ∷ s) then some 0 else later

-- `s.find(from, pos)`; `none` is `npos`.
unfoldable pub find : Text → Text → ℕ → Option ℕ
unfolding find_first
find s from pos = if ltb (length s) pos then none else shifted pos (find_first (drop pos s) from)

-- `buf.replace(pos, n, to)`.
abbrev pub replace_at : Text → ℕ → ℕ → Text → Text
replace_at buf pos n to = take pos buf ++ (to ++ drop (pos + n) buf)

-- The loop of `replace`, with fuel: `none` says that it ran out.
unfoldable pub replace_loop : ℕ → Text → Text → Text → ℕ → Option Text
replace_loop zero buf from to start = none
replace_loop (suc fuel) buf from to start = elim (find buf from start) [
  | none ↦ some buf
  | some pos ↦ replace_loop fuel (replace_at buf pos (length from) to) from to (pos + length to)
]

-- `replace`; the source changes `buf` in place and returns it.
unfoldable pub replace : ℕ → Text → Text → Text → Option Text
unfolding replace_loop find
replace fuel buf from to = replace_loop fuel buf from to 0

-- The last character, which `*s.crbegin()` reads after a test that there is one.
abbrev last_or : ℕ → Text → ℕ
last_or d [] = d
last_or d (c ∷ s) = last_or c s

unfoldable pub erase_first_and_last_double_quote : Text → Result Text
erase_first_and_last_double_quote s =
    if ltb (length s) 2 || not (last_or 0 (take 1 s) == b'"') || not (last_or 0 s == b'"')
    then throw_error "eraseFirstAndLastDoubleQuote" (
        format
          "Failed to remove first and last double quotes in string \"%s\". The string doesn't contain such double quotes."
          (text s end))
    else ok (take (length s - 2) (drop 1 s))

-- `std::find` on the characters: what stands before the separator, and what from there on.
abbrev pub before : ℕ → Text → Text
before sep [] = []
before sep (c ∷ s) = let rest = before sep s in if c == sep then [] else c ∷ rest

abbrev pub from_first : ℕ → Text → Text
from_first sep [] = []
from_first sep (c ∷ s) = let rest = from_first sep s in if c == sep then c ∷ s else rest

unfoldable pub parse_key_value_pair : Text → ℕ → Result (Text × Text)
parse_key_value_pair pair_string separator =
    let key = before separator pair_string in
    let value = drop 1 (from_first separator pair_string) in
    if is_empty key
    then throw_error "parseKeyValuePair"
        (format "Failed to parse key-value pair '%s': key is empty" (text pair_string end))
    else ok (key, value)

-- The body of the loop of `parseMap` behind `parseKeyValuePair`.
unfoldable pub add_pair : Text → Text → ℕ → Text → Text → Map → Result Map
add_pair input pair kv_separator key value m =
    if not (is_empty (from_first kv_separator value))
    then throw_error_at "parseMap"
        (format
          "Error parsing '%s'. Invalid key-value pair '%s': repeated use of separator is not allowed."
          (text input (text pair end)))
        info
    else if has key m
    then throw_error_at "parseMap"
        (format
          "Error parsing '%s'. Found duplicated key '%s': expected a list of unique key-value pairs."
          (text input (text key end)))
        info
    else ok (insert key value m)

-- The loop of `parseMap` over the pairs. The handler throws an error of its own.
unfoldable pub parse_pairs : Text → ℕ → List Text → Map → Result Map
unfolding add_pair
parse_pairs input kv_separator [] m = ok m
parse_pairs input kv_separator (pair ∷ pairs) m = elim (parse_key_value_pair pair kv_separator) [
  | throws e ↦
      throw_error_at "parseMap"
        (format "Error parsing '%s'. %s" (text input (what (exception_what e) end))) info
  | ok (key, value) ↦
      add_pair input pair kv_separator key value m >>= parse_pairs input kv_separator pairs
]

-- `split` is `boost::split` on one separator.
unfoldable pub parse_map : (ℕ → Text → List Text) → Text → ℕ → ℕ → Result Map
unfolding parse_pairs parse_key_value_pair
parse_map split input pair_separators key_value_separators =
    if is_empty input
    then ok []
    else parse_pairs input key_value_separators (split pair_separators input) []
