-- ===== src/Environment.antt =====
-- src/utility/environment.cpp: `parseVariable` and `parseVariables`, and in `Environ` the
-- environment of the process.
pub mod Variables
pub mod Environ
pub mod Cleared
use libsarus.Base.{Text, Map, insert, List, [], ◌∷◌}
use libsarus.Error.{
  Result, ok, throws, sarus, rethrow_error, catch_error, format, what, end, error_what, ◌>>=◌,
}
use libsarus.Strings.{parse_key_value_pair}

-- `parseKeyValuePair` is called with its default separator '='.
unfoldable pub parse_variable : Text → Result (Text × Text)
parse_variable variable = catch_error (parse_key_value_pair variable b'=') (λ e. throws (
    rethrow_error (sarus e) "parseVariable"
      (format "Failed to parse environment variable: %s" (what (error_what e) end))))

-- The loop of `parseVariables` over the entries up to the null pointer.
unfoldable pub parse_variables_from : List Text → Map → Result Map
parse_variables_from [] m = ok m
parse_variables_from (variable ∷ env) m =
    parse_variable variable >>= λ kv. parse_variables_from env (insert kv.0 kv.1 m)

unfoldable pub parse_variables : List Text → Result Map
unfolding parse_variables_from
parse_variables env = parse_variables_from env []
