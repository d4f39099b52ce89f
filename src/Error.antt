-- ===== src/Error.antt =====
-- include/libsarus/Error.hpp, include/libsarus/LogLevel.hpp and src/errorHandling.cpp: errors as
-- values that carry their trace, and the throw and rethrow macros. An operation that may throw
-- returns a `Result`. Of an entry's location the function's name is kept.
pub mod Trace
use libsarus.Base.{String, Text, ℕ, Bool, true, false, List, [], ◌∷◌, ◌++◌, if◌then◌else◌}

-- In ascending order of severity, as in the enumeration.
pub data LogLevel : Type 0 where
  debug info warn error general : LogLevel

-- A message as the source builds it: a `boost::format` string with its arguments, not rendered.
-- Where the source passes on `e.what()`, the message of that exception is the argument.
mutual
  pub data Message : Type 0 where
    format : String → Args → Message

  pub data Args : Type 0 where
    end : Args
    text : Text → Args → Args
    number : ℕ → Args → Args
    what : Message → Args → Args

abbrev pub plain : String → Message
plain s = format s end

pub record ErrorTraceEntry : Type 0 where
  pub error_message : Message
  pub function_name : String

-- The trace is a vector that the constructor fills with one entry and that only grows.
pub record Error : Type 0 where
  pub log_level : LogLevel
  pub first_entry : ErrorTraceEntry
  pub later_entries : List ErrorTraceEntry

abbrev pub get_error_trace : Error → List ErrorTraceEntry
get_error_trace e = e.first_entry ∷ e.later_entries

abbrev pub append_error_trace_entry : ErrorTraceEntry → Error → Error
append_error_trace_entry entry e = record e { later_entries = e.later_entries ++ (entry ∷ []) }

abbrev pub set_log_level : LogLevel → Error → Error
set_log_level level e = record e { log_level = level }

-- `Error::what`: the message of the first entry.
abbrev pub error_what : Error → Message
error_what e = e.first_entry.error_message

-- The last entry of a trace: `getErrorTrace().back()`.
abbrev pub last_entry : ErrorTraceEntry → List ErrorTraceEntry → ErrorTraceEntry
last_entry x [] = x
last_entry x (y ∷ ys) = last_entry y ys

abbrev pub back : Error → ErrorTraceEntry
back e = last_entry e.first_entry e.later_entries

-- The classes of the standard exceptions that `getExceptionTypeString` asks for.
pub data ExceptionClass : Type 0 where
  logic_error runtime_error system_error ios_failure other_exception : ExceptionClass

-- The class hierarchy of C++11: an `ios_base::failure` is a `system_error`, and that is a
-- `runtime_error`. `derives c d` is `dynamic_cast<const d *>` on an object of class `c`.
abbrev pub derives : ExceptionClass → ExceptionClass → Bool
derives logic_error logic_error = true
derives runtime_error runtime_error = true
derives system_error system_error = true
derives system_error runtime_error = true
derives ios_failure ios_failure = true
derives ios_failure system_error = true
derives ios_failure runtime_error = true
derives _ _ = false

unfoldable pub get_exception_type_string : ExceptionClass → String
get_exception_type_string c =
    if derives c logic_error
    then "logic error"
    else if derives c runtime_error
    then "runtime error"
    else if derives c system_error
    then "system error"
    else if derives c ios_failure
    then "ios_base failure"
    else "generic exception"

-- What is thrown: an error of the library, or another exception with its `what()`.
pub data Exception : Type 0 where
  sarus : Error → Exception
  standard : ExceptionClass → Message → Exception

abbrev pub exception_what : Exception → Message
exception_what (sarus e) = error_what e
exception_what (standard c m) = m

pub data Result {ℓ} (A : Type ℓ) : Type ℓ where
  ok : A → Result A
  throws : Exception → Result A

-- What follows a call that may throw.
infixl 5 ◌>>=◌
abbrev pub ◌>>=◌ {ℓ κ} : {A : Type ℓ} {B : Type κ} → Result A → (A → Result B) → Result B
throws x >>= next = throws x
ok a >>= next = next a

-- `SARUS_THROW_ERROR_2` and, with the level `error`, `SARUS_THROW_ERROR_1`.
abbrev pub throw_error_at {ℓ} : {A : Type ℓ} → String → Message → LogLevel → Result A
throw_error_at function m level = throws (
    sarus (record {
      log_level = level;
      first_entry = record { error_message = m; function_name = function };
      later_entries = [];
    }))

abbrev pub throw_error {ℓ} : {A : Type ℓ} → String → Message → Result A
throw_error function m = throw_error_at function m error

-- `SARUS_RETHROW_ERROR_3`: the exception that goes on from the handler.
abbrev pub rethrow_error_at : Exception → String → Message → LogLevel → Exception
rethrow_error_at (sarus e) function m level =
    let entry : ErrorTraceEntry = record { error_message = m; function_name = function } in
    sarus (append_error_trace_entry entry (set_log_level level e))
rethrow_error_at (standard c w) function m level = sarus (record {
  log_level = level;
  first_entry = record { error_message = w; function_name = get_exception_type_string c };
  later_entries = record { error_message = m; function_name = function } ∷ [];
})

-- `SARUS_RETHROW_ERROR_2`.
abbrev pub rethrow_error : Exception → String → Message → Exception
rethrow_error (sarus e) function m = rethrow_error_at (sarus e) function m e.log_level
rethrow_error (standard c w) function m = rethrow_error_at (standard c w) function m error

infixl 5 ◌>>◌
abbrev pub ◌>>◌ {ℓ} : {A : Type ℓ} → Result (Unit {0}) → Result A → Result A
first >> next = first >>= λ _. next

-- `catch (const libsarus::Error &)`, and `catch (const std::exception &)`.
abbrev pub catch_error {ℓ} : {A : Type ℓ} → Result A → (Error → Result A) → Result A
catch_error (ok a) handler = ok a
catch_error (throws (sarus e)) handler = handler e
catch_error (throws (standard c w)) handler = throws (standard c w)

abbrev pub catch_exception {ℓ} : {A : Type ℓ} → Result A → (Exception → Result A) → Result A
catch_exception (ok a) handler = ok a
catch_exception (throws e) handler = handler e
