-- ===== src/Error/Trace.antt =====
-- What rethrowing keeps of an exception, and inversions of `Result`.
use libsarus.Base.{
  ◌↔◌, String, ◌≡◌, refl, List, [], ◌∷◌, ◌++◌, ◌⊎◌, inl, inr, Option, none, some, ap, ◌∙◌,
}
use libsarus.Error.{
  Message, catch_error, Error, Exception, sarus, standard, exception_what, rethrow_error,
  rethrow_error_at, LogLevel, ErrorTraceEntry, Result, ok, throws, ◌>>=◌, get_error_trace,
  error_what,
}

-- A site at which an exception is caught and rethrown: its function and its message.
pub record Handler : Type 0 where
  pub function : String
  pub message : Message
  -- the level that `SARUS_RETHROW_ERROR_3` is given
  pub level : Option LogLevel

abbrev pub entry_of : Handler → ErrorTraceEntry
entry_of h = record { error_message = h.message; function_name = h.function }

-- `SARUS_RETHROW_ERROR_3` with a level, and `SARUS_RETHROW_ERROR_2` without.
abbrev rethrow_in : Exception → String → Message → Option LogLevel → Exception
rethrow_in e function m none = rethrow_error e function m
rethrow_in e function m (some level) = rethrow_error_at e function m level

-- An exception that passes through a row of handlers, the innermost first.
abbrev pub rethrow_all : Exception → List Handler → Exception
rethrow_all e [] = e
rethrow_all e (h ∷ hs) = rethrow_all (rethrow_in e h.function h.message h.level) hs

abbrev pub entries_of : List Handler → List ErrorTraceEntry
entries_of [] = []
entries_of (h ∷ hs) = entry_of h ∷ entries_of hs

-- The level after one handler, and after all: that of the last handler that gives one.
abbrev level_after : LogLevel → Option LogLevel → LogLevel
level_after old none = old
level_after old (some level) = level

abbrev last_level : LogLevel → List Handler → LogLevel
last_level old [] = old
last_level old (h ∷ hs) = last_level (level_after old h.level) hs

rethrow_in-sarus :
    (e : Error) (function : String) (m : Message) (level : Option LogLevel)
    → rethrow_in (sarus e) function m level
      ≡ sarus (record e {
        log_level = level_after e.log_level level;
        later_entries =
            e.later_entries ++ (record { error_message = m; function_name = function } ∷ []);
      })
rethrow_in-sarus e function m none = refl
rethrow_in-sarus e function m (some level) = refl

rethrow_all-sarus :
    (hs : List Handler) (e : Error)
    → rethrow_all (sarus e) hs
      ≡ sarus (record e {
        log_level = last_level e.log_level hs;
        later_entries = e.later_entries ++ entries_of hs;
      })
rethrow_all-sarus [] e = simp mathlib.Core.List.append-nil
rethrow_all-sarus (h ∷ hs) e =
    ap (λ x. rethrow_all x hs) (rethrow_in-sarus e h.function h.message h.level)
    ∙ (rethrow_all-sarus hs _ ∙ simp mathlib.Core.List.append_assoc)

-- However many handlers rethrow an error of the library, with a log level of their own or
-- without, its `what()` stays that of the throw, its log level is that of the last handler that
-- gave one or else that of the throw, and its trace is the old trace followed by one entry for
-- each handler in order.
pub rethrow_all-trace :
    (hs : List Handler) (e : Error)
    → (e' : Error) × (rethrow_all (sarus e) hs ≡ sarus e')
      × (error_what e' ≡ error_what e)
      × (e'.log_level ≡ last_level e.log_level hs)
      × (get_error_trace e' ≡ get_error_trace e ++ entries_of hs)
rethrow_all-trace hs e = (
  record e {
    log_level = last_level e.log_level hs;
    later_entries = e.later_entries ++ entries_of hs;
  },
  rethrow_all-sarus hs e,
  refl,
  refl,
  refl,
)

-- Rethrowing keeps `what()`, of a standard exception too.
pub rethrow_error-what :
    (e : Exception) (function : String) (m : Message)
    → exception_what (rethrow_error e function m) ≡ exception_what e
rethrow_error-what (sarus e) function m = refl
rethrow_error-what (standard c w) function m = refl

-- A call and what follows it return only if both do.
pub >>=-eq-ok {ℓ κ} :
    {A : Type ℓ} {B : Type κ} {b : B} (call : Result A) (next : A → Result B)
    → (call >>= next) ≡ ok b
    → (a : A) × (call ≡ ok a) × (next a ≡ ok b)
>>=-eq-ok (throws x) next h = cc h
>>=-eq-ok (ok a) next h = (a, refl, h)

pub ok-injective {ℓ} : {A : Type ℓ} {a b : A} → ok a ≡ ok b → a ≡ b
ok-injective h = cc

pub Result-cases {ℓ} :
    {A : Type ℓ} (r : Result A) → ((a : A) × (r ≡ ok a)) ⊎ ((e : Exception) × (r ≡ throws e))
Result-cases (ok a) = inl (a, refl)
Result-cases (throws e) = inr (e, refl)

-- A handler that always throws changes no value.
pub catch_error_iff {ℓ} :
    {A : Type ℓ} (m : Result A) (f : Error → Exception) (a : A)
    → (catch_error m (λ e. throws (f e)) ≡ ok a) ↔ (m ≡ ok a)
catch_error_iff (ok b) f a = (λ h. h, λ h. h)
catch_error_iff (throws (sarus e)) f a = (λ h. cc, λ h. cc)
catch_error_iff (throws (standard c w)) f a = (λ h. cc, λ h. cc)
