-- ===== src/Logger.antt =====
-- src/Logger.cpp and src/utility/logging.cpp: what is logged, at which level, and to which stream.
-- The parameters are what the system tells at the time of the call, and the printing of numbers. A
-- stream is the list of the lines written to it. A line of an error trace is kept as its number and
-- its entry, not rendered.
pub mod Traces
use libsarus.Base.{
  ℕ, zero, suc, ◌+◌, ◌-◌, Text, codes, Bool, true, false, ◌||◌, List, [], ◌∷◌, ◌++◌, length,
  get_elem?, ltb, ◌==◌, if◌then◌else◌, Option, none, some,
}
use libsarus.Error.{
  LogLevel, debug, info, warn, error, general, Result, ok, throws, throw_error, ErrorTraceEntry,
  Error, get_error_trace, format, text, end, ◌>>=◌,
}

-- The value of an enumerator.
abbrev pub severity : LogLevel → ℕ
severity debug = 0
severity info = 1
severity warn = 2
severity error = 3
severity general = 4

pub data Line : Type 0 where
  message_line : Text → Line
  trace_line : ℕ → ErrorTraceEntry → Line

pub record Streams : Type 0 where
  pub out : List Line
  pub err : List Line

-- clock_gettime(2), `none` on failure, with the text of its error; the host name; the process id.
pub record Circumstances : Type 0 where
  pub clock : Option (ℕ × ℕ)
  pub clock_error : Text
  pub hostname : Result Text
  pub pid : ℕ

-- The level that the logger is constructed with.
abbrev pub initial_level : LogLevel
initial_level = warn

unfoldable pub make_submessage_with_system_name : LogLevel → Text → Text
make_submessage_with_system_name general system_name = []
make_submessage_with_system_name _ system_name = codes "[" ++ (system_name ++ codes "] ")

unfoldable pub make_submessage_with_log_level : LogLevel → Text
make_submessage_with_log_level debug = codes "[DEBUG] "
make_submessage_with_log_level info = codes "[INFO] "
make_submessage_with_log_level warn = codes "[WARN] "
make_submessage_with_log_level error = codes "[ERROR] "
make_submessage_with_log_level general = []

-- `std::endl` ends the line.
abbrev pub write_out : Line → Streams → Streams
write_out l s = record s { out = s.out ++ (l ∷ []) }

abbrev pub write_err : Line → Streams → Streams
write_err l s = record s { err = s.err ++ (l ∷ []) }

module _ (show : ℕ → Text) (now : Circumstances) where
  abbrev timestamp : Option (ℕ × ℕ) → Result Text
  timestamp none =
      throw_error "makeSubmessageWithTimestamp"
        (format "logger failed to retrieve UNIX epoch time (%s)" (text now.clock_error end))
  timestamp (some (sec, nsec)) =
      ok (codes "[" ++ (show sec ++ (codes "." ++ (show nsec ++ codes "] "))))

  unfoldable pub make_submessage_with_timestamp : LogLevel → Result Text
  make_submessage_with_timestamp general = ok []
  make_submessage_with_timestamp _ = timestamp now.clock

  unfoldable pub make_submessage_with_instance_id : LogLevel → Result Text
  make_submessage_with_instance_id general = ok []
  make_submessage_with_instance_id _ = do
    hostname ← now.hostname
    ok (codes "[" ++ (hostname ++ (codes "-" ++ (show now.pid ++ codes "] "))))

  unfoldable pub full_log_message : Text → Text → LogLevel → Result Text
  full_log_message message system_name log_level = do
    time ← make_submessage_with_timestamp log_level
    id ← make_submessage_with_instance_id log_level
    ok (
        time
        ++ (id
            ++ (make_submessage_with_system_name log_level system_name
                ++ (make_submessage_with_log_level log_level ++ message))))

  -- WARNING and ERROR messages go to stderr, the rest to stdout.
  unfoldable pub write_line : LogLevel → Text → Streams → Streams
  write_line log_level full s =
      if severity log_level == severity warn || severity log_level == severity error
      then write_err (message_line full) s
      else write_out (message_line full) s

  abbrev pub written : LogLevel → Streams → Result Text → Result (Unit {0}) × Streams
  written log_level s (throws e) = (throws e, s)
  written log_level s (ok full) = (ok tt, write_line log_level full s)

  -- `log`, for a logger of a level.
  unfoldable pub log : LogLevel → Text → Text → LogLevel → Streams → Result (Unit {0}) × Streams
  log level message system_name log_level s =
      let logged = written log_level s (full_log_message message system_name log_level) in
      if ltb (severity log_level) (severity level) then (ok tt, s) else logged

  abbrev pub printed : ℕ → Option ErrorTraceEntry → List Line → List Line
  printed i none rest = rest
  printed i (some entry) rest = trace_line i entry ∷ rest

  -- The loop of `logErrorTrace`: what is left to print, and the index.
  unfoldable pub print_trace : List ErrorTraceEntry → ℕ → ℕ → List Line
  print_trace trace zero i = []
  print_trace trace (suc left) i =
      let rest = print_trace trace left (suc i) in
      printed i (get_elem? trace (length trace - i - 1)) rest

  -- What follows the heading.
  abbrev pub after_heading : List Line → Result (Unit {0}) × Streams → Result (Unit {0}) × Streams
  after_heading lines (throws e, s) = (throws e, s)
  after_heading lines (ok u, s) = (ok tt, record s { err = s.err ++ lines })

  unfoldable pub log_error_trace : LogLevel → Error → Text → Streams → Result (Unit {0}) × Streams
  log_error_trace level e system_name s =
      let trace = get_error_trace e in
      let logged =
        after_heading (print_trace trace (length trace) 0)
          (log level (codes "Error trace (most nested error last):") system_name error s) in
      if ltb (severity e.log_level) (severity level) then (ok tt, s) else logged

  -- `logMessage` of src/utility/logging.cpp.
  unfoldable pub log_message : LogLevel → Text → LogLevel → Streams → Result (Unit {0}) × Streams
  log_message level message log_level s = log level message (codes "CommonUtility") log_level s
