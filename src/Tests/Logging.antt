-- ===== src/Tests/Logging.antt =====
-- A trace that is printed by a logger.
use mathlib.Core.List.{reverse}
use libsarus.Base.{ℕ, Text, codes, [], ◌∷◌, ◌++◌, some, ◌≡◌, refl}
use libsarus.Error.{Error, get_error_trace, error, warn, plain, ok}
use libsarus.Logger.{
  Line, message_line, trace_line, Streams, Circumstances, log_error_trace, full_log_message,
}
use libsarus.Logger.Traces.{heading, numbered, log_error_trace-reverse}

abbrev show : ℕ → Text
show n = b'0' ∷ []

abbrev now : Circumstances
now = record { clock = some (0, 0); clock_error = []; hostname = ok (codes "node"); pid = 0 }

abbrev failure : Error
failure = record {
  log_level = error;
  first_entry = record { error_message = plain "inner"; function_name = "f" };
  later_entries = record { error_message = plain "outer"; function_name = "g" } ∷ [];
}

abbrev quiet : Streams
quiet = record { out = []; err = [] }

abbrev title : Text
title = codes "[0.0] [node-0] [core] [ERROR] Error trace (most nested error last):"

title_run :
    full_log_message show now (codes "Error trace (most nested error last):") (codes "core") error
    ≡ ok title
unfolding full_log_message libsarus.Logger.make_submessage_with_timestamp
    libsarus.Logger.make_submessage_with_instance_id
    libsarus.Logger.make_submessage_with_system_name libsarus.Logger.make_submessage_with_log_level
title_run = refl

trace_run : log_error_trace show now warn failure (codes "core") quiet ≡ (
  ok tt,
  record {
    out = [];
    err =
        message_line title
        ∷ trace_line 0 (record { error_message = plain "outer"; function_name = "g" })
        ∷ trace_line 1 (record { error_message = plain "inner"; function_name = "f" })
        ∷ [];
  },
)
unfolding log_error_trace libsarus.Logger.log libsarus.Logger.write_line libsarus.Logger.print_trace
    full_log_message libsarus.Logger.make_submessage_with_timestamp
    libsarus.Logger.make_submessage_with_instance_id
    libsarus.Logger.make_submessage_with_system_name libsarus.Logger.make_submessage_with_log_level
trace_run = refl

log_error_trace-reverse_example : log_error_trace show now warn failure (codes "core") quiet ≡ (
  ok tt,
  record quiet {
    err = [] ++ (heading show now warn title ++ numbered 0 (reverse (get_error_trace failure)));
  },
)
log_error_trace-reverse_example =
    log_error_trace-reverse show now warn failure (codes "core") title quiet refl title_run
