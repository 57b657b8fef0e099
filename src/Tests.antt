-- ===== src/Tests.antt =====
-- The data on which the tests run; the children hold the tests, by the part they are about. Nothing
-- here models code.
mod Records
mod Formats
mod Loggers
mod Registries
mod Sinks
mod Files
mod Composed
mod Pipes
use ngin_log.Base.{
  ℕ, Bool, true, false, List, [], ◌∷◌, Option, none, some, Bytes, ◌==◌, bytes_eq, not,
}
use ngin_log.Base.Int.{pos, negsuc}
use ngin_log.Level.{LogLevel, info, warn, codes}
use ngin_log.Types.{tag, int64, text, LogAttribute, default, SourceLocation, LogRecordView}
use ngin_log.Builder.{RecordBuilder, new, attr, attr_default, string_view, signed}
use ngin_log.Format.{Platform}
use ngin_log.Context.{ContextAttribute}
use ngin_log.Logger.{Logger, State}
use ngin_log.Logger.Dispatch.{Delivered}

-- A builder with one attribute, and one with all eight.
abbrev pub one_attribute : RecordBuilder
one_attribute = attr new (codes "user") (string_view (codes "ann")) default

abbrev pub with_numbers : List Bytes → RecordBuilder → RecordBuilder
with_numbers [] b = b
with_numbers (key ∷ keys) b = with_numbers keys (attr b key (signed (pos 2)) default)

abbrev pub more_keys : List Bytes
more_keys = codes "b" ∷ codes "c" ∷ codes "d" ∷ codes "e" ∷ codes "f" ∷ codes "g" ∷ codes "h" ∷ []

abbrev pub eight_attributes : RecordBuilder
eight_attributes = with_numbers more_keys one_attribute

abbrev pub here : SourceLocation
here = record { file_name = codes "main.cpp"; line = 42 }

abbrev pub a_record : LogRecordView
a_record = record {
  timestamp = 1700000000123456789;
  level = warn;
  logger_name = codes "Net.Http";
  message = b'a' ∷ b'\n' ∷ b'"' ∷ [];
  source = here;
  thread_id_hash = 7;
  attributes = record { key = codes "k"; value = text (codes "v w"); kind = tag } ∷ [];
  truncated_attribute_count = 1;
  truncated_bytes = 0;
}

-- A platform that prints every double as 1.5 and every second as one date.
abbrev pub platform : Platform
platform = record {
  format_double = λ d. some (codes "1.5");
  utc_time = λ s. codes "2023-11-14T22:13:20";
  local_time = λ s. codes "2023-11-14T23:13:20";
  local_offset = λ s. codes "+01:00";
}

abbrev pub a_context : List ContextAttribute
a_context =
    record { key = codes "user"; value = text (codes "root") }
    ∷ record { key = codes "job"; value = int64 (pos 9) }
    ∷ []

-- A logger with two sinks and a null pointer between them.
abbrev pub a_logger : Logger
a_logger = record {
  name = codes "Net";
  runtime_min = 2;
  active_sinks = some (some 1 ∷ none ∷ some 2 ∷ []);
  sink_error_count = 5;
}

abbrev pub idle : State Delivered
idle = record { logger = a_logger; in_dispatch = false; context = a_context; world = [] }

abbrev pub dispatching : State Delivered
dispatching = record idle { in_dispatch = true }
