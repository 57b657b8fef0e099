-- ===== src/Tests/Composed.antt =====
-- Runs of loggers over sinks.
use ngin_log.Base.{true, false, List, [], ◌∷◌, map, All, some, none, arith, length, ◌≡◌, refl}
use ngin_log.Level.{trace, debug, info, warn, error, codes}
use ngin_log.Types.Arena
use ngin_log.Types.Inline
use ngin_log.Types.{int64, LogRecordView}
use ngin_log.Builder.{new, message}
use ngin_log.Base.Int.{pos}
use ngin_log.Context.{ContextAttribute, destroy, reset, resize}
use ngin_log.Logger.{
  get_sinks_snapshot, make_record, merge, merge_context, merge_attributes, copy_context_text,
  copy_context_value, append_or_replace, replace, dispatch,
}
use ngin_log.Logger.Dispatch.{Delivered, noting, live}
use ngin_log.Logger.Filter.{IsEnabled}
use ngin_log.Logger.Reentrant.{Echo, echoing, counting, dispatch-counting}
use ngin_log.Logger.ToFile.{
  Request, requests, start, words, IsLoud, Logged, nothing, loud, silent, minimum, flushed_, pushed,
  ended, log_, set_runtime_min_, flush_, push_, end_,
}
use ngin_log.Logger.ToFile.Json.{json_options, json_lines-requests}
use ngin_log.Logger.ToFile.Written.{on_disk, on_disk-requests}
use ngin_log.Format.{epoch_nanoseconds}
use ngin_log.Format.Appended.{Fits}
use ngin_log.Format.Json.{JsonRecordFormatterOptions}
use ngin_log.Format.Json.Reader.{json_lines}
use ngin_log.Format.Json.ReadBack.{to_json_line}
use ngin_log.Files.{bytes_at}
use ngin_log.Files.FileSink.{FileSinkOptions}
use ngin_log.Files.FileSink.Lines.{write_, log_of}
use ngin_log.Files.Standard.{standard_formatters}
use ngin_log.Files.FileSink.Text.{TextRecordFormatter, text_formatters, default_options}
use ngin_log.Format.Text.{empty_cache}
use ngin_log.Tests.{platform, here, one_attribute, a_logger, idle}
use ngin_log.Tests.Files.{disk}

-- A sink that logs at a level that its logger lets through.
abbrev an_echo : Echo Delivered
an_echo = record {
  sinks = noting;
  compile_time_min = trace;
  level = error;
  words = codes "disk full";
  source = here;
  now = 1001;
  thread_id_hash = 7;
}

error-IsEnabled : IsEnabled trace error a_logger
error-IsEnabled = record {
  compiled = omega arith;
  running = omega arith;
  ordinary = λ e. ground arith;
}

dispatch-counting_example :
    dispatch (echoing an_echo) warn one_attribute here 1000 7 idle
    ≡ counting an_echo (length (live (get_sinks_snapshot a_logger))) idle
dispatch-counting_example =
    dispatch-counting an_echo warn one_attribute here 1000 7 idle refl error-IsEnabled (omega arith)

abbrev one_job : List ContextAttribute
one_job = record { key = codes "job"; value = int64 (pos 9) } ∷ []

-- A message at a level that is too low, one in a scope with an attribute, a callback that throws, and,
-- with a lower level, a further message.
abbrev some_requests : List Request
some_requests =
    log_ debug (words (codes "unseen")) here 1 7
    ∷ push_ one_job
    ∷ log_ info (words (codes "seen")) here 2 7
    ∷ end_ (record { start = 0; active = true })
    ∷ flush_
    ∷ log_ warn (λ b. (true, b)) here 3 7
    ∷ set_runtime_min_ debug
    ∷ log_ debug (words (codes "seen too")) here 4 7
    ∷ []

abbrev some_records : List LogRecordView
some_records =
    make_record (codes "Net") one_job info (message new (codes "seen")) here 2 7
    ∷ make_record (codes "Net") [] warn (message new (codes "[log-builder-threw]")) here 3 7
    ∷ make_record (codes "Net") [] debug (message new (codes "seen too")) here 4 7
    ∷ []

info-IsLoud : IsLoud trace 2 info
info-IsLoud = record { compiled = omega arith; running = omega arith; ordinary = λ e. ground arith }

warn-IsLoud : IsLoud trace 2 warn
warn-IsLoud = record { compiled = omega arith; running = omega arith; ordinary = λ e. ground arith }

debug-IsLoud : IsLoud trace 1 debug
debug-IsLoud = record {
  compiled = omega arith;
  running = omega arith;
  ordinary = λ e. ground arith;
}

debug_silent : ¬ IsLoud trace 2 debug
debug_silent h = let r = h.running in omega arith

some_requests-Logged : Logged trace (codes "Net") 2 [] some_requests some_records
unfolding destroy reset resize
some_requests-Logged = silent debug_silent (
    pushed (
      loud info-IsLoud (ended (flushed_ (loud warn-IsLoud (minimum (loud debug-IsLoud nothing)))))))

on_disk-requests_example :
    let k = text_formatters platform in
    let options : FileSinkOptions TextRecordFormatter = record {
      append = true;
      auto_flush = false;
      formatter = none;
    } in
    on_disk k
      (codes "a")
      (requests k trace some_requests (start k (codes "Net") info (codes "a") options disk))
    ≡ log_of k true
        (map write_ some_records)
        (default_options true, empty_cache)
        (bytes_at disk (disk.entry (codes "a")))
on_disk-requests_example =
    on_disk-requests (text_formatters platform) (codes "Net") trace info (codes "a")
      (record { append = true; auto_flush = false; formatter = none }) disk
      (default_options true, empty_cache) some_requests some_records refl refl some_requests-Logged

some_records-Fits : All Fits some_records
unfolding make_record merge merge_context merge_attributes copy_context_text copy_context_value
    append_or_replace replace Arena.copy_text message Inline.assign
some_records-Fits = (
  record {
    timestamp = omega arith;
    line = omega arith;
    thread_id_hash = omega arith;
    attributes = (omega arith, tt);
    truncated_attribute_count = ground arith;
    truncated_bytes = ground arith;
  },
  (
    record {
      timestamp = omega arith;
      line = omega arith;
      thread_id_hash = omega arith;
      attributes = tt;
      truncated_attribute_count = ground arith;
      truncated_bytes = ground arith;
    },
    (
      record {
        timestamp = omega arith;
        line = omega arith;
        thread_id_hash = omega arith;
        attributes = tt;
        truncated_attribute_count = ground arith;
        truncated_bytes = ground arith;
      },
      tt,
    ),
  ),
)

abbrev in_nanoseconds : JsonRecordFormatterOptions
in_nanoseconds = record { timestamp_style = epoch_nanoseconds }

json_lines-requests_example :
    let k = standard_formatters platform in
    let s = start k (codes "Net") info (codes "a") (json_options false true in_nanoseconds) disk in
    json_lines (on_disk k (codes "a") (requests k trace some_requests s))
    ≡ some (map (to_json_line in_nanoseconds) some_records)
json_lines-requests_example =
    json_lines-requests platform (codes "Net") trace info (codes "a") false true in_nanoseconds disk
      some_requests some_records refl refl refl some_requests-Logged some_records-Fits
