-- ===== src/Logger/ToFile/Json.antt =====
-- A logger over a file sink that writes JSON: Logger/ToFile with `JsonRecordFormatter` of
-- src/NGIN/Log/RecordFormatter.cpp.
use ngin_log.Base.{
  Bool, true, false, List, [], map, some, Bytes, All, if◌then◌else◌, flatten, ◌++◌, ◌≡◌, refl, ap,
  ◌∙◌,
}
use ngin_log.Level.{LogLevel, to_uint8}
use ngin_log.Types.{LogRecordView}
use ngin_log.Format.{Platform, is_iso}
use ngin_log.Format.Appended.{Fits}
use ngin_log.Format.Json.{JsonRecordFormatterOptions, format}
use ngin_log.Format.Json.Reader.{json_lines}
use ngin_log.Format.Json.ReadBack.{to_json_line}
use ngin_log.Format.Json.ReadFile.{json_lines-format}
use ngin_log.Files.{FileSystem, bytes_at}
use ngin_log.Files.FileSink.{FileSinkOptions}
use ngin_log.Format.Standard.{RecordFormatter, json_formatter}
use ngin_log.Files.Standard.{standard_formatters, log_of-format}
use ngin_log.Logger.ToFile.{Request, requests, start, Logged}
use ngin_log.Logger.ToFile.Written.{on_disk, on_disk-requests}

-- The options of a file sink with a JSON formatter.
abbrev pub json_options :
    (append auto_flush : Bool) → JsonRecordFormatterOptions → FileSinkOptions RecordFormatter
json_options append auto_flush o = record {
  append = append;
  auto_flush = auto_flush;
  formatter = some (json_formatter o);
}

-- A logger is made around one file sink that writes JSON with a count since the epoch, on a host that
-- allows the sink its path, and the sink starts from an empty file. The program logs by `Log`, with callbacks
-- that fill the builder and may throw, sets the logger's level, flushes it, and opens and ends context
-- scopes. Behind a last flush of the logger a reader of JSON finds in the file one line for each call that
-- was loud enough when it was made, in their order, and in it what stands in the call's record: whatever
-- bytes its texts hold, which the reader takes as bytes and does not check to be UTF-8, if its numbers have
-- the widths of their types and it has no double.
pub json_lines-requests :
    (p : Platform) (name : Bytes) (compile_time_min runtime_min : LogLevel) (path : Bytes)
    (append auto_flush : Bool) (o : JsonRecordFormatterOptions) (fs : FileSystem)
    (qs : List Request) (rs : List LogRecordView)
    → is_iso o.timestamp_style ≡ false
    → fs.can_open path ≡ true
    → (if append then bytes_at fs (fs.entry path) else []) ≡ []
    → Logged compile_time_min name (to_uint8 runtime_min) [] qs rs
    → All Fits rs
    → let k = standard_formatters p in
      let s = start k name runtime_min path (json_options append auto_flush o) fs in
      json_lines (on_disk k path (requests k compile_time_min qs s))
      ≡ some (map (to_json_line o) rs)
json_lines-requests p name compile_time_min runtime_min path append auto_flush o fs qs rs e opens
      empty h fits =
    ap json_lines (
      on_disk-requests (standard_formatters p) name compile_time_min runtime_min path
        (json_options append auto_flush o) fs (json_formatter o) qs rs opens refl h
      ∙ log_of-format p append o rs _
      ∙ ap (λ b. b ++ flatten (map (format p o) rs)) empty)
    ∙ json_lines-format p o e rs fits
