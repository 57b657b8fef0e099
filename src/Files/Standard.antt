-- ===== src/Files/Standard.antt =====
-- The formatters of src/NGIN/Log/RecordFormatter.cpp as what a file sink holds.
use ngin_log.Base.{List, [], ◌∷◌, ◌++◌, map, flatten, some, Bool, Bytes, ◌≡◌, sym, ◌∙◌}
use mathlib.Core.List.{append_assoc, append-nil}
use ngin_log.Types.{LogRecordView}
use ngin_log.Format.{Platform}
use ngin_log.Format.Standard.{RecordFormatter, text_formatter, json_formatter, format_record}
use ngin_log.Format.Text.{empty_cache}
use ngin_log.Format.Json
use ngin_log.Format.Json.{JsonRecordFormatterOptions}
use ngin_log.Files.{Formatters}
use ngin_log.Files.FileSink.Lines.{write_, log_of}
use ngin_log.Files.FileSink.Text.{default_options}

abbrev pub standard_formatters : Platform → Formatters RecordFormatter
standard_formatters p = record {
  format = format_record p;
  make_text = λ include_source. some (text_formatter (default_options include_source) empty_cache);
}

-- The log of a sink with a JSON formatter.
pub log_of-format :
    (p : Platform) (append : Bool) (o : JsonRecordFormatterOptions) (rs : List LogRecordView)
    (b : Bytes)
    → log_of (standard_formatters p) append (map write_ rs) (json_formatter o) b
      ≡ b ++ flatten (map (Json.format p o) rs)
unfolding log_of format_record
log_of-format p append o [] b = sym (append-nil b)
log_of-format p append o (r ∷ rs) b =
    log_of-format p append o rs (b ++ Json.format p o r)
    ∙ append_assoc b (Json.format p o r) (flatten (map (Json.format p o) rs))
