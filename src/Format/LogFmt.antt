-- ===== src/Format/LogFmt.antt =====
-- `LogFmtRecordFormatter` of src/NGIN/Log/RecordFormatter.cpp.
use ngin_log.Base.{Bool, ◌||◌, List, [], ◌∷◌, Bytes, ltb, if◌then◌else◌}
use ngin_log.Level.{to_string}
use ngin_log.Types.{LogAttribute, LogRecordView}
use ngin_log.Format.{
  ◌▸◌, TimestampStyle, Platform, push_back, append_literal, append_unsigned, append_escaped_text,
  append_logfmt_attribute_value, append_timestamp,
}

pub record LogFmtRecordFormatterOptions : Type 0 where
  pub include_source : Bool
  pub timestamp_style : TimestampStyle

unfoldable pub append_source : Bool → LogRecordView → Bytes → Bytes
append_source include_source r output =
    if include_source
    then (output
        ▸ append_literal " source=\""
        ▸ append_escaped_text r.source.file_name
        ▸ push_back b':'
        ▸ append_unsigned r.source.line
        ▸ push_back b'"')
    else output

unfoldable pub append_truncation : LogRecordView → Bytes → Bytes
append_truncation r output =
    if ltb 0 r.truncated_attribute_count || ltb 0 r.truncated_bytes
    then (output
        ▸ append_literal " truncated_attrs="
        ▸ append_unsigned r.truncated_attribute_count
        ▸ append_literal " truncated_bytes="
        ▸ append_unsigned r.truncated_bytes)
    else output

module _ (p : Platform) where
  unfoldable pub append_attributes : List (LogAttribute Bytes) → Bytes → Bytes
  append_attributes [] output = output
  append_attributes (x ∷ xs) output = append_attributes xs (
      output
      ▸ push_back b' '
      ▸ append_escaped_text x.key
      ▸ push_back b'='
      ▸ append_logfmt_attribute_value p x.value)

  -- The output before the final newline.
  unfoldable pub body : LogFmtRecordFormatterOptions → LogRecordView → Bytes
  unfolding append_source append_attributes append_truncation
  body o r =
      []
      ▸ append_literal "ts="
      ▸ append_timestamp p r.timestamp o.timestamp_style [] []
      ▸ append_literal " level="
      ▸ append_escaped_text (to_string r.level)
      ▸ append_literal " logger=\""
      ▸ append_escaped_text r.logger_name
      ▸ append_literal "\" msg=\""
      ▸ append_escaped_text r.message
      ▸ push_back b'"'
      ▸ append_literal " thread_id="
      ▸ append_unsigned r.thread_id_hash
      ▸ append_source o.include_source r
      ▸ append_attributes r.attributes
      ▸ append_truncation r

  -- `LogFmtRecordFormatter::Format`.
  unfoldable pub format : LogFmtRecordFormatterOptions → LogRecordView → Bytes
  unfolding body
  format o r = push_back b'\n' (body o r)
