-- ===== src/Format/Json.antt =====
-- `JsonRecordFormatter` of src/NGIN/Log/RecordFormatter.cpp.
pub mod Reader
pub mod Steps
pub mod Members
pub mod ReadBack
pub mod ReadFile
pub mod IsoStyle
use ngin_log.Base.{Bool, true, false, List, [], ◌∷◌, Bytes, if◌then◌else◌}
use ngin_log.Level.{to_string}
use ngin_log.Types.{LogAttribute, LogRecordView}
use ngin_log.Format.{
  ◌▸◌, TimestampStyle, Platform, push_back, append_literal, append_unsigned,
  append_json_escaped_text, append_json_attribute_value, append_timestamp,
}

pub record JsonRecordFormatterOptions : Type 0 where
  pub timestamp_style : TimestampStyle

module _ (p : Platform) where
  -- The loop over the attributes; the flag is `i > 0`.
  unfoldable pub append_attributes : Bool → List (LogAttribute Bytes) → Bytes → Bytes
  append_attributes later [] output = output
  append_attributes later (x ∷ xs) output = append_attributes true xs (
      (if later then push_back b',' output else output)
      ▸ push_back b'"'
      ▸ append_json_escaped_text x.key
      ▸ append_literal "\":"
      ▸ append_json_attribute_value p x.value)

  -- The output up to the closing brace.
  unfoldable pub body : JsonRecordFormatterOptions → LogRecordView → Bytes
  unfolding append_attributes
  body o r =
      []
      ▸ append_literal "{\"timestamp\":"
      ▸ append_timestamp p r.timestamp o.timestamp_style [] []
      ▸ append_literal ",\"level\":\""
      ▸ append_json_escaped_text (to_string r.level)
      ▸ append_literal "\",\"logger\":\""
      ▸ append_json_escaped_text r.logger_name
      ▸ append_literal "\",\"message\":\""
      ▸ append_json_escaped_text r.message
      ▸ append_literal "\",\"source\":\""
      ▸ append_json_escaped_text r.source.file_name
      ▸ push_back b':'
      ▸ append_unsigned r.source.line
      ▸ append_literal "\",\"thread_id\":"
      ▸ append_unsigned r.thread_id_hash
      ▸ append_literal ",\"attributes\":{"
      ▸ append_attributes false r.attributes
      ▸ append_literal "},\"truncated_attributes\":"
      ▸ append_unsigned r.truncated_attribute_count
      ▸ append_literal ",\"truncated_bytes\":"
      ▸ append_unsigned r.truncated_bytes
      ▸ push_back b'}'

  -- `JsonRecordFormatter::Format`; its last literal is the brace and the newline.
  unfoldable pub format : JsonRecordFormatterOptions → LogRecordView → Bytes
  unfolding body
  format o r = push_back b'\n' (body o r)
