-- ===== src/Format/RecordLine.antt =====
-- src/NGIN/Log/Sinks/RecordLine.hpp: the line of a record by its own formatting, which escapes nothing.
-- `std::to_string` of a double is a parameter.
pub mod Equal
use ngin_log.Base.{ℕ, Bool, true, false, ◌||◌, List, [], ◌∷◌, ◌++◌, Bytes, ltb, if◌then◌else◌}
use ngin_log.Base.Digits.{digits}
use ngin_log.Level.{codes, to_string}
use ngin_log.Types.{
  AttributeValue, int64, uint64, double, boolean, text, LogAttribute, LogRecordView,
}
use ngin_log.Builder.{decimal}
use ngin_log.Format.{◌▸◌, push_back, append_string, append_literal}

-- The truncation note and the source.
unfoldable pub append_line_truncation : LogRecordView → Bytes → Bytes
append_line_truncation r line =
    if ltb 0 r.truncated_attribute_count || ltb 0 r.truncated_bytes
    then (line
        ▸ append_literal " [truncated attrs="
        ▸ append_string (digits 10 r.truncated_attribute_count)
        ▸ append_literal ", bytes="
        ▸ append_string (digits 10 r.truncated_bytes)
        ▸ append_literal "]")
    else line

unfoldable pub append_line_source : Bool → LogRecordView → Bytes → Bytes
append_line_source include_source r line =
    if include_source
    then (line
        ▸ append_literal " ("
        ▸ append_string r.source.file_name
        ▸ push_back b':'
        ▸ append_string (digits 10 r.source.line)
        ▸ push_back b')')
    else line

module _ (to_string_double : ℕ → Bytes) where
  -- `AppendAttributeValue`.
  unfoldable pub append_line_value : AttributeValue Bytes → Bytes → Bytes
  unfolding decimal
  append_line_value (int64 v) line = append_string (decimal v) line
  append_line_value (uint64 v) line = append_string (digits 10 v) line
  append_line_value (double v) line = append_string (to_string_double v) line
  append_line_value (boolean v) line =
      append_string (if v then codes "true" else codes "false") line
  append_line_value (text v) line = line ▸ push_back b'"' ▸ append_string v ▸ push_back b'"'

  -- The loop over the attributes; the flag is `i > 0`.
  unfoldable pub append_line_attributes : Bool → List (LogAttribute Bytes) → Bytes → Bytes
  unfolding append_line_value
  append_line_attributes later [] line = line
  append_line_attributes later (x ∷ xs) line = append_line_attributes true xs (
      (if later then append_literal ", " line else line)
      ▸ append_string x.key
      ▸ push_back b'='
      ▸ append_line_value x.value)

  unfoldable pub append_line_attribute_list : List (LogAttribute Bytes) → Bytes → Bytes
  unfolding append_line_attributes
  append_line_attribute_list [] line = line
  append_line_attribute_list (x ∷ xs) line =
      line ▸ append_literal " {" ▸ append_line_attributes false (x ∷ xs) ▸ push_back b'}'

  -- `FormatRecordLine`.
  unfoldable pub format_record_line : LogRecordView → Bool → Bytes
  unfolding append_line_attribute_list append_line_truncation append_line_source
  format_record_line r include_source =
      []
      ▸ push_back b'['
      ▸ append_string (digits 10 r.timestamp)
      ▸ append_literal "]["
      ▸ append_string (to_string r.level)
      ▸ append_literal "]["
      ▸ append_string r.logger_name
      ▸ append_literal "] "
      ▸ append_string r.message
      ▸ append_line_attribute_list r.attributes
      ▸ append_line_truncation r
      ▸ append_line_source include_source r
      ▸ push_back b'\n'
