-- ===== src/Format/Text.antt =====
-- `TextRecordFormatter` of src/NGIN/Log/RecordFormatter.cpp, with its cache of the calendar time.
-- The cache's mutex makes one step of the test and the fill.
pub mod Cache
use ngin_log.Base.{
  ℕ, ◌+◌, ◌/◌, Bool, true, false, not, ◌&&◌, ◌||◌, List, [], ◌∷◌, ◌++◌, Bytes, ltb, ◌==◌,
  if◌then◌else◌,
}
use ngin_log.Base.Int.{ℤ, pos, negsuc}
use ngin_log.Level.{codes, to_string}
use ngin_log.Types.{LogAttribute, LogRecordView}
use ngin_log.Format.{
  ◌▸◌, TimestampStyle, is_iso, Platform, push_back, append_string, append_literal, append_unsigned,
  append_escaped_text, append_attribute_value, fill_cached_time_parts, append_timestamp,
}

pub record TextRecordFormatterOptions : Type 0 where
  pub include_source : Bool
  pub timestamp_style : TimestampStyle

pub record TimestampCache : Type 0 where
  pub second : ℤ
  pub prefix : Bytes
  pub suffix : Bytes

-- The cache of a new formatter: second -1 and empty texts.
abbrev pub empty_cache : TimestampCache
empty_cache = record { second = negsuc 0; prefix = []; suffix = [] }

-- `==` of 64-bit signed numbers.
abbrev pub int_eq : ℤ → ℤ → Bool
int_eq (pos a) (pos b) = a == b
int_eq (negsuc a) (negsuc b) = a == b
int_eq _ _ = false

-- The truncation note of a record.
unfoldable pub append_truncation : LogRecordView → Bytes → Bytes
append_truncation r output =
    if ltb 0 r.truncated_attribute_count || ltb 0 r.truncated_bytes
    then (output
        ▸ append_literal " [truncated attrs="
        ▸ append_unsigned r.truncated_attribute_count
        ▸ append_literal ", bytes="
        ▸ append_unsigned r.truncated_bytes
        ▸ push_back b']')
    else output

unfoldable pub append_source : Bool → LogRecordView → Bytes → Bytes
append_source include_source r output =
    if include_source
    then (output
        ▸ append_literal " ("
        ▸ append_escaped_text r.source.file_name
        ▸ push_back b':'
        ▸ append_unsigned r.source.line
        ▸ push_back b')')
    else output

module _ (p : Platform) where
  -- The loop over the attributes; the flag is `i > 0`.
  unfoldable pub append_attributes : Bool → List (LogAttribute Bytes) → Bytes → Bytes
  append_attributes later [] output = output
  append_attributes later (x ∷ xs) output = append_attributes true xs (
      (if later then append_literal ", " output else output)
      ▸ append_escaped_text x.key
      ▸ push_back b'='
      ▸ append_attribute_value p x.value)

  unfoldable pub append_attribute_list : List (LogAttribute Bytes) → Bytes → Bytes
  unfolding append_attributes
  append_attribute_list [] output = output
  append_attribute_list (x ∷ xs) output =
      output ▸ append_literal " {" ▸ append_attributes false (x ∷ xs) ▸ push_back b'}'

  -- The cache after the test under the lock.
  unfoldable pub refresh : TimestampStyle → TimestampCache → ℕ → TimestampCache
  refresh style cache second =
      if is_iso style && not (int_eq cache.second (pos second))
      then (let (prefix, suffix) = fill_cached_time_parts p style second in
          record { second = pos second; prefix = prefix; suffix = suffix })
      else cache

  -- The output before the final newline, from the cache as the lock leaves it.
  unfoldable pub body : TextRecordFormatterOptions → TimestampCache → LogRecordView → Bytes
  unfolding append_attribute_list append_truncation append_source
  body o cache r =
      []
      ▸ push_back b'['
      ▸ append_timestamp p r.timestamp o.timestamp_style cache.prefix cache.suffix
      ▸ append_literal "]["
      ▸ append_string (to_string r.level)
      ▸ append_literal "]["
      ▸ append_escaped_text r.logger_name
      ▸ append_literal "] "
      ▸ append_escaped_text r.message
      ▸ append_attribute_list r.attributes
      ▸ append_truncation r
      ▸ append_source o.include_source r

  -- `TextRecordFormatter::Format`: the output and the cache that it leaves.
  unfoldable pub format :
      TextRecordFormatterOptions → TimestampCache → LogRecordView → Bytes × TimestampCache
  unfolding refresh body
  format o cache r =
      let cache' = refresh o.timestamp_style cache (r.timestamp / 1000000000) in
      (push_back b'\n' (body o cache' r), cache')
