-- ===== src/Format/Json/ReadBack.antt =====
-- What the reader of Format/Json/Reader gets out of a line of `JsonRecordFormatter`,
-- src/NGIN/Log/RecordFormatter.cpp: every number and text of the record.
use ngin_log.Base.{
  ℕ, ◌/◌, ◌^◌, ◌<◌, false, [], ◌∷◌, ◌++◌, map, some, Bytes, All, arith, ◌≡◌, refl, sym, ap, ◌∙◌,
}
use mathlib.Core.List.{append_assoc}
use ngin_log.Base.Digits.{digits}
use ngin_log.Level.{codes, to_string}
use ngin_log.Types.{LogRecordView}
use ngin_log.Format.{
  Platform, TimestampStyle, epoch_nanoseconds, epoch_milliseconds, iso8601_utc, iso8601_local,
  is_iso, append_timestamp, append_json_escaped_char,
}
use ngin_log.Format.Appended.{Adds, ◌⨟◌, fixed, unsigned, json_text, Fits}
use ngin_log.Format.Escape.{json_escaped, json_escape}
use ngin_log.Format.Json.{JsonRecordFormatterOptions, body, format}
use ngin_log.Format.Json.Reader.{return, natural, quoted, object, JsonLine, json_line}
use ngin_log.Format.Json.Steps.{
  then_, literal_lem, quoted_lem, IsDecimal, natural_lem, IsDecimal-digits,
}
use ngin_log.Format.Json.Members.{
  append_attributes-attributes_shown, attributes_then, shown-then_, to_member, object_lem,
}

-- The number that a style without a calendar time shows: nanoseconds or milliseconds.
abbrev pub epoch_count : TimestampStyle → ℕ → ℕ
epoch_count epoch_milliseconds t = t / 1000000
epoch_count _ t = t

timestamp_shown :
    (p : Platform) (style : TimestampStyle) (t : ℕ)
    → is_iso style ≡ false
    → t < 2 ^ 64
    → Adds (append_timestamp p t style [] []) (digits 10 (epoch_count style t))
unfolding append_timestamp
timestamp_shown p epoch_nanoseconds t e h = unsigned t h
timestamp_shown p epoch_milliseconds t e h = unsigned (t / 1000000) (omega arith)
timestamp_shown p iso8601_utc t e h = cc
timestamp_shown p iso8601_local t e h = cc

json_escaped-append : (s t : Bytes) → json_escaped (s ++ t) ≡ json_escaped s ++ json_escaped t
unfolding json_escaped
json_escaped-append [] t = refl
json_escaped-append (c ∷ cs) t =
    rw (json_escaped-append cs t)
      (sym (append_assoc (json_escape c) (json_escaped cs) (json_escaped t)))

decimal-json_escape : (c : ℕ) → IsDecimal c → json_escape c ≡ c ∷ []
unfolding append_json_escaped_char
decimal-json_escape c h = ground arith

decimal-json_escaped : (s : Bytes) → All IsDecimal s → json_escaped s ≡ s
unfolding json_escaped
decimal-json_escaped [] h = refl
decimal-json_escaped (c ∷ cs) (h, hs) =
    rw (decimal-json_escape c h, decimal-json_escaped cs hs) refl

-- The source as a line shows it.
abbrev pub source_words : LogRecordView → Bytes
source_words r = r.source.file_name ++ b':' ∷ digits 10 r.source.line

source_words_lem :
    (name : Bytes) (line : ℕ)
    → json_escaped (name ++ b':' ∷ digits 10 line) ≡ json_escaped name ++ b':' ∷ digits 10 line
unfolding append_json_escaped_char json_escaped
source_words_lem name line =
    json_escaped-append name (b':' ∷ digits 10 line)
    ∙ ap (λ t. json_escaped name ++ b':' ∷ t)
        (decimal-json_escaped (digits 10 line) (IsDecimal-digits line))

source_lem :
    (name : Bytes) (line : ℕ) (rest : Bytes)
    → quoted (b'"' ∷ (json_escaped name ++ (b':' ∷ (digits 10 line ++ b'"' ∷ rest))))
      ≡ some (name ++ b':' ∷ digits 10 line, rest)
source_lem name line rest =
    ap (λ s. quoted (b'"' ∷ s))
      (sym (append_assoc (json_escaped name) (b':' ∷ digits 10 line) (b'"' ∷ rest))
        ∙ ap (λ s. s ++ b'"' ∷ rest) (sym (source_words_lem name line)))
    ∙ quoted_lem (name ++ b':' ∷ digits 10 line) rest

-- What a line is to say of a record.
abbrev pub to_json_line : JsonRecordFormatterOptions → LogRecordView → JsonLine
to_json_line o r = record {
  timestamp = epoch_count o.timestamp_style r.timestamp;
  level = to_string r.level;
  logger = r.logger_name;
  message = r.message;
  source = source_words r;
  thread_id = r.thread_id_hash;
  attributes = map to_member r.attributes;
  truncated_attributes = r.truncated_attribute_count;
  truncated_bytes = r.truncated_bytes;
}

-- The line from the source on, in the form that is read.
unfoldable pub from_attributes : LogRecordView → Bytes → Bytes
from_attributes r rest =
    codes ",\"attributes\":{"
    ++ attributes_then false r.attributes (
        codes ",\"truncated_attributes\":"
        ++ (digits 10 r.truncated_attribute_count
            ++ (codes ",\"truncated_bytes\":"
                ++ (digits 10 r.truncated_bytes ++ (codes "}\n" ++ rest)))))

unfoldable pub line_shown : JsonRecordFormatterOptions → LogRecordView → Bytes → Bytes
unfolding from_attributes
line_shown o r rest =
    codes "{\"timestamp\":"
    ++ (digits 10 (epoch_count o.timestamp_style r.timestamp)
        ++ (codes ",\"level\":\""
            ++ (json_escaped (to_string r.level)
                ++ (codes "\",\"logger\":\""
                    ++ (json_escaped r.logger_name
                        ++ (codes "\",\"message\":\""
                            ++ (json_escaped r.message
                                ++ (codes "\",\"source\":\""
                                    ++ (json_escaped r.source.file_name
                                        ++ (b':'
                                            ∷ (digits 10 r.source.line
                                                ++ (codes "\",\"thread_id\":"
                                                    ++ (digits 10 r.thread_id_hash
                                                        ++ from_attributes r rest)))))))))))))

pub format-line_shown :
    (p : Platform) (o : JsonRecordFormatterOptions) (r : LogRecordView) (rest : Bytes)
    → is_iso o.timestamp_style ≡ false
    → Fits r
    → format p o r ++ rest ≡ line_shown o r rest
unfolding format body line_shown from_attributes
format-line_shown p o r rest e h =
    (fixed (codes "{\"timestamp\":")
        ⨟ timestamp_shown p o.timestamp_style r.timestamp e h.timestamp
        ⨟ fixed (codes ",\"level\":\"")
        ⨟ json_text (to_string r.level)
        ⨟ fixed (codes "\",\"logger\":\"")
        ⨟ json_text r.logger_name
        ⨟ fixed (codes "\",\"message\":\"")
        ⨟ json_text r.message
        ⨟ fixed (codes "\",\"source\":\"")
        ⨟ json_text r.source.file_name
        ⨟ fixed (b':' ∷ [])
        ⨟ unsigned r.source.line (omega (arith, h.line))
        ⨟ fixed (codes "\",\"thread_id\":")
        ⨟ unsigned r.thread_id_hash h.thread_id_hash
        ⨟ fixed (codes ",\"attributes\":{")
        ⨟ append_attributes-attributes_shown p false r.attributes h.attributes
        ⨟ fixed (codes "},\"truncated_attributes\":")
        ⨟ unsigned r.truncated_attribute_count (omega (arith, h.truncated_attribute_count))
        ⨟ fixed (codes ",\"truncated_bytes\":")
        ⨟ unsigned r.truncated_bytes (omega (arith, h.truncated_bytes))
        ⨟ fixed (codes "}")
        ⨟ fixed (codes "\n")
        ⨟ fixed rest).add
      []
    ∙ (rw (shown-then_ false r.attributes) refl)

-- A line of the JSON formatter in a style that shows a count since the epoch, for a record whose numbers
-- have the widths of their types and which has no double among its attributes: a reader of JSON finds the
-- count, the level's name, the logger's name, the message, the source as name and line, the thread's
-- number, each attribute with its key and value in order, and the two truncation counts, whatever bytes
-- the texts hold; and it is left with what stands behind the line.
pub json_line-format :
    (p : Platform) (o : JsonRecordFormatterOptions) (r : LogRecordView) (rest : Bytes)
    → is_iso o.timestamp_style ≡ false
    → Fits r
    → json_line (format p o r ++ rest) ≡ some (to_json_line o r, rest)
unfolding json_line return line_shown from_attributes
json_line-format p o r rest e h =
    ap json_line (format-line_shown p o r rest e h)
    ∙ then_ _ _ (literal_lem (codes "{\"timestamp\":") _)
    ∙ then_ natural _ (natural_lem (epoch_count o.timestamp_style r.timestamp) _ refl)
    ∙ then_ _ _ (literal_lem (codes ",\"level\":") _)
    ∙ then_ quoted _ (quoted_lem (to_string r.level) _)
    ∙ then_ _ _ (literal_lem (codes ",\"logger\":") _)
    ∙ then_ quoted _ (quoted_lem r.logger_name _)
    ∙ then_ _ _ (literal_lem (codes ",\"message\":") _)
    ∙ then_ quoted _ (quoted_lem r.message _)
    ∙ then_ _ _ (literal_lem (codes ",\"source\":") _)
    ∙ then_ quoted _ (source_lem r.source.file_name r.source.line _)
    ∙ then_ _ _ (literal_lem (codes ",\"thread_id\":") _)
    ∙ then_ natural _ (natural_lem r.thread_id_hash _ refl)
    ∙ then_ _ _ (literal_lem (codes ",\"attributes\":") _)
    ∙ then_ object _ (object_lem r.attributes _ h.attributes)
    ∙ then_ _ _ (literal_lem (codes ",\"truncated_attributes\":") _)
    ∙ then_ natural _ (natural_lem r.truncated_attribute_count _ refl)
    ∙ then_ _ _ (literal_lem (codes ",\"truncated_bytes\":") _)
    ∙ then_ natural _ (natural_lem r.truncated_bytes _ refl)
    ∙ then_ _ _ (literal_lem (codes "}\n") rest)
