-- ===== src/Format/Lines.antt =====
-- Each formatter's output is one line, whatever the record holds.
use ngin_log.Base.{
  ℕ, Bool, true, false, ◌||◌, List, [], ◌∷◌, ◌++◌, map, Bytes, All, arith, ltb, if◌then◌else◌, refl,
  inl,
}
use ngin_log.Level.{LogLevel, to_string, codes}
use ngin_log.Types.{AttributeValue, LogAttribute, LogRecordView}
use ngin_log.Format.{
  TimestampStyle, Platform, append_unsigned, append_escaped_text, append_json_escaped_text,
  append_attribute_value, append_json_attribute_value, append_logfmt_attribute_value,
  append_timestamp,
}
use ngin_log.Format.Escape.{IsPrintable}
use ngin_log.Format.Output
use ngin_log.Format.Output.{IsPlain, IsLine, grow}
use ngin_log.Format.Text
use ngin_log.Format.Text.{TextRecordFormatterOptions, empty_cache}
use ngin_log.Format.Text.Cache.{format_all, format_all_lem, body-refresh}
use ngin_log.Format.Json
use ngin_log.Format.Json.{JsonRecordFormatterOptions}
use ngin_log.Format.LogFmt
use ngin_log.Format.LogFmt.{LogFmtRecordFormatterOptions}

-- A step that adds no control byte to an output that has none.
record Keeps (f : Bytes → Bytes) : Type 0 where
  keep : (output : Bytes) → IsPrintable output → IsPrintable (f output)

infixl 5 ◌⨟◌
◌⨟◌ : {f g : Bytes → Bytes} → Keeps f → Keeps g → Keeps (λ output. g (f output))
k ⨟ l = record { keep = λ output h. l.keep _ (k.keep output h) }

fixed : (s : Bytes) → IsPrintable s → Keeps (λ output. output ++ s)
fixed s hs = record { keep = λ output h. grow output s h hs }

unsigned : (n : ℕ) → Keeps (append_unsigned n)
unsigned n = record { keep = λ output h. Output.append_unsigned-IsPrintable output h n }

text : (s : Bytes) → Keeps (append_escaped_text s)
text s = record { keep = λ output h. Output.append_escaped_text-IsPrintable output h s }

json_text : (s : Bytes) → Keeps (append_json_escaped_text s)
json_text s = record { keep = λ output h. Output.append_json_escaped_text-IsPrintable output h s }

level_name : (level : LogLevel) → Keeps (λ output. output ++ to_string level)
level_name level = fixed (to_string level) (Output.to_string-IsPrintable level)

only_if :
    (b : Bool) (f : Bytes → Bytes) → Keeps f → Keeps (λ output. if b then f output else output)
only_if true f k = k
only_if false f k = record { keep = λ output h. h }

module _ (p : Platform) (plain : IsPlain p) where
  timestamp : (t : ℕ) (style : TimestampStyle) → Keeps (append_timestamp p t style [] [])
  timestamp t style = record {
    keep = λ output h. Output.append_timestamp-IsPrintable p plain output h t style;
  }

  value : (v : AttributeValue Bytes) → Keeps (append_attribute_value p v)
  value v = record {
    keep = λ output h. Output.append_attribute_value-IsPrintable p plain output h v;
  }

  json_value : (v : AttributeValue Bytes) → Keeps (append_json_attribute_value p v)
  json_value v = record {
    keep = λ output h. Output.append_json_attribute_value-IsPrintable p plain output h v;
  }

  logfmt_value : (v : AttributeValue Bytes) → Keeps (append_logfmt_attribute_value p v)
  logfmt_value v = record {
    keep = λ output h. Output.append_logfmt_attribute_value-IsPrintable p plain output h v;
  }

  text_attributes :
      (later : Bool) (xs : List (LogAttribute Bytes)) → Keeps (Text.append_attributes p later xs)
  unfolding Text.append_attributes
  text_attributes later [] = record { keep = λ output h. h }
  text_attributes later (x ∷ xs) =
      only_if later _ (fixed (codes ", ") (omega arith))
      ⨟ text x.key
      ⨟ fixed (b'=' ∷ []) (omega arith)
      ⨟ value x.value
      ⨟ text_attributes true xs

  text_attribute_list : (xs : List (LogAttribute Bytes)) → Keeps (Text.append_attribute_list p xs)
  unfolding Text.append_attribute_list
  text_attribute_list [] = record { keep = λ output h. h }
  text_attribute_list (x ∷ xs) =
      fixed (codes " {") (omega arith)
      ⨟ text_attributes false (x ∷ xs)
      ⨟ fixed (b'}' ∷ []) (omega arith)

  text_truncation : (r : LogRecordView) → Keeps (Text.append_truncation r)
  unfolding Text.append_truncation
  text_truncation r = only_if (ltb 0 r.truncated_attribute_count || ltb 0 r.truncated_bytes) _ (
      fixed (codes " [truncated attrs=") (omega arith)
      ⨟ unsigned r.truncated_attribute_count
      ⨟ fixed (codes ", bytes=") (omega arith)
      ⨟ unsigned r.truncated_bytes
      ⨟ fixed (b']' ∷ []) (omega arith))

  text_source : (b : Bool) (r : LogRecordView) → Keeps (Text.append_source b r)
  unfolding Text.append_source
  text_source b r = only_if b _ (
      fixed (codes " (") (omega arith)
      ⨟ text r.source.file_name
      ⨟ fixed (b':' ∷ []) (omega arith)
      ⨟ unsigned r.source.line
      ⨟ fixed (b')' ∷ []) (omega arith))

  text_body :
      (o : TextRecordFormatterOptions) (r : LogRecordView)
      → IsPrintable (Text.body p o empty_cache r)
  unfolding Text.body
  text_body o r =
      (fixed (b'[' ∷ []) (omega arith)
          ⨟ timestamp r.timestamp o.timestamp_style
          ⨟ fixed (codes "][") (omega arith)
          ⨟ level_name r.level
          ⨟ fixed (codes "][") (omega arith)
          ⨟ text r.logger_name
          ⨟ fixed (codes "] ") (omega arith)
          ⨟ text r.message
          ⨟ text_attribute_list r.attributes
          ⨟ text_truncation r
          ⨟ text_source o.include_source r).keep
        [] tt

  json_attributes :
      (later : Bool) (xs : List (LogAttribute Bytes)) → Keeps (Json.append_attributes p later xs)
  unfolding Json.append_attributes
  json_attributes later [] = record { keep = λ output h. h }
  json_attributes later (x ∷ xs) =
      only_if later _ (fixed (b',' ∷ []) (omega arith))
      ⨟ fixed (b'"' ∷ []) (omega arith)
      ⨟ json_text x.key
      ⨟ fixed (codes "\":") (omega arith)
      ⨟ json_value x.value
      ⨟ json_attributes true xs

  json_body : (o : JsonRecordFormatterOptions) (r : LogRecordView) → IsPrintable (Json.body p o r)
  unfolding Json.body
  json_body o r =
      (fixed (codes "{\"timestamp\":") (omega arith)
          ⨟ timestamp r.timestamp o.timestamp_style
          ⨟ fixed (codes ",\"level\":\"") (omega arith)
          ⨟ json_text (to_string r.level)
          ⨟ fixed (codes "\",\"logger\":\"") (omega arith)
          ⨟ json_text r.logger_name
          ⨟ fixed (codes "\",\"message\":\"") (omega arith)
          ⨟ json_text r.message
          ⨟ fixed (codes "\",\"source\":\"") (omega arith)
          ⨟ json_text r.source.file_name
          ⨟ fixed (b':' ∷ []) (omega arith)
          ⨟ unsigned r.source.line
          ⨟ fixed (codes "\",\"thread_id\":") (omega arith)
          ⨟ unsigned r.thread_id_hash
          ⨟ fixed (codes ",\"attributes\":{") (omega arith)
          ⨟ json_attributes false r.attributes
          ⨟ fixed (codes "},\"truncated_attributes\":") (omega arith)
          ⨟ unsigned r.truncated_attribute_count
          ⨟ fixed (codes ",\"truncated_bytes\":") (omega arith)
          ⨟ unsigned r.truncated_bytes
          ⨟ fixed (b'}' ∷ []) (omega arith)).keep
        [] tt

  logfmt_attributes : (xs : List (LogAttribute Bytes)) → Keeps (LogFmt.append_attributes p xs)
  unfolding LogFmt.append_attributes
  logfmt_attributes [] = record { keep = λ output h. h }
  logfmt_attributes (x ∷ xs) =
      fixed (b' ' ∷ []) (omega arith)
      ⨟ text x.key
      ⨟ fixed (b'=' ∷ []) (omega arith)
      ⨟ logfmt_value x.value
      ⨟ logfmt_attributes xs

  logfmt_source : (b : Bool) (r : LogRecordView) → Keeps (LogFmt.append_source b r)
  unfolding LogFmt.append_source
  logfmt_source b r = only_if b _ (
      fixed (codes " source=\"") (omega arith)
      ⨟ text r.source.file_name
      ⨟ fixed (b':' ∷ []) (omega arith)
      ⨟ unsigned r.source.line
      ⨟ fixed (b'"' ∷ []) (omega arith))

  logfmt_truncation : (r : LogRecordView) → Keeps (LogFmt.append_truncation r)
  unfolding LogFmt.append_truncation
  logfmt_truncation r = only_if (ltb 0 r.truncated_attribute_count || ltb 0 r.truncated_bytes) _ (
      fixed (codes " truncated_attrs=") (omega arith)
      ⨟ unsigned r.truncated_attribute_count
      ⨟ fixed (codes " truncated_bytes=") (omega arith)
      ⨟ unsigned r.truncated_bytes)

  logfmt_body :
      (o : LogFmtRecordFormatterOptions) (r : LogRecordView) → IsPrintable (LogFmt.body p o r)
  unfolding LogFmt.body
  logfmt_body o r =
      (fixed (codes "ts=") (omega arith)
          ⨟ timestamp r.timestamp o.timestamp_style
          ⨟ fixed (codes " level=") (omega arith)
          ⨟ text (to_string r.level)
          ⨟ fixed (codes " logger=\"") (omega arith)
          ⨟ text r.logger_name
          ⨟ fixed (codes "\" msg=\"") (omega arith)
          ⨟ text r.message
          ⨟ fixed (b'"' ∷ []) (omega arith)
          ⨟ fixed (codes " thread_id=") (omega arith)
          ⨟ unsigned r.thread_id_hash
          ⨟ logfmt_source o.include_source r
          ⨟ logfmt_attributes r.attributes
          ⨟ logfmt_truncation r).keep
        [] tt

  text_lines :
      (o : TextRecordFormatterOptions) (rs : List LogRecordView)
      → All IsLine (map (λ r. (Text.format p o empty_cache r).0) rs)
  unfolding Text.format
  text_lines o [] = tt
  text_lines o (r ∷ rs) = (
    record {
      before = _;
      ends = refl;
      printable = rw (body-refresh p o empty_cache r (inl refl)) (text_body o r);
    },
    text_lines o rs,
  )

  -- Whatever records a text formatter is given, each of its outputs is one line: no control byte
  -- stands in it but the newline at its end, if the standard library writes none.
  pub format_all-IsLine :
      (o : TextRecordFormatterOptions) (rs : List LogRecordView)
      → All IsLine (format_all p o empty_cache rs)
  format_all-IsLine o rs = rw (format_all_lem p o rs) (text_lines o rs)

  -- For every record the JSON formatter's output is one line: no control byte stands in it but the
  -- newline at its end, if the standard library writes none.
  pub json_format-IsLine :
      (o : JsonRecordFormatterOptions) (r : LogRecordView) → IsLine (Json.format p o r)
  unfolding Json.format
  json_format-IsLine o r = record {
    before = Json.body p o r;
    ends = refl;
    printable = json_body o r;
  }

  -- For every record the logfmt formatter's output is one line: no control byte stands in it but the
  -- newline at its end, if the standard library writes none.
  pub logfmt_format-IsLine :
      (o : LogFmtRecordFormatterOptions) (r : LogRecordView) → IsLine (LogFmt.format p o r)
  unfolding LogFmt.format
  logfmt_format-IsLine o r = record {
    before = LogFmt.body p o r;
    ends = refl;
    printable = logfmt_body o r;
  }
