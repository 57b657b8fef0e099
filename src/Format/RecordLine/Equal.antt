-- ===== src/Format/RecordLine/Equal.antt =====
-- The two formattings of a text line, src/NGIN/Log/Sinks/RecordLine.hpp and `TextRecordFormatter` of
-- src/NGIN/Log/RecordFormatter.cpp, side by side.
use ngin_log.Base.{
  ℕ, suc, ◌^◌, ◌<◌, Bool, true, false, List, [], ◌∷◌, ◌++◌, Bytes, All, arith, ltb, ◌||◌,
  if◌then◌else◌, ◌≡◌, refl, sym, ◌∙◌,
}
use ngin_log.Base.Int.{pos, negsuc}
use ngin_log.Base.Digits.{digits}
use ngin_log.Level.{codes, to_string}
use ngin_log.Types.{
  AttributeValue, int64, uint64, double, boolean, text, LogAttribute, LogRecordView,
}
use ngin_log.Builder.{decimal}
use ngin_log.Format.{
  Platform, append_unsigned, append_escaped_text, epoch_nanoseconds, append_attribute_value,
  append_timestamp,
}
use ngin_log.Format.Appended.{
  Adds, ◌⨟◌, fixed, unchanged, unsigned, signed, signed_digits, unescaped_text, IsUnescaped,
  FitsValue, Fits,
}
use ngin_log.Format.Text
use ngin_log.Format.Text.{TextRecordFormatterOptions, TimestampCache}
use ngin_log.Format.RecordLine.{
  append_line_value, append_line_attributes, append_line_attribute_list, append_line_truncation,
  append_line_source, format_record_line,
}

-- The texts of an attribute need no escape.
pub record IsBare (x : LogAttribute Bytes) : Type 0 where
  pub key : All IsUnescaped x.key
  pub value : (s : Bytes) → x.value ≡ text s → All IsUnescaped s

-- No text of a record needs an escape.
pub record IsBareRecord (r : LogRecordView) : Type 0 where
  pub logger_name : All IsUnescaped r.logger_name
  pub message : All IsUnescaped r.message
  pub file_name : All IsUnescaped r.source.file_name
  pub attributes : All IsBare r.attributes

-- What one formatter appends, the other appends too.
record Same (f g : Bytes → Bytes) : Type 0 where
  pub shown : Bytes
  pub left : Adds f shown
  pub right : Adds g shown

infixr 5 ◌⋈◌
◌⋈◌ :
    {f g f' g' : Bytes → Bytes}
    → Same f g
    → Same f' g'
    → Same (λ output. f' (f output)) (λ output. g' (g output))
a ⋈ b = record { shown = a.shown ++ b.shown; left = a.left ⨟ b.left; right = a.right ⨟ b.right }

same : (s : Bytes) → Same (λ output. output ++ s) (λ output. output ++ s)
same s = record { shown = s; left = fixed s; right = fixed s }

number : (n : ℕ) → n < 2 ^ 64 → Same (append_unsigned n) (λ output. output ++ digits 10 n)
number n h = record { shown = digits 10 n; left = unsigned n h; right = fixed (digits 10 n) }

bare : (s : Bytes) → All IsUnescaped s → Same (append_escaped_text s) (λ output. output ++ s)
bare s h = record { shown = s; left = unescaped_text s h; right = fixed s }

nothing : Same (λ output. output) (λ output. output)
nothing = record { shown = []; left = unchanged; right = unchanged }

same_if :
    (b : Bool) (f g : Bytes → Bytes)
    → Same f g
    → Same (λ output. if b then f output else output) (λ output. if b then g output else output)
same_if true f g a = a
same_if false f g a = nothing

module _ (p : Platform) (d : ℕ → Bytes) where
  same_value :
      (v : AttributeValue Bytes)
      → FitsValue v
      → ((s : Bytes) → v ≡ text s → All IsUnescaped s)
      → Same (append_attribute_value p v) (append_line_value d v)
  unfolding append_attribute_value append_line_value decimal signed_digits
  same_value (int64 (pos n)) h q = record {
    shown = digits 10 n;
    left = signed (pos n) h;
    right = fixed (digits 10 n);
  }
  same_value (int64 (negsuc n)) h q = record {
    shown = b'-' ∷ digits 10 (suc n);
    left = signed (negsuc n) h;
    right = fixed (b'-' ∷ digits 10 (suc n));
  }
  same_value (uint64 n) h q = number n h
  same_value (double x) h q = absurd h
  same_value (boolean true) h q = same (codes "true")
  same_value (boolean false) h q = same (codes "false")
  same_value (text s) h q = same (b'"' ∷ []) ⋈ bare s (q s refl) ⋈ same (b'"' ∷ [])

  same_attributes :
      (later : Bool) (xs : List (LogAttribute Bytes))
      → All (λ x. FitsValue x.value) xs
      → All IsBare xs
      → Same (Text.append_attributes p later xs) (append_line_attributes d later xs)
  unfolding Text.append_attributes append_line_attributes
  same_attributes later [] h b = nothing
  same_attributes later (x ∷ xs) (h, hs) (b, bs) =
      same_if later _ _ (same (codes ", "))
      ⋈ bare x.key b.key
      ⋈ same (b'=' ∷ [])
      ⋈ same_value x.value h b.value
      ⋈ same_attributes true xs hs bs

  same_attribute_list :
      (xs : List (LogAttribute Bytes))
      → All (λ x. FitsValue x.value) xs
      → All IsBare xs
      → Same (Text.append_attribute_list p xs) (append_line_attribute_list d xs)
  unfolding Text.append_attribute_list append_line_attribute_list
  same_attribute_list [] h b = nothing
  same_attribute_list (x ∷ xs) h b =
      same (codes " {") ⋈ same_attributes false (x ∷ xs) h b ⋈ same (b'}' ∷ [])

same_truncation :
    (r : LogRecordView) → Fits r → Same (Text.append_truncation r) (append_line_truncation r)
unfolding Text.append_truncation append_line_truncation
same_truncation r h = same_if (ltb 0 r.truncated_attribute_count || ltb 0 r.truncated_bytes) _ _ (
    same (codes " [truncated attrs=")
    ⋈ number r.truncated_attribute_count (omega (arith, h.truncated_attribute_count))
    ⋈ same (codes ", bytes=")
    ⋈ number r.truncated_bytes (omega (arith, h.truncated_bytes))
    ⋈ same (b']' ∷ []))

same_source :
    (b : Bool) (r : LogRecordView)
    → Fits r
    → All IsUnescaped r.source.file_name
    → Same (Text.append_source b r) (append_line_source b r)
unfolding Text.append_source append_line_source
same_source b r h bare_name = same_if b _ _ (
    same (codes " (")
    ⋈ bare r.source.file_name bare_name
    ⋈ same (b':' ∷ [])
    ⋈ number r.source.line (omega (arith, h.line))
    ⋈ same (b')' ∷ []))

timestamp :
    (p : Platform) (t : ℕ) (prefix suffix : Bytes)
    → t < 2 ^ 64
    → Same (append_timestamp p t epoch_nanoseconds prefix suffix) (λ output. output ++ digits 10 t)
unfolding append_timestamp
timestamp p t prefix suffix h = number t h

-- For a record whose texts need no escape, whose numbers have the widths of their types and which has
-- no double among its attributes, `FormatRecordLine` gives what the text formatter gives that prints
-- the nanoseconds since the epoch and shows the source or not alike.
pub format_record_line-format :
    (p : Platform) (d : ℕ → Bytes) (include_source : Bool) (cache : TimestampCache)
    (r : LogRecordView)
    → Fits r
    → IsBareRecord r
    → let o : TextRecordFormatterOptions = record {
      include_source = include_source;
      timestamp_style = epoch_nanoseconds;
    } in
      format_record_line d r include_source ≡ (Text.format p o cache r).0
unfolding format_record_line Text.format Text.body Text.refresh
format_record_line-format p d include_source cache r h b =
    let line =
      same (b'[' ∷ [])
      ⋈ timestamp p r.timestamp cache.prefix cache.suffix h.timestamp
      ⋈ same (codes "][")
      ⋈ same (to_string r.level)
      ⋈ same (codes "][")
      ⋈ bare r.logger_name b.logger_name
      ⋈ same (codes "] ")
      ⋈ bare r.message b.message
      ⋈ same_attribute_list p d r.attributes h.attributes b.attributes
      ⋈ same_truncation r h
      ⋈ same_source include_source r h b.file_name
      ⋈ same (b'\n' ∷ []) in
    line.right.add [] ∙ sym (line.left.add [])
