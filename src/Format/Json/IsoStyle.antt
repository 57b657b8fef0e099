-- ===== src/Format/Json/IsoStyle.antt =====
-- `JsonRecordFormatter` of src/NGIN/Log/RecordFormatter.cpp in the styles that show a calendar time.
use ngin_log.Base.{
  ℕ, ◌/◌, true, false, [], ◌∷◌, ◌++◌, none, some, Bytes, arith, ◌≡◌, refl, sym, ap, ◌∙◌,
}
use mathlib.Core.List.{append_assoc}
use ngin_log.Base.Digits.{digits}
use ngin_log.Level.{codes, to_string}
use ngin_log.Types.{LogRecordView}
use ngin_log.Format.{
  append_json_escaped_char, ◌▸◌, Platform, is_iso, push_back, append_literal, append_unsigned,
  append_json_escaped_text, fill_cached_time_parts,
}
use ngin_log.Format.Escape.{json_escaped}
use ngin_log.Base.Int.{pos}
use ngin_log.Format.Appended.{Adds, ◌⨟◌, fixed, unsigned, json_text, Fits}
use ngin_log.Format.Timestamp.{IsIso, append_timestamp-IsIso}
use ngin_log.Format.Json.{JsonRecordFormatterOptions, append_attributes, body, format}
use ngin_log.Format.Json.Reader.{
  Reader, ◌>>=◌, ◌>>◌, return, literal, quoted, value, member, Member, JsonValue, words, number,
}
use ngin_log.Format.Json.Steps.{
  then_, literal_lem, quoted_lem, natural_lem, digits-ne_nil, IsDecimal-digits,
}
use ngin_log.Format.Json.Members.{append_attributes-attributes_shown, value-decimal}

-- The first member of an object, of any name and with a value of any kind, and the comma behind it.
unfoldable pub first_member : Reader Member
unfolding member literal
first_member = do literal (codes "{"); m ← member; literal (codes ","); return m

-- A chain of readers ends where one of them refuses.
refuses :
    {A B : Type 0} (q : Reader A) (f : A → Reader B) {s : Bytes} → q s ≡ none → (q >>= f) s ≡ none
unfolding ◌>>=◌
refuses q f e = ap (λ o. elim o [ none ↦ none | some (a, rest) ↦ f a rest ]) e

-- What a line's steps behind the timestamp append.
behind_timestamp :
    (p : Platform) (r : LogRecordView)
    → Fits r
    → (s : Bytes) × Adds
        (λ output.
          output
          ▸ append_literal ",\"level\":\""
          ▸ append_json_escaped_text (to_string r.level)
          ▸ append_literal "\",\"logger\":\""
          ▸ append_json_escaped_text r.logger_name
          ▸ append_literal "\",\"message\":\""
          ▸ append_json_escaped_text r.message
          ▸ append_literal "\",\"source\":\""
          ▸ append_json_escaped_text r.source.file_name
          ▸ push_back b':'
          ▸ append_unsigned r.source.line
          ▸ append_literal "\",\"thread_id\":"
          ▸ append_unsigned r.thread_id_hash
          ▸ append_literal ",\"attributes\":{"
          ▸ append_attributes p false r.attributes
          ▸ append_literal "},\"truncated_attributes\":"
          ▸ append_unsigned r.truncated_attribute_count
          ▸ append_literal ",\"truncated_bytes\":"
          ▸ append_unsigned r.truncated_bytes
          ▸ push_back b'}'
          ▸ push_back b'\n')
        (b',' ∷ s)
behind_timestamp p r h = (
  _,
  fixed (codes ",\"level\":\"")
      ⨟ json_text (to_string r.level)
      ⨟ fixed (codes "\",\"logger\":\"")
      ⨟ json_text r.logger_name
      ⨟ fixed (codes "\",\"message\":\"")
      ⨟ json_text r.message
      ⨟ fixed (codes "\",\"source\":\"")
      ⨟ json_text r.source.file_name
      ⨟ fixed (b':' ∷ [])
      ⨟ unsigned r.source.line (omega (arith, h.line))
      ⨟ fixed (codes "\",\"thread_id\":")
      ⨟ unsigned r.thread_id_hash h.thread_id_hash
      ⨟ fixed (codes ",\"attributes\":{")
      ⨟ append_attributes-attributes_shown p false r.attributes h.attributes
      ⨟ fixed (codes "},\"truncated_attributes\":")
      ⨟ unsigned r.truncated_attribute_count (omega (arith, h.truncated_attribute_count))
      ⨟ fixed (codes ",\"truncated_bytes\":")
      ⨟ unsigned r.truncated_bytes (omega (arith, h.truncated_bytes))
      ⨟ fixed (b'}' ∷ [])
      ⨟ fixed (b'\n' ∷ []),
)

-- A calendar time that begins with a year and a dash, as `%Y-` prints them.
pub record BeginsWithYear (prefix : Bytes) : Type 0 where
  pub year : ℕ
  pub rest : Bytes
  pub begins : prefix ≡ digits 10 year ++ b'-' ∷ rest

abbrev pub head : Bytes
head = codes "{\"timestamp\":"

-- The name is its own escape.
name_escaped : json_escaped (codes "timestamp") ≡ codes "timestamp"
unfolding json_escaped append_json_escaped_char
name_escaped = refl

-- The member of that name, with a value that can be read.
timestamp_read :
    (s rest : Bytes) (v : JsonValue)
    → value s ≡ some (v, rest)
    → member (codes "\"timestamp\":" ++ s) ≡ some ((codes "timestamp", v), rest)
unfolding member return
timestamp_read s rest v e =
    ap (λ n. member (b'"' ∷ (n ++ (b'"' ∷ (b':' ∷ s))))) (sym name_escaped)
    ∙ then_ quoted _ (quoted_lem (codes "timestamp") (b':' ∷ s))
    ∙ then_ _ _ (literal_lem (codes ":") s)
    ∙ then_ value _ e

-- The reader on a timestamp that is a year and a dash: the number ends at the dash.
refused : (year : ℕ) (rest : Bytes) → first_member (head ++ (digits 10 year ++ b'-' ∷ rest)) ≡ none
unfolding first_member literal
refused year rest =
    let s = digits 10 year ++ b'-' ∷ rest in
    let number_read : value s ≡ some (number (pos year), b'-' ∷ rest) =
      value-decimal year (digits 10 year) (b'-' ∷ rest) (digits-ne_nil year) (IsDecimal-digits year)
        (natural_lem year (b'-' ∷ rest) refl) in
    then_ _ _ (literal_lem (codes "{") (codes "\"timestamp\":" ++ s))
    ∙ then_ member _ (timestamp_read s (b'-' ∷ rest) (number (pos year)) number_read)
    ∙ refuses _ _ refl

-- The reader on a timestamp that is a text between quotes.
accepted :
    (time rest : Bytes)
    → first_member (head ++ b'"' ∷ (json_escaped time ++ b'"' ∷ b',' ∷ rest))
      ≡ some ((codes "timestamp", words time), rest)
unfolding first_member value return
accepted time rest =
    let s = b'"' ∷ (json_escaped time ++ b'"' ∷ b',' ∷ rest) in
    then_ _ _ (literal_lem (codes "{") (codes "\"timestamp\":" ++ s))
    ∙ then_ member _ (
        timestamp_read s (b',' ∷ rest) (words time)
          (then_ quoted _ (quoted_lem time (b',' ∷ rest))))
    ∙ then_ _ _ (literal_lem (codes ",") rest)

-- A line of the JSON formatter in a style that shows a calendar time, which begins with a year and a dash, for
-- a record whose numbers have the widths of their types and which has no double among its attributes. It
-- begins with the name `timestamp`, the time and a comma. A reader of the first member of an object, with a number,
-- a text or a Boolean behind the name, refuses the line; but it accepts the same line where quotes stand around
-- the time, escaped as texts are, and reads the time out of it. So what the line lacks are the quotes.
pub first_member-format-IsIso :
    (p : Platform) (o : JsonRecordFormatterOptions) (r : LogRecordView) (rest : Bytes)
    → is_iso o.timestamp_style ≡ true
    → BeginsWithYear (fill_cached_time_parts p o.timestamp_style (r.timestamp / 1000000000)).0
    → Fits r
    → (time : Bytes) × (tail : Bytes) × IsIso p o.timestamp_style r.timestamp time
      × (format p o r ≡ head ++ (time ++ b',' ∷ tail))
      × (first_member (format p o r ++ rest) ≡ none)
      × (first_member (head ++ b'"' ∷ (json_escaped time ++ b'"' ∷ b',' ∷ (tail ++ rest)))
          ≡ some ((codes "timestamp", words time), tail ++ rest))
unfolding format body
first_member-format-IsIso p o r rest e b h =
    let (tail, adds) = behind_timestamp p r h in
    let (shown, shows, iso) = append_timestamp-IsIso p o.timestamp_style r.timestamp head e in
    let line : format p o r ≡ head ++ (shown ++ b',' ∷ tail) =
      adds.add _ ∙ ap (λ s. s ++ b',' ∷ tail) shows ∙ append_assoc head shown (b',' ∷ tail) in
    let suffix = (fill_cached_time_parts p o.timestamp_style (r.timestamp / 1000000000)).1 in
    let begins : shown
        ≡ (digits 10 b.year ++ b'-' ∷ b.rest) ++ b'.' ∷ (iso.fraction_digits ++ suffix) =
      iso.composed ∙ ap (λ s. s ++ b'.' ∷ (iso.fraction_digits ++ suffix)) b.begins in
    let whole : format p o r ++ rest
        ≡ head
          ++ (digits 10 b.year
              ++ b'-'
                ∷ (b.rest ++ (b'.' ∷ ((iso.fraction_digits ++ suffix) ++ b',' ∷ (tail ++ rest))))) =
      ap (λ s. s ++ rest) line
      ∙ ap (λ s. (head ++ (s ++ b',' ∷ tail)) ++ rest) begins
      ∙ simp append_assoc in
    (
      shown,
      tail,
      iso,
      line,
      ap first_member whole ∙ refused b.year _,
      accepted shown (tail ++ rest),
    )
