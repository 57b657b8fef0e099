-- ===== src/Tests/Formats.antt =====
-- Runs of the formatters.
use ngin_log.Base.{
  true, [], ◌∷◌, ◌++◌, map, flatten, none, some, subst, All, ◌≡◌, refl, arith, Bytes,
}
use ngin_log.Level.{codes}
use ngin_log.Format.{
  fill_cached_time_parts, epoch_milliseconds, epoch_nanoseconds, iso8601_utc, append_escaped_text,
}
use ngin_log.Format.Escape.RoundTrip.{read_quoted, text_table, read_quoted-append_escaped_text}
use ngin_log.Format.Output.{IsPlain, IsLine}
use ngin_log.Format.Text
use ngin_log.Format.Text.{TextRecordFormatterOptions, empty_cache}
use ngin_log.Format.Text.Cache.{format_all, format_all_lem}
use ngin_log.Format.Json
use ngin_log.Format.Json.{JsonRecordFormatterOptions}
use ngin_log.Base.Digits.{digits}
use ngin_log.Base.Int.{negsuc}
use ngin_log.Types.{LogRecordView, int64, boolean, text, tag}
use ngin_log.Format.Appended.{Fits, IsUnescaped}
use ngin_log.Format.Standard.{outputs, new_text, text_, outputs-IsLine}
use ngin_log.Format.Json.Reader.{json_lines, words}
use ngin_log.Format.Json.ReadBack.{to_json_line}
use ngin_log.Format.Json.ReadFile.{json_lines-format}
use ngin_log.Format.Json.IsoStyle.{BeginsWithYear, head, first_member, first_member-format-IsIso}
use ngin_log.Format.Timestamp.{IsIso}
use ngin_log.Format.Escape.{json_escaped}
use ngin_log.Format.RecordLine.{format_record_line}
use ngin_log.Format.RecordLine.Equal.{IsBareRecord, format_record_line-format}
use ngin_log.Tests.{platform, a_record}

abbrev awkward : Bytes
awkward = b'"' ∷ b'\\' ∷ b'\n' ∷ 1 ∷ 200 ∷ b'a' ∷ []

read_quoted-append_escaped_text_example :
    (append_escaped_text awkward (codes "m=") ≡ codes "m=" ++ append_escaped_text awkward [])
    × (read_quoted text_table (append_escaped_text awkward [] ++ b'"' ∷ codes " x")
        ≡ some (awkward, codes " x"))
read_quoted-append_escaped_text_example =
    read_quoted-append_escaped_text awkward (codes "m=") (codes " x")

pub platform-IsPlain : IsPlain platform
platform-IsPlain = record {
  doubles = λ d s e. ground arith;
  utc = λ second. omega arith;
  local = λ second. omega arith;
  offsets = λ second. omega arith;
}

abbrev text_options : TextRecordFormatterOptions
text_options = record { include_source = true; timestamp_style = iso8601_utc }

format_all_lem_example :
    format_all platform text_options empty_cache (a_record ∷ a_record ∷ [])
    ≡ map (λ r. (Text.format platform text_options empty_cache r).0) (a_record ∷ a_record ∷ [])
format_all_lem_example = format_all_lem platform text_options (a_record ∷ a_record ∷ [])

-- A record with a number below zero and a truth value, and one whose texts need no escape.
abbrev pub a_number_record : LogRecordView
a_number_record = record a_record {
  attributes =
      record { key = codes "n"; value = int64 (negsuc 4); kind = tag }
      ∷ record { key = awkward; value = boolean true; kind = tag }
      ∷ [];
}

a_record-Fits : Fits a_record
a_record-Fits = record {
  timestamp = omega arith;
  line = omega arith;
  thread_id_hash = omega arith;
  attributes = (tt, tt);
  truncated_attribute_count = omega arith;
  truncated_bytes = omega arith;
}

a_number_record-Fits : Fits a_number_record
a_number_record-Fits = record {
  timestamp = omega arith;
  line = omega arith;
  thread_id_hash = omega arith;
  attributes = (omega arith, (tt, tt));
  truncated_attribute_count = omega arith;
  truncated_bytes = omega arith;
}

abbrev in_milliseconds : JsonRecordFormatterOptions
in_milliseconds = record { timestamp_style = epoch_milliseconds }

json_lines-format_example :
    json_lines
      (flatten (map (Json.format platform in_milliseconds) (a_record ∷ a_number_record ∷ [])))
    ≡ some (map (to_json_line in_milliseconds) (a_record ∷ a_number_record ∷ []))
json_lines-format_example =
    json_lines-format platform in_milliseconds refl (a_record ∷ a_number_record ∷ [])
      (a_record-Fits, (a_number_record-Fits, tt))

abbrev in_utc : JsonRecordFormatterOptions
in_utc = record { timestamp_style = iso8601_utc }

the_year : BeginsWithYear (fill_cached_time_parts platform iso8601_utc 1700000000).0
unfolding digits fill_cached_time_parts
the_year = record { year = 2023; rest = codes "11-14T22:13:20"; begins = refl }

first_member-format-IsIso_example :
    (time : Bytes) × (tail : Bytes) × IsIso platform iso8601_utc a_record.timestamp time
    × (Json.format platform in_utc a_record ≡ head ++ (time ++ b',' ∷ tail))
    × (first_member (Json.format platform in_utc a_record ++ codes "more") ≡ none)
    × (first_member (head ++ b'"' ∷ (json_escaped time ++ b'"' ∷ b',' ∷ (tail ++ codes "more")))
        ≡ some ((codes "timestamp", words time), tail ++ codes "more"))
first_member-format-IsIso_example =
    first_member-format-IsIso platform in_utc a_record (codes "more") refl the_year a_record-Fits

outputs-IsLine_example :
    All IsLine (outputs platform (new_text text_options) (a_record ∷ a_number_record ∷ []))
outputs-IsLine_example =
    outputs-IsLine platform (new_text text_options) (a_record ∷ a_number_record ∷ [])
      platform-IsPlain (text_ text_options)

abbrev a_bare_record : LogRecordView
a_bare_record = record a_record { message = codes "up" }

bare_value : (s : Bytes) → text (codes "v w") ≡ text s → All IsUnescaped s
bare_value s e = let h : codes "v w" ≡ s = cc in subst (All IsUnescaped) h (ground arith)

a_bare_record-Fits : Fits a_bare_record
a_bare_record-Fits = record {
  timestamp = omega arith;
  line = omega arith;
  thread_id_hash = omega arith;
  attributes = (tt, tt);
  truncated_attribute_count = omega arith;
  truncated_bytes = omega arith;
}

a_bare_record-IsBareRecord : IsBareRecord a_bare_record
a_bare_record-IsBareRecord = record {
  logger_name = ground arith;
  message = ground arith;
  file_name = ground arith;
  attributes = (record { key = ground arith; value = bare_value }, tt);
}

format_record_line-format_example :
    format_record_line (λ d. codes "1.500000") a_bare_record true
    ≡ (Text.format platform
        (record { include_source = true; timestamp_style = epoch_nanoseconds })
        empty_cache
        a_bare_record).0
format_record_line-format_example =
    format_record_line-format platform (λ d. codes "1.500000") true empty_cache a_bare_record
      a_bare_record-Fits a_bare_record-IsBareRecord
