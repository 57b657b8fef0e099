-- ===== src/Format.antt =====
-- src/NGIN/Log/FormattingUtilities.hpp: what the formatters append to their output. An `Append`
-- function takes the value first and the output last, so that calls are chained by `▸`; what the
-- standard library prints (doubles, calendar times) is a parameter, `Platform`.
pub mod Escape
pub mod Timestamp
pub mod Output
pub mod Lines
pub mod Text
pub mod Json
pub mod LogFmt
pub mod Appended
pub mod Standard
pub mod RecordLine
use Prim.Native.String.{String}
use ngin_log.Base.{
  ℕ, suc, ◌+◌, ◌-◌, ◌/◌, ◌%◌, ◌<◌, Bool, true, false, ◌&&◌, ◌||◌, List, [], ◌∷◌, ◌++◌, Option, none,
  some, Bytes, ltb, ◌==◌, if◌then◌else◌, length, replicate,
}
use ngin_log.Base.Int.{ℤ, pos, negsuc}
use ngin_log.Base.Digits.{digit, to_chars}
use ngin_log.Level.{codes}
use ngin_log.Types.{AttributeValue, int64, uint64, double, boolean, text, SourceLocation}

-- A statement `f(output, …);` of the source behind those before it.
infixl 5 ◌▸◌
abbrev pub ◌▸◌ : {A B : Type 0} → A → (A → B) → B
x ▸ f = f x

pub data TimestampStyle : Type 0 where
  epoch_nanoseconds epoch_milliseconds iso8601_utc iso8601_local : TimestampStyle

-- The styles that show a calendar time.
abbrev pub is_iso : TimestampStyle → Bool
is_iso iso8601_utc = true
is_iso iso8601_local = true
is_iso _ = false

-- What the code takes from the C and C++ libraries: `std::format("{}", d)` of a double, given by
-- its bits, or `none` where it throws; `strftime` of the UTC time of a second; and of its local
-- time with the offset.
pub record Platform : Type 0 where
  pub format_double : ℕ → Option Bytes
  pub utc_time : ℕ → Bytes
  pub local_time : ℕ → Bytes
  pub local_offset : ℕ → Bytes

-- `output.push_back(c)`.
abbrev pub push_back : ℕ → Bytes → Bytes
push_back c output = output ++ c ∷ []

-- `AppendString`, and `output += literal`.
abbrev pub append_string : Bytes → Bytes → Bytes
append_string value output = output ++ value

abbrev pub append_literal : String → Bytes → Bytes
append_literal s output = output ++ codes s

abbrev or_nothing : Option Bytes → Bytes → Bytes
or_nothing none output = output
or_nothing (some digits) output = output ++ digits

-- `AppendUnsigned`: `std::to_chars` into 32 bytes, and nothing if they are too few.
unfoldable pub append_unsigned : ℕ → Bytes → Bytes
append_unsigned value output = or_nothing (to_chars 32 10 value) output

-- `std::to_chars` of a signed number: a minus takes one of the bytes.
unfoldable pub signed_to_chars : ℕ → ℤ → Option Bytes
signed_to_chars capacity (pos n) = to_chars capacity 10 n
signed_to_chars capacity (negsuc n) = elim (to_chars (capacity - 1) 10 (suc n)) [
  | none ↦ none
  | some ds ↦ some (b'-' ∷ ds)
]

-- `AppendSigned`.
unfoldable pub append_signed : ℤ → Bytes → Bytes
unfolding signed_to_chars
append_signed value output = or_nothing (signed_to_chars 32 value) output

-- `AppendDouble`.
unfoldable pub append_double : Platform → ℕ → Bytes → Bytes
append_double p value output = elim (p.format_double value) [
  | none ↦ append_literal "0" output
  | some s ↦ output ++ s
]

-- `AppendHexByte`: the two halves of the byte.
unfoldable pub append_hex_byte : ℕ → Bytes → Bytes
append_hex_byte value output =
    output ▸ push_back (digit (value / 16 % 16)) ▸ push_back (digit (value % 16))

-- The body of the loop of `AppendEscapedText`.
unfoldable pub append_escaped_char : ℕ → Bytes → Bytes
unfolding append_hex_byte
append_escaped_char ch output =
    if ch == b'\\'
    then append_literal "\\\\" output
    else if ch == b'\n'
    then append_literal "\\n" output
    else if ch == b'\r'
    then append_literal "\\r" output
    else if ch == b'\t'
    then append_literal "\\t" output
    else if ch == b'"'
    then append_literal "\\\"" output
    else if ltb ch 0x20
    then output ▸ append_literal "\\x" ▸ append_hex_byte ch
    else push_back ch output

unfoldable pub append_escaped_text : Bytes → Bytes → Bytes
append_escaped_text [] output = output
append_escaped_text (ch ∷ rest) output = append_escaped_text rest (append_escaped_char ch output)

-- The body of the loop of `AppendJsonEscapedText`.
unfoldable pub append_json_escaped_char : ℕ → Bytes → Bytes
unfolding append_hex_byte
append_json_escaped_char ch output =
    if ch == b'\\'
    then append_literal "\\\\" output
    else if ch == b'"'
    then append_literal "\\\"" output
    else if ch == 8
    then append_literal "\\b" output
    else if ch == 12
    then append_literal "\\f" output
    else if ch == b'\n'
    then append_literal "\\n" output
    else if ch == b'\r'
    then append_literal "\\r" output
    else if ch == b'\t'
    then append_literal "\\t" output
    else if ltb ch 0x20
    then output ▸ append_literal "\\u00" ▸ append_hex_byte ch
    else push_back ch output

unfoldable pub append_json_escaped_text : Bytes → Bytes → Bytes
append_json_escaped_text [] output = output
append_json_escaped_text (ch ∷ rest) output =
    append_json_escaped_text rest (append_json_escaped_char ch output)

append_bool : Bool → Bytes → Bytes
append_bool v output = if v then append_literal "true" output else append_literal "false" output

-- The nine digits of the fraction, or nine zeros where `to_chars` fails.
unfoldable pub append_fraction : ℕ → Bytes → Bytes
append_fraction nanos output = elim (to_chars 16 10 nanos) [
  | none ↦ append_literal "000000000" output
  | some digits ↦ output ▸ append_string (replicate (9 - length digits) b'0') ▸ append_string digits
]

is_empty : Bytes → Bool
is_empty [] = true
is_empty (_ ∷ _) = false

module _ (p : Platform) where
  unfoldable pub append_attribute_value : AttributeValue Bytes → Bytes → Bytes
  unfolding append_bool
  append_attribute_value (int64 v) output = append_signed v output
  append_attribute_value (uint64 v) output = append_unsigned v output
  append_attribute_value (double v) output = append_double p v output
  append_attribute_value (boolean v) output = append_bool v output
  append_attribute_value (text v) output =
      output ▸ push_back b'"' ▸ append_escaped_text v ▸ push_back b'"'

  unfoldable pub append_json_attribute_value : AttributeValue Bytes → Bytes → Bytes
  unfolding append_bool
  append_json_attribute_value (int64 v) output = append_signed v output
  append_json_attribute_value (uint64 v) output = append_unsigned v output
  append_json_attribute_value (double v) output = append_double p v output
  append_json_attribute_value (boolean v) output = append_bool v output
  append_json_attribute_value (text v) output =
      output ▸ push_back b'"' ▸ append_json_escaped_text v ▸ push_back b'"'

  unfoldable pub append_logfmt_attribute_value : AttributeValue Bytes → Bytes → Bytes
  unfolding append_json_attribute_value
  append_logfmt_attribute_value (text v) output =
      output ▸ push_back b'"' ▸ append_escaped_text v ▸ push_back b'"'
  append_logfmt_attribute_value v output = append_json_attribute_value v output

  -- `FillCachedTimeParts`: the prefix and the suffix.
  unfoldable pub fill_cached_time_parts : TimestampStyle → ℕ → Bytes × Bytes
  fill_cached_time_parts iso8601_utc second = (p.utc_time second, codes "Z")
  fill_cached_time_parts iso8601_local second = (p.local_time second, p.local_offset second)
  fill_cached_time_parts _ second = ([], [])

  append_iso_timestamp : ℕ → TimestampStyle → Bytes → Bytes → Bytes → Bytes
  unfolding is_empty
  append_iso_timestamp timestamp style cached_prefix cached_suffix output =
      let seconds = timestamp / 1000000000 in
      let nanos = timestamp % 1000000000 in
      let (prefix, suffix) =
        if is_empty cached_prefix && is_empty cached_suffix
        then fill_cached_time_parts style seconds
        else (cached_prefix, cached_suffix) in
      output ▸ append_string prefix ▸ push_back b'.' ▸ append_fraction nanos ▸ append_string suffix

  -- `AppendTimestamp`.
  unfoldable pub append_timestamp : ℕ → TimestampStyle → Bytes → Bytes → Bytes → Bytes
  unfolding append_iso_timestamp
  append_timestamp timestamp epoch_nanoseconds cached_prefix cached_suffix output =
      append_unsigned timestamp output
  append_timestamp timestamp epoch_milliseconds cached_prefix cached_suffix output =
      append_unsigned (timestamp / 1000000) output
  append_timestamp timestamp style cached_prefix cached_suffix output =
      append_iso_timestamp timestamp style cached_prefix cached_suffix output
