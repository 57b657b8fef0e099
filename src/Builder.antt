-- ===== src/Builder.antt =====
-- include/NGIN/Log/RecordBuilder.hpp: the bounded record under construction. Its message is a
-- fixed array; the text of its attributes goes to one pool of 256 bytes, into which the
-- attributes hold views; there is room for eight attributes.
pub mod Validity
pub mod Contents
use Prim.Native.String.{String}
use ngin_log.Base.{
  ℕ, suc, ◌+◌, ◌-◌, Bool, true, false, List, [], ◌∷◌, ◌++◌, map, Option, none, some, Bytes, ltb,
  leb, if◌then◌else◌, length, take, add_u32, min,
}
use ngin_log.Base.Int.{ℤ, pos, negsuc}
use ngin_log.Base.Digits.{digits}
use ngin_log.Level.{codes}
use ngin_log.Types.{
  max_message_bytes, max_attributes, max_attr_text_bytes, LogAttributeKind, default, AttributeValue,
  int64, uint64, double, boolean, text, LogAttribute, map_text,
}
use ngin_log.Types.Inline
use ngin_log.Types.Inline.{InlineText}
use ngin_log.Types.Arena
use ngin_log.Types.Arena.{Arena, View, read}

-- `m_attributeTextBuffer`, `m_attrTextUsed` and `m_truncatedBytes` are the arena; the first
-- `m_attributeCount` entries of `m_attributes` are the list.
pub record RecordBuilder : Type 0 where
  pub message_text : InlineText
  pub pool : Arena
  pub attributes : List (LogAttribute View)
  pub truncated_attribute_count : ℕ

-- What the template `Attr` is given, after the language has picked the branch for its type. An
-- error code is its category's name, its value and its message, or `none` where building the text
-- threw. A pointer is its address, a duration its count of nanoseconds.
pub data AttrInput : Type 0 where
  attribute_value : AttributeValue Bytes → AttrInput
  bool : Bool → AttrInput
  enumerator : AttrInput → AttrInput
  signed : ℤ → AttrInput
  unsigned : ℕ → AttrInput
  floating : ℕ → AttrInput
  string_view : Bytes → AttrInput
  c_string : Option Bytes → AttrInput
  string : Bytes → AttrInput
  duration : ℤ → AttrInput
  error_code : Option (Bytes × ℤ × Bytes) → AttrInput
  pointer : ℕ → AttrInput

abbrev pub new : RecordBuilder
new = record {
  message_text = Inline.fresh max_message_bytes;
  pool = Arena.fresh max_attr_text_bytes;
  attributes = [];
  truncated_attribute_count = 0;
}

-- `Message`.
unfoldable pub message : RecordBuilder → Bytes → RecordBuilder
message b input =
    let (m, t) = Inline.assign max_message_bytes b.message_text input b.pool.truncated_bytes in
    record b { message_text = m; pool = record b.pool { truncated_bytes = t } }

-- `std::to_string` of an int.
unfoldable pub decimal : ℤ → Bytes
decimal (pos n) = digits 10 n
decimal (negsuc n) = b'-' ∷ digits 10 (suc n)

unfoldable pub copy_text : Arena → Bytes → View × Arena
copy_text = Arena.copy_text max_attr_text_bytes

-- `FormatPointerText`: seventeen bytes of its buffer lie behind the `0x`.
unfoldable pub pointer_text : ℕ → Bytes
pointer_text raw =
    let hex = digits 16 raw in if ltb 17 (length hex) then codes "0x0" else codes "0x" ++ hex

-- `FormatErrorCodeText`.
unfoldable pub error_code_text : Option (Bytes × ℤ × Bytes) → Bytes
unfolding decimal
error_code_text (some (category, value, what)) =
    category ++ (codes ":" ++ (decimal value ++ (codes ":" ++ what)))
error_code_text none = codes "[error-code-format-error]"

copied : View × Arena → AttributeValue View × Arena
copied (v, a) = (text v, a)

-- `CopyAttributeValue`.
unfoldable pub copy_attribute_value : Arena → AttributeValue Bytes → AttributeValue View × Arena
unfolding copy_text copied
copy_attribute_value a (int64 i) = (int64 i, a)
copy_attribute_value a (uint64 n) = (uint64 n, a)
copy_attribute_value a (double d) = (double d, a)
copy_attribute_value a (boolean b) = (boolean b, a)
copy_attribute_value a (text t) = copied (copy_text a t)

-- `NormalizeValue`.
unfoldable pub normalize_value : Arena → AttrInput → AttributeValue View × Arena
unfolding copy_text copied copy_attribute_value pointer_text error_code_text
normalize_value a (attribute_value v) = copy_attribute_value a v
normalize_value a (bool b) = (boolean b, a)
normalize_value a (enumerator underlying) = normalize_value a underlying
normalize_value a (signed i) = (int64 i, a)
normalize_value a (unsigned n) = (uint64 n, a)
normalize_value a (floating d) = (double d, a)
normalize_value a (string_view s) = copied (copy_text a s)
normalize_value a (c_string none) = copied (copy_text a [])
normalize_value a (c_string (some s)) = copied (copy_text a s)
normalize_value a (string s) = copied (copy_text a s)
normalize_value a (duration i) = (int64 i, a)
normalize_value a (error_code e) = copied (copy_text a (error_code_text e))
normalize_value a (pointer raw) = copied (copy_text a (pointer_text raw))

-- `AppendAttribute`.
unfoldable pub append_attribute :
    RecordBuilder → Bytes → AttributeValue View → LogAttributeKind → RecordBuilder
unfolding copy_text
append_attribute b key value kind =
    if leb max_attributes (length b.attributes)
    then record b { truncated_attribute_count = add_u32 b.truncated_attribute_count 1 }
    else (let (k, a) = copy_text b.pool key in
        record b {
          pool = a;
          attributes = b.attributes ++ (record { key = k; value = value; kind = kind } ∷ []);
        })

-- `Attr(key, value, kind)`. The value is copied before the key, and also where the attribute is
-- then left out.
unfoldable pub attr : RecordBuilder → Bytes → AttrInput → LogAttributeKind → RecordBuilder
attr b key input kind =
    let (value, a) = normalize_value b.pool input in
    append_attribute (record b { pool = a }) key value kind

-- `Attr(key, value)`.
unfoldable pub attr_default : RecordBuilder → Bytes → AttrInput → RecordBuilder
attr_default b key input = attr b key input default

-- `Attr(key, value)` of an `AttributeValue`.
abbrev pub attr_value : RecordBuilder → Bytes → AttributeValue Bytes → RecordBuilder
attr_value b key input =
    let (value, a) = copy_attribute_value b.pool input in
    append_attribute (record b { pool = a }) key value default

abbrev pub get_truncated_attribute_count : RecordBuilder → ℕ
get_truncated_attribute_count b = b.truncated_attribute_count

abbrev pub get_truncated_bytes : RecordBuilder → ℕ
get_truncated_bytes b = b.pool.truncated_bytes

abbrev pub get_message : RecordBuilder → Bytes
get_message b = Inline.view b.message_text

-- An attribute as its reader sees it, with the bytes that its views show.
abbrev pub resolve : Arena → LogAttribute View → LogAttribute Bytes
resolve a x = record { key = read a x.key; value = map_text (read a) x.value; kind = x.kind }

abbrev pub get_attributes : RecordBuilder → List (LogAttribute Bytes)
get_attributes b = map (resolve b.pool) b.attributes
