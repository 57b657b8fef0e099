-- ===== src/Types.antt =====
-- include/NGIN/Log/Types.hpp and Config.hpp: attributes and records as values. A string_view is
-- the bytes that it shows, a double is its 64-bit pattern (the program only moves it; printing it
-- is a parameter of the formatters).
pub mod Arena
pub mod Inline
use ngin_log.Base.{ℕ, Bool, List, Bytes}
use ngin_log.Base.Int.{ℤ}
use ngin_log.Level.{LogLevel}

abbrev pub max_message_bytes : ℕ
max_message_bytes = 512

abbrev pub max_attributes : ℕ
max_attributes = 8

abbrev pub max_attr_text_bytes : ℕ
max_attr_text_bytes = 256

abbrev pub async_queue_capacity : ℕ
async_queue_capacity = 8192

pub data LogAttributeKind : Type 0 where
  default tag context extra : LogAttributeKind

-- `AttributeValue`, over the type that stands for its text: bytes, or a view into a buffer.
pub data AttributeValue (T : Type 0) : Type 0 where
  int64 : ℤ → AttributeValue T
  uint64 : ℕ → AttributeValue T
  double : ℕ → AttributeValue T
  boolean : Bool → AttributeValue T
  text : T → AttributeValue T

pub record LogAttribute (T : Type 0) : Type 0 where
  pub key : T
  pub value : AttributeValue T
  pub kind : LogAttributeKind

-- `std::source_location`, as far as the program reads it.
pub record SourceLocation : Type 0 where
  pub file_name : Bytes
  pub line : ℕ

pub record LogRecordView : Type 0 where
  pub timestamp : ℕ
  pub level : LogLevel
  pub logger_name : Bytes
  pub message : Bytes
  pub source : SourceLocation
  pub thread_id_hash : ℕ
  pub attributes : List (LogAttribute Bytes)
  pub truncated_attribute_count : ℕ
  pub truncated_bytes : ℕ

-- The value with its text replaced, as a view by the bytes that it shows.
abbrev pub map_text : {T U : Type 0} → (T → U) → AttributeValue T → AttributeValue U
map_text f (int64 i) = int64 i
map_text f (uint64 n) = uint64 n
map_text f (double d) = double d
map_text f (boolean b) = boolean b
map_text f (text t) = text (f t)
