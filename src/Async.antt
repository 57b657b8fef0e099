-- ===== src/Async.antt =====
-- include/NGIN/Log/Sinks/AsyncSink.hpp: the sink that hands records to a worker thread. Each call of
-- a queue's operation runs under the queue's mutex and is one step.
pub mod Mask
pub mod Queue
pub mod Fifo
pub mod Owned
pub mod Sink
pub mod ToFile
use Prim.Native.Nat.{bit_and}
use ngin_log.Base.{
  ℕ, suc, ◌+◌, ◌-◌, Bool, true, false, List, Option, none, some, leb, ◌==◌, if◌then◌else◌,
  get_elem?, set, replicate, Bytes, [], ◌∷◌, map, min, length, take, ltb, add_u32,
}
use ngin_log.Base.Int.{pos}
use ngin_log.Level.{LogLevel}
use ngin_log.Types.{
  max_message_bytes, max_attributes, max_attr_text_bytes, LogAttributeKind, AttributeValue, int64,
  uint64, double, boolean, text, LogAttribute, SourceLocation, LogRecordView, map_text,
}
use ngin_log.Types.Inline
use ngin_log.Types.Inline.{InlineText}

-- `MpscBoundedQueue`: the array, the two indices and the size.
pub record MpscBoundedQueue (A : Type 0) : Type 0 where
  pub slots : List A
  pub enqueue_index : ℕ
  pub dequeue_index : ℕ
  pub size : ℕ

-- `(index + 1) & (QueueCapacity - 1)`.
abbrev pub next_index : ℕ → ℕ → ℕ
next_index queue_capacity i = bit_and (i + 1) (queue_capacity - 1)

module _ {A : Type 0} (queue_capacity : ℕ) where
  -- `TryEnqueue`.
  unfoldable pub try_enqueue : MpscBoundedQueue A → A → Bool × MpscBoundedQueue A
  try_enqueue q record_ = if leb queue_capacity q.size then (false, q) else (
    true,
    record q {
      slots = set q.slots q.enqueue_index record_;
      enqueue_index = next_index queue_capacity q.enqueue_index;
      size = suc q.size;
    },
  )

  -- `TryDequeue`; the record is moved out of its slot, which goes on holding its bytes. An index out
  -- of range does not occur.
  unfoldable pub try_dequeue : MpscBoundedQueue A → Option A × MpscBoundedQueue A
  try_dequeue q = if q.size == 0 then (none, q) else (
    get_elem? q.slots q.dequeue_index,
    record q { dequeue_index = next_index queue_capacity q.dequeue_index; size = q.size - 1 },
  )

-- `ApproxDepth`, `CanEnqueue` and `IsEmpty`.
abbrev pub approx_depth : {A : Type 0} → MpscBoundedQueue A → ℕ
approx_depth q = q.size

abbrev pub can_enqueue : {A : Type 0} → ℕ → MpscBoundedQueue A → Bool
can_enqueue queue_capacity q = ltb (approx_depth q) queue_capacity

abbrev pub is_empty : {A : Type 0} → MpscBoundedQueue A → Bool
is_empty q = approx_depth q == 0

-- A new queue: an array of default-constructed records.
abbrev pub new_queue : {A : Type 0} → ℕ → A → MpscBoundedQueue A
new_queue queue_capacity blank = record {
  slots = replicate queue_capacity blank;
  enqueue_index = 0;
  dequeue_index = 0;
  size = 0;
}

-- `OwnedAttributeValue`; `std::monostate` is `none`.
abbrev pub OwnedAttributeValue : Type 0
OwnedAttributeValue = Option (AttributeValue InlineText)

pub record OwnedLogAttribute : Type 0 where
  pub key : InlineText
  pub value : OwnedAttributeValue
  pub kind : LogAttributeKind

-- The first `attributeCount` entries of the array are the list.
pub record OwnedLogRecord : Type 0 where
  pub timestamp : ℕ
  pub level : LogLevel
  pub logger_name : InlineText
  pub message : InlineText
  pub source : SourceLocation
  pub thread_id_hash : ℕ
  pub attributes : List OwnedLogAttribute
  pub truncated_attribute_count : ℕ
  pub truncated_bytes : ℕ

-- The visitor of `ToOwned`: the value, and `truncatedBytes` as it leaves it.
unfoldable pub to_owned_value : AttributeValue Bytes → ℕ → OwnedAttributeValue × ℕ
to_owned_value (int64 i) t = (some (int64 i), t)
to_owned_value (uint64 n) t = (some (uint64 n), t)
to_owned_value (double d) t = (some (double d), t)
to_owned_value (boolean b) t = (some (boolean b), t)
to_owned_value (text s) t =
    let (copy, t') = Inline.assign max_attr_text_bytes (Inline.fresh max_attr_text_bytes) s t in
    (some (text copy), t')

-- The loop of `ToOwned`.
unfoldable pub to_owned_attributes : List (LogAttribute Bytes) → ℕ → List OwnedLogAttribute × ℕ
unfolding to_owned_value
to_owned_attributes [] t = ([], t)
to_owned_attributes (x ∷ xs) t =
    let (key, t') = Inline.assign max_attr_text_bytes (Inline.fresh max_attr_text_bytes) x.key t in
    let (value, t'') = to_owned_value x.value t' in
    let (rest, last) = to_owned_attributes xs t'' in
    (record { key = key; value = value; kind = x.kind } ∷ rest, last)

-- `ToOwned`.
unfoldable pub to_owned : LogRecordView → OwnedLogRecord
unfolding to_owned_attributes
to_owned r =
    let (name, t) =
      Inline.assign max_message_bytes (Inline.fresh max_message_bytes) r.logger_name 0 in
    let (message, t') =
      Inline.assign max_message_bytes (Inline.fresh max_message_bytes) r.message t in
    let count = min (length r.attributes) max_attributes in
    let (attributes, t'') =
      to_owned_attributes (take count r.attributes) (add_u32 t' r.truncated_bytes) in
    record {
      timestamp = r.timestamp;
      level = r.level;
      logger_name = name;
      message = message;
      source = r.source;
      thread_id_hash = r.thread_id_hash;
      attributes = attributes;
      truncated_attribute_count =
          if ltb count (length r.attributes)
          then add_u32 r.truncated_attribute_count (length r.attributes - count)
          else r.truncated_attribute_count;
      truncated_bytes = t'';
    }

-- `ToViewValue`.
unfoldable pub to_view_value : OwnedAttributeValue → AttributeValue Bytes
to_view_value none = int64 (pos 0)
to_view_value (some v) = map_text Inline.view v

abbrev pub to_view_attribute : OwnedLogAttribute → LogAttribute Bytes
to_view_attribute x = record {
  key = Inline.view x.key;
  value = to_view_value x.value;
  kind = x.kind;
}

-- The record that `Deliver` gives to the wrapped sink.
unfoldable pub delivered_record : OwnedLogRecord → LogRecordView
unfolding to_view_value
delivered_record o = record {
  timestamp = o.timestamp;
  level = o.level;
  logger_name = Inline.view o.logger_name;
  message = Inline.view o.message;
  source = o.source;
  thread_id_hash = o.thread_id_hash;
  attributes = map to_view_attribute o.attributes;
  truncated_attribute_count = o.truncated_attribute_count;
  truncated_bytes = o.truncated_bytes;
}
