-- ===== src/Async/Owned.antt =====
-- The copy of a record that waits in the queue, and what the wrapped sink is given of it.
use ngin_log.Base.{
  ℕ, ◌+◌, ◌-◌, ◌%◌, ◌^◌, ◌<◌, min, List, [], ◌∷◌, map, Bytes, arith, length, length-replicate, take,
  take-min, ◌≡◌, refl, ap, ◌∙◌,
}
use ngin_log.Types.{
  max_message_bytes, max_attributes, max_attr_text_bytes, AttributeValue, int64, uint64, double,
  boolean, text, LogAttribute, LogRecordView, map_text,
}
use ngin_log.Types.Inline
use ngin_log.Async.{
  to_owned_value, to_owned_attributes, to_owned, to_view_value, to_view_attribute, delivered_record,
}

-- An attribute cut to the capacities of its copy.
abbrev pub cut_attribute : LogAttribute Bytes → LogAttribute Bytes
cut_attribute x = record {
  key = take max_attr_text_bytes x.key;
  value = map_text (take max_attr_text_bytes) x.value;
  kind = x.kind;
}

-- The bytes that the copies of a value and of a list of attributes leave out.
abbrev pub value_loss : AttributeValue Bytes → ℕ
value_loss (text s) = length s - max_attr_text_bytes
value_loss _ = 0

abbrev pub loss : List (LogAttribute Bytes) → ℕ
loss [] = 0
loss (x ∷ xs) = (length x.key - max_attr_text_bytes) + value_loss x.value + loss xs

-- The record cut to the capacities of its copy, with what is left out counted modulo 2^32.
abbrev pub cut : LogRecordView → LogRecordView
cut r = record r {
  logger_name = take max_message_bytes r.logger_name;
  message = take max_message_bytes r.message;
  attributes = map cut_attribute (take max_attributes r.attributes);
  truncated_attribute_count =
      (r.truncated_attribute_count + (length r.attributes - max_attributes)) % 2 ^ 32;
  truncated_bytes =
      (r.truncated_bytes
        + (length r.logger_name - max_message_bytes)
        + (length r.message - max_message_bytes)
        + loss (take max_attributes r.attributes))
      % 2 ^ 32;
}

-- An assignment to a new text.
assigned :
    (capacity : ℕ) (s : Bytes) (t : ℕ)
    → t < 2 ^ 32
    → (Inline.view (Inline.assign capacity (Inline.fresh capacity) s t).0 ≡ take capacity s)
      × ((Inline.assign capacity (Inline.fresh capacity) s t).1
          ≡ (t + (length s - capacity)) % 2 ^ 32)
assigned capacity s t h =
    Inline.assign_lem capacity (Inline.fresh capacity) s t (length-replicate (capacity + 1) 0) h

to_owned_value-cut :
    (v : AttributeValue Bytes) (t : ℕ)
    → t < 2 ^ 32
    → (to_view_value (to_owned_value v t).0 ≡ map_text (take max_attr_text_bytes) v)
      × ((to_owned_value v t).1 ≡ (t + value_loss v) % 2 ^ 32)
unfolding to_owned_value to_view_value
to_owned_value-cut (int64 i) t h = (refl, omega arith)
to_owned_value-cut (uint64 n) t h = (refl, omega arith)
to_owned_value-cut (double d) t h = (refl, omega arith)
to_owned_value-cut (boolean b) t h = (refl, omega arith)
to_owned_value-cut (text s) t h =
    let (shown, counted) = assigned max_attr_text_bytes s t h in (ap text shown, counted)

to_owned_attributes-cut :
    (xs : List (LogAttribute Bytes)) (t : ℕ)
    → t < 2 ^ 32
    → (map to_view_attribute (to_owned_attributes xs t).0 ≡ map cut_attribute xs)
      × ((to_owned_attributes xs t).1 ≡ (t + loss xs) % 2 ^ 32)
unfolding to_owned_attributes
to_owned_attributes-cut [] t h = (refl, omega arith)
to_owned_attributes-cut (x ∷ xs) t h =
    let key = assigned max_attr_text_bytes x.key t h in
    let t' = (Inline.assign max_attr_text_bytes (Inline.fresh max_attr_text_bytes) x.key t).1 in
    let value = to_owned_value-cut x.value t' (omega (arith, key.1)) in
    let t'' = (to_owned_value x.value t').1 in
    let rest = to_owned_attributes-cut xs t'' (omega (arith, value.1)) in
    (
      λ i. record { key = key.0 i; value = value.0 i; kind = x.kind } ∷ rest.0 i,
      omega (arith, key.1, value.1, rest.1),
    )

-- The wrapped sink is given the record that was written, cut to the capacities of its copy: 512 bytes
-- of the logger's name and of the message, eight attributes, 256 bytes of a key or a text value. What
-- is left out is added to the record's counters modulo 2^32.
pub delivered_record-to_owned :
    (r : LogRecordView)
    → r.truncated_bytes < 2 ^ 32
    → r.truncated_attribute_count < 2 ^ 32
    → delivered_record (to_owned r) ≡ cut r
unfolding delivered_record to_owned
delivered_record-to_owned r hb hc =
    let name = assigned max_message_bytes r.logger_name 0 (omega arith) in
    let t = (Inline.assign max_message_bytes (Inline.fresh max_message_bytes) r.logger_name 0).1 in
    let message = assigned max_message_bytes r.message t (omega (arith, name.1)) in
    let t' = (Inline.assign max_message_bytes (Inline.fresh max_message_bytes) r.message t).1 in
    let first = take (min (length r.attributes) max_attributes) r.attributes in
    let attributes =
      to_owned_attributes-cut first ((t' + r.truncated_bytes % 2 ^ 32) % 2 ^ 32) (omega arith) in
    let all : first ≡ take max_attributes r.attributes = take-min max_attributes r.attributes in
    let bytes : (to_owned r).truncated_bytes ≡ (cut r).truncated_bytes =
      attributes.1 ∙ (rw all (omega (arith, name.1, message.1))) in
    let count : (to_owned r).truncated_attribute_count ≡ (cut r).truncated_attribute_count =
      ground arith in
    λ i. record r {
      logger_name = name.0 i;
      message = message.0 i;
      attributes = (attributes.0 ∙ ap (map cut_attribute) all) i;
      truncated_attribute_count = count i;
      truncated_bytes = bytes i;
    }
