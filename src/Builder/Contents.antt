-- ===== src/Builder/Contents.antt =====
-- What the record builder's accessors return after `Message` and `Attr`.
use ngin_log.Base.{
  ℕ, ◌+◌, ◌-◌, ◌%◌, ◌^◌, ◌<◌, min, List, [], ◌∷◌, ◌++◌, map, Bytes, arith, length, take, All,
  Bool-cases, inl, inr, leb, ◌≡◌, ◌∙◌, refl, ap, ap₂, none, some, add_u32, tests, leb→le,
}
use mathlib.Core.List.{map-append}
use ngin_log.Types.{
  max_message_bytes, max_attributes, max_attr_text_bytes, LogAttributeKind, AttributeValue, int64,
  uint64, double, boolean, text, LogAttribute, map_text,
}
use ngin_log.Types.Inline
use ngin_log.Types.Arena
use ngin_log.Types.Arena.{Arena, View, IsInside, read}
use ngin_log.Builder.{
  RecordBuilder, AttrInput, attribute_value, bool, enumerator, signed, unsigned, floating,
  string_view, c_string, string, duration, error_code, pointer, message, copy_text, copied,
  copy_attribute_value, normalize_value, append_attribute, attr, get_message, get_attributes,
  resolve, pointer_text, error_code_text,
}
use ngin_log.Builder.Validity.{IsValid, AttributeIsInside, ValueIsInside, normalize_value-Grown}

-- After `Message` the builder holds the first 512 bytes of the text, whatever message it held, the
-- bytes left out are counted modulo 2^32, and the attributes are as they were.
pub message_lem :
    (b : RecordBuilder) (input : Bytes)
    → IsValid b
    → (get_message (message b input) ≡ take max_message_bytes input)
      × ((message b input).pool.truncated_bytes
          ≡ (b.pool.truncated_bytes + (length input - max_message_bytes)) % 2 ^ 32)
      × (get_attributes (message b input) ≡ get_attributes b)
unfolding message
message_lem b input v =
    let (shown, counted) =
      Inline.assign_lem max_message_bytes b.message_text input b.pool.truncated_bytes
        v.message_valid.array v.pool_valid.counter in
    (shown, counted, refl)

-- What a value says in full, before any text is cut: the value that `Attr` is meant to record.
unfoldable pub meaning : AttrInput → AttributeValue Bytes
meaning (attribute_value v) = v
meaning (bool b) = boolean b
meaning (enumerator i) = meaning i
meaning (signed i) = int64 i
meaning (unsigned n) = uint64 n
meaning (floating d) = double d
meaning (string_view s) = text s
meaning (c_string none) = text []
meaning (c_string (some s)) = text s
meaning (string s) = text s
meaning (duration i) = int64 i
meaning (error_code e) = text (error_code_text e)
meaning (pointer raw) = text (pointer_text raw)

-- The bytes of the pool that a value asks for.
abbrev pub text_length : AttributeValue Bytes → ℕ
text_length (text s) = length s
text_length _ = 0

normalize_value-meaning :
    (a : Arena) (input : AttrInput)
    → normalize_value a input ≡ copy_attribute_value a (meaning input)
unfolding normalize_value copy_attribute_value meaning
normalize_value-meaning a (attribute_value v) = refl
normalize_value-meaning a (enumerator i) = normalize_value-meaning a i
normalize_value-meaning a (c_string none) = refl
normalize_value-meaning a (c_string (some s)) = refl
normalize_value-meaning a _ = refl

-- The pool after a copy, and what the views taken from it show.
record Copied (a : Arena) (v : AttributeValue Bytes) (r : AttributeValue View × Arena)
    : Type 0 where
  shown : map_text (read r.1) r.0 ≡ map_text (take (max_attr_text_bytes - a.used)) v
  used : r.1.used ≡ a.used + min (text_length v) (max_attr_text_bytes - a.used)
  counted :
      r.1.truncated_bytes
      ≡ (a.truncated_bytes + (text_length v - (max_attr_text_bytes - a.used))) % 2 ^ 32
  stable : (w : View) → IsInside a w → read r.1 w ≡ read a w

nothing-Copied :
    (a : Arena) (x : AttributeValue Bytes) (y : AttributeValue View)
    → map_text (read a) y ≡ map_text (take (max_attr_text_bytes - a.used)) x
    → text_length x ≡ 0
    → Arena.IsValid max_attr_text_bytes a
    → Copied a x (y, a)
nothing-Copied a x y e z v = record {
  shown = e;
  used = omega arith;
  counted = omega arith;
  stable = λ w h. refl;
}

copy_attribute_value-Copied :
    (a : Arena) (x : AttributeValue Bytes)
    → Arena.IsValid max_attr_text_bytes a
    → Copied a x (copy_attribute_value a x)
unfolding copy_attribute_value copy_text copied
copy_attribute_value-Copied a (text s) v =
    let (shown, used, counted) = Arena.copy_text_lem max_attr_text_bytes a v s in
    record {
      shown = ap text shown;
      used = used;
      counted = counted;
      stable = Arena.copy_text_stable max_attr_text_bytes a v s;
    }
copy_attribute_value-Copied a (int64 i) v = nothing-Copied a (int64 i) (int64 i) refl refl v
copy_attribute_value-Copied a (uint64 i) v = nothing-Copied a (uint64 i) (uint64 i) refl refl v
copy_attribute_value-Copied a (double i) v = nothing-Copied a (double i) (double i) refl refl v
copy_attribute_value-Copied a (boolean i) v = nothing-Copied a (boolean i) (boolean i) refl refl v

normalize_value-Copied :
    (a : Arena) (input : AttrInput)
    → Arena.IsValid max_attr_text_bytes a
    → Copied a (meaning input) (normalize_value a input)
normalize_value-Copied a input v =
    rw normalize_value-meaning (copy_attribute_value-Copied a (meaning input) v)

map_text-read :
    (a c : Arena) (x : AttributeValue View)
    → ((w : View) → IsInside a w → read c w ≡ read a w)
    → ValueIsInside a x
    → map_text (read c) x ≡ map_text (read a) x
map_text-read a c (text w) st h = ap text (st w h)
map_text-read a c (int64 i) st h = refl
map_text-read a c (uint64 i) st h = refl
map_text-read a c (double i) st h = refl
map_text-read a c (boolean i) st h = refl

LogAttribute-path :
    {k l : Bytes} {x y : AttributeValue Bytes}
    → k ≡ l
    → x ≡ y
    → (kind : LogAttributeKind)
    → ◌≡◌ {A = LogAttribute Bytes}
        (record { key = k; value = x; kind = kind })
        (record { key = l; value = y; kind = kind })
LogAttribute-path p q kind = λ i. record { key = p i; value = q i; kind = kind }

-- Attributes keep what they show while the pool grows.
map-resolve :
    (a c : Arena) (xs : List (LogAttribute View))
    → ((w : View) → IsInside a w → read c w ≡ read a w)
    → All (AttributeIsInside a) xs
    → map (resolve c) xs ≡ map (resolve a) xs
map-resolve a c [] st h = refl
map-resolve a c (x ∷ xs) st h =
    ap₂ ◌∷◌
      (λ i. record {
        key = st x.key h.0.0 i;
        value = map_text-read a c x.value st h.0.1 i;
        kind = x.kind;
      })
      (map-resolve a c xs st h.1)

-- The room in the pool.
abbrev pub room : RecordBuilder → ℕ
room b = max_attr_text_bytes - b.pool.used

-- The room that the value leaves for the key.
abbrev pub room_for_key : RecordBuilder → AttrInput → ℕ
room_for_key b input = room b - text_length (meaning input)

-- The attribute that `Attr` is meant to record, cut to the room in the pool.
abbrev pub recorded : RecordBuilder → Bytes → AttrInput → LogAttributeKind → LogAttribute Bytes
recorded b key input kind = record {
  key = take (room_for_key b input) key;
  value = map_text (take (room b)) (meaning input);
  kind = kind;
}

append_attribute-full :
    (b : RecordBuilder) (key : Bytes) (value : AttributeValue View) (kind : LogAttributeKind)
    → length b.attributes ≡ max_attributes
    → append_attribute b key value kind
      ≡ record b { truncated_attribute_count = add_u32 b.truncated_attribute_count 1 }
unfolding append_attribute
append_attribute-full b key value kind e = rw e

append_attribute-room :
    (b : RecordBuilder) (key : Bytes) (value : AttributeValue View) (kind : LogAttributeKind)
    → length b.attributes < max_attributes
    → append_attribute b key value kind ≡ record b {
      pool = (copy_text b.pool key).1;
      attributes =
          b.attributes
          ++ (record { key = (copy_text b.pool key).0; value = value; kind = kind } ∷ []);
    }
unfolding append_attribute
append_attribute-room b key value kind h =
    elim (Bool-cases (leb max_attributes (length b.attributes))) [
      | inl e ↦ absurd (omega (tests, leb→le max_attributes (length b.attributes) e))
      | inr e ↦ rw e
    ]

-- With room for one more attribute, `Attr` adds it behind those that are there, which go on
-- showing what they showed: the value is cut to the room in the pool, and the key to the room
-- that the value leaves. Every byte left out is counted modulo 2^32.
pub attr_lem :
    (b : RecordBuilder) (key : Bytes) (input : AttrInput) (kind : LogAttributeKind)
    → IsValid b
    → length b.attributes < max_attributes
    → (get_attributes (attr b key input kind) ≡ get_attributes b ++ recorded b key input kind ∷ [])
      × ((attr b key input kind).pool.truncated_bytes
          ≡ (b.pool.truncated_bytes
              + (text_length (meaning input) - room b)
              + (length key - room_for_key b input))
            % 2 ^ 32)
unfolding attr copy_text
attr_lem b key input kind v h =
    let g = normalize_value-Grown b.pool v.pool_valid input in
    let n = normalize_value-Copied b.pool input v.pool_valid in
    let (value, a) = normalize_value b.pool input in
    let (shown, used, counted) = Arena.copy_text_lem max_attr_text_bytes a g.valid key in
    let left : max_attr_text_bytes - a.used ≡ room_for_key b input =
      omega (arith, n.used, v.pool_valid.fits) in
    let later = Arena.copy_text_stable max_attr_text_bytes a g.valid key in
    let c = (copy_text a key).1 in
    let old : map (resolve c) b.attributes ≡ get_attributes b =
      map-resolve b.pool c b.attributes
        (λ w iw. later w (omega (arith, g.grown, iw)) ∙ n.stable w iw) v.inside in
    let added : resolve c (record { key = (copy_text a key).0; value = value; kind = kind })
        ≡ recorded b key input kind =
      LogAttribute-path (shown ∙ ap (λ m. take m key) left)
        (map_text-read a c value later g.inside ∙ n.shown) kind in
    rw (append_attribute-room (record b { pool = a }) key value kind h) (
      map-append (resolve c) b.attributes _ ∙ ap₂ (λ xs x. xs ++ x ∷ []) old added,
      omega (arith, counted, n.counted, left),
    )

-- When the eight places are taken `Attr` leaves the attributes as they are, and counts one more
-- that was left out, modulo 2^32.
pub attr_full :
    (b : RecordBuilder) (key : Bytes) (input : AttrInput) (kind : LogAttributeKind)
    → IsValid b
    → length b.attributes ≡ max_attributes
    → (get_attributes (attr b key input kind) ≡ get_attributes b)
      × ((attr b key input kind).truncated_attribute_count
          ≡ (b.truncated_attribute_count + 1) % 2 ^ 32)
unfolding attr
attr_full b key input kind v e =
    let n = normalize_value-Copied b.pool input v.pool_valid in
    let (value, a) = normalize_value b.pool input in
    rw (append_attribute-full (record b { pool = a }) key value kind e)
      (map-resolve b.pool a b.attributes n.stable v.inside, omega arith)
