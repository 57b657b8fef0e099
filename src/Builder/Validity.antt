-- ===== src/Builder/Validity.antt =====
-- The invariant of the record builder, and that each of its operations keeps it.
use ngin_log.Base.{
  ◌^◌, ◌≤◌, ◌<◌, List, [], ◌∷◌, ◌++◌, Bytes, arith, length, All, All-append, All-map, length-append,
  Bool-cases, inl, inr, leb, ◌≡◌, refl, none, some, false,
}
use ngin_log.Types.{
  max_message_bytes, max_attributes, max_attr_text_bytes, LogAttributeKind, AttributeValue, int64,
  uint64, double, boolean, text, LogAttribute,
}
use ngin_log.Types.Inline
use ngin_log.Types.Arena
use ngin_log.Types.Arena.{Arena, View, IsInside}
use ngin_log.Builder.{
  RecordBuilder, AttrInput, attribute_value, bool, enumerator, signed, unsigned, floating,
  string_view, c_string, string, duration, error_code, pointer, new, message, copy_text, copied,
  copy_attribute_value, normalize_value, append_attribute, attr,
}

abbrev pub ValueIsInside : Arena → AttributeValue View → Type 0
ValueIsInside a (text v) = IsInside a v
ValueIsInside a _ = Unit {0}

abbrev pub AttributeIsInside : Arena → LogAttribute View → Type 0
AttributeIsInside a x = IsInside a x.key × ValueIsInside a x.value

-- The message array and the pool are valid, no more attributes than there is room for, and every
-- view lies in the used part of the pool.
pub record IsValid (b : RecordBuilder) : Type 0 where
  pub message_valid : Inline.IsValid max_message_bytes b.message_text
  pub pool_valid : Arena.IsValid max_attr_text_bytes b.pool
  pub bounded : length b.attributes ≤ max_attributes
  pub inside : All (AttributeIsInside b.pool) b.attributes
  pub counter : b.truncated_attribute_count < 2 ^ 32

pub new-IsValid : IsValid new
new-IsValid = record {
  message_valid = record { array = refl; fits = omega arith; terminated = refl };
  pool_valid = Arena.fresh-IsValid max_attr_text_bytes (omega arith);
  bounded = omega arith;
  inside = tt;
  counter = omega arith;
}

-- Views stay inside a pool that only grows.
pub ValueIsInside-mono :
    (a c : Arena) (v : AttributeValue View)
    → a.used ≤ c.used
    → ValueIsInside a v
    → ValueIsInside c v
ValueIsInside-mono a c (text v) g h = omega arith
ValueIsInside-mono a c _ g h = tt

AttributeIsInside-mono :
    (a c : Arena)
    → a.used ≤ c.used
    → (xs : List (LogAttribute View)) → All (AttributeIsInside a) xs
    → All (AttributeIsInside c) xs
AttributeIsInside-mono a c g xs =
    All-map (AttributeIsInside a) (AttributeIsInside c) xs
      (λ x h. (omega (arith, h.0), ValueIsInside-mono a c x.value g h.1))

-- A pool and what an operation made of it: it is valid, it has grown, and the value lies inside.
pub record Grown (a : Arena) (r : AttributeValue View × Arena) : Type 0 where
  pub valid : Arena.IsValid max_attr_text_bytes r.1
  pub grown : a.used ≤ r.1.used
  pub inside : ValueIsInside r.1 r.0

module _ (a : Arena) (v : Arena.IsValid max_attr_text_bytes a) where
  copied-Grown : (s : Bytes) → Grown a (copied (copy_text a s))
  unfolding copied copy_text
  copied-Grown s =
      let (valid, grown, inside) = Arena.copy_text-IsValid max_attr_text_bytes a v s in
      record { valid = valid; grown = grown; inside = inside }

  kept : (x : AttributeValue View) → ValueIsInside a x → Grown a (x, a)
  kept x h = record { valid = v; grown = omega arith; inside = h }

  copy_attribute_value-Grown : (x : AttributeValue Bytes) → Grown a (copy_attribute_value a x)
  unfolding copy_attribute_value
  copy_attribute_value-Grown (text s) = copied-Grown s
  copy_attribute_value-Grown (int64 i) = kept (int64 i) tt
  copy_attribute_value-Grown (uint64 n) = kept (uint64 n) tt
  copy_attribute_value-Grown (double d) = kept (double d) tt
  copy_attribute_value-Grown (boolean b) = kept (boolean b) tt

  pub normalize_value-Grown : (input : AttrInput) → Grown a (normalize_value a input)
  unfolding normalize_value
  normalize_value-Grown (attribute_value x) = copy_attribute_value-Grown x
  normalize_value-Grown (bool b) = kept (boolean b) tt
  normalize_value-Grown (enumerator i) = normalize_value-Grown i
  normalize_value-Grown (signed i) = kept (int64 i) tt
  normalize_value-Grown (unsigned n) = kept (uint64 n) tt
  normalize_value-Grown (floating d) = kept (double d) tt
  normalize_value-Grown (string_view s) = copied-Grown s
  normalize_value-Grown (c_string none) = copied-Grown []
  normalize_value-Grown (c_string (some s)) = copied-Grown s
  normalize_value-Grown (string s) = copied-Grown s
  normalize_value-Grown (duration i) = kept (int64 i) tt
  normalize_value-Grown (error_code e) = copied-Grown _
  normalize_value-Grown (pointer raw) = copied-Grown _

-- `Message` keeps the invariant, whatever the text.
pub message-IsValid : (b : RecordBuilder) (input : Bytes) → IsValid b → IsValid (message b input)
unfolding message
message-IsValid b input v = record {
  message_valid =
      Inline.assign-IsValid max_message_bytes b.message_text input b.pool.truncated_bytes
        v.message_valid.array;
  pool_valid = record {
    array = v.pool_valid.array;
    fits = v.pool_valid.fits;
    small = v.pool_valid.small;
    counter = omega (
      arith,
      (Inline.assign_lem max_message_bytes b.message_text input b.pool.truncated_bytes
          v.message_valid.array v.pool_valid.counter).1,
    );
  };
  bounded = v.bounded;
  inside = v.inside;
  counter = v.counter;
}

append-bounded :
    (xs : List (LogAttribute View)) (x : LogAttribute View)
    → leb max_attributes (length xs) ≡ false
    → length (xs ++ x ∷ []) ≤ max_attributes
append-bounded xs x e = ground (arith, length-append xs (x ∷ []))

append_attribute-IsValid :
    (b : RecordBuilder) (key : Bytes) (value : AttributeValue View) (kind : LogAttributeKind)
    → IsValid b
    → ValueIsInside b.pool value
    → IsValid (append_attribute b key value kind)
unfolding append_attribute copy_text
append_attribute-IsValid b key value kind v h =
    elim (Bool-cases (leb max_attributes (length b.attributes))) [
      | inl full ↦ rw full (record {
        message_valid = v.message_valid;
        pool_valid = v.pool_valid;
        bounded = v.bounded;
        inside = v.inside;
        counter = omega arith;
      })
      | inr room ↦
          let (valid, grown, inside) =
            Arena.copy_text-IsValid max_attr_text_bytes b.pool v.pool_valid key in
          rw room (record {
            message_valid = v.message_valid;
            pool_valid = valid;
            bounded = append-bounded b.attributes _ room;
            inside =
                All-append _ b.attributes _
                  (AttributeIsInside-mono b.pool (copy_text b.pool key).1 grown b.attributes
                    v.inside)
                  ((inside, ValueIsInside-mono b.pool (copy_text b.pool key).1 value grown h), tt);
            counter = v.counter;
          })
    ]

-- `Attr` keeps the invariant, whatever the key, the value and the kind.
pub attr-IsValid :
    (b : RecordBuilder) (key : Bytes) (input : AttrInput) (kind : LogAttributeKind)
    → IsValid b
    → IsValid (attr b key input kind)
unfolding attr
attr-IsValid b key input kind v =
    let g = normalize_value-Grown b.pool v.pool_valid input in
    let a = (normalize_value b.pool input).1 in
    append_attribute-IsValid (record b { pool = a }) key (normalize_value b.pool input).0 kind
      (record {
        message_valid = v.message_valid;
        pool_valid = g.valid;
        bounded = v.bounded;
        inside = AttributeIsInside-mono b.pool a g.grown b.attributes v.inside;
        counter = v.counter;
      })
      g.inside
