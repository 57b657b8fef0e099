-- ===== src/Format/Json/Members.antt =====
-- What the reader of Format/Json/Reader gets out of the attributes in a line of `JsonRecordFormatter`,
-- src/NGIN/Log/RecordFormatter.cpp.
use ngin_log.Base.{
  ℕ, zero, suc, ◌≤◌, ◌<◌, Bool, true, false, List, [], ◌∷◌, ◌++◌, map, some, Bytes, All, arith,
  ◌==◌, if◌then◌else◌, length, length-append, ◌≡◌, ◌≢◌, refl, ◌∙◌,
}
use mathlib.Core.List.{append_assoc}
use ngin_log.Base.Int.{pos, negsuc}
use ngin_log.Base.Digits.{digits}
use ngin_log.Level.{codes}
use ngin_log.Types.{AttributeValue, int64, uint64, double, boolean, text, LogAttribute}
use ngin_log.Format.{Platform, append_json_attribute_value}
use ngin_log.Format.Appended.{
  Adds, ◌⨟◌, fixed, unchanged, only_if, unsigned, signed, signed_digits, json_text, FitsValue,
}
use ngin_log.Format.Escape.{json_escaped}
use ngin_log.Format.Json.{append_attributes}
use ngin_log.Format.Json.Reader.{
  return, natural, quoted, JsonValue, number, flag, words, value, Member, member, members, object,
}
use ngin_log.Format.Json.Steps.{
  then_, literal_lem, quoted_lem, Ends, IsDecimal, natural_lem, digits-ne_nil, IsDecimal-digits,
}

-- What is appended for a value.
json_shown : AttributeValue Bytes → Bytes
json_shown (int64 i) = signed_digits i
json_shown (uint64 n) = digits 10 n
json_shown (double d) = []
json_shown (boolean b) = if b then codes "true" else codes "false"
json_shown (text s) = b'"' ∷ (json_escaped s ++ b'"' ∷ [])

value_shown :
    (p : Platform) (v : AttributeValue Bytes)
    → FitsValue v
    → Adds (append_json_attribute_value p v) (json_shown v)
unfolding append_json_attribute_value json_shown
value_shown p (int64 i) h = signed i h
value_shown p (uint64 n) h = unsigned n h
value_shown p (double d) h = absurd h
value_shown p (boolean true) h = fixed (codes "true")
value_shown p (boolean false) h = fixed (codes "false")
value_shown p (text s) h = fixed (b'"' ∷ []) ⨟ json_text s ⨟ fixed (b'"' ∷ [])

-- The value that a reader is to find. A double is not among the values that are read.
abbrev pub to_json : AttributeValue Bytes → JsonValue
to_json (int64 i) = number i
to_json (uint64 n) = number (pos n)
to_json (double d) = number (pos 0)
to_json (boolean b) = flag b
to_json (text s) = words s

pub value-decimal :
    (n : ℕ) (s rest : Bytes)
    → s ≢ []
    → All IsDecimal s
    → natural (s ++ rest) ≡ some (n, rest)
    → value (s ++ rest) ≡ some (number (pos n), rest)
unfolding value return
value-decimal n [] rest ne d e = absurd (ne refl)
value-decimal n (c ∷ cs) rest ne ((l, h), d) e =
    let other : (k : ℕ) → k < b'0' → (c == k) ≡ false = λ k b. ground arith in
    let letter : (k : ℕ) → b'9' < k → (c == k) ≡ false = λ k b. ground arith in
    rw
      (
        other b'"' (omega arith),
        letter b't' (omega arith),
        letter b'f' (omega arith),
        other b'-' (omega arith),
      )
      (then_ natural _ e)

value_lem :
    (v : AttributeValue Bytes) (rest : Bytes)
    → FitsValue v
    → Ends rest
    → value (json_shown v ++ rest) ≡ some (to_json v, rest)
unfolding value json_shown return signed_digits
value_lem (int64 (pos n)) rest h e =
    value-decimal n (digits 10 n) rest (digits-ne_nil n) (IsDecimal-digits n) (natural_lem n rest e)
value_lem (int64 (negsuc n)) rest h e = then_ natural _ (natural_lem (suc n) rest e)
value_lem (uint64 n) rest h e =
    value-decimal n (digits 10 n) rest (digits-ne_nil n) (IsDecimal-digits n) (natural_lem n rest e)
value_lem (double d) rest h e = absurd h
value_lem (boolean true) rest h e = then_ _ _ (literal_lem (codes "true") rest)
value_lem (boolean false) rest h e = then_ _ _ (literal_lem (codes "false") rest)
value_lem (text s) rest h e = rw append_assoc (then_ quoted _ (quoted_lem s rest))

-- What is appended for the attributes.
pub attributes_shown : Bool → List (LogAttribute Bytes) → Bytes
attributes_shown later [] = []
attributes_shown later (x ∷ xs) =
    (if later then b',' ∷ [] else [])
    ++ (b'"'
        ∷ (json_escaped x.key
            ++ (b'"' ∷ (b':' ∷ (json_shown x.value ++ attributes_shown true xs)))))

pub append_attributes-attributes_shown :
    (p : Platform) (later : Bool) (xs : List (LogAttribute Bytes))
    → All (λ x. FitsValue x.value) xs
    → Adds (append_attributes p later xs) (attributes_shown later xs)
unfolding append_attributes attributes_shown
append_attributes-attributes_shown p later [] h = unchanged
append_attributes-attributes_shown p later (x ∷ xs) (h, hs) =
    only_if later _ (b',' ∷ []) (fixed (b',' ∷ []))
    ⨟ fixed (b'"' ∷ [])
    ⨟ json_text x.key
    ⨟ fixed (codes "\":")
    ⨟ value_shown p x.value h
    ⨟ append_attributes-attributes_shown p true xs hs

abbrev pub to_member : LogAttribute Bytes → Member
to_member x = (x.key, to_json x.value)

member_lem :
    (x : LogAttribute Bytes) (rest : Bytes)
    → FitsValue x.value
    → Ends rest
    → member (b'"' ∷ (json_escaped x.key ++ (b'"' ∷ (b':' ∷ (json_shown x.value ++ rest)))))
      ≡ some (to_member x, rest)
unfolding member return
member_lem x rest h e =
    then_ quoted _ (quoted_lem x.key (b':' ∷ (json_shown x.value ++ rest)))
    ∙ then_ _ _ (literal_lem (codes ":") (json_shown x.value ++ rest))
    ∙ then_ value _ (value_lem x.value rest h e)

-- The attributes with what stands behind them, in the form that is read.
pub attributes_then : Bool → List (LogAttribute Bytes) → Bytes → Bytes
attributes_then later [] rest = b'}' ∷ rest
attributes_then later (x ∷ xs) rest =
    (if later then b',' ∷ [] else [])
    ++ (b'"'
        ∷ (json_escaped x.key
            ++ (b'"' ∷ (b':' ∷ (json_shown x.value ++ attributes_then true xs rest)))))

pub shown-then_ :
    (later : Bool) (xs : List (LogAttribute Bytes)) (rest : Bytes)
    → attributes_shown later xs ++ b'}' ∷ rest ≡ attributes_then later xs rest
unfolding attributes_shown attributes_then
shown-then_ later [] rest = refl
shown-then_ true (x ∷ xs) rest = simp (append_assoc, shown-then_ true xs rest)
shown-then_ false (x ∷ xs) rest = simp (append_assoc, shown-then_ true xs rest)

attributes-Ends :
    (xs : List (LogAttribute Bytes)) (rest : Bytes) → Ends (attributes_then true xs rest)
unfolding attributes_then
attributes-Ends [] rest = refl
attributes-Ends (x ∷ xs) rest = refl

members_lem :
    (fuel : ℕ) (later : Bool) (xs : List (LogAttribute Bytes)) (rest : Bytes)
    → length xs < fuel
    → All (λ x. FitsValue x.value) xs
    → members fuel later (attributes_then later xs rest) ≡ some (map to_member xs, rest)
unfolding members attributes_then return
members_lem zero later xs rest b h = absurd (omega arith)
members_lem (suc fuel) later [] rest b h = refl
members_lem (suc fuel) true (x ∷ xs) rest b (h, hs) =
    then_ member _ (member_lem x (attributes_then true xs rest) h (attributes-Ends xs rest))
    ∙ then_ _ _ (members_lem fuel true xs rest (omega arith) hs)
members_lem (suc fuel) false (x ∷ xs) rest b (h, hs) =
    then_ member _ (member_lem x (attributes_then true xs rest) h (attributes-Ends xs rest))
    ∙ then_ _ _ (members_lem fuel true xs rest (omega arith) hs)

length-attributes_then :
    (later : Bool) (xs : List (LogAttribute Bytes)) (rest : Bytes)
    → length xs ≤ length (attributes_then later xs rest)
unfolding attributes_then
length-attributes_then later [] rest = omega arith
length-attributes_then true (x ∷ xs) rest = ground (
  arith,
  length-attributes_then true xs rest,
  length-append (json_escaped x.key)
      (b'"' ∷ (b':' ∷ (json_shown x.value ++ attributes_then true xs rest))),
  length-append (json_shown x.value) (attributes_then true xs rest),
)
length-attributes_then false (x ∷ xs) rest = ground (
  arith,
  length-attributes_then true xs rest,
  length-append (json_escaped x.key)
      (b'"' ∷ (b':' ∷ (json_shown x.value ++ attributes_then true xs rest))),
  length-append (json_shown x.value) (attributes_then true xs rest),
)

pub object_lem :
    (xs : List (LogAttribute Bytes)) (rest : Bytes)
    → All (λ x. FitsValue x.value) xs
    → object (b'{' ∷ attributes_then false xs rest) ≡ some (map to_member xs, rest)
unfolding object
object_lem xs rest h =
    let s = attributes_then false xs rest in
    then_ _ _ (literal_lem (codes "{") s)
    ∙ members_lem (suc (length s)) false xs rest
        (omega (arith, length-attributes_then false xs rest)) h
