-- ===== src/Format/Output.antt =====
-- One logical record is one physical line: no formatter writes a control byte but its last newline.
use ngin_log.Base.{
  ℕ, suc, ◌-◌, ◌/◌, ◌%◌, ◌≤◌, Bool, true, false, [], ◌∷◌, ◌++◌, some, Bytes, All-append, All-map,
  arith, length, replicate, zero, ◌≡◌, Option-cases, inl, inr,
}
use ngin_log.Base.Int.{ℤ, pos, negsuc}
use ngin_log.Base.Digits.{to_chars-cases, digits, digits-IsDigit, IsDigit}
use ngin_log.Level.{LogLevel, trace, debug, info, warn, error, fatal, off, to_string, codes}
use ngin_log.Types.{AttributeValue, int64, uint64, double, boolean, text}
use ngin_log.Format.{
  TimestampStyle, epoch_nanoseconds, epoch_milliseconds, iso8601_utc, iso8601_local, Platform,
  append_unsigned, append_signed, signed_to_chars, append_double, append_bool, append_escaped_text,
  append_json_escaped_text, append_attribute_value, append_json_attribute_value,
  append_logfmt_attribute_value, fill_cached_time_parts, append_fraction, append_timestamp,
  append_iso_timestamp,
}
use ngin_log.Format.Escape.{
  IsPrintable, text-escaped, text-json_escaped, escaped-IsPrintable, json_escaped-IsPrintable,
  escaped, json_escaped,
}

-- What the standard library prints of doubles and times holds no control byte.
pub record IsPlain (p : Platform) : Type 0 where
  pub doubles : (d : ℕ) (s : Bytes) → p.format_double d ≡ some s → IsPrintable s
  pub utc : (second : ℕ) → IsPrintable (p.utc_time second)
  pub local : (second : ℕ) → IsPrintable (p.local_time second)
  pub offsets : (second : ℕ) → IsPrintable (p.local_offset second)

-- A line: no control byte before its newline, which is its last byte.
pub record IsLine (s : Bytes) : Type 0 where
  pub before : Bytes
  pub ends : s ≡ before ++ b'\n' ∷ []
  pub printable : IsPrintable before

-- Appending keeps an output free of control bytes.
pub grow : (s t : Bytes) → IsPrintable s → IsPrintable t → IsPrintable (s ++ t)
grow = All-append (λ c. 0x20 ≤ c)

digits-IsPrintable : (n : ℕ) → IsPrintable (digits 10 n)
digits-IsPrintable n =
    All-map IsDigit (λ c. 0x20 ≤ c) (digits 10 n) (λ c h. omega arith)
      (digits-IsDigit 10 n (omega arith) (omega arith))

zeros-IsPrintable : (k : ℕ) → IsPrintable (replicate k b'0')
zeros-IsPrintable zero = tt
zeros-IsPrintable (suc k) = (omega arith, zeros-IsPrintable k)

pub to_string-IsPrintable : (level : LogLevel) → IsPrintable (to_string level)
to_string-IsPrintable trace = omega arith
to_string-IsPrintable debug = omega arith
to_string-IsPrintable info = omega arith
to_string-IsPrintable warn = omega arith
to_string-IsPrintable error = omega arith
to_string-IsPrintable fatal = omega arith
to_string-IsPrintable off = omega arith

module _ (output : Bytes) (h : IsPrintable output) where
  pub append_unsigned-IsPrintable : (n : ℕ) → IsPrintable (append_unsigned n output)
  unfolding append_unsigned
  append_unsigned-IsPrintable n = elim (to_chars-cases 32 10 n) [
    | inl e ↦ rw e h
    | inr e ↦ rw e (grow output (digits 10 n) h (digits-IsPrintable n))
  ]

  append_signed-IsPrintable : (i : ℤ) → IsPrintable (append_signed i output)
  unfolding append_signed
  append_signed-IsPrintable (pos n) = elim (to_chars-cases 32 10 n) [
    | inl e ↦ rw e h
    | inr e ↦ rw e (grow output (digits 10 n) h (digits-IsPrintable n))
  ]
  append_signed-IsPrintable (negsuc n) = elim (to_chars-cases 31 10 (suc n)) [
    | inl e ↦ rw (e, signed_to_chars) h
    | inr e ↦
        rw (e, signed_to_chars)
          (grow output (b'-' ∷ digits 10 (suc n)) h (omega arith, digits-IsPrintable (suc n)))
  ]

  pub append_escaped_text-IsPrintable : (s : Bytes) → IsPrintable (append_escaped_text s output)
  append_escaped_text-IsPrintable s =
      rw (text-escaped s output) (grow output (escaped s) h (escaped-IsPrintable s))

  pub append_json_escaped_text-IsPrintable :
      (s : Bytes) → IsPrintable (append_json_escaped_text s output)
  append_json_escaped_text-IsPrintable s =
      rw (text-json_escaped s output) (grow output (json_escaped s) h (json_escaped-IsPrintable s))

  append_bool-IsPrintable : (b : Bool) → IsPrintable (append_bool b output)
  unfolding append_bool
  append_bool-IsPrintable true = grow output _ h (omega arith)
  append_bool-IsPrintable false = grow output _ h (omega arith)

  append_fraction-IsPrintable : (nanos : ℕ) → IsPrintable (append_fraction nanos output)
  unfolding append_fraction
  append_fraction-IsPrintable nanos = elim (to_chars-cases 16 10 nanos) [
    | inl e ↦ rw (e, append_fraction) (grow output (codes "000000000") h (omega arith))
    | inr e ↦
        rw (e, append_fraction)
          (grow (output ++ replicate (9 - length (digits 10 nanos)) b'0') (digits 10 nanos)
            (grow output (replicate (9 - length (digits 10 nanos)) b'0') h
              (zeros-IsPrintable (9 - length (digits 10 nanos))))
            (digits-IsPrintable nanos))
  ]

module _ (p : Platform) (plain : IsPlain p) (output : Bytes) (h : IsPrintable output) where
  append_double-IsPrintable : (d : ℕ) → IsPrintable (append_double p d output)
  unfolding append_double
  append_double-IsPrintable d = elim (Option-cases (p.format_double d)) [
    | inl e ↦ rw (e, append_double) (grow output (codes "0") h (omega arith))
    | inr (s, e) ↦ rw (e, append_double) (grow output s h (plain.doubles d s e))
  ]

  pub append_attribute_value-IsPrintable :
      (v : AttributeValue Bytes) → IsPrintable (append_attribute_value p v output)
  unfolding append_attribute_value
  append_attribute_value-IsPrintable (int64 i) = append_signed-IsPrintable output h i
  append_attribute_value-IsPrintable (uint64 n) = append_unsigned-IsPrintable output h n
  append_attribute_value-IsPrintable (double d) = append_double-IsPrintable d
  append_attribute_value-IsPrintable (boolean b) = append_bool-IsPrintable output h b
  append_attribute_value-IsPrintable (text s) =
      grow (append_escaped_text s (output ++ b'"' ∷ [])) (b'"' ∷ [])
        (append_escaped_text-IsPrintable (output ++ b'"' ∷ [])
          (grow output (b'"' ∷ []) h (omega arith)) s)
        (omega arith)

  pub append_json_attribute_value-IsPrintable :
      (v : AttributeValue Bytes) → IsPrintable (append_json_attribute_value p v output)
  unfolding append_json_attribute_value
  append_json_attribute_value-IsPrintable (int64 i) = append_signed-IsPrintable output h i
  append_json_attribute_value-IsPrintable (uint64 n) = append_unsigned-IsPrintable output h n
  append_json_attribute_value-IsPrintable (double d) = append_double-IsPrintable d
  append_json_attribute_value-IsPrintable (boolean b) = append_bool-IsPrintable output h b
  append_json_attribute_value-IsPrintable (text s) =
      grow (append_json_escaped_text s (output ++ b'"' ∷ [])) (b'"' ∷ [])
        (append_json_escaped_text-IsPrintable (output ++ b'"' ∷ [])
          (grow output (b'"' ∷ []) h (omega arith)) s)
        (omega arith)

  pub append_logfmt_attribute_value-IsPrintable :
      (v : AttributeValue Bytes) → IsPrintable (append_logfmt_attribute_value p v output)
  unfolding append_logfmt_attribute_value
  append_logfmt_attribute_value-IsPrintable (text s) =
      grow (append_escaped_text s (output ++ b'"' ∷ [])) (b'"' ∷ [])
        (append_escaped_text-IsPrintable (output ++ b'"' ∷ [])
          (grow output (b'"' ∷ []) h (omega arith)) s)
        (omega arith)
  append_logfmt_attribute_value-IsPrintable (int64 i) =
      append_json_attribute_value-IsPrintable (int64 i)
  append_logfmt_attribute_value-IsPrintable (uint64 n) =
      append_json_attribute_value-IsPrintable (uint64 n)
  append_logfmt_attribute_value-IsPrintable (double d) =
      append_json_attribute_value-IsPrintable (double d)
  append_logfmt_attribute_value-IsPrintable (boolean b) =
      append_json_attribute_value-IsPrintable (boolean b)

  fill_cached_time_parts-IsPrintable :
      (style : TimestampStyle) (second : ℕ)
      → IsPrintable (fill_cached_time_parts p style second).0
        × IsPrintable (fill_cached_time_parts p style second).1
  unfolding fill_cached_time_parts
  fill_cached_time_parts-IsPrintable epoch_nanoseconds second = (tt, tt)
  fill_cached_time_parts-IsPrintable epoch_milliseconds second = (tt, tt)
  fill_cached_time_parts-IsPrintable iso8601_utc second = (plain.utc second, (omega arith, tt))
  fill_cached_time_parts-IsPrintable iso8601_local second =
      (plain.local second, plain.offsets second)

  append_iso_timestamp-IsPrintable :
      (style : TimestampStyle) (timestamp : ℕ)
      → IsPrintable (append_iso_timestamp p timestamp style [] [] output)
  unfolding append_iso_timestamp
  append_iso_timestamp-IsPrintable style timestamp =
      let (prefix, suffix) = fill_cached_time_parts p style (timestamp / 1000000000) in
      let (hp, hs) = fill_cached_time_parts-IsPrintable style (timestamp / 1000000000) in
      grow (append_fraction (timestamp % 1000000000) (output ++ prefix ++ b'.' ∷ [])) suffix
        (append_fraction-IsPrintable (output ++ prefix ++ b'.' ∷ [])
          (grow (output ++ prefix) (b'.' ∷ []) (grow output prefix h hp) (omega arith))
          (timestamp % 1000000000))
        hs

  pub append_timestamp-IsPrintable :
      (timestamp : ℕ) (style : TimestampStyle)
      → IsPrintable (append_timestamp p timestamp style [] [] output)
  unfolding append_timestamp
  append_timestamp-IsPrintable timestamp epoch_nanoseconds =
      append_unsigned-IsPrintable output h timestamp
  append_timestamp-IsPrintable timestamp epoch_milliseconds =
      append_unsigned-IsPrintable output h (timestamp / 1000000)
  append_timestamp-IsPrintable timestamp iso8601_utc =
      append_iso_timestamp-IsPrintable iso8601_utc timestamp
  append_timestamp-IsPrintable timestamp iso8601_local =
      append_iso_timestamp-IsPrintable iso8601_local timestamp
