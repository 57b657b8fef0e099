-- ===== src/Format/Timestamp.antt =====
-- `AppendTimestamp`: the fraction has nine digits that read as the nanoseconds of the second, and
-- the 64-bit numbers are never left out.
use ngin_log.Base.{
  ℕ, ◌-◌, ◌/◌, ◌%◌, ◌^◌, ◌≤◌, ◌<◌, true, [], ◌∷◌, ◌++◌, some, Bytes, arith, length, replicate,
  length-append, length-replicate, ◌≡◌, refl, ◌∙◌, zero, suc,
}
use mathlib.Core.List.{append_assoc}
use ngin_log.Base.Digits.{to_chars, digits, read_onto, read-digits, length-digits, digit_value}
use ngin_log.Format.{
  TimestampStyle, iso8601_utc, iso8601_local, epoch_nanoseconds, epoch_milliseconds, is_iso,
  Platform, append_unsigned, append_fraction, append_iso_timestamp, append_timestamp,
  fill_cached_time_parts,
}

pub to_chars_fits :
    (capacity base n k : ℕ)
    → 2 ≤ base
    → n < base ^ suc k
    → suc k ≤ capacity
    → to_chars capacity base n ≡ some (digits base n)
unfolding to_chars
to_chars_fits capacity base n k b h c = ground (arith, length-digits base n k b h)

-- Every 64-bit number is printed: its decimal digits are appended, and they read as the number.
pub append_unsigned_lem :
    (n : ℕ) (output : Bytes)
    → n < 2 ^ 64
    → (append_unsigned n output ≡ output ++ digits 10 n)
      × (read_onto 10 0 (digits 10 n) ≡ n)
      × (length (digits 10 n) ≤ 20)
unfolding append_unsigned
append_unsigned_lem n output h = (
  rw (to_chars_fits 32 10 n 19 (omega arith) (omega arith) (omega arith)),
  read-digits 10 n (omega arith) (omega arith),
  length-digits 10 n 19 (omega arith) (omega arith),
)

-- The digits of a fraction, with the zeros before them.
fraction : ℕ → Bytes
fraction nanos = replicate (9 - length (digits 10 nanos)) b'0' ++ digits 10 nanos

read_onto-zeros : (k : ℕ) (s : Bytes) → read_onto 10 0 (replicate k b'0' ++ s) ≡ read_onto 10 0 s
unfolding read_onto digit_value
read_onto-zeros zero s = refl
read_onto-zeros (suc k) s = read_onto-zeros k s

append_fraction_eq :
    (nanos : ℕ) (output : Bytes)
    → nanos < 10 ^ 9
    → append_fraction nanos output ≡ output ++ fraction nanos
unfolding append_fraction fraction
append_fraction_eq nanos output h =
    rw (to_chars_fits 16 10 nanos 8 (omega arith) h (omega arith), append_fraction)
      (append_assoc output (replicate (9 - length (digits 10 nanos)) b'0') (digits 10 nanos))

length-fraction : (nanos : ℕ) → nanos < 10 ^ 9 → length (fraction nanos) ≡ 9
unfolding fraction
length-fraction nanos h = omega (
  arith,
  length-append (replicate (9 - length (digits 10 nanos)) b'0') (digits 10 nanos),
  length-replicate {A = ℕ} (9 - length (digits 10 nanos)) b'0',
  length-digits 10 nanos 8 (omega arith) h,
)

read_onto-fraction : (nanos : ℕ) → read_onto 10 0 (fraction nanos) ≡ nanos
unfolding fraction
read_onto-fraction nanos =
    read_onto-zeros (9 - length (digits 10 nanos)) (digits 10 nanos)
    ∙ read-digits 10 nanos (omega arith) (omega arith)

-- What an ISO timestamp is built from: the calendar text of the second, nine digits that read as
-- the nanoseconds behind it, and the suffix of the second.
pub record IsIso (p : Platform) (style : TimestampStyle) (timestamp : ℕ) (shown : Bytes)
    : Type 0 where
  pub fraction_digits : Bytes
  pub nine : length fraction_digits ≡ 9
  pub nanoseconds : read_onto 10 0 fraction_digits ≡ timestamp % 1000000000
  pub composed :
      let (prefix, suffix) = fill_cached_time_parts p style (timestamp / 1000000000) in
      shown ≡ prefix ++ b'.' ∷ (fraction_digits ++ suffix)

-- The parts of the calendar time go round the fraction.
parts_shown :
    (timestamp : ℕ) (output prefix suffix : Bytes)
    → append_fraction (timestamp % 1000000000) (output ++ prefix ++ b'.' ∷ []) ++ suffix
      ≡ output ++ (prefix ++ b'.' ∷ (fraction (timestamp % 1000000000) ++ suffix))
parts_shown timestamp output prefix suffix =
    rw (append_fraction_eq (timestamp % 1000000000) (output ++ prefix ++ b'.' ∷ []) (omega arith))
      (simp append_assoc)

IsIso-shown :
    (p : Platform) (style : TimestampStyle) (timestamp : ℕ) (output : Bytes)
    → (shown : Bytes) × (append_iso_timestamp p timestamp style [] [] output ≡ output ++ shown)
      × IsIso p style timestamp shown
unfolding append_iso_timestamp
IsIso-shown p style timestamp output =
    let (prefix, suffix) = fill_cached_time_parts p style (timestamp / 1000000000) in
    (
      prefix ++ b'.' ∷ (fraction (timestamp % 1000000000) ++ suffix),
      parts_shown timestamp output prefix suffix,
      record {
        fraction_digits = fraction (timestamp % 1000000000);
        nine = length-fraction (timestamp % 1000000000) (omega arith);
        nanoseconds = read_onto-fraction (timestamp % 1000000000);
        composed = refl;
      },
    )

-- The timestamp in either ISO style, uncached: what is appended has that form.
pub append_timestamp-IsIso :
    (p : Platform) (style : TimestampStyle) (timestamp : ℕ) (output : Bytes)
    → is_iso style ≡ true
    → (shown : Bytes) × (append_timestamp p timestamp style [] [] output ≡ output ++ shown)
      × IsIso p style timestamp shown
unfolding append_timestamp
append_timestamp-IsIso p iso8601_utc timestamp output e = IsIso-shown p iso8601_utc timestamp output
append_timestamp-IsIso p iso8601_local timestamp output e =
    IsIso-shown p iso8601_local timestamp output
append_timestamp-IsIso p epoch_nanoseconds timestamp output e = cc
append_timestamp-IsIso p epoch_milliseconds timestamp output e = cc
