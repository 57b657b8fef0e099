-- ===== src/Format/Appended.antt =====
-- What each step of src/NGIN/Log/FormattingUtilities.hpp appends, where its numbers have the widths of
-- the program's types; and the composition of such steps, from the first to the last.
use ngin_log.Base.{
  ℕ, ◌^◌, ◌≤◌, ◌<◌, suc, Bool, true, false, [], ◌∷◌, ◌++◌, Bytes, All, arith, if◌then◌else◌, ◌≡◌,
  ◌≢◌, refl, sym, ap, ◌∙◌,
}
use mathlib.Core.List.{append_assoc, append-nil}
use ngin_log.Base.Int.{ℤ, pos, negsuc}
use ngin_log.Base.Digits.{digits}
use ngin_log.Types.{AttributeValue, int64, uint64, double, boolean, text, LogRecordView}
use ngin_log.Format.{
  append_unsigned, append_signed, signed_to_chars, append_escaped_char, append_escaped_text,
  append_json_escaped_text,
}
use ngin_log.Format.Escape.{escaped, json_escaped, text-escaped, text-json_escaped}
use ngin_log.Format.Timestamp.{append_unsigned_lem, to_chars_fits}

-- A step that appends one text, whatever the output is.
pub record Adds (f : Bytes → Bytes) (s : Bytes) : Type 0 where
  pub add : (output : Bytes) → f output ≡ output ++ s

infixr 5 ◌⨟◌
pub ◌⨟◌ :
    {f g : Bytes → Bytes} {s t : Bytes}
    → Adds f s
    → Adds g t
    → Adds (λ output. g (f output)) (s ++ t)
◌⨟◌ {f} {g} {s} {t} a b = record {
  add = λ output. ap g (a.add output) ∙ b.add (output ++ s) ∙ append_assoc output s t;
}

pub fixed : (s : Bytes) → Adds (λ output. output ++ s) s
fixed s = record { add = λ output. refl }

pub unchanged : Adds (λ output. output) []
unchanged = record { add = λ output. sym (append-nil output) }

pub only_if :
    (b : Bool) (f : Bytes → Bytes) (s : Bytes)
    → Adds f s
    → Adds (λ output. if b then f output else output) (if b then s else [])
only_if true f s a = a
only_if false f s a = unchanged

pub unsigned : (n : ℕ) → n < 2 ^ 64 → Adds (append_unsigned n) (digits 10 n)
unsigned n h = record { add = λ output. (append_unsigned_lem n output h).0 }

-- The decimal digits of a signed number, behind a minus where it has one.
unfoldable pub signed_digits : ℤ → Bytes
signed_digits (pos n) = digits 10 n
signed_digits (negsuc n) = b'-' ∷ digits 10 (suc n)

-- A number of 64 bits.
abbrev pub FitsInt64 : ℤ → Type 0
FitsInt64 (pos n) = n < 2 ^ 63
FitsInt64 (negsuc n) = n < 2 ^ 63

pub signed : (i : ℤ) → FitsInt64 i → Adds (append_signed i) (signed_digits i)
unfolding append_signed signed_to_chars signed_digits
signed (pos n) h = record {
  add = λ output. rw (to_chars_fits 32 10 n 19 (omega arith) (omega arith) (omega arith)) refl;
}
signed (negsuc n) h = record {
  add = λ output.
      rw (to_chars_fits 31 10 (suc n) 19 (omega arith) (omega arith) (omega arith), signed_to_chars)
        refl;
}

pub json_text : (s : Bytes) → Adds (append_json_escaped_text s) (json_escaped s)
json_text s = record { add = text-json_escaped s }

-- A byte that `AppendEscapedText` leaves as it is.
pub record IsUnescaped (c : ℕ) : Type 0 where
  pub printable : 0x20 ≤ c
  pub no_backslash : c ≢ b'\\'
  pub no_quote : c ≢ b'"'

unescaped-escaped : (s : Bytes) → All IsUnescaped s → escaped s ≡ s
unfolding escaped append_escaped_char
unescaped-escaped [] h = refl
unescaped-escaped (c ∷ cs) (v, h) =
    let e : append_escaped_char c [] ≡ c ∷ [] = ground arith in rw (e, unescaped-escaped cs h) refl

pub unescaped_text : (s : Bytes) → All IsUnescaped s → Adds (append_escaped_text s) s
unescaped_text s h = record {
  add = λ output. text-escaped s output ∙ ap (λ t. output ++ t) (unescaped-escaped s h);
}

-- A value of the widths of the program's types that is no double, whose printing is not the program's.
abbrev pub FitsValue : AttributeValue Bytes → Type 0
FitsValue (int64 i) = FitsInt64 i
FitsValue (uint64 n) = n < 2 ^ 64
FitsValue (double d) = ⊥
FitsValue (boolean b) = Unit {0}
FitsValue (text s) = Unit {0}

-- The numbers of a record have the widths of the program's types, and no attribute is a double.
pub record Fits (r : LogRecordView) : Type 0 where
  pub timestamp : r.timestamp < 2 ^ 64
  pub line : r.source.line < 2 ^ 32
  pub thread_id_hash : r.thread_id_hash < 2 ^ 64
  pub attributes : All (λ x. FitsValue x.value) r.attributes
  pub truncated_attribute_count : r.truncated_attribute_count < 2 ^ 32
  pub truncated_bytes : r.truncated_bytes < 2 ^ 32
