-- ===== src/Format/Escape.antt =====
-- The two escapings: what they write shows no control byte, and the text can be read back.
pub mod RoundTrip
use ngin_log.Base.{
  ℕ, ◌+◌, ◌-◌, ◌*◌, ◌/◌, ◌%◌, ◌≤◌, ◌<◌, Bool, true, false, List, [], ◌∷◌, ◌++◌, Option, none, some,
  Bytes, All, All-append, arith, ltb, ◌==◌, if◌then◌else◌, ◌≡◌, refl, sym, ap, ◌∙◌, Bool-cases, inl,
  inr,
}
use mathlib.Core.List.{append_assoc, append-nil}
use ngin_log.Base.Digits.{digit}
use ngin_log.Level.{codes}
use ngin_log.Format.{
  ◌▸◌, append_escaped_char, append_escaped_text, append_json_escaped_char, append_json_escaped_text,
  append_hex_byte,
}

-- No control byte: a terminal or a line reader sees one line.
abbrev pub IsPrintable : Bytes → Type 0
IsPrintable = All (λ c. 0x20 ≤ c)

-- What is appended for one byte.
abbrev pub escape : ℕ → Bytes
escape ch = append_escaped_char ch []

abbrev pub json_escape : ℕ → Bytes
json_escape ch = append_json_escaped_char ch []

-- What is appended for a text.
unfoldable pub escaped : Bytes → Bytes
escaped [] = []
escaped (ch ∷ rest) = escape ch ++ escaped rest

unfoldable pub json_escaped : Bytes → Bytes
json_escaped [] = []
json_escaped (ch ∷ rest) = json_escape ch ++ json_escaped rest

hex_byte-append :
    (ch : ℕ) (output before : Bytes)
    → append_hex_byte ch (output ++ before) ≡ output ++ append_hex_byte ch before
unfolding append_hex_byte
hex_byte-append ch output before = simp append_assoc

char-escape : (ch : ℕ) (output : Bytes) → append_escaped_char ch output ≡ output ++ escape ch
unfolding append_escaped_char
char-escape ch output = ground (arith, hex_byte-append ch output (codes "\\x"))

char-json_escape :
    (ch : ℕ) (output : Bytes) → append_json_escaped_char ch output ≡ output ++ json_escape ch
unfolding append_json_escaped_char
char-json_escape ch output = ground (arith, hex_byte-append ch output (codes "\\u00"))

pub text-escaped : (s output : Bytes) → append_escaped_text s output ≡ output ++ escaped s
unfolding append_escaped_text escaped
text-escaped [] output = sym (append-nil output)
text-escaped (ch ∷ rest) output =
    text-escaped rest (append_escaped_char ch output)
    ∙ (rw char-escape (append_assoc output (escape ch) (escaped rest)))

pub text-json_escaped :
    (s output : Bytes) → append_json_escaped_text s output ≡ output ++ json_escaped s
unfolding append_json_escaped_text json_escaped
text-json_escaped [] output = sym (append-nil output)
text-json_escaped (ch ∷ rest) output =
    text-json_escaped rest (append_json_escaped_char ch output)
    ∙ (rw char-json_escape (append_assoc output (json_escape ch) (json_escaped rest)))

escape-IsPrintable : (ch : ℕ) → IsPrintable (escape ch)
unfolding append_escaped_char digit
escape-IsPrintable ch = ground arith

json_escape-IsPrintable : (ch : ℕ) → IsPrintable (json_escape ch)
unfolding append_json_escaped_char digit
json_escape-IsPrintable ch = ground arith

-- Whatever the text holds, what `AppendEscapedText` writes has no control byte.
pub escaped-IsPrintable : (s : Bytes) → IsPrintable (escaped s)
unfolding escaped
escaped-IsPrintable [] = tt
escaped-IsPrintable (ch ∷ rest) =
    All-append _ (escape ch) (escaped rest) (escape-IsPrintable ch) (escaped-IsPrintable rest)

pub json_escaped-IsPrintable : (s : Bytes) → IsPrintable (json_escaped s)
unfolding json_escaped
json_escaped-IsPrintable [] = tt
json_escaped-IsPrintable (ch ∷ rest) =
    All-append _ (json_escape ch) (json_escaped rest) (json_escape-IsPrintable ch)
      (json_escaped-IsPrintable rest)
