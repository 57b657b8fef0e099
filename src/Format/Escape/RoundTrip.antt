-- ===== src/Format/Escape/RoundTrip.antt =====
-- A reader of quoted text for both escapings, written from their tables and not from the code: it
-- shows that a reader gets every byte back, and finds the closing quote.
use ngin_log.Base.{
  ℕ, zero, suc, ◌+◌, ◌*◌, Bool, [], ◌∷◌, ◌++◌, Option, none, some, Bytes, arith, ltb, leb, ◌==◌,
  ◌&&◌, ◌||◌, if◌then◌else◌, ◌≡◌, refl, ◌∙◌,
}
use mathlib.Core.List.{append_assoc, append-nil}
use ngin_log.Base.Digits.{digit, digit_value}
use ngin_log.Format.{
  append_escaped_char, append_json_escaped_char, append_escaped_text, append_json_escaped_text,
}
use ngin_log.Format.Escape.{
  escape, json_escape, escaped, json_escaped, text-escaped, text-json_escaped,
}

-- What a byte behind a backslash stands for.
pub data Meaning : Type 0 where
  byte : ℕ → Meaning
  hex : ℕ → Meaning
  bad : Meaning

abbrev pub text_table : ℕ → Meaning
text_table c =
    if c == b'\\'
    then byte b'\\'
    else if c == b'"'
    then byte b'"'
    else if c == b'n'
    then byte b'\n'
    else if c == b'r'
    then byte b'\r'
    else if c == b't'
    then byte b'\t'
    else if c == b'x'
    then hex 2
    else bad

-- The escapes of RFC 8259, the solidus left out.
abbrev pub json_table : ℕ → Meaning
json_table c =
    if c == b'\\'
    then byte b'\\'
    else if c == b'"'
    then byte b'"'
    else if c == b'b'
    then byte 8
    else if c == b'f'
    then byte 12
    else if c == b'n'
    then byte b'\n'
    else if c == b'r'
    then byte b'\r'
    else if c == b't'
    then byte b'\t'
    else if c == b'u'
    then hex 4
    else bad

-- Where the reader stands; `digits n v` wants `n + 1` more hexadecimal digits behind the value `v`.
data Mode : Type 0 where
  plain behind_backslash : Mode
  digits : ℕ → ℕ → Mode

data Next : Type 0 where
  go : Mode → Bytes → Next
  stop refuse : Next

abbrev is_hex : ℕ → Bool
is_hex c = leb b'0' c && leb c b'9' || leb b'a' c && leb c b'f'

step_plain : Bytes → ℕ → Next
step_plain acc c =
    if c == b'"'
    then stop
    else if c == b'\\'
    then go behind_backslash acc
    else if ltb c 0x20
    then refuse
    else go plain (acc ++ c ∷ [])

step_meaning : Bytes → Meaning → Next
step_meaning acc (byte b) = go plain (acc ++ b ∷ [])
step_meaning acc (hex (suc n)) = go (digits n 0) acc
step_meaning acc _ = refuse

step_digit : Bytes → ℕ → ℕ → Next
step_digit acc zero v = go plain (acc ++ v ∷ [])
step_digit acc (suc n) v = go (digits n v) acc

step : (ℕ → Meaning) → Mode → Bytes → ℕ → Next
unfolding step_plain step_meaning step_digit digit_value
step table plain acc c = step_plain acc c
step table behind_backslash acc c = step_meaning acc (table c)
step table (digits n v) acc c =
    if is_hex c then step_digit acc n (v * 16 + digit_value c) else refuse

decode : (ℕ → Meaning) → Mode → Bytes → Bytes → Option (Bytes × Bytes)
unfolding step
decode table m acc [] = none
decode table m acc (c ∷ cs) = elim (step table m acc c) [
  | go m' acc' ↦ decode table m' acc' cs
  | stop ↦ some (acc, cs)
  | refuse ↦ none
]

-- The text up to the closing quote, and what stands behind it.
pub read_quoted : (ℕ → Meaning) → Bytes → Option (Bytes × Bytes)
unfolding decode
read_quoted table s = decode table plain [] s

decode-escape :
    (ch : ℕ) (acc rest : Bytes)
    → decode text_table plain acc (escape ch ++ rest)
      ≡ decode text_table plain (acc ++ ch ∷ []) rest
unfolding decode append_escaped_char digit
decode-escape ch acc rest = ground arith

decode-json_escape :
    (ch : ℕ) (acc rest : Bytes)
    → decode json_table plain acc (json_escape ch ++ rest)
      ≡ decode json_table plain (acc ++ ch ∷ []) rest
unfolding decode append_json_escaped_char digit
decode-json_escape ch acc rest = ground arith

decode-escaped :
    (s acc rest : Bytes)
    → decode text_table plain acc (escaped s ++ b'"' ∷ rest) ≡ some (acc ++ s, rest)
unfolding decode escaped
decode-escaped [] acc rest = rw append-nil
decode-escaped (ch ∷ s) acc rest = rw append_assoc (
    decode-escape ch acc (escaped s ++ b'"' ∷ rest)
    ∙ decode-escaped s (acc ++ ch ∷ []) rest
    ∙ (rw append_assoc))

decode-json_escaped :
    (s acc rest : Bytes)
    → decode json_table plain acc (json_escaped s ++ b'"' ∷ rest) ≡ some (acc ++ s, rest)
unfolding decode json_escaped
decode-json_escaped [] acc rest = rw append-nil
decode-json_escaped (ch ∷ s) acc rest = rw append_assoc (
    decode-json_escape ch acc (json_escaped s ++ b'"' ∷ rest)
    ∙ decode-json_escaped s (acc ++ ch ∷ []) rest
    ∙ (rw append_assoc))

-- `AppendEscapedText` only appends; a reader that takes the first quote not behind a backslash for
-- the end gets back every byte of the text, whatever it holds, and what stands behind the quote.
pub read_quoted-append_escaped_text :
    (s output rest : Bytes)
    → (append_escaped_text s output ≡ output ++ append_escaped_text s [])
      × (read_quoted text_table (append_escaped_text s [] ++ b'"' ∷ rest) ≡ some (s, rest))
unfolding read_quoted
read_quoted-append_escaped_text s output rest =
    rw (text-escaped s [], text-escaped s output) (refl, decode-escaped s [] rest)

-- `AppendJsonEscapedText` only appends; a reader of JSON strings that knows the escapes of RFC 8259
-- and refuses raw control bytes gets back every byte of the text, whatever it holds, and what stands
-- behind the quote.
pub read_quoted-append_json_escaped_text :
    (s output rest : Bytes)
    → (append_json_escaped_text s output ≡ output ++ append_json_escaped_text s [])
      × (read_quoted json_table (append_json_escaped_text s [] ++ b'"' ∷ rest) ≡ some (s, rest))
unfolding read_quoted
read_quoted-append_json_escaped_text s output rest =
    rw (text-json_escaped s [], text-json_escaped s output) (refl, decode-json_escaped s [] rest)
