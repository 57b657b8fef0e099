-- ===== src/Format/Json/Steps.antt =====
-- The reader of Format/Json/Reader on what src/NGIN/Log/RecordFormatter.cpp and its utilities append
-- for each kind of member.
use ngin_log.Base.{
  ℕ, zero, suc, ◌+◌, ◌-◌, ◌*◌, ◌/◌, ◌%◌, ◌≤◌, ◌<◌, true, false, [], ◌∷◌, ◌++◌, none, some, Bytes,
  All, arith, ltb, ◌==◌, if◌then◌else◌, ◌≡◌, ◌≢◌, refl, sym, ap, ◌∙◌,
}
use ngin_log.Base.Digits.{digit, digits, digits_onto, read_onto, read-digits, digit_value}
use ngin_log.Format.Escape.{json_escaped, text-json_escaped}
use ngin_log.Format.Escape.RoundTrip.{json_table, read_quoted, read_quoted-append_json_escaped_text}
use ngin_log.Format.Json.Reader.{Reader, ◌>>=◌, literal, is_decimal, decimal_run, natural, quoted}

-- One step of a chain of readers.
pub then_ :
    {A B : Type 0} (q : Reader A) (f : A → Reader B) {s rest : Bytes} {a : A}
    → q s ≡ some (a, rest)
    → (q >>= f) s ≡ f a rest
unfolding ◌>>=◌
then_ q f e = ap (λ o. elim o [ none ↦ none | some (a, rest) ↦ f a rest ]) e

pub literal_lem : (cs rest : Bytes) → literal cs (cs ++ rest) ≡ some (true, rest)
unfolding literal
literal_lem [] rest = refl
literal_lem (c ∷ cs) rest = let e : (c == c) ≡ true = ground arith in rw e (literal_lem cs rest)

pub quoted_lem : (s rest : Bytes) → quoted (b'"' ∷ (json_escaped s ++ b'"' ∷ rest)) ≡ some (s, rest)
unfolding quoted
quoted_lem s rest =
    ap (λ t. read_quoted json_table (t ++ b'"' ∷ rest)) (sym (text-json_escaped s []))
    ∙ (read_quoted-append_json_escaped_text s [] rest).1

-- The decimal digits.
abbrev pub IsDecimal : ℕ → Type 0
IsDecimal c = (b'0' ≤ c) × (c ≤ b'9')

-- What stands behind a number begins with no digit.
abbrev pub Ends : Bytes → Type 0
Ends [] = Unit {0}
Ends (c ∷ cs) = is_decimal c ≡ false

decimal_run-Ends : (n : ℕ) (rest : Bytes) → Ends rest → decimal_run n rest ≡ (n, rest)
unfolding decimal_run
decimal_run-Ends n [] e = refl
decimal_run-Ends n (c ∷ cs) e = rw e refl

decimal_run-append :
    (n : ℕ) (s rest : Bytes)
    → All IsDecimal s
    → Ends rest
    → decimal_run n (s ++ rest) ≡ (read_onto 10 n s, rest)
unfolding decimal_run read_onto digit_value
decimal_run-append n [] rest d e = decimal_run-Ends n rest e
decimal_run-append n (c ∷ cs) rest ((l, h), d) e =
    let e' : is_decimal c ≡ true = ground arith in
    let v : ltb c b'a' ≡ true = ground arith in
    rw (e', v) (decimal_run-append (n * 10 + (c - b'0')) cs rest d e)

digit-IsDecimal : (d : ℕ) → d < 10 → IsDecimal (digit d)
unfolding digit
digit-IsDecimal d h = ground arith

digits_onto-IsDecimal :
    (fuel n : ℕ) (out : Bytes) → All IsDecimal out → All IsDecimal (digits_onto fuel 10 n out)
unfolding digits_onto
digits_onto-IsDecimal zero n out h = h
digits_onto-IsDecimal (suc fuel) n out h = ground (
  arith,
  digit-IsDecimal n,
  digit-IsDecimal (n % 10),
  digits_onto-IsDecimal fuel (n / 10) (digit (n % 10) ∷ out),
)

digits_onto-ne_nil : (fuel n : ℕ) (c : ℕ) (out : Bytes) → digits_onto fuel 10 n (c ∷ out) ≢ []
unfolding digits_onto
digits_onto-ne_nil zero n c out = λ e. cc
digits_onto-ne_nil (suc fuel) n c out =
    λ e. ground (arith, digits_onto-ne_nil fuel (n / 10) (digit (n % 10)) (c ∷ out))

pub digits-ne_nil : (n : ℕ) → digits 10 n ≢ []
unfolding digits digits_onto
digits-ne_nil n = λ e. ground (arith, digits_onto-ne_nil n (n / 10) (digit (n % 10)) [])

pub natural-decimal :
    (s rest : Bytes)
    → s ≢ []
    → All IsDecimal s
    → Ends rest
    → natural (s ++ rest) ≡ some (read_onto 10 0 s, rest)
unfolding natural
natural-decimal [] rest ne d e = absurd (ne refl)
natural-decimal (c ∷ cs) rest ne ((l, h), d) e =
    let t : is_decimal c ≡ true = ground arith in
    ap (λ b. if b then some (decimal_run 0 (c ∷ (cs ++ rest))) else none) t
    ∙ ap some (decimal_run-append 0 (c ∷ cs) rest ((l, h), d) e)

pub IsDecimal-digits : (n : ℕ) → All IsDecimal (digits 10 n)
unfolding digits
IsDecimal-digits n = digits_onto-IsDecimal (suc n) n [] tt

pub natural_lem :
    (n : ℕ) (rest : Bytes) → Ends rest → natural (digits 10 n ++ rest) ≡ some (n, rest)
natural_lem n rest e =
    natural-decimal (digits 10 n) rest (digits-ne_nil n) (IsDecimal-digits n) e
    ∙ ap (λ (m : ℕ). some (m, rest)) (read-digits 10 n (omega arith) (omega arith))
