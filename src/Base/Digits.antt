-- ===== src/Base/Digits.antt =====
-- `std::to_chars` for unsigned numbers in a base up to sixteen, and the reader that inverts it.
-- The digits are made on fuel; `suc n` is enough for `n`, as `read-digits` shows.
use Prim.Native.Nat.{ℕ, zero, suc, ◌+◌, ◌-◌, ◌*◌, ◌/◌, ◌%◌, ◌^◌, ◌≤◌, ◌<◌}
use mathlib.Core.Path.{◌≡◌, refl, ap, ◌∙◌}
use mathlib.Core.Logic.{◌⊎◌, inl, inr}
use mathlib.Core.Bool.{Bool, true, false}
use mathlib.Core.List.{[], ◌∷◌}
use mathlib.Core.Option.{Option, none, some}
use native.Mathlib.Omega.{arith}
use native.Mathlib.Nat.{pow-suc, pow-zero, one-mul}
use ngin_log.Base.Tests.{ltb, if◌then◌else◌, Bool-cases}
use ngin_log.Base.Lists.{Bytes, length, All}

unfoldable pub digit : ℕ → ℕ
digit d = if ltb d 10 then b'0' + d else b'a' + (d - 10)

unfoldable pub digit_value : ℕ → ℕ
digit_value c = if ltb c b'a' then c - b'0' else c - b'a' + 10

unfoldable pub digits_onto : ℕ → ℕ → ℕ → Bytes → Bytes
unfolding digit
digits_onto zero base n out = out
digits_onto (suc fuel) base n out =
    let rest = digits_onto fuel base (n / base) (digit (n % base) ∷ out) in
    if ltb n base then digit n ∷ out else rest

-- All the digits of a number, the most significant first.
unfoldable pub digits : ℕ → ℕ → Bytes
unfolding digits_onto
digits base n = digits_onto (suc n) base n []

-- `to_chars(first, first + capacity, n, base)`: nothing if the digits do not fit.
unfoldable pub to_chars : ℕ → ℕ → ℕ → Option Bytes
unfolding digits
to_chars capacity base n =
    let text = digits base n in if ltb capacity (length text) then none else some text

to_chars_choice :
    (b : Bool) (text : Bytes)
    → ((if b then none else some text) ≡ none) ⊎ ((if b then none else some text) ≡ some text)
to_chars_choice true text = inl refl
to_chars_choice false text = inr refl

-- The number that a row of digits stands for, after the digits read before.
unfoldable pub read_onto : ℕ → ℕ → Bytes → ℕ
unfolding digit_value
read_onto base n [] = n
read_onto base n (c ∷ cs) = read_onto base (n * base + digit_value c) cs

digit_value-digit : (d : ℕ) → d < 16 → digit_value (digit d) ≡ d
unfolding digit digit_value
digit_value-digit d h = ground arith

last_digit :
    (n base : ℕ) → 2 ≤ base → base ≤ 16 → n / base * base + digit_value (digit (n % base)) ≡ n
last_digit n base b2 b16 = grind (arith, digit_value-digit (n % base))

div-lt : (n m base : ℕ) → 2 ≤ base → n < m * base → n / base < m
div-lt n m base b2 h = grind arith

ltb→ge : (a b : ℕ) → ltb a b ≡ false → b ≤ a
ltb→ge a b e = ground arith

smaller : {fuel : ℕ} (n base : ℕ) → ltb n base ≡ false → 2 ≤ base → n < suc fuel → n / base < fuel
smaller {fuel} n base e b2 h = div-lt n fuel base b2 (grind (arith, ltb→ge n base))

read_onto-digits :
    (fuel base n : ℕ) (out : Bytes)
    → n < fuel
    → 2 ≤ base
    → base ≤ 16
    → read_onto base 0 (digits_onto fuel base n out) ≡ read_onto base n out
unfolding digits_onto read_onto
read_onto-digits zero base n out h b2 b16 = absurd (omega arith)
read_onto-digits (suc fuel) base n out h b2 b16 = elim (Bool-cases (ltb n base)) [
  | inl e ↦ rw e (ground (arith, digit_value-digit n))
  | inr e ↦ rw e (
      read_onto-digits fuel base (n / base) (digit (n % base) ∷ out) (smaller n base e b2 h) b2 b16
      ∙ ap (λ m. read_onto base m out) (last_digit n base b2 b16))
]

-- Reading the digits of a number gives the number.
pub read-digits : (base n : ℕ) → 2 ≤ base → base ≤ 16 → read_onto base 0 (digits base n) ≡ n
unfolding digits read_onto
read-digits base n b2 b16 = read_onto-digits (suc n) base n [] (omega arith) b2 b16

length-digits_onto :
    (fuel base n k : ℕ) (out : Bytes)
    → 2 ≤ base
    → n < base ^ suc k
    → length (digits_onto fuel base n out) ≤ suc k + length out
unfolding digits_onto
length-digits_onto zero base n k out b2 h = omega arith
length-digits_onto (suc fuel) base n zero out b2 h =
    let p : base ^ 1 ≡ base = pow-suc base 0 ∙ rw pow-zero (one-mul base) in
    let e : n < base = omega (arith, p) in ground arith
length-digits_onto (suc fuel) base n (suc k) out b2 h = ground (
  arith,
  pow-suc base (suc k),
  div-lt n (base ^ suc k) base,
  length-digits_onto fuel base (n / base) k (digit (n % base) ∷ out),
)

-- A number below `base ^ k` has at most `k` digits.
pub length-digits : (base n k : ℕ) → 2 ≤ base → n < base ^ suc k → length (digits base n) ≤ suc k
unfolding digits
length-digits base n k b2 h = omega (arith, length-digits_onto (suc n) base n k [] b2 h)

-- A byte that `std::to_chars` writes.
abbrev pub IsDigit : ℕ → Type 0
IsDigit c = (b'0' ≤ c) × (c ≤ b'f')

digit-IsDigit : (d : ℕ) → d < 16 → IsDigit (digit d)
unfolding digit
digit-IsDigit d h = ground arith

digits_onto-IsDigit :
    (fuel base n : ℕ) (out : Bytes)
    → 2 ≤ base
    → base ≤ 16
    → All IsDigit out
    → All IsDigit (digits_onto fuel base n out)
unfolding digits_onto
digits_onto-IsDigit zero base n out b2 b16 h = h
digits_onto-IsDigit (suc fuel) base n out b2 b16 h = ground (
  arith,
  digit-IsDigit n,
  digit-IsDigit (n % base),
  digits_onto-IsDigit fuel base (n / base) (digit (n % base) ∷ out),
)

pub digits-IsDigit : (base n : ℕ) → 2 ≤ base → base ≤ 16 → All IsDigit (digits base n)
unfolding digits
digits-IsDigit base n b2 b16 = digits_onto-IsDigit (suc n) base n [] b2 b16 tt

-- `std::to_chars` writes all the digits or nothing.
pub to_chars-cases :
    (capacity base n : ℕ)
    → (to_chars capacity base n ≡ none) ⊎ (to_chars capacity base n ≡ some (digits base n))
unfolding to_chars
to_chars-cases capacity base n =
    to_chars_choice (ltb capacity (length (digits base n))) (digits base n)
