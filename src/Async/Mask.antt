-- ===== src/Async/Mask.antt =====
-- The mask of a power of two: `x & (2^k - 1)` for an index of at most the capacity.
use Prim.Native.Nat.{
  ℕ, zero, suc, ◌+◌, ◌-◌, ◌*◌, ◌/◌, ◌%◌, ◌^◌, ◌≤◌, ◌<◌, min, bit_and, digits, bit_and-bitwise,
}
use ngin_log.Base.{◌≡◌, refl, arith}

-- The native operation on fuel; two amounts that suffice for the digits agree.
abbrev conjunction : ℕ → ℕ → ℕ → ℕ
conjunction fuel a b = digits (λ c. zero) min fuel a b

enough : (b a p q : ℕ) → a ≤ p → a ≤ q → conjunction p a b ≡ conjunction q a b
enough b zero zero zero hp hq = refl
enough b zero zero (suc q) hp hq = refl
enough b zero (suc p) zero hp hq = refl
enough b zero (suc p) (suc q) hp hq = refl
enough b (suc a) zero q hp hq = absurd (omega arith)
enough b (suc a) (suc p) zero hp hq = absurd (omega arith)
enough b (suc a) (suc p) (suc q) hp hq =
    omega (arith, enough (b / 2) (suc a / 2) p q (omega arith) (omega arith))

pub two_pow_pos : (k : ℕ) → 1 ≤ 2 ^ k
two_pow_pos zero = omega arith
two_pow_pos (suc k) = omega (arith, two_pow_pos k)

halve : (a b : ℕ) → bit_and a b ≡ bit_and (a / 2) (b / 2) * 2 + min (a % 2) (b % 2)
halve zero b = omega (arith, bit_and-bitwise 0 b, bit_and-bitwise 0 (b / 2))
halve (suc a) b =
    let e = enough (b / 2) (suc a / 2) a (suc a / 2) (omega arith) (omega arith) in
    omega (arith, e, bit_and-bitwise (suc a) b, bit_and-bitwise (suc a / 2) (b / 2))

masked_half : (k : ℕ) → (2 ^ suc k - 1) / 2 ≡ 2 ^ k - 1
masked_half k = omega (arith, two_pow_pos k)

-- An index below the capacity is kept.
pub bit_and-below : (k i : ℕ) → i < 2 ^ k → bit_and i (2 ^ k - 1) ≡ i
bit_and-below zero i h = let z : i ≡ 0 = omega arith in rw z refl
bit_and-below (suc k) i h =
    let half : bit_and (i / 2) ((2 ^ suc k - 1) / 2) ≡ i / 2 =
      rw (masked_half k) (bit_and-below k (i / 2) (omega arith)) in
    omega (arith, halve i (2 ^ suc k - 1), half, two_pow_pos k)

-- The capacity itself becomes zero.
pub bit_and-capacity : (k : ℕ) → bit_and (2 ^ k) (2 ^ k - 1) ≡ 0
bit_and-capacity zero = refl
bit_and-capacity (suc k) =
    let e : 2 ^ suc k / 2 ≡ 2 ^ k = omega arith in
    let half : bit_and (2 ^ suc k / 2) ((2 ^ suc k - 1) / 2) ≡ 0 =
      rw (masked_half k, e) (bit_and-capacity k) in
    omega (arith, halve (2 ^ suc k) (2 ^ suc k - 1), half)
