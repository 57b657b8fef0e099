-- ===== src/Base/Words.antt =====
-- Machine words as native numbers, and copies between byte arrays.
use ngin_log.Base.Lists.{
  Bytes, length, take, drop, length-append, length-take, length-drop, take-append_length,
  drop-append_length, take-append, drop-append, take-append-drop,
}
use Prim.Native.Nat.{ℕ, zero, suc, ◌+◌, ◌-◌, ◌%◌, ◌^◌, ◌≤◌}
use mathlib.Core.Path.{◌≡◌, sym, ap, ◌∙◌}
use mathlib.Core.List.{[], ◌∷◌, ◌++◌}
use native.Mathlib.Omega.{arith}

-- `truncated += static_cast<NGIN::UInt32>(n)`.
abbrev pub add_u32 : ℕ → ℕ → ℕ
add_u32 t n = (t + n % 2 ^ 32) % 2 ^ 32

-- Increment of a 64-bit counter.
abbrev pub add_u64 : ℕ → ℕ → ℕ
add_u64 t n = (t + n) % 2 ^ 64

-- `size_t` subtraction, which wraps.
abbrev pub sub_size : ℕ → ℕ → ℕ
sub_size a b = (a + 2 ^ 64 - b) % 2 ^ 64

-- `std::memcpy(buffer + offset, input, n)` on an array that holds the target range.
unfoldable pub memcpy : Bytes → ℕ → Bytes → ℕ → Bytes
memcpy buffer offset input n = take offset buffer ++ (take n input ++ drop (offset + n) buffer)

-- The `n` bytes of an array from `offset` on.
abbrev pub slice : ℕ → ℕ → Bytes → Bytes
slice offset n xs = take n (drop offset xs)

pub length-memcpy :
    (buffer : Bytes) (offset : ℕ) (input : Bytes) (n : ℕ)
    → n ≤ length input
    → offset + n ≤ length buffer
    → length (memcpy buffer offset input n) ≡ length buffer
unfolding memcpy
length-memcpy buffer offset input n h k = omega (
  arith,
  length-append (take offset buffer) (take n input ++ drop (offset + n) buffer),
  length-append (take n input) (drop (offset + n) buffer),
  length-take offset buffer,
  length-take n input,
  length-drop (offset + n) buffer,
)

-- The copied bytes are read back.
pub slice-memcpy_self :
    (buffer : Bytes) (offset : ℕ) (input : Bytes) (n : ℕ)
    → n ≤ length input
    → offset + n ≤ length buffer
    → slice offset n (memcpy buffer offset input n) ≡ take n input
unfolding memcpy
slice-memcpy_self buffer offset input n h k =
    ap (take n)
      (drop-append_length (take offset buffer) _ offset (omega (arith, length-take offset buffer)))
    ∙ take-append_length (take n input) _ n (omega (arith, length-take n input))

slice_of_take :
    (xs : Bytes) (m o s : ℕ) → o + s ≤ m → m ≤ length xs → slice o s (take m xs) ≡ slice o s xs
slice_of_take xs m zero s h k =
    sym (take-append (take m xs) (drop m xs) s (omega (arith, length-take m xs)))
    ∙ ap (take s) (take-append-drop m xs)
slice_of_take [] m (suc o) s h k = absurd (omega arith)
slice_of_take (x ∷ xs) zero (suc o) s h k = absurd (omega arith)
slice_of_take (x ∷ xs) (suc m) (suc o) s h k = slice_of_take xs m o s (omega arith) (omega arith)

-- What lies before the copied bytes stays as it was.
pub slice-memcpy_before :
    (buffer : Bytes) (offset : ℕ) (input : Bytes) (n o s : ℕ)
    → o + s ≤ offset
    → offset ≤ length buffer
    → slice o s (memcpy buffer offset input n) ≡ slice o s buffer
unfolding memcpy
slice-memcpy_before buffer offset input n o s h k =
    ap (take s) (drop-append (take offset buffer) _ o (omega (arith, length-take offset buffer)))
    ∙ take-append (drop o (take offset buffer)) _ s
        (omega (arith, length-take offset buffer, length-drop o (take offset buffer)))
    ∙ slice_of_take buffer offset o s h k
