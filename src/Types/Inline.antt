-- ===== src/Types/Inline.antt =====
-- `InlineText` of include/NGIN/Log/Types.hpp: a fixed array of `Capacity + 1` bytes and a size.
use ngin_log.Base.{
  ℕ, ◌+◌, ◌-◌, ◌%◌, ◌^◌, ◌≤◌, ◌<◌, min, ◌≡◌, refl, some, Bytes, arith, ltb, if◌then◌else◌, length,
  take, set, get_elem?, replicate, length-set, length-memcpy, slice-memcpy_self, take-min,
  get_elem?-set_self, add_u32, memcpy, [], ◌∷◌, zero, suc, ◌∙◌, ap, Bool-cases, inl, inr,
}

pub record InlineText : Type 0 where
  pub buffer : Bytes
  pub size : ℕ

-- The fresh object: a zeroed array.
abbrev pub fresh : ℕ → InlineText
fresh capacity = record { buffer = replicate (capacity + 1) 0; size = 0 }

-- `InlineText<Capacity>::Assign`; the result carries the caller's `truncatedBytes`.
unfoldable pub assign : ℕ → InlineText → Bytes → ℕ → InlineText × ℕ
assign capacity t input truncated_bytes =
    let copy_length = min (length input) capacity in
    let copied = if ltb 0 copy_length then memcpy t.buffer 0 input copy_length else t.buffer in
    (
      record { buffer = set copied copy_length 0; size = copy_length },
      if ltb copy_length (length input)
          then add_u32 truncated_bytes (length input - copy_length)
          else truncated_bytes,
    )

abbrev pub view : InlineText → Bytes
view t = take t.size t.buffer

-- The array has its `Capacity + 1` bytes and the size leaves room for the terminator, which is
-- in place.
pub record IsValid (capacity : ℕ) (t : InlineText) : Type 0 where
  pub array : length t.buffer ≡ capacity + 1
  pub fits : t.size ≤ capacity
  pub terminated : get_elem? t.buffer t.size ≡ some 0

take-set : (xs : Bytes) (n v : ℕ) → take n (set xs n v) ≡ take n xs
take-set [] zero v = refl
take-set [] (suc n) v = refl
take-set (x ∷ xs) zero v = refl
take-set (x ∷ xs) (suc n) v = ap (◌∷◌ x) (take-set xs n v)

-- What the array holds before the terminator is written.
copied : ℕ → InlineText → Bytes → Bytes
copied capacity t input =
    let copy_length = min (length input) capacity in
    if ltb 0 copy_length then memcpy t.buffer 0 input copy_length else t.buffer

length-copied :
    (capacity : ℕ) (t : InlineText) (input : Bytes)
    → length t.buffer ≡ capacity + 1
    → length (copied capacity t input) ≡ capacity + 1
unfolding copied
length-copied capacity t input h =
    ground (arith, length-memcpy t.buffer 0 input (min (length input) capacity))

take-copied :
    (capacity : ℕ) (t : InlineText) (input : Bytes)
    → length t.buffer ≡ capacity + 1
    → take (min (length input) capacity) (copied capacity t input)
      ≡ take (min (length input) capacity) input
unfolding copied
take-copied capacity t input h = elim (Bool-cases (ltb 0 (min (length input) capacity))) [
  | inl e ↦ ground (arith, slice-memcpy_self t.buffer 0 input (min (length input) capacity))
  | inr e ↦ let z : min (length input) capacity ≡ 0 = ground arith in rw z refl
]

-- Assigning keeps the array valid, whatever the text.
pub assign-IsValid :
    (capacity : ℕ) (t : InlineText) (input : Bytes) (truncated : ℕ)
    → length t.buffer ≡ capacity + 1
    → IsValid capacity (assign capacity t input truncated).0
unfolding assign copied
assign-IsValid capacity t input truncated h = record {
  array =
      length-set (copied capacity t input) (min (length input) capacity) 0
      ∙ length-copied capacity t input h;
  fits = omega arith;
  terminated =
      get_elem?-set_self (copied capacity t input) (min (length input) capacity) 0
        (omega (arith, length-copied capacity t input h));
}

-- After an assignment the view shows the first `Capacity` bytes of the text, and the truncation
-- counter has grown by the number of bytes left out, modulo 2^32.
pub assign_lem :
    (capacity : ℕ) (t : InlineText) (input : Bytes) (truncated : ℕ)
    → length t.buffer ≡ capacity + 1
    → truncated < 2 ^ 32
    → (view (assign capacity t input truncated).0 ≡ take capacity input)
      × ((assign capacity t input truncated).1 ≡ (truncated + (length input - capacity)) % 2 ^ 32)
unfolding assign copied
assign_lem capacity t input truncated h small = (
  take-set (copied capacity t input) (min (length input) capacity) 0
      ∙ take-copied capacity t input h
      ∙ take-min capacity input,
  ground arith,
)
