-- ===== src/Types/Arena.antt =====
-- The bounded text pools: `CopyText` of include/NGIN/Log/RecordBuilder.hpp and `CopyContextText`
-- of include/NGIN/Log/Logger.hpp, which are one algorithm on arrays of two sizes. A string_view
-- into the pool is its offset and its size.
use ngin_log.Base.{
  ℕ, ◌+◌, ◌-◌, ◌%◌, ◌^◌, ◌≤◌, ◌<◌, min, ◌≡◌, refl, Bytes, arith, ltb, ◌==◌, if◌then◌else◌, length,
  take, replicate, length-memcpy, slice-memcpy_self, slice-memcpy_before, add_u32, sub_size, memcpy,
  slice, sym, take-nil, take-min, [], ◌∷◌, Bool-cases, inl, inr, length-replicate,
}

pub record View : Type 0 where
  pub offset : ℕ
  pub size : ℕ

-- The array, how much of it is used, and the record's `truncatedBytes`.
pub record Arena : Type 0 where
  pub storage : Bytes
  pub used : ℕ
  pub truncated_bytes : ℕ

-- A default string_view shows nothing.
abbrev pub empty_view : View
empty_view = record { offset = 0; size = 0 }

abbrev pub read : Arena → View → Bytes
read a v = slice v.offset v.size a.storage

abbrev pub fresh : ℕ → Arena
fresh capacity = record { storage = replicate capacity 0; used = 0; truncated_bytes = 0 }

-- The copy proper, behind the two early returns.
copy_some : ℕ → Arena → Bytes → View × Arena
copy_some available a input =
    let copy_length = min (length input) available in
    (
      record { offset = a.used; size = copy_length },
      record {
        storage = memcpy a.storage a.used input copy_length;
        used = a.used + copy_length;
        truncated_bytes =
            if ltb copy_length (length input)
            then add_u32 a.truncated_bytes (length input - copy_length)
            else a.truncated_bytes;
      },
    )

unfoldable pub copy_text : ℕ → Arena → Bytes → View × Arena
unfolding copy_some
copy_text capacity a [] = (empty_view, a)
copy_text capacity a (c ∷ cs) =
    let input = c ∷ cs in
    let available = sub_size capacity a.used in
    if available == 0
    then (empty_view, record a { truncated_bytes = add_u32 a.truncated_bytes (length input) })
    else copy_some available a input

pub record IsValid (capacity : ℕ) (a : Arena) : Type 0 where
  pub array : length a.storage ≡ capacity
  pub fits : a.used ≤ capacity
  pub small : capacity < 2 ^ 64
  pub counter : a.truncated_bytes < 2 ^ 32

-- A view into the part of the pool that is in use.
abbrev pub IsInside : Arena → View → Type 0
IsInside a v = v.offset + v.size ≤ a.used

pub fresh-IsValid : (capacity : ℕ) → capacity < 2 ^ 64 → IsValid capacity (fresh capacity)
fresh-IsValid capacity h = record {
  array = length-replicate capacity 0;
  fits = omega arith;
  small = h;
  counter = omega arith;
}

module _ (capacity : ℕ) (a : Arena) (v : IsValid capacity a) where
  -- Copying keeps the pool within its array, and never gives any of it back.
  pub copy_text-IsValid :
      (input : Bytes)
      → IsValid capacity (copy_text capacity a input).1
        × (a.used ≤ (copy_text capacity a input).1.used)
        × IsInside (copy_text capacity a input).1 (copy_text capacity a input).0
  unfolding copy_text
  copy_text-IsValid [] = omega (arith, v)
  copy_text-IsValid (c ∷ cs) = ground (
    arith,
    v,
    length-memcpy a.storage a.used (c ∷ cs) (min (length (c ∷ cs)) (capacity - a.used)),
  )

  -- The view shows as much of the text as was free, and the rest is counted.
  pub copy_text_lem :
      (input : Bytes)
      → (read (copy_text capacity a input).1 (copy_text capacity a input).0
          ≡ take (capacity - a.used) input)
        × ((copy_text capacity a input).1.used ≡ a.used + min (length input) (capacity - a.used))
        × ((copy_text capacity a input).1.truncated_bytes
            ≡ (a.truncated_bytes + (length input - (capacity - a.used))) % 2 ^ 32)
  unfolding copy_text
  copy_text_lem [] = (sym (take-nil (capacity - a.used)), omega arith, omega (arith, v))
  copy_text_lem (c ∷ cs) = elim (Bool-cases (sub_size capacity a.used == 0)) [
    | inl e ↦ let z : capacity - a.used ≡ 0 = ground (arith, v) in rw z (ground (arith, v))
    | inr e ↦ ground (
      arith,
      v,
      take-min (capacity - a.used) (c ∷ cs),
      slice-memcpy_self a.storage a.used (c ∷ cs) (min (length (c ∷ cs)) (capacity - a.used)),
    )
  ]

  -- What an earlier view shows does not change.
  pub copy_text_stable :
      (input : Bytes) (w : View) → IsInside a w → read (copy_text capacity a input).1 w ≡ read a w
  unfolding copy_text
  copy_text_stable [] w h = refl
  copy_text_stable (c ∷ cs) w h = ground (
    arith,
    v,
    slice-memcpy_before a.storage a.used (c ∷ cs) (min (length (c ∷ cs)) (capacity - a.used))
        w.offset w.size,
  )
