-- ===== src/Async/Queue.antt =====
-- The records that the ring of the queue holds.
use ngin_log.Base.{
  ℕ, zero, suc, ◌+◌, ◌-◌, ◌^◌, ◌≤◌, ◌<◌, List, [], ◌∷◌, ◌++◌, Option, none, some, arith, ltb,
  if◌then◌else◌, get_elem?, set, length, length-replicate, get_elem?-set_self, get_elem?-set_ne,
  ◌≡◌, ◌≢◌, refl, ap, subst, inl, inr, Bool-cases,
}
use ngin_log.Async.{MpscBoundedQueue, next_index, new_queue}
use ngin_log.Async.Mask.{two_pow_pos, bit_and-below, bit_and-capacity}

-- An index of less than twice the capacity, taken around the ring.
abbrev pub wrap : ℕ → ℕ → ℕ
wrap c i = if ltb i c then i else i - c

pub next_index-wrap : (k i : ℕ) → i < 2 ^ k → next_index (2 ^ k) i ≡ wrap (2 ^ k) (i + 1)
next_index-wrap k i h = elim (Bool-cases (ltb (i + 1) (2 ^ k))) [
  | inl e ↦ rw e (bit_and-below k (i + 1) (ground arith))
  | inr e ↦
      let full : i + 1 ≡ 2 ^ k = ground arith in
      let z : 2 ^ k - 2 ^ k ≡ 0 = omega arith in rw (e, full, z) (bit_and-capacity k)
]

module _ {A : Type 0} where
  pub in_range : (xs : List A) (i : ℕ) → i < length xs → (x : A) × (get_elem? xs i ≡ some x)
  in_range [] i h = absurd (omega arith)
  in_range (x ∷ xs) zero h = (x, refl)
  in_range (x ∷ xs) (suc i) h = in_range xs i (omega arith)

  unfoldable pub or_nil : Option A → List A → List A
  or_nil none xs = []
  or_nil (some x) xs = x ∷ xs

  -- The `n` records from slot `i` on, around the ring.
  unfoldable pub walk : ℕ → List A → ℕ → ℕ → List A
  unfolding or_nil
  walk c slots i zero = []
  walk c slots i (suc n) = or_nil (get_elem? slots i) (walk c slots (wrap c (i + 1)) n)

  -- What the queue holds, the oldest first.
  abbrev pub contents : ℕ → MpscBoundedQueue A → List A
  contents c q = walk c q.slots q.dequeue_index q.size

  -- The array has its capacity, the size is within it, and the enqueue index stands `size` slots
  -- behind the dequeue index.
  pub record IsValid (c : ℕ) (q : MpscBoundedQueue A) : Type 0 where
    pub array : length q.slots ≡ c
    pub bounded : q.size ≤ c
    pub start : q.dequeue_index < c
    pub behind : q.enqueue_index ≡ wrap c (q.dequeue_index + q.size)

  pub walk-set :
      (c : ℕ) (slots : List A) (i n : ℕ) (x : A)
      → length slots ≡ c
      → i < c
      → n < c
      → walk c (set slots (wrap c (i + n)) x) i (suc n) ≡ walk c slots i n ++ x ∷ []
  unfolding walk
  walk-set c slots i zero x len hi hn =
      let e : wrap c (i + 0) ≡ i = ground arith in
      rw (e, get_elem?-set_self slots i x (omega arith)) refl
  walk-set c slots i (suc n) x len hi hn =
      let e : wrap c (wrap c (i + 1) + n) ≡ wrap c (i + suc n) = ground arith in
      let ne : wrap c (i + suc n) ≢ i = λ same. ground arith in
      let (y, present) = in_range slots i (omega arith) in
      let rest = walk-set c slots (wrap c (i + 1)) n x len (ground arith) (omega arith) in
      let moved =
        subst
          (λ j.
            walk c (set slots j x) (wrap c (i + 1)) (suc n)
            ≡ walk c slots (wrap c (i + 1)) n ++ x ∷ [])
          e rest in
      rw (get_elem?-set_ne slots (wrap c (i + suc n)) i x ne, present) (ap (◌∷◌ y) moved)

  pub length-walk :
      (c : ℕ) (slots : List A) (i n : ℕ)
      → length slots ≡ c
      → i < c
      → n ≤ c
      → length (walk c slots i n) ≡ n
  unfolding walk
  length-walk c slots i zero len hi hn = refl
  length-walk c slots i (suc n) len hi hn =
      let (y, present) = in_range slots i (omega arith) in
      rw present (ap suc (length-walk c slots (wrap c (i + 1)) n len (ground arith) (omega arith)))

  pub new_queue-IsValid : (k : ℕ) (blank : A) → IsValid (2 ^ k) (new_queue (2 ^ k) blank)
  new_queue-IsValid k blank = record {
    array = length-replicate (2 ^ k) blank;
    bounded = omega arith;
    start = omega (arith, two_pow_pos k);
    behind = ground (arith, two_pow_pos k);
  }
