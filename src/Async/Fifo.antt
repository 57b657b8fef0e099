-- ===== src/Async/Fifo.antt =====
-- The ring of the queue is a bounded first-in, first-out list.
use ngin_log.Base.{
  ℕ, zero, suc, ◌+◌, ◌-◌, ◌^◌, Bool, true, false, List, [], ◌∷◌, ◌++◌, Option, none, some, arith,
  leb, ◌==◌, if◌then◌else◌, set, length, length-set, ◌≡◌, ◌≢◌, ap, ◌⊎◌, refl, sym, ap₂, subst, ◌∙◌,
  inl, inr, Bool-cases,
}
use ngin_log.Async.{MpscBoundedQueue, next_index, try_enqueue, try_dequeue, new_queue}
use ngin_log.Async.Queue.{
  IsValid, contents, walk, or_nil, wrap, in_range, walk-set, length-walk, new_queue-IsValid,
  next_index-wrap,
}

-- A call of the queue, and what it returns.
pub data Call (A : Type 0) : Type 0 where
  enqueue : A → Call A
  dequeue : Call A

pub data Answer (A : Type 0) : Type 0 where
  accepted : Bool → Answer A
  taken : Option A → Answer A

module _ {A : Type 0} where
  unfoldable pub call : ℕ → Call A → MpscBoundedQueue A → Answer A × MpscBoundedQueue A
  unfolding try_enqueue try_dequeue
  call c (enqueue x) q = let (ok, q') = try_enqueue c q x in (accepted ok, q')
  call c dequeue q = let (o, q') = try_dequeue c q in (taken o, q')

  -- The same call of a list of at most `c` records, the oldest first.
  unfoldable pub fifo_call : ℕ → Call A → List A → Answer A × List A
  fifo_call c (enqueue x) xs =
      if leb c (length xs) then (accepted false, xs) else (accepted true, xs ++ x ∷ [])
  fifo_call c dequeue [] = (taken none, [])
  fifo_call c dequeue (x ∷ xs) = (taken (some x), xs)

  record Agrees (c : ℕ) (r : Answer A × MpscBoundedQueue A) (e : Answer A × List A) : Type 0 where
    answers : r.0 ≡ e.0
    holds : contents c r.1 ≡ e.1
    valid : IsValid c r.1

  enqueue-Agrees :
      (k : ℕ) (q : MpscBoundedQueue A) (x : A)
      → IsValid (2 ^ k) q
      → Agrees
          (2 ^ k)
          (call (2 ^ k) (enqueue x) q)
          (fifo_call (2 ^ k) (enqueue x) (contents (2 ^ k) q))
  unfolding call fifo_call try_enqueue
  enqueue-Agrees k q x v =
      let len = length-walk (2 ^ k) q.slots q.dequeue_index q.size v.array v.start v.bounded in
      elim (Bool-cases (leb (2 ^ k) q.size)) [
        | inl full ↦ rw (len, full) (record { answers = refl; holds = refl; valid = v })
        | inr room ↦
            rw (len, room)
              (record {
                answers = refl;
                holds =
                    subst
                      (λ j.
                        walk (2 ^ k) (set q.slots j x) q.dequeue_index (suc q.size)
                        ≡ contents (2 ^ k) q ++ x ∷ [])
                      (sym v.behind)
                      (walk-set (2 ^ k) q.slots q.dequeue_index q.size x v.array v.start
                        (ground arith));
                valid = record {
                  array = length-set q.slots q.enqueue_index x ∙ v.array;
                  bounded = ground arith;
                  start = v.start;
                  behind = ground (arith, next_index-wrap k q.enqueue_index, v.behind);
                };
              })
      ]

  abbrev ring : List A → ℕ → ℕ → ℕ → MpscBoundedQueue A
  ring slots e d n = record { slots = slots; enqueue_index = e; dequeue_index = d; size = n }

  dequeue_at :
      (k n : ℕ) (slots : List A) (enqueue_index dequeue_index : ℕ)
      → IsValid (2 ^ k) (ring slots enqueue_index dequeue_index n)
      → Agrees
          (2 ^ k)
          (call (2 ^ k) dequeue (ring slots enqueue_index dequeue_index n))
          (fifo_call (2 ^ k) dequeue (contents (2 ^ k) (ring slots enqueue_index dequeue_index n)))
  unfolding call fifo_call try_dequeue walk or_nil
  dequeue_at k zero slots e d v = record { answers = refl; holds = refl; valid = v }
  dequeue_at k (suc n) slots e d v =
      let (x, present) = in_range slots d (omega (arith, v.array, v.start)) in
      let holding : (suc n == 0) ≡ false = ground arith in
      let less : suc n - 1 ≡ n = omega arith in
      let next : next_index (2 ^ k) d ≡ wrap (2 ^ k) (d + 1) = next_index-wrap k d v.start in
      rw (holding, present, less, next)
        (record {
          answers = refl;
          holds = refl;
          valid = record {
            array = v.array;
            bounded = omega (arith, v.bounded);
            start = ground (arith, v.start);
            behind = ground (arith, v.behind, v.start, v.bounded);
          };
        })

  call-Agrees :
      (k : ℕ) (c : Call A) (q : MpscBoundedQueue A)
      → IsValid (2 ^ k) q
      → Agrees (2 ^ k) (call (2 ^ k) c q) (fifo_call (2 ^ k) c (contents (2 ^ k) q))
  call-Agrees k (enqueue x) q v = enqueue-Agrees k q x v
  call-Agrees k dequeue q v = dequeue_at k q.size q.slots q.enqueue_index q.dequeue_index v

  -- A sequence of calls, as the mutex orders those of all threads.
  unfoldable pub calls : ℕ → List (Call A) → MpscBoundedQueue A → List (Answer A)
  calls c [] q = []
  calls c (x ∷ xs) q = let (a, q') = call c x q in a ∷ calls c xs q'

  unfoldable pub fifo_calls : ℕ → List (Call A) → List A → List (Answer A)
  fifo_calls c [] held = []
  fifo_calls c (x ∷ xs) held = let (a, held') = fifo_call c x held in a ∷ fifo_calls c xs held'

  calls-from :
      (k : ℕ) (xs : List (Call A)) (q : MpscBoundedQueue A) (held : List A)
      → IsValid (2 ^ k) q
      → contents (2 ^ k) q ≡ held
      → calls (2 ^ k) xs q ≡ fifo_calls (2 ^ k) xs held
  unfolding calls fifo_calls
  calls-from k [] q held v e = refl
  calls-from k (x ∷ xs) q held v e =
      let g =
        subst (λ h. Agrees (2 ^ k) (call (2 ^ k) x q) (fifo_call (2 ^ k) x h)) e
          (call-Agrees k x q v) in
      ap₂ ◌∷◌ g.answers (calls-from k xs _ _ g.valid g.holds)

  -- Whatever calls a new queue of capacity `2^k` is given, it answers each as a list of at most `2^k`
  -- records would: records come out in the order in which they went in, one that finds the queue full
  -- is refused, and none is lost or made up.
  pub calls-fifo :
      (k : ℕ) (blank : A) (xs : List (Call A))
      → calls (2 ^ k) xs (new_queue (2 ^ k) blank) ≡ fifo_calls (2 ^ k) xs []
  unfolding walk
  calls-fifo k blank xs =
      calls-from k xs (new_queue (2 ^ k) blank) [] (new_queue-IsValid k blank) refl

  -- What an attempt to enqueue does, by cases.
  pub try_enqueue_cases :
      (k : ℕ) (q : MpscBoundedQueue A) (x : A)
      → IsValid (2 ^ k) q
      → (try_enqueue (2 ^ k) q x ≡ (false, q))
        ⊎ ((q' : MpscBoundedQueue A) × (try_enqueue (2 ^ k) q x ≡ (true, q'))
            × (q'.size ≡ suc q.size)
            × IsValid (2 ^ k) q')
  unfolding call try_enqueue
  try_enqueue_cases k q x v =
      let g = enqueue-Agrees k q x v in
      elim (Bool-cases (leb (2 ^ k) q.size)) [
        | inl full ↦ inl (rw (full, try_enqueue) refl)
        | inr room ↦ inr (
          (try_enqueue (2 ^ k) q x).1,
          (rw (room, try_enqueue) refl),
          (rw (room, try_enqueue) refl),
          g.valid,
        )
      ]

  -- And what the queue holds before and after it.
  pub try_enqueue-contents :
      (k : ℕ) (q : MpscBoundedQueue A) (x : A)
      → IsValid (2 ^ k) q
      → (leb (2 ^ k) (length (contents (2 ^ k) q)) ≡ true) × (try_enqueue (2 ^ k) q x ≡ (false, q))
        ⊎ ((q' : MpscBoundedQueue A) × (leb (2 ^ k) (length (contents (2 ^ k) q)) ≡ false)
            × (try_enqueue (2 ^ k) q x ≡ (true, q'))
            × (contents (2 ^ k) q' ≡ contents (2 ^ k) q ++ x ∷ [])
            × IsValid (2 ^ k) q')
  unfolding call fifo_call try_enqueue
  try_enqueue-contents k q x v =
      let g = enqueue-Agrees k q x v in
      let xs = contents (2 ^ k) q in
      let len : length xs ≡ q.size =
        length-walk (2 ^ k) q.slots q.dequeue_index q.size v.array v.start v.bounded in
      elim (Bool-cases (leb (2 ^ k) q.size)) [
        | inl full ↦ inl (ap (leb (2 ^ k)) len ∙ full, (rw (full, try_enqueue) refl))
        | inr room ↦
            let small : leb (2 ^ k) (length xs) ≡ false = ap (leb (2 ^ k)) len ∙ room in
            inr (
              (try_enqueue (2 ^ k) q x).1,
              small,
              (rw (room, try_enqueue) refl),
              g.holds
                  ∙ ap
                      (λ b.
                        let p : Answer A × List A =
                          if b then (accepted false, xs) else (accepted true, xs ++ x ∷ []) in
                        p.1)
                      small,
              g.valid,
            )
      ]

  -- And an attempt to dequeue.
  pub try_dequeue_cases :
      (k : ℕ) (q : MpscBoundedQueue A)
      → IsValid (2 ^ k) q
      → (try_dequeue (2 ^ k) q ≡ (none, q))
        ⊎ ((x : A) × (q' : MpscBoundedQueue A) × (try_dequeue (2 ^ k) q ≡ (some x, q'))
            × (suc q'.size ≡ q.size)
            × IsValid (2 ^ k) q')
  unfolding call try_dequeue
  try_dequeue_cases k q v =
      let g = call-Agrees k dequeue q v in
      let (x, present) = in_range q.slots q.dequeue_index (omega (arith, v.array, v.start)) in
      elim (Bool-cases (q.size == 0)) [
        | inl empty ↦ inl (rw (empty, try_dequeue) refl)
        | inr holding ↦ inr (
          x,
          (try_dequeue (2 ^ k) q).1,
          (rw (holding, present, try_dequeue) refl),
          (rw (holding, try_dequeue) (ground arith)),
          g.valid,
        )
      ]

  taken_ne : {x : A} → ◌≢◌ {A = Answer A} (taken none) (taken (some x))
  taken_ne e = cc

  taken_same : {x y : A} → ◌≡◌ {A = Answer A} (taken (some x)) (taken (some y)) → x ≡ y
  taken_same e = cc

  some_same : {x y : A} → some x ≡ some y → x ≡ y
  some_same e = cc

  taken_cases :
      (c : ℕ) (q q' : MpscBoundedQueue A) (o : Option A) (held : List A)
      → Agrees c (taken o, q') (fifo_call c dequeue held)
      → (o ≡ none) × (held ≡ []) ⊎ ((x : A) × (o ≡ some x) × (held ≡ x ∷ contents c q'))
  unfolding fifo_call
  taken_cases c q q' none [] g = inl (refl, refl)
  taken_cases c q q' none (y ∷ ys) g = absurd (taken_ne g.answers)
  taken_cases c q q' (some x) [] g = absurd (taken_ne (sym g.answers))
  taken_cases c q q' (some x) (y ∷ ys) g =
      inr (x, refl, ap₂ ◌∷◌ (sym (taken_same g.answers)) (sym g.holds))

  -- And what the queue holds before and after that.
  pub try_dequeue-contents :
      (k : ℕ) (q : MpscBoundedQueue A)
      → IsValid (2 ^ k) q
      → (try_dequeue (2 ^ k) q ≡ (none, q)) × (contents (2 ^ k) q ≡ [])
        ⊎ ((x : A) × (q' : MpscBoundedQueue A) × (try_dequeue (2 ^ k) q ≡ (some x, q'))
            × (contents (2 ^ k) q ≡ x ∷ contents (2 ^ k) q')
            × IsValid (2 ^ k) q')
  unfolding call
  try_dequeue-contents k q v =
      let g = call-Agrees k dequeue q v in
      elim (try_dequeue_cases k q v) [
        | inl e ↦
            elim (taken_cases (2 ^ k) q q none (contents (2 ^ k) q) (
              subst
                (λ p.
                  Agrees (2 ^ k) (taken p.0, p.1) (fifo_call (2 ^ k) dequeue (contents (2 ^ k) q)))
                e g)) [ inl (_, h) ↦ inl (e, h) | inr (x, h, _) ↦ cc ]
        | inr (x, q', e, _, w) ↦
            elim (taken_cases (2 ^ k) q q' (some x) (contents (2 ^ k) q) (
              subst
                (λ p.
                  Agrees (2 ^ k) (taken p.0, p.1) (fifo_call (2 ^ k) dequeue (contents (2 ^ k) q)))
                e g)) [
                  | inl (h, _) ↦ cc
                  | inr (y, h, held) ↦
                      inr
                        (x, q', e, held ∙ ap (λ z. z ∷ contents (2 ^ k) q') (sym (some_same h)), w)
                ]
      ]
