-- ===== src/Async/Sink/Draining.antt =====
-- The worker of a sink that was stopped empties the queue and ends.
use ngin_log.Base.{
  ℕ, zero, suc, ◌^◌, ◌<◌, Bool, true, false, List, [], ◌∷◌, some, arith, ◌==◌, if◌then◌else◌,
  length, take, drop, ◌≡◌, ◌⊎◌, inl, inr, refl, sym, ap, subst, ◌∙◌,
}
use ngin_log.Async.{MpscBoundedQueue, OwnedLogRecord, try_dequeue, delivered_record}
use ngin_log.Async.Fifo.{try_dequeue-contents}
use ngin_log.Async.Queue
use ngin_log.Async.Queue.{contents, length-walk}
use ngin_log.Async.Sink.{AsyncSink, sub_one, delivered_or_failed, deliver, consumed, consume_one}
use ngin_log.Async.Sink.Worker.{Setting, drop_report, unless_empty, drain}

-- The queue is valid, its size is the count of outstanding records, and there is a wrapped sink.
pub record IsReady {W : Type 0} (k : ℕ) (s : AsyncSink W) : Type 0 where
  pub valid : Queue.IsValid (2 ^ k) s.queue
  pub waiting : s.outstanding ≡ s.queue.size
  pub wrapped : s.has_sink ≡ true

module _ {W : Type 0} (g : Setting W) where
  -- The wrapped sink after writes of records, one by one.
  unfoldable pub write_each : List OwnedLogRecord → W → W
  write_each [] w = w
  write_each (x ∷ xs) w = write_each xs (g.write (delivered_record x) w).1

  -- The wrapped sink after a report of so many drops, which is not made of none.
  unfoldable pub write_report : ℕ → W → W
  write_report dropped w =
      if g.emit_drop_reports
      then (if dropped == 0 then w else (g.write (drop_report g dropped w) w).1)
      else w

  -- What a step of the worker leaves: so many records in the queue, and such a wrapped sink.
  pub record IsStepped (k : ℕ) (s t : AsyncSink W) (dropped : ℕ) (xs : List OwnedLogRecord) (w : W)
      : Type 0 where
    pub ready : IsReady k t
    pub running : t.running ≡ s.running
    pub unreported : t.unreported_dropped ≡ dropped
    pub holds : contents (2 ^ k) t.queue ≡ xs
    pub world : t.world ≡ w

  handed_on :
      (p : Bool × W) (o : ℕ) (s : AsyncSink W) (k : ℕ)
      → Queue.IsValid (2 ^ k) s.queue
      → o ≡ s.queue.size
      → s.has_sink ≡ true
      → IsStepped k s
          (record (delivered_or_failed g.write p s) { outstanding = o })
          s.unreported_dropped
          (contents (2 ^ k) s.queue)
          p.1
  unfolding delivered_or_failed
  handed_on (true, w) o s k v e h = record {
    ready = record { valid = v; waiting = e; wrapped = h };
    running = refl;
    unreported = refl;
    holds = refl;
    world = refl;
  }
  handed_on (false, w) o s k v e h = record {
    ready = record { valid = v; waiting = e; wrapped = h };
    running = refl;
    unreported = refl;
    holds = refl;
    world = refl;
  }

  outstanding_same :
      (p : Bool × W) (s : AsyncSink W)
      → (delivered_or_failed g.write p s).outstanding ≡ s.outstanding
  unfolding delivered_or_failed
  outstanding_same (true, w) s = refl
  outstanding_same (false, w) s = refl

  module _ (k : ℕ) (fits : 2 ^ k < 2 ^ 64) where
    pub size_contents :
        (q : MpscBoundedQueue OwnedLogRecord)
        → Queue.IsValid (2 ^ k) q
        → length (contents (2 ^ k) q) ≡ q.size
    size_contents q v = length-walk (2 ^ k) q.slots q.dequeue_index q.size v.array v.start v.bounded

    consumed-IsStepped :
        (s : AsyncSink W) (x : OwnedLogRecord) (q : MpscBoundedQueue OwnedLogRecord)
        → IsReady k s
        → Queue.IsValid (2 ^ k) q
        → suc q.size ≡ s.queue.size
        → IsStepped k s
            (consumed g.write (some x, q) s)
            s.unreported_dropped
            (contents (2 ^ k) q)
            (g.write (delivered_record x) s.world).1
    unfolding consumed deliver delivered_or_failed
    consumed-IsStepped s x q r v e =
        let s' : AsyncSink W = record s { queue = q } in
        let p = g.write (delivered_record x) s.world in
        let less : sub_one (delivered_or_failed g.write p s').outstanding ≡ q.size =
          omega (arith, outstanding_same p s', r.waiting, e, r.valid.bounded) in
        let h =
          handed_on p (sub_one (delivered_or_failed g.write p s').outstanding) s' k v less
            r.wrapped in
        subst
          (λ b.
            let t = if b then delivered_or_failed g.write p s' else s' in
            IsStepped k s (record t { outstanding = sub_one t.outstanding }) s.unreported_dropped
              (contents (2 ^ k) q) p.1)
          (sym r.wrapped)
          (record {
            ready = h.ready;
            running = h.running;
            unreported = h.unreported;
            holds = h.holds;
            world = h.world;
          })

    consume_cases :
        (s : AsyncSink W) (t : AsyncSink W) (xs : List OwnedLogRecord)
        → IsReady k s
        → contents (2 ^ k) s.queue ≡ xs
        → (xs ≡ []) × (unless_empty g (2 ^ k) (try_dequeue (2 ^ k) s.queue).0 s t ≡ s)
          ⊎ ((x : OwnedLogRecord) × (ys : List OwnedLogRecord) × (xs ≡ x ∷ ys)
              × (unless_empty g (2 ^ k) (try_dequeue (2 ^ k) s.queue).0 s t ≡ t)
              × IsStepped k s
                  (consume_one g.write (2 ^ k) s)
                  s.unreported_dropped
                  ys
                  (g.write (delivered_record x) s.world).1)
    unfolding consume_one unless_empty
    consume_cases s t xs r e = elim (try_dequeue-contents k s.queue r.valid) [
      | inl (h, empty) ↦ inl (sym e ∙ empty, ap (λ p. unless_empty g (2 ^ k) p.0 s t) h)
      | inr (x, q, h, held, v) ↦
          let size : suc q.size ≡ s.queue.size =
            ap suc (sym (size_contents q v))
            ∙ ap length (sym held)
            ∙ size_contents s.queue r.valid in
          inr (
            x,
            contents (2 ^ k) q,
            sym e ∙ held,
            ap (λ p. unless_empty g (2 ^ k) p.0 s t) h,
            subst
                (λ p.
                  IsStepped k s (consumed g.write p s) s.unreported_dropped (contents (2 ^ k) q)
                    (g.write (delivered_record x) s.world).1)
                (sym h) (consumed-IsStepped s x q r v size),
          )
    ]

    -- A batch takes the records at the front of the queue.
    pub drain-IsStepped :
        (n : ℕ) (s : AsyncSink W) (xs : List OwnedLogRecord)
        → IsReady k s
        → contents (2 ^ k) s.queue ≡ xs
        → IsStepped k s
            (drain g (2 ^ k) n s)
            s.unreported_dropped
            (drop n xs)
            (write_each (take n xs) s.world)
    unfolding drain write_each
    drain-IsStepped zero s xs r e = record {
      ready = r;
      running = refl;
      unreported = refl;
      holds = e;
      world = refl;
    }
    drain-IsStepped (suc n) s xs r e =
        let rest = drain g (2 ^ k) n (consume_one g.write (2 ^ k) s) in
        elim (consume_cases s rest xs r e) [
          | inl (empty, h) ↦
              subst
                (λ l.
                  IsStepped k s (drain g (2 ^ k) (suc n) s) s.unreported_dropped (drop (suc n) l)
                    (write_each (take (suc n) l) s.world))
                (sym empty)
                (subst (λ t. IsStepped k s t s.unreported_dropped [] s.world) (sym h)
                  (record {
                    ready = r;
                    running = refl;
                    unreported = refl;
                    holds = e ∙ empty;
                    world = refl;
                  }))
          | inr (x, ys, whole, h, a) ↦
              let ih = drain-IsStepped n (consume_one g.write (2 ^ k) s) ys a.ready a.holds in
              subst
                (λ l.
                  IsStepped k s (drain g (2 ^ k) (suc n) s) s.unreported_dropped (drop (suc n) l)
                    (write_each (take (suc n) l) s.world))
                (sym whole)
                (subst
                  (λ t.
                    IsStepped k s t s.unreported_dropped (drop n ys)
                      (write_each (take n ys) (g.write (delivered_record x) s.world).1))
                  (sym h)
                  (record {
                    ready = ih.ready;
                    running = ih.running ∙ a.running;
                    unreported = ih.unreported ∙ a.unreported;
                    holds = ih.holds;
                    world = ih.world ∙ ap (write_each (take n ys)) a.world;
                  }))
        ]
