-- ===== src/Async/Sink/Steps.antt =====
-- The counters of the asynchronous sink over any sequence of events.
use ngin_log.Base.{
  ℕ, suc, ◌^◌, ◌<◌, Bool, true, false, List, [], ◌∷◌, arith, if◌then◌else◌, ◌≡◌, refl, sym, ap, ◌∙◌,
  subst, add_u64, inl, inr,
}
use ngin_log.Types.{LogRecordView}
use ngin_log.Async.{MpscBoundedQueue, OwnedLogRecord, to_owned}
use ngin_log.Async.Queue
use ngin_log.Async.Queue.{new_queue-IsValid}
use ngin_log.Async.Fifo.{try_enqueue_cases, try_dequeue_cases}
use ngin_log.Async.Sink.{
  new_sink, AsyncOverflowPolicy, drop_newest, block, block_for_timeout, sync_fallback, AsyncSink,
  Outcome, returned, record_drop, update_high_watermark, enqueued, try_enqueue_owned, after_attempt,
  attempt, write_round, stopped, retry_round, consumed, consume_one, shut_down,
}
use ngin_log.Async.Sink.Accounting.{
  IsAccounted, Event, writes, retries, consumes, stops, counted, step, run, deliver-IsHanded,
  drop-IsAccounted, timeout_drop-IsAccounted, refused, refused-IsAccounted, no_room-IsAccounted,
}

module _ {W : Type 0} where
  module _ (write : LogRecordView → W → Bool × W) where
    -- An attempt that found room.
    room-IsAccounted :
        (k n : ℕ) (s : AsyncSink W) (q : MpscBoundedQueue OwnedLogRecord)
        → 2 ^ k < 2 ^ 64
        → IsAccounted k n s
        → q.size ≡ suc s.queue.size
        → Queue.IsValid (2 ^ k) q
        → IsAccounted k (suc n) (
            update_high_watermark q.size (record s {
              queue = q;
              outstanding = add_u64 s.outstanding 1;
              total_enqueued = add_u64 s.total_enqueued 1;
            }))
    unfolding update_high_watermark
    room-IsAccounted k n s q h v more qv = record {
      valid = qv;
      wrapped = v.wrapped;
      waiting = omega (arith, more, v.waiting, qv.bounded);
      ended = omega (arith, v.ended);
      handed = omega (arith, more, v.handed);
      reached = ground arith;
      within = ground (arith, v.within, qv.bounded);
    }

    attempt-IsAccounted :
        (k n : ℕ) (in_time : Bool) (owned : OwnedLogRecord) (s : AsyncSink W)
        → 2 ^ k < 2 ^ 64
        → IsAccounted k n s
        → let (m, t) = counted n (attempt write (2 ^ k) in_time owned s) in IsAccounted k m t
    unfolding attempt try_enqueue_owned enqueued refused counted
    attempt-IsAccounted k n in_time owned s h v = elim (try_enqueue_cases k s.queue owned v.valid) [
      | inl e ↦
          subst
            (λ p.
              let (m, t) = counted n (
                after_attempt write in_time owned
                  (enqueued p (record s { outstanding = add_u64 s.outstanding 1 }))) in
              IsAccounted k m t)
            (sym e)
            (no_room-IsAccounted write s.overflow_policy k n in_time owned (refused write s) refl h
              (refused-IsAccounted write k n s h v))
      | inr (q, e, more, qv) ↦
          subst
            (λ p.
              let (m, t) = counted n (
                after_attempt write in_time owned
                  (enqueued p (record s { outstanding = add_u64 s.outstanding 1 }))) in
              IsAccounted k m t)
            (sym e) (room-IsAccounted k n s q h v more qv)
    ]

    consume-IsAccounted :
        (k n : ℕ) (s : AsyncSink W)
        → 2 ^ k < 2 ^ 64
        → IsAccounted k n s
        → IsAccounted k n (consume_one write (2 ^ k) s)
    unfolding consume_one consumed
    consume-IsAccounted k n s h v = elim (try_dequeue_cases k s.queue v.valid) [
      | inl e ↦ subst (λ p. IsAccounted k n (consumed write p s)) (sym e) v
      | inr (owned, q, e, less, qv) ↦
          let d = deliver-IsHanded write owned (record s { queue = q }) v.wrapped in
          let sizes = ap (λ (q : MpscBoundedQueue OwnedLogRecord). q.size) d.queue in
          subst (λ p. IsAccounted k n (consumed write p s)) (sym e)
            (record {
              valid = subst (λ q. Queue.IsValid (2 ^ k) q) (sym d.queue) qv;
              wrapped = d.wrapped ∙ v.wrapped;
              waiting = omega (arith, d.outstanding, sizes, less, v.waiting, v.valid.bounded);
              ended = omega (arith, d.enqueued_same, d.fallback_same, d.dropped_same, v.ended);
              handed =
                  omega (arith, d.one, sizes, less, d.enqueued_same, d.fallback_same, v.handed);
              reached = omega (arith, sizes, less, d.watermark, v.reached);
              within = omega (arith, d.watermark, v.within);
            })
    ]

    stopped-IsAccounted :
        (policy : AsyncOverflowPolicy) (k n : ℕ) (s : AsyncSink W)
        → IsAccounted k n s
        → let (m, t) = counted n (stopped write policy s) in IsAccounted k m t
    unfolding stopped counted
    stopped-IsAccounted drop_newest k n s v = drop-IsAccounted write k n s v
    stopped-IsAccounted block k n s v = drop-IsAccounted write k n s v
    stopped-IsAccounted block_for_timeout k n s v = timeout_drop-IsAccounted write k n s v
    stopped-IsAccounted sync_fallback k n s v = drop-IsAccounted write k n s v

    if_running :
        (k n : ℕ) (b : Bool) (x y : Outcome W)
        → (let (m, t) = counted n x in IsAccounted k m t)
        → (let (m, t) = counted n y in IsAccounted k m t)
        → let (m, t) = counted n (if b then x else y) in IsAccounted k m t
    if_running k n true x y hx hy = hx
    if_running k n false x y hx hy = hy

    step-IsAccounted :
        (k n : ℕ) (e : Event) (s : AsyncSink W)
        → 2 ^ k < 2 ^ 64
        → IsAccounted k n s
        → let (m, t) = step write (2 ^ k) e (n, s) in IsAccounted k m t
    unfolding step write_round retry_round shut_down counted
    step-IsAccounted k n (writes in_time r) s h v =
        if_running k n s.running (attempt write (2 ^ k) in_time (to_owned r) s)
          (returned (record_drop s)) (attempt-IsAccounted k n in_time (to_owned r) s h v)
          (drop-IsAccounted write k n s v)
    step-IsAccounted k n (retries in_time r) s h v =
        if_running k n s.running (attempt write (2 ^ k) in_time (to_owned r) s)
          (stopped write s.overflow_policy s) (attempt-IsAccounted k n in_time (to_owned r) s h v)
          (stopped-IsAccounted s.overflow_policy k n s v)
    step-IsAccounted k n consumes s h v = consume-IsAccounted k n s h v
    step-IsAccounted k n stops s h v = record {
      valid = v.valid;
      wrapped = v.wrapped;
      waiting = v.waiting;
      ended = v.ended;
      handed = v.handed;
      reached = v.reached;
      within = v.within;
    }

    run-from :
        (k n : ℕ) (es : List Event) (s : AsyncSink W)
        → 2 ^ k < 2 ^ 64
        → IsAccounted k n s
        → let (m, t) = run write (2 ^ k) es (n, s) in IsAccounted k m t
    unfolding run
    run-from k n [] s h v = v
    run-from k n (e ∷ es) s h v =
        let (m, t) = step write (2 ^ k) e (n, s) in
        run-from k m es t h (step-IsAccounted k n e s h v)

    new_sink-IsAccounted :
        (k : ℕ) (policy : AsyncOverflowPolicy) (blank : OwnedLogRecord) (world : W)
        → IsAccounted k 0 (new_sink (2 ^ k) policy blank world)
    new_sink-IsAccounted k policy blank world = record {
      valid = new_queue-IsValid k blank;
      wrapped = refl;
      waiting = refl;
      ended = refl;
      handed = refl;
      reached = omega arith;
      within = omega arith;
    }

    -- Whatever the policy, for a capacity `2^k` below 2^64, and in whatever order calls of `Write` and
    -- their further rounds, the worker and a shutdown come: of a sink constructed around another, the
    -- outstanding counter is the size of its queue; each call that returned is counted as enqueued, as
    -- written by the fallback, or as dropped; each record enqueued or written by the fallback was
    -- delivered, or failed, or waits; and the high watermark is between the size and the capacity.
    -- Counters are compared modulo 2^64.
    pub run-IsAccounted :
        (k : ℕ) (policy : AsyncOverflowPolicy) (blank : OwnedLogRecord) (world : W)
        (es : List Event)
        → 2 ^ k < 2 ^ 64
        → let (m, t) = run write (2 ^ k) es (0, new_sink (2 ^ k) policy blank world) in
          IsAccounted k m t
    run-IsAccounted k policy blank world es h =
        run-from k 0 es (new_sink (2 ^ k) policy blank world) h
          (new_sink-IsAccounted k policy blank world)
