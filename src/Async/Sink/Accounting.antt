-- ===== src/Async/Sink/Accounting.antt =====
-- The counters of the asynchronous sink agree with its queue and with the calls that returned.
use ngin_log.Base.{
  ℕ, suc, ◌+◌, ◌%◌, ◌^◌, ◌≤◌, ◌<◌, Bool, true, false, List, [], ◌∷◌, arith, if◌then◌else◌, ◌≡◌,
  refl, sym, ap, ◌∙◌, subst, add_u64,
}
use ngin_log.Types.{LogRecordView}
use ngin_log.Async.{MpscBoundedQueue, OwnedLogRecord, delivered_record}
use ngin_log.Async.Queue
use ngin_log.Async.Queue.{new_queue-IsValid}
use ngin_log.Async.Sink.{
  sub_one, AsyncOverflowPolicy, drop_newest, block, block_for_timeout, sync_fallback, AsyncSink,
  Outcome, returned, waits, record_drop, record_timeout_drop, delivered_or_failed, deliver,
  after_attempt, write_round, retry_round, consume_one, shut_down,
}

-- With `n` calls of `Write` returned: the counter of outstanding records is the size of the queue;
-- each call that returned is counted as enqueued, as written by the fallback, or as dropped; each
-- record enqueued or written by the fallback was delivered, or failed, or waits; and the high
-- watermark is between the size and the capacity. Counters are compared modulo 2^64.
pub record IsAccounted {W : Type 0} (k n : ℕ) (s : AsyncSink W) : Type 0 where
  pub valid : Queue.IsValid (2 ^ k) s.queue
  pub wrapped : s.has_sink ≡ true
  pub waiting : s.outstanding ≡ s.queue.size
  pub ended : (s.total_enqueued + s.fallback_writes + s.total_dropped) % 2 ^ 64 ≡ n % 2 ^ 64
  pub handed :
      (s.total_delivered + s.error_count + s.queue.size) % 2 ^ 64
      ≡ (s.total_enqueued + s.fallback_writes) % 2 ^ 64
  pub reached : s.queue.size ≤ s.queue_high_watermark
  pub within : s.queue_high_watermark ≤ 2 ^ k

-- What other threads see: a call returns or waits, the worker takes a record, the sink is stopped.
pub data Event : Type 0 where
  writes : Bool → LogRecordView → Event
  retries : Bool → LogRecordView → Event
  consumes : Event
  stops : Event

module _ {W : Type 0} where
  unfoldable pub counted : ℕ → Outcome W → ℕ × AsyncSink W
  counted n (returned s) = (suc n, s)
  counted n (waits s) = (n, s)

  module _ (write : LogRecordView → W → Bool × W) where
    -- The calls that returned, and the sink.
    unfoldable pub step : ℕ → Event → ℕ × AsyncSink W → ℕ × AsyncSink W
    unfolding counted
    step c (writes in_time r) (n, s) = counted n (write_round write c in_time r s)
    step c (retries in_time r) (n, s) = counted n (retry_round write c in_time r s)
    step c consumes (n, s) = (n, consume_one write c s)
    step c stops (n, s) = (n, shut_down s)

    unfoldable pub run : ℕ → List Event → ℕ × AsyncSink W → ℕ × AsyncSink W
    unfolding step
    run c [] p = p
    run c (e ∷ es) p = run c es (step c e p)

    -- What a delivery changes.
    pub record IsHanded (s t : AsyncSink W) : Type 0 where
      pub queue : t.queue ≡ s.queue
      pub wrapped : t.has_sink ≡ s.has_sink
      pub outstanding : t.outstanding ≡ s.outstanding
      pub enqueued_same : t.total_enqueued ≡ s.total_enqueued
      pub fallback_same : t.fallback_writes ≡ s.fallback_writes
      pub dropped_same : t.total_dropped ≡ s.total_dropped
      pub watermark : t.queue_high_watermark ≡ s.queue_high_watermark
      pub one :
          (t.total_delivered + t.error_count) % 2 ^ 64
          ≡ (s.total_delivered + s.error_count + 1) % 2 ^ 64

    delivered_or_failed-IsHanded :
        (p : Bool × W) (s : AsyncSink W) → IsHanded s (delivered_or_failed write p s)
    unfolding delivered_or_failed
    delivered_or_failed-IsHanded (true, w) s = record {
      queue = refl;
      wrapped = refl;
      outstanding = refl;
      enqueued_same = refl;
      fallback_same = refl;
      dropped_same = refl;
      watermark = refl;
      one = omega arith;
    }
    delivered_or_failed-IsHanded (false, w) s = record {
      queue = refl;
      wrapped = refl;
      outstanding = refl;
      enqueued_same = refl;
      fallback_same = refl;
      dropped_same = refl;
      watermark = refl;
      one = omega arith;
    }

    pub deliver-IsHanded :
        (owned : OwnedLogRecord) (s : AsyncSink W)
        → s.has_sink ≡ true
        → IsHanded s (deliver write owned s)
    unfolding deliver
    deliver-IsHanded owned s h =
        let result = delivered_or_failed write (write (delivered_record owned) s.world) s in
        subst (λ b. IsHanded s (if b then result else s)) (sym h)
          (delivered_or_failed-IsHanded (write (delivered_record owned) s.world) s)

    pub drop-IsAccounted :
        (k n : ℕ) (s : AsyncSink W) → IsAccounted k n s → IsAccounted k (suc n) (record_drop s)
    unfolding record_drop
    drop-IsAccounted k n s v = record {
      valid = v.valid;
      wrapped = v.wrapped;
      waiting = v.waiting;
      ended = omega (arith, v.ended);
      handed = v.handed;
      reached = v.reached;
      within = v.within;
    }

    pub timeout_drop-IsAccounted :
        (k n : ℕ) (s : AsyncSink W)
        → IsAccounted k n s
        → IsAccounted k (suc n) (record_timeout_drop s)
    unfolding record_drop record_timeout_drop
    timeout_drop-IsAccounted k n s v = record {
      valid = v.valid;
      wrapped = v.wrapped;
      waiting = v.waiting;
      ended = omega (arith, v.ended);
      handed = v.handed;
      reached = v.reached;
      within = v.within;
    }

    -- A failed attempt changes nothing that is accounted.
    unfoldable pub refused : AsyncSink W → AsyncSink W
    refused s = record s { outstanding = sub_one (add_u64 s.outstanding 1) }

    pub refused-IsAccounted :
        (k n : ℕ) (s : AsyncSink W)
        → 2 ^ k < 2 ^ 64
        → IsAccounted k n s
        → IsAccounted k n (refused s)
    unfolding refused
    refused-IsAccounted k n s h v = record {
      valid = v.valid;
      wrapped = v.wrapped;
      waiting = omega (arith, v.waiting, v.valid.bounded);
      ended = v.ended;
      handed = v.handed;
      reached = v.reached;
      within = v.within;
    }

    -- The record that found no room, written by the caller's thread.
    fallback-IsAccounted :
        (k n : ℕ) (s : AsyncSink W) (owned : OwnedLogRecord)
        → 2 ^ k < 2 ^ 64
        → IsAccounted k n s
        → let t = deliver write owned (record s {
          outstanding = add_u64 s.outstanding 1;
          fallback_writes = add_u64 s.fallback_writes 1;
        }) in
          IsAccounted k (suc n) (record t { outstanding = sub_one t.outstanding })
    fallback-IsAccounted k n s owned h v =
        let d =
          deliver-IsHanded owned
            (record s {
              outstanding = add_u64 s.outstanding 1;
              fallback_writes = add_u64 s.fallback_writes 1;
            })
            v.wrapped in
        let sizes = ap (λ (q : MpscBoundedQueue OwnedLogRecord). q.size) d.queue in
        record {
          valid = subst (λ q. Queue.IsValid (2 ^ k) q) (sym d.queue) v.valid;
          wrapped = d.wrapped ∙ v.wrapped;
          waiting = omega (arith, d.outstanding, sizes, v.waiting, v.valid.bounded);
          ended = omega (arith, d.enqueued_same, d.fallback_same, d.dropped_same, v.ended);
          handed = omega (arith, d.one, sizes, d.enqueued_same, d.fallback_same, v.handed);
          reached = omega (arith, sizes, d.watermark, v.reached);
          within = omega (arith, d.watermark, v.within);
        }

    -- A call that found no room, under each policy.
    pub no_room-IsAccounted :
        (policy : AsyncOverflowPolicy) (k n : ℕ) (in_time : Bool) (owned : OwnedLogRecord)
        (s : AsyncSink W)
        → policy ≡ s.overflow_policy
        → 2 ^ k < 2 ^ 64
        → IsAccounted k n s
        → let (m, t) = counted n (after_attempt write in_time owned (false, s)) in IsAccounted k m t
    unfolding after_attempt counted
    no_room-IsAccounted drop_newest k n in_time owned s e h v = rw⁻¹ e (drop-IsAccounted k n s v)
    no_room-IsAccounted block k n in_time owned s e h v = rw⁻¹ e v
    no_room-IsAccounted block_for_timeout k n true owned s e h v = rw⁻¹ e v
    no_room-IsAccounted block_for_timeout k n false owned s e h v =
        rw⁻¹ e (timeout_drop-IsAccounted k n s v)
    no_room-IsAccounted sync_fallback k n in_time owned s e h v =
        rw⁻¹ e (fallback-IsAccounted k n s owned h v)
