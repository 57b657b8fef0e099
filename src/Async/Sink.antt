-- ===== src/Async/Sink.antt =====
-- The producer's and the worker's side of include/NGIN/Log/Sinks/AsyncSink.hpp. Each round of a loop
-- is one step; the wrapped sink is a parameter, which says whether it threw. The notification callback
-- is left out: nothing that it returns or throws reaches the sink.
pub mod Accounting
pub mod Steps
pub mod Worker
pub mod Draining
pub mod Reporting
pub mod Ending
pub mod Shutdown
pub mod Pipe
use ngin_log.Base.{
  ℕ, suc, ◌+◌, ◌-◌, ◌%◌, ◌^◌, Bool, true, false, List, [], ◌∷◌, ◌++◌, Option, none, some, Bytes,
  ltb, ◌==◌, ◌||◌, not, if◌then◌else◌, length, take, add_u64,
}
use ngin_log.Base.Digits.{to_chars}
use ngin_log.Level.{warn, codes}
use ngin_log.Types.{max_message_bytes, SourceLocation, LogRecordView}
use ngin_log.Async.{
  MpscBoundedQueue, OwnedLogRecord, new_queue, try_enqueue, try_dequeue, to_owned, delivered_record,
}

pub data AsyncOverflowPolicy : Type 0 where
  drop_newest block block_for_timeout sync_fallback : AsyncOverflowPolicy

pub record AsyncSink (W : Type 0) : Type 0 where
  pub queue : MpscBoundedQueue OwnedLogRecord
  pub overflow_policy : AsyncOverflowPolicy
  pub has_sink : Bool
  pub running : Bool
  pub total_enqueued : ℕ
  pub total_delivered : ℕ
  pub total_dropped : ℕ
  pub timeout_dropped : ℕ
  pub fallback_writes : ℕ
  pub error_count : ℕ
  pub unreported_dropped : ℕ
  pub queue_high_watermark : ℕ
  pub outstanding : ℕ
  pub world : W

-- What a round of a call of `Write` comes to: the call returns, or its thread waits and tries again.
pub data Outcome (W : Type 0) : Type 0 where
  returned : AsyncSink W → Outcome W
  waits : AsyncSink W → Outcome W

-- The sink as it is constructed around another.
abbrev pub new_sink : {W : Type 0} → ℕ → AsyncOverflowPolicy → OwnedLogRecord → W → AsyncSink W
new_sink queue_capacity overflow_policy blank world = record {
  queue = new_queue queue_capacity blank;
  overflow_policy = overflow_policy;
  has_sink = true;
  running = true;
  total_enqueued = 0;
  total_delivered = 0;
  total_dropped = 0;
  timeout_dropped = 0;
  fallback_writes = 0;
  error_count = 0;
  unreported_dropped = 0;
  queue_high_watermark = 0;
  outstanding = 0;
  world = world;
}

-- `fetch_sub(1)` of a 64-bit counter.
abbrev pub sub_one : ℕ → ℕ
sub_one n = (n + 2 ^ 64 - 1) % 2 ^ 64

module _ {W : Type 0} where
  abbrev pub record_error : AsyncSink W → AsyncSink W
  record_error s = record s { error_count = add_u64 s.error_count 1 }

  unfoldable pub record_drop : AsyncSink W → AsyncSink W
  record_drop s = record s {
    total_dropped = add_u64 s.total_dropped 1;
    unreported_dropped = add_u64 s.unreported_dropped 1;
  }

  unfoldable pub record_timeout_drop : AsyncSink W → AsyncSink W
  unfolding record_drop
  record_timeout_drop s = record (record_drop s) { timeout_dropped = add_u64 s.timeout_dropped 1 }

  -- `UpdateHighWatermark`.
  unfoldable pub update_high_watermark : ℕ → AsyncSink W → AsyncSink W
  update_high_watermark depth s = record s {
    queue_high_watermark =
        if ltb s.queue_high_watermark depth then depth else s.queue_high_watermark;
  }

  -- The two ends of `TryEnqueueOwned`.
  unfoldable pub enqueued :
      Bool × MpscBoundedQueue OwnedLogRecord → AsyncSink W → Bool × AsyncSink W
  unfolding update_high_watermark
  enqueued (true, q) s = (
    true,
    update_high_watermark q.size
        (record s { queue = q; total_enqueued = add_u64 s.total_enqueued 1 }),
  )
  enqueued (false, q) s = (false, record s { queue = q; outstanding = sub_one s.outstanding })

  -- `TryEnqueueOwned`.
  unfoldable pub try_enqueue_owned : ℕ → AsyncSink W → OwnedLogRecord → Bool × AsyncSink W
  unfolding enqueued
  try_enqueue_owned queue_capacity s owned =
      enqueued (try_enqueue queue_capacity s.queue owned)
        (record s { outstanding = add_u64 s.outstanding 1 })

  module _ (write : LogRecordView → W → Bool × W) where
    -- The handler around the wrapped sink's `Write`.
    unfoldable pub delivered_or_failed : Bool × W → AsyncSink W → AsyncSink W
    delivered_or_failed (threw, w) s =
        if threw
        then record_error (record s { world = w })
        else record s { world = w; total_delivered = add_u64 s.total_delivered 1 }

    -- `Deliver`.
    unfoldable pub deliver : OwnedLogRecord → AsyncSink W → AsyncSink W
    unfolding delivered_or_failed
    deliver owned s =
        if s.has_sink then delivered_or_failed (write (delivered_record owned) s.world) s else s

    -- What each policy does with the result of its attempt; `in_time` says that the deadline has not
    -- passed when the wait of `EnqueueBlockingWithTimeout` ends.
    unfoldable pub after_attempt : Bool → OwnedLogRecord → Bool × AsyncSink W → Outcome W
    unfolding record_drop record_timeout_drop deliver
    after_attempt in_time owned (true, s) = returned s
    after_attempt in_time owned (false, s) = elim s.overflow_policy [
      | drop_newest ↦ returned (record_drop s)
      | block ↦ waits s
      | block_for_timeout ↦ if in_time then waits s else returned (record_timeout_drop s)
      | sync_fallback ↦
          let t = deliver owned (record s {
            outstanding = add_u64 s.outstanding 1;
            fallback_writes = add_u64 s.fallback_writes 1;
          }) in
          returned (record t { outstanding = sub_one t.outstanding })
    ]

    -- One round of `Write` on a sink that runs.
    unfoldable pub attempt : ℕ → Bool → OwnedLogRecord → AsyncSink W → Outcome W
    unfolding try_enqueue_owned after_attempt
    attempt queue_capacity in_time owned s =
        after_attempt in_time owned (try_enqueue_owned queue_capacity s owned)

    -- `Write` and its first round.
    unfoldable pub write_round : ℕ → Bool → LogRecordView → AsyncSink W → Outcome W
    unfolding attempt
    write_round queue_capacity in_time r s =
        if s.running
        then attempt queue_capacity in_time (to_owned r) s
        else returned (record_drop s)

    -- What a thread that was waiting does with a sink that stopped.
    unfoldable pub stopped : AsyncOverflowPolicy → AsyncSink W → Outcome W
    unfolding record_drop record_timeout_drop
    stopped block_for_timeout s = returned (record_timeout_drop s)
    stopped _ s = returned (record_drop s)

    -- A further round of a call that waited.
    unfoldable pub retry_round : ℕ → Bool → LogRecordView → AsyncSink W → Outcome W
    unfolding attempt stopped
    retry_round queue_capacity in_time r s =
        if s.running
        then attempt queue_capacity in_time (to_owned r) s
        else stopped s.overflow_policy s

    -- The body of the loop of `ConsumeLoop` over one batch.
    unfoldable pub consumed :
        Option OwnedLogRecord × MpscBoundedQueue OwnedLogRecord → AsyncSink W → AsyncSink W
    unfolding deliver
    consumed (none, q) s = s
    consumed (some owned, q) s =
        let t = deliver owned (record s { queue = q }) in
        record t { outstanding = sub_one t.outstanding }

    unfoldable pub consume_one : ℕ → AsyncSink W → AsyncSink W
    unfolding consumed
    consume_one queue_capacity s = consumed (try_dequeue queue_capacity s.queue) s

  -- The exchange at the start of `Shutdown`.
  unfoldable pub shut_down : AsyncSink W → AsyncSink W
  shut_down s = record s { running = false }
