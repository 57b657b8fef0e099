-- ===== src/Async/Sink/Worker.antt =====
-- The worker's loop of include/NGIN/Log/Sinks/AsyncSink.hpp, the drop reports, and what `Flush` does
-- behind its wait. The loop is on fuel, one unit for each test of its condition; the time that it
-- waits on an empty queue leaves no trace.
use ngin_log.Base.{
  ℕ, zero, suc, ◌-◌, Bool, not, ◌&&◌, ◌||◌, [], ◌++◌, Option, none, some, Bytes, ◌==◌,
  if◌then◌else◌, length, take,
}
use ngin_log.Base.Digits.{to_chars}
use ngin_log.Level.{warn, codes}
use ngin_log.Types.{max_message_bytes, SourceLocation, LogRecordView}
use ngin_log.Async.{OwnedLogRecord, try_dequeue, approx_depth, is_empty}
use ngin_log.Async.Sink.{AsyncSink, Outcome, returned, waits, record_error, consume_one}

-- The wrapped sink's two operations, each with whether it threw; the clock; what the report says of
-- the place and thread that it is made in; and the options `emitDropReports` and `BatchSize`.
pub record Setting (W : Type 0) : Type 0 where
  pub write : LogRecordView → W → Bool × W
  pub flush : W → Bool × W
  pub clock : W → ℕ
  pub source : SourceLocation
  pub thread_id_hash : ℕ
  pub emit_drop_reports : Bool
  pub batch_size : ℕ

-- `append` of the drop report: what still fits in the buffer, which has one more byte for its end.
unfoldable pub append_report : Bytes → Bytes → Bytes
append_report part buffer = buffer ++ take (max_message_bytes - length buffer) part

-- The text of a drop report.
unfoldable pub report_message : ℕ → Bytes
unfolding append_report
report_message dropped =
    let dropped_chars : Bytes = elim (to_chars 32 10 dropped) [
      | none ↦ codes "?"
      | some text ↦ text
    ] in
    append_report (codes " log records due to async overflow.")
      (append_report dropped_chars (append_report (codes "Dropped ") []))

module _ {W : Type 0} (g : Setting W) where
  unfoldable pub drop_report : ℕ → W → LogRecordView
  drop_report dropped w = record {
    timestamp = g.clock w;
    level = warn;
    logger_name = codes "AsyncSink";
    message = report_message dropped;
    source = g.source;
    thread_id_hash = g.thread_id_hash;
    attributes = [];
    truncated_attribute_count = 0;
    truncated_bytes = 0;
  }

  -- The handlers around the wrapped sink's `Write` of a report and around its `Flush`.
  unfoldable pub done_or_failed : Bool × W → AsyncSink W → AsyncSink W
  done_or_failed (threw, w) s =
      if threw then record_error (record s { world = w }) else record s { world = w }

  -- `EmitDropReportIfNeededLocked`.
  unfoldable pub emit_drop_report_if_needed_locked : AsyncSink W → AsyncSink W
  unfolding done_or_failed
  emit_drop_report_if_needed_locked s =
      let dropped = s.unreported_dropped in
      let t = record s { unreported_dropped = 0 } in
      if dropped == 0 || not s.has_sink
      then t
      else done_or_failed (g.write (drop_report dropped s.world) s.world) t

  unfoldable pub report_if_wanted : AsyncSink W → AsyncSink W
  report_if_wanted s = if g.emit_drop_reports then emit_drop_report_if_needed_locked s else s

  -- `FlushWrappedSink`.
  unfoldable pub flush_wrapped_sink : AsyncSink W → AsyncSink W
  unfolding done_or_failed
  flush_wrapped_sink s = if s.has_sink then done_or_failed (g.flush s.world) s else s

  -- What follows the loop of `ConsumeLoop`, and the wait of `Flush`.
  unfoldable pub finish : AsyncSink W → AsyncSink W
  unfolding report_if_wanted flush_wrapped_sink
  finish s = flush_wrapped_sink (report_if_wanted s)

  module _ (queue_capacity : ℕ) where
    unfoldable pub unless_empty : Option OwnedLogRecord → AsyncSink W → AsyncSink W → AsyncSink W
    unless_empty none s t = s
    unless_empty (some _) s t = t

    -- The inner loop of `ConsumeLoop`, with what is left of its batch.
    unfoldable pub drain : ℕ → AsyncSink W → AsyncSink W
    unfolding unless_empty
    drain zero s = s
    drain (suc n) s =
        unless_empty (try_dequeue queue_capacity s.queue).0 s
          (drain n (consume_one g.write queue_capacity s))

    -- The body of the outer loop.
    unfoldable pub worker_round : AsyncSink W → AsyncSink W
    unfolding drain report_if_wanted
    worker_round s = report_if_wanted (drain g.batch_size s)

    -- `ConsumeLoop`; nothing where the fuel runs out.
    unfoldable pub consume_loop : ℕ → AsyncSink W → Option (AsyncSink W)
    unfolding worker_round finish
    consume_loop zero s = none
    consume_loop (suc fuel) s =
        let rest = consume_loop fuel (worker_round s) in
        if s.running || not (is_empty s.queue) then rest else some (finish s)

    -- So many rounds of the worker.
    unfoldable pub worker_rounds : ℕ → AsyncSink W → AsyncSink W
    unfolding worker_round
    worker_rounds zero s = s
    worker_rounds (suc n) s = worker_rounds n (worker_round s)

  -- `Flush`: it waits until nothing is outstanding and the queue is empty.
  unfoldable pub flush_round : AsyncSink W → Outcome W
  unfolding finish
  flush_round s = if s.outstanding == 0 && is_empty s.queue then returned (finish s) else waits s

pub record AsyncSinkStats : Type 0 where
  pub enqueued : ℕ
  pub delivered : ℕ
  pub dropped : ℕ
  pub timeout_dropped : ℕ
  pub fallback_writes : ℕ
  pub errors : ℕ
  pub queue_high_watermark : ℕ
  pub current_approx_depth : ℕ

-- `GetStats`.
abbrev pub get_stats : {W : Type 0} → AsyncSink W → AsyncSinkStats
get_stats s = record {
  enqueued = s.total_enqueued;
  delivered = s.total_delivered;
  dropped = s.total_dropped;
  timeout_dropped = s.timeout_dropped;
  fallback_writes = s.fallback_writes;
  errors = s.error_count;
  queue_high_watermark = s.queue_high_watermark;
  current_approx_depth = approx_depth s.queue;
}

abbrev pub get_dropped_count : {W : Type 0} → AsyncSink W → ℕ
get_dropped_count s = (get_stats s).dropped

abbrev pub get_error_count : {W : Type 0} → AsyncSink W → ℕ
get_error_count s = (get_stats s).errors

abbrev pub get_enqueued_count : {W : Type 0} → AsyncSink W → ℕ
get_enqueued_count s = (get_stats s).enqueued
