-- ===== src/Async/Sink/Pipe/Drained.antt =====
-- What a shutdown of the asynchronous sink of include/NGIN/Log/Sinks/AsyncSink.hpp leaves of the pipe of
-- Async/Sink/Pipe.
use ngin_log.Base.{
  ℕ, suc, ◌^◌, ◌<◌, true, false, List, [], ◌∷◌, map, some, All, take, drop, take-append-drop,
  if◌then◌else◌, ◌==◌, ◌≡◌, refl, sym, ap, ap₂, ◌∙◌,
}
use ngin_log.Types.{LogRecordView}
use ngin_log.Async.{OwnedLogRecord, to_owned}
use ngin_log.Async.Owned.{delivered_record-to_owned}
use ngin_log.Async.Queue.{contents}
use ngin_log.Async.Sink.{AsyncOverflowPolicy, AsyncSink, new_sink, shut_down}
use ngin_log.Async.Sink.Accounting.{Event, run}
use ngin_log.Async.Sink.Draining.{write_each, write_report}
use ngin_log.Async.Sink.Reporting.{served, write_each_append}
use ngin_log.Async.Sink.Shutdown.{consume_loop-ends}
use ngin_log.Async.Sink.Worker.{Setting, drop_report, consume_loop}
use ngin_log.Async.Sink.Pipe.{IsCounted, IsCountedEvent, hand_on, pipe_run}
use ngin_log.Async.Sink.Pipe.Runs.{run-Follows}

module _ {W : Type 0} (g : Setting W) where
  -- The wrapped sink is given records one by one.
  abbrev pub hand_all : List LogRecordView → W → W
  hand_all [] w = w
  hand_all (r ∷ rs) w = hand_all rs (hand_on g.write r w)

  write_each-hand_all :
      (rs : List LogRecordView) (w : W)
      → All IsCounted rs
      → write_each g (map to_owned rs) w ≡ hand_all rs w
  unfolding write_each
  write_each-hand_all [] w c = refl
  write_each-hand_all (r ∷ rs) w (c, cs) =
      ap (λ x. write_each g (map to_owned rs) (g.write x w).1)
        (delivered_record-to_owned r c.bytes c.attributes)
      ∙ write_each-hand_all rs (hand_on g.write r w) cs

  no_report : (dropped : ℕ) (w : W) → g.emit_drop_reports ≡ false → write_report g dropped w ≡ w
  unfolding write_report
  no_report dropped w quiet =
      ap
        (λ b.
          if b then (if dropped == 0 then w else (g.write (drop_report g dropped w) w).1) else w)
        quiet

  served_unreported :
      (dropped : ℕ) (xs : List OwnedLogRecord) (w : W)
      → g.emit_drop_reports ≡ false
      → served g dropped xs w ≡ (g.flush (write_each g xs w)).1
  served_unreported dropped xs w quiet =
      let first = write_each g (take g.batch_size xs) w in
      ap (λ u. (g.flush (write_each g (drop g.batch_size xs) u)).1) (no_report dropped first quiet)
      ∙ ap (λ u. (g.flush u).1)
          (sym (write_each_append g (take g.batch_size xs) (drop g.batch_size xs) w)
            ∙ ap (λ l. write_each g l w) (take-append-drop g.batch_size xs))

-- A sink of a capacity `2^k` below 2^64, with a positive batch size and without drop reports, is constructed
-- around another and run through any calls, rounds of them, deliveries and stops, and then stopped.
-- Undisturbed from there, the worker's loop ends within `2^k + 1` tests of its condition, with an empty queue;
-- and the wrapped sink was then given every record that still waited in the abstract pipe, the oldest first,
-- behind what the pipe had given it before, and flushed last.
pub consume_loop-hand_all :
    {W : Type 0} (g : Setting W) (k : ℕ) (policy : AsyncOverflowPolicy) (blank : OwnedLogRecord)
    (world : W) (es : List Event)
    → 2 ^ k < 2 ^ 64
    → 0 < g.batch_size
    → g.emit_drop_reports ≡ false
    → All IsCountedEvent es
    → let s = shut_down (run g.write (2 ^ k) es (0, new_sink (2 ^ k) policy blank world)).1 in
      let p =
        pipe_run g.write
          (2 ^ k)
          policy
          es
          (record { waiting = []; running = true; world = world }) in
      (t : AsyncSink W) × (consume_loop g (2 ^ k) (suc (2 ^ k)) s ≡ some t)
      × (t.queue.size ≡ 0)
      × (t.world ≡ (g.flush (hand_all g p.waiting p.world)).1)
unfolding shut_down
consume_loop-hand_all g k policy blank world es fits some_ quiet counts =
    let s = (run g.write (2 ^ k) es (0, new_sink (2 ^ k) policy blank world)).1 in
    let v = run-Follows g.write k policy blank world es counts in
    let (t, ends, e) = consume_loop-ends g k policy blank world es fits some_ in
    (
      t,
      ends,
      e.emptied,
      e.world
          ∙ served_unreported g s.unreported_dropped (contents (2 ^ k) s.queue) s.world quiet
          ∙ ap₂ (λ xs w. (g.flush (write_each g xs w)).1) v.holds v.world
          ∙ ap (λ w. (g.flush w).1) (write_each-hand_all g _ _ v.counted_),
    )
