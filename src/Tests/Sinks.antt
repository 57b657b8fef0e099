-- ===== src/Tests/Sinks.antt =====
-- Runs of the asynchronous sink.
use ngin_log.Base.{suc, some, ◌^◌, Bool, true, false, List, [], ◌∷◌, ◌++◌, All, arith, ◌≡◌, refl}
use ngin_log.Types.{LogRecordView}
use ngin_log.Async.{to_owned, delivered_record}
use ngin_log.Async.Owned.{cut, delivered_record-to_owned}
use ngin_log.Async.Sink.{
  block, drop_newest, sync_fallback, AsyncSink, returned, new_sink, shut_down,
}
use ngin_log.Async.Sink.Accounting.{IsAccounted, Event, writes, retries, consumes, stops, run}
use ngin_log.Async.Sink.Steps.{run-IsAccounted}
use ngin_log.Async.Sink.Ending.{IsEnded}
use ngin_log.Async.Sink.Shutdown.{consume_loop-ends, flush_round-returned}
use ngin_log.Async.Sink.Worker.{Setting, consume_loop, worker_rounds, flush_round}
use ngin_log.Async.Sink.Pipe.{IsCounted, IsCountedEvent, pipe_run, Follows}
use ngin_log.Async.Sink.Pipe.Runs.{run-Follows}
use ngin_log.Async.Sink.Pipe.Drained.{hand_all, consume_loop-hand_all}
use ngin_log.Tests.{a_record, here}

delivered_record-to_owned_example : delivered_record (to_owned a_record) ≡ cut a_record
delivered_record-to_owned_example = delivered_record-to_owned a_record (omega arith) (omega arith)

-- A sink of one place that writes each record to its world; the second write finds it full.
abbrev keeping : LogRecordView → List LogRecordView → Bool × List LogRecordView
keeping r w = (false, w ++ r ∷ [])

abbrev pub some_events : List Event
some_events =
    writes true a_record ∷ writes true a_record ∷ consumes ∷ stops ∷ retries true a_record ∷ []

run-IsAccounted_example :
    let (m, t) =
      run keeping (2 ^ 1) some_events (0, new_sink (2 ^ 1) sync_fallback (to_owned a_record) []) in
    IsAccounted 1 m t
run-IsAccounted_example =
    run-IsAccounted keeping 1 sync_fallback (to_owned a_record) [] some_events (omega arith)

-- Around the same sink, with reports, and batches of one record.
abbrev setting : Setting (List LogRecordView)
setting = record {
  write = keeping;
  flush = λ w. (false, w);
  clock = λ w. 5;
  source = here;
  thread_id_hash = 7;
  emit_drop_reports = true;
  batch_size = 1;
}

consume_loop-ends_example :
    let s =
      shut_down
        (run keeping
          (2 ^ 1)
          some_events
          (0, new_sink (2 ^ 1) drop_newest (to_owned a_record) [])).1 in
    (t : AsyncSink (List LogRecordView)) × (consume_loop setting (2 ^ 1) (suc (2 ^ 1)) s ≡ some t)
    × IsEnded setting 1 s t
consume_loop-ends_example =
    consume_loop-ends setting 1 drop_newest (to_owned a_record) [] some_events (omega arith)
      (omega arith)

flush_round-returned_example :
    let s =
      worker_rounds setting
        (2 ^ 1)
        (2 ^ 1)
        (run keeping
          (2 ^ 1)
          some_events
          (0, new_sink (2 ^ 1) drop_newest (to_owned a_record) [])).1 in
    (t : AsyncSink (List LogRecordView)) × (flush_round setting s ≡ returned t)
    × IsEnded setting 1 s t
flush_round-returned_example =
    flush_round-returned setting 1 drop_newest (to_owned a_record) [] some_events (omega arith)
      (omega arith)

-- The truncation counts of the record are small.
pub a_record-IsCounted : IsCounted a_record
a_record-IsCounted = record { bytes = omega arith; attributes = omega arith }

pub some_events-IsCountedEvent : All IsCountedEvent some_events
some_events-IsCountedEvent =
    (a_record-IsCounted, (a_record-IsCounted, (tt, (tt, (a_record-IsCounted, tt)))))

run-Follows_example :
    Follows keeping 1 sync_fallback
      (run keeping (2 ^ 1) some_events (0, new_sink (2 ^ 1) sync_fallback (to_owned a_record) [])).1
      (pipe_run keeping
        (2 ^ 1)
        sync_fallback
        some_events
        (record { waiting = []; running = true; world = [] }))
run-Follows_example =
    run-Follows keeping 1 sync_fallback (to_owned a_record) [] some_events
      some_events-IsCountedEvent

abbrev quiet_setting : Setting (List LogRecordView)
quiet_setting = record setting { emit_drop_reports = false }

consume_loop-hand_all_example :
    let s =
      shut_down
        (run keeping (2 ^ 1) some_events (0, new_sink (2 ^ 1) block (to_owned a_record) [])).1 in
    let p =
      pipe_run keeping
        (2 ^ 1)
        block
        some_events
        (record { waiting = []; running = true; world = [] }) in
    (t : AsyncSink (List LogRecordView)) × (consume_loop quiet_setting (2 ^ 1) (suc (2 ^ 1)) s
      ≡ some t)
    × (t.queue.size ≡ 0)
    × (t.world ≡ (quiet_setting.flush (hand_all quiet_setting p.waiting p.world)).1)
consume_loop-hand_all_example =
    consume_loop-hand_all quiet_setting 1 block (to_owned a_record) [] some_events (omega arith)
      (omega arith) refl some_events-IsCountedEvent
