-- ===== src/Async/Sink/Shutdown.antt =====
-- A shutdown behind any run of the sink, and the text of a drop report.
use ngin_log.Base.{
  ℕ, suc, ◌+◌, ◌-◌, ◌^◌, ◌≤◌, ◌<◌, ◌++◌, List, [], Option, none, some, Bytes, arith, length,
  length-append, take_all, ◌≡◌, refl, ap, ◌∙◌,
}
use ngin_log.Base.Digits.{digits, length-digits}
use ngin_log.Level.{codes}
use ngin_log.Types.{max_message_bytes}
use ngin_log.Format.Timestamp.{to_chars_fits}
use ngin_log.Async.{OwnedLogRecord}
use ngin_log.Async.Queue.{length-walk}
use ngin_log.Async.Sink.{AsyncOverflowPolicy, AsyncSink, returned, new_sink, shut_down}
use ngin_log.Async.Sink.Accounting.{Event, run}
use ngin_log.Async.Sink.Draining.{IsReady}
use ngin_log.Async.Sink.Ending.{IsEnded, loop-IsEnded, rounds-IsReady, flush-returned}
use ngin_log.Async.Sink.Steps.{run-IsAccounted}
use ngin_log.Async.Sink.Worker.{
  Setting, append_report, report_message, consume_loop, worker_rounds, finish, flush_round,
}

-- A sink of a capacity `2^k` below 2^64, with a positive batch size, is constructed around another, run
-- through any calls, rounds of them and deliveries, and then stopped. Undisturbed from there, the
-- worker's loop ends within `2^k + 1` tests of its condition. The queue is then empty and nothing
-- counts as outstanding. The wrapped sink was given the records of the queue, the oldest first, and
-- then flushed; where reports are wanted and records were dropped since the last one, a report of
-- their number came behind the first batch, and no drop is left unreported.
pub consume_loop-ends :
    {W : Type 0} (g : Setting W) (k : ℕ) (policy : AsyncOverflowPolicy) (blank : OwnedLogRecord)
    (world : W) (es : List Event)
    → 2 ^ k < 2 ^ 64
    → 0 < g.batch_size
    → let s = shut_down (run g.write (2 ^ k) es (0, new_sink (2 ^ k) policy blank world)).1 in
      (t : AsyncSink W) × (consume_loop g (2 ^ k) (suc (2 ^ k)) s ≡ some t) × IsEnded g k s t
unfolding shut_down
consume_loop-ends g k policy blank world es fits some_ =
    let v = run-IsAccounted g.write k policy blank world es fits in
    let s = shut_down (run g.write (2 ^ k) es (0, new_sink (2 ^ k) policy blank world)).1 in
    let size =
      length-walk (2 ^ k) s.queue.slots s.queue.dequeue_index s.queue.size v.valid.array
        v.valid.start v.valid.bounded in
    let r : IsReady k s = record { valid = v.valid; waiting = v.waiting; wrapped = v.wrapped } in
    loop-IsEnded g k fits (suc (2 ^ k)) s r refl some_ (omega (arith, size, v.valid.bounded))

-- A sink of a capacity `2^k` below 2^64, with a positive batch size, is constructed around another and
-- run through any calls, rounds of them and deliveries. A call of `Flush` that is tested again behind
-- `2^k` undisturbed rounds of the worker returns: nothing is outstanding then and the queue is empty,
-- the drops that the rounds left unreported are reported where reports are wanted, and the wrapped
-- sink was flushed last.
pub flush_round-returned :
    {W : Type 0} (g : Setting W) (k : ℕ) (policy : AsyncOverflowPolicy) (blank : OwnedLogRecord)
    (world : W) (es : List Event)
    → 2 ^ k < 2 ^ 64
    → 0 < g.batch_size
    → let s =
        worker_rounds g
          (2 ^ k)
          (2 ^ k)
          (run g.write (2 ^ k) es (0, new_sink (2 ^ k) policy blank world)).1 in
      (t : AsyncSink W) × (flush_round g s ≡ returned t) × IsEnded g k s t
flush_round-returned g k policy blank world es fits some_ =
    let v = run-IsAccounted g.write k policy blank world es fits in
    let s = (run g.write (2 ^ k) es (0, new_sink (2 ^ k) policy blank world)).1 in
    let size =
      length-walk (2 ^ k) s.queue.slots s.queue.dequeue_index s.queue.size v.valid.array
        v.valid.start v.valid.bounded in
    let r : IsReady k s = record { valid = v.valid; waiting = v.waiting; wrapped = v.wrapped } in
    let (ready, empty) =
      rounds-IsReady g k fits (2 ^ k) s r some_ (omega (arith, size, v.valid.bounded)) in
    let t = worker_rounds g (2 ^ k) (2 ^ k) s in
    let (ends, ended) = flush-returned g k fits t ready empty in (finish g t, ends, ended)

append_report-whole :
    (part buffer : Bytes)
    → length buffer + length part ≤ max_message_bytes
    → append_report part buffer ≡ buffer ++ part
unfolding append_report
append_report-whole part buffer h =
    ap (λ p. buffer ++ p) (take_all (max_message_bytes - length buffer) part (omega arith))

-- The report of a 64-bit number of drops fits in its buffer: its text is whole, and has the number in
-- decimal digits.
pub report_message-whole :
    (dropped : ℕ)
    → dropped < 2 ^ 64
    → report_message dropped
      ≡ (codes "Dropped " ++ digits 10 dropped) ++ codes " log records due to async overflow."
unfolding report_message
report_message-whole dropped h =
    let text = digits 10 dropped in
    let few : length text ≤ 20 = length-digits 10 dropped 19 (omega arith) (omega arith) in
    let first : append_report (codes "Dropped ") [] ≡ codes "Dropped " =
      append_report-whole (codes "Dropped ") [] (omega arith) in
    let suffix : Bytes = codes " log records due to async overflow." in
    ap
      (λ (o : Option Bytes).
        let dropped_chars : Bytes = elim o [ none ↦ codes "?" | some t ↦ t ] in
        append_report suffix (append_report dropped_chars (append_report (codes "Dropped ") [])))
      (to_chars_fits 32 10 dropped 19 (omega arith) (omega arith) (omega arith))
    ∙ ap (λ b. append_report suffix (append_report text b)) first
    ∙ ap (append_report suffix) (append_report-whole text (codes "Dropped ") (omega (arith, few)))
    ∙ append_report-whole suffix (codes "Dropped " ++ text)
        (omega (arith, few, length-append (codes "Dropped ") text))
