-- ===== src/Async/ToFile.antt =====
-- `AsyncSink<FileSink>`: the asynchronous sink of include/NGIN/Log/Sinks/AsyncSink.hpp around the sink of
-- src/NGIN/Log/Sinks/FileSink.cpp.
use ngin_log.Base.{
  ℕ, suc, ◌^◌, ◌<◌, ◌≤◌, length, true, false, List, [], ◌∷◌, ◌++◌, map, some, Bytes, All,
  if◌then◌else◌, ◌≡◌, refl, sym, ap, ◌∙◌,
}
use ngin_log.Types.{SourceLocation, LogRecordView}
use ngin_log.Files.{FileSystem, Formatters, or_made, bytes_at}
use ngin_log.Files.FileSink.{FileSinkOptions, FileSink, make_file_sink, write, flush}
use ngin_log.Files.FileSink.Lifetime.{make_file_sink-calls}
use ngin_log.Files.FileSink.Lines.{write_, call, calls, log_of}
use ngin_log.Async.{OwnedLogRecord}
use ngin_log.Async.Owned.{cut}
use ngin_log.Async.Sink.{AsyncOverflowPolicy, AsyncSink, new_sink, shut_down}
use ngin_log.Async.Sink.Accounting.{Event, run}
use ngin_log.Async.Sink.Worker.{Setting, consume_loop}
use ngin_log.Async.Sink.Pipe.{IsCountedEvent, pipe_run}
use ngin_log.Async.Sink.Pipe.Noted.{
  note, noted, passed, empty_pipe, give_all, give_all-append_one, run-given,
}
use ngin_log.Async.Sink.Pipe.Lossless.{IsWritten, passed-IsWritten}
use ngin_log.Async.Sink.Pipe.Returned.{run-returned}
use ngin_log.Async.Sink.Pipe.Drained.{hand_all, consume_loop-hand_all}

-- A file sink behind the worker: neither of its operations throws. The last three are the clock, and the
-- place and thread of a drop report, which is not made.
module _ {F : Type 0} (k : Formatters F) where
  abbrev pub file_setting : ℕ → (FileSink F → ℕ) → SourceLocation → ℕ → Setting (FileSink F)
  file_setting batch_size clock source thread_id_hash = record {
    write = λ r s. (false, write k r s);
    flush = λ s. (false, flush s);
    clock = clock;
    source = source;
    thread_id_hash = thread_id_hash;
    emit_drop_reports = false;
    batch_size = batch_size;
  }

  give_all-calls :
      (rs : List LogRecordView) (s : FileSink F)
      → give_all (λ r t. (false, write k r t)) rs s ≡ calls k (map write_ rs) s
  unfolding give_all calls call
  give_all-calls [] s = refl
  give_all-calls (r ∷ rs) s = give_all-calls rs (write k r s)

hand_all-give_all :
    {W : Type 0} (g : Setting W) (waiting rs : List LogRecordView) (world : W)
    → hand_all g waiting (give_all g.write rs world) ≡ give_all g.write (noted waiting rs) world
hand_all-give_all g [] rs world = refl
hand_all-give_all g (r ∷ waiting) rs world =
    ap (hand_all g waiting) (sym (give_all-append_one g.write rs (cut r) world))
    ∙ hand_all-give_all g waiting (rs ++ cut r ∷ []) world

-- An asynchronous sink of a capacity `2^m` below 2^64, with a positive batch size and without drop reports,
-- is constructed around a file sink, on a host that allows that sink its path and gives it a formatter. Calls
-- of `Write`, their further rounds, deliveries by the worker and stops come in any order, and at the end a
-- stop. Undisturbed from there, the worker's loop ends within `2^m + 1` tests of its condition, and the file
-- then holds what it held before, or nothing of that where the file sink does not append, and the line of
-- each record that an abstract pipe of that capacity and policy lets pass, cut to the capacities of a
-- copy, in the order in which they pass; no record that waited at the stop is missing.
pub consume_loop-on_disk :
    {F : Type 0} (k : Formatters F) (path : Bytes) (options : FileSinkOptions F) (fs : FileSystem)
    (f : F) (batch_size : ℕ) (clock : FileSink F → ℕ) (source : SourceLocation)
    (thread_id_hash m : ℕ) (policy : AsyncOverflowPolicy) (blank : OwnedLogRecord) (es : List Event)
    → fs.can_open path ≡ true
    → or_made k options.formatter ≡ some f
    → 2 ^ m < 2 ^ 64
    → 0 < batch_size
    → All IsCountedEvent es
    → let g = file_setting k batch_size clock source thread_id_hash in
      let file_sink = make_file_sink k path options fs in
      let s = shut_down (run g.write (2 ^ m) es (0, new_sink (2 ^ m) policy blank file_sink)).1 in
      (t : AsyncSink (FileSink F)) × (consume_loop g (2 ^ m) (suc (2 ^ m)) s ≡ some t)
      × (bytes_at t.world.host (t.world.host.entry path)
          ≡ log_of k options.append
              (map write_ (passed (2 ^ m) policy es))
              f
              (if options.append then bytes_at fs (fs.entry path) else []))
unfolding give_all
consume_loop-on_disk k path options fs f batch_size clock source thread_id_hash m policy blank es
      opens made fits some_ counts =
    let g = file_setting k batch_size clock source thread_id_hash in
    let file_sink = make_file_sink k path options fs in
    let p = pipe_run note (2 ^ m) policy es empty_pipe in
    let (t, ends, emptied, world) =
      consume_loop-hand_all g m policy blank file_sink es fits some_ refl counts in
    let passes : t.world ≡ flush (calls k (map write_ (passed (2 ^ m) policy es)) file_sink) =
      world
      ∙ ap (λ q. flush (hand_all g q.waiting q.world))
          (run-given g.write file_sink (2 ^ m) policy es empty_pipe)
      ∙ ap flush (
          hand_all-give_all g p.waiting p.world file_sink
          ∙ give_all-calls k (passed (2 ^ m) policy es) file_sink) in
    (
      t,
      ends,
      ap (λ (s : FileSink _). bytes_at s.host (s.host.entry path)) passes
          ∙ make_file_sink-calls k path options fs f (map write_ (passed (2 ^ m) policy es)) opens
              made,
    )

-- An asynchronous sink of a capacity `2^m` below 2^64, of any policy, with a positive batch size and without drop
-- reports, is constructed around a file sink, on a host that allows that sink its path and gives it a
-- formatter. `Write` is called for each of some records, at most as many as the sink has places; the
-- worker delivers records at any time in between; and at the end the sink is stopped. Then as many calls
-- have returned as there are records, each at its first attempt; and undisturbed from there, the worker's loop
-- ends within `2^m + 1` tests of its condition, and the file then holds what it held before, or nothing of that
-- where the file sink does not append, and the line of every record, cut to the capacities of a copy, in the
-- order of the calls.
pub consume_loop-IsWritten :
    {F : Type 0} (k : Formatters F) (path : Bytes) (options : FileSinkOptions F) (fs : FileSystem)
    (f : F) (batch_size : ℕ) (clock : FileSink F → ℕ) (source : SourceLocation)
    (thread_id_hash m : ℕ) (policy : AsyncOverflowPolicy) (blank : OwnedLogRecord) (es : List Event)
    (rs : List LogRecordView)
    → fs.can_open path ≡ true
    → or_made k options.formatter ≡ some f
    → 2 ^ m < 2 ^ 64
    → 0 < batch_size
    → All IsCountedEvent es
    → IsWritten es rs
    → length rs ≤ 2 ^ m
    → let g = file_setting k batch_size clock source thread_id_hash in
      let file_sink = make_file_sink k path options fs in
      let (returned_calls, called) =
        run g.write (2 ^ m) es (0, new_sink (2 ^ m) policy blank file_sink) in
      let s = shut_down called in
      (returned_calls ≡ length rs)
      × (t : AsyncSink (FileSink F)) × (consume_loop g (2 ^ m) (suc (2 ^ m)) s ≡ some t)
      × (bytes_at t.world.host (t.world.host.entry path)
          ≡ log_of k options.append
              (map write_ (map cut rs))
              f
              (if options.append then bytes_at fs (fs.entry path) else []))
consume_loop-IsWritten k path options fs f batch_size clock source hash m policy blank es rs opens
      made fits some_ counts h room =
    let g = file_setting k batch_size clock source hash in
    let file_sink = make_file_sink k path options fs in
    let (t, ends, e) =
      consume_loop-on_disk k path options fs f batch_size clock source hash m policy blank es opens
        made fits some_ counts in
    (
      run-returned g.write m policy blank file_sink h counts room,
      t,
      ends,
      e
          ∙ ap
              (λ l.
                log_of k options.append (map write_ l) f
                  (if options.append then bytes_at fs (fs.entry path) else []))
              (passed-IsWritten (2 ^ m) policy h room),
    )
