-- ===== src/Tests/Pipes.antt =====
-- Runs of the asynchronous sink around a file sink.
use ngin_log.Base.{suc, some, ◌^◌, true, false, List, [], ◌∷◌, map, none, All, arith, ◌≡◌, refl}
use ngin_log.Level.{codes}
use ngin_log.Files.{bytes_at}
use ngin_log.Files.FileSink.{FileSinkOptions, FileSink, make_file_sink}
use ngin_log.Files.FileSink.Lines.{write_, log_of}
use ngin_log.Files.FileSink.Text.{TextRecordFormatter, text_formatters, default_options}
use ngin_log.Format.Text.{empty_cache}
use ngin_log.Async.{to_owned}
use ngin_log.Async.Owned.{cut}
use ngin_log.Async.Sink.{block, drop_newest, AsyncSink, new_sink, shut_down}
use ngin_log.Async.Sink.Accounting.{Event, writes, consumes, run}
use ngin_log.Async.Sink.Worker.{consume_loop}
use ngin_log.Async.Sink.Pipe.{IsCountedEvent}
use ngin_log.Async.Sink.Pipe.Noted.{passed}
use ngin_log.Async.Sink.Pipe.Lossless.{IsWritten, over, written, consumed}
use ngin_log.Async.ToFile.{file_setting, consume_loop-on_disk, consume_loop-IsWritten}
use ngin_log.Tests.{a_record, here, platform}
use ngin_log.Tests.Files.{disk}
use ngin_log.Tests.Sinks.{some_events, some_events-IsCountedEvent, a_record-IsCounted}

abbrev text_options : FileSinkOptions TextRecordFormatter
text_options = record { append = true; auto_flush = false; formatter = none }

consume_loop-on_disk_example :
    let k = text_formatters platform in
    let g = file_setting k 1 (λ s. 5) here 7 in
    let file_sink = make_file_sink k (codes "a") text_options disk in
    let s =
      shut_down
        (run g.write
          (2 ^ 1)
          some_events
          (0, new_sink (2 ^ 1) drop_newest (to_owned a_record) file_sink)).1 in
    (t : AsyncSink (FileSink TextRecordFormatter)) × (consume_loop g (2 ^ 1) (suc (2 ^ 1)) s
      ≡ some t)
    × (bytes_at t.world.host (t.world.host.entry (codes "a"))
        ≡ log_of k true
            (map write_ (passed (2 ^ 1) drop_newest some_events))
            (default_options true, empty_cache)
            (bytes_at disk (disk.entry (codes "a"))))
consume_loop-on_disk_example =
    consume_loop-on_disk (text_formatters platform) (codes "a") text_options disk
      (default_options true, empty_cache) 1 (λ s. 5) here 7 1 drop_newest (to_owned a_record)
      some_events refl refl (omega arith) (omega arith) some_events-IsCountedEvent

-- Two calls on a sink of two places, with a delivery between them.
abbrev two_calls : List Event
two_calls = writes true a_record ∷ consumes ∷ writes true a_record ∷ []

two_calls-IsWritten : IsWritten two_calls (a_record ∷ a_record ∷ [])
two_calls-IsWritten = written (consumed (written over))

two_calls-IsCountedEvent : All IsCountedEvent two_calls
two_calls-IsCountedEvent = (a_record-IsCounted, (tt, (a_record-IsCounted, tt)))

consume_loop-IsWritten_example :
    let k = text_formatters platform in
    let g = file_setting k 1 (λ s. 5) here 7 in
    let file_sink = make_file_sink k (codes "a") text_options disk in
    let (returned_calls, called) =
      run g.write (2 ^ 1) two_calls (0, new_sink (2 ^ 1) block (to_owned a_record) file_sink) in
    let s = shut_down called in
    (returned_calls ≡ 2)
    × (t : AsyncSink (FileSink TextRecordFormatter)) × (consume_loop g (2 ^ 1) (suc (2 ^ 1)) s
        ≡ some t)
    × (bytes_at t.world.host (t.world.host.entry (codes "a"))
        ≡ log_of k true
            (map write_ (map cut (a_record ∷ a_record ∷ [])))
            (default_options true, empty_cache)
            (bytes_at disk (disk.entry (codes "a"))))
consume_loop-IsWritten_example =
    consume_loop-IsWritten (text_formatters platform) (codes "a") text_options disk
      (default_options true, empty_cache) 1 (λ s. 5) here 7 1 block (to_owned a_record) two_calls
      (a_record ∷ a_record ∷ []) refl refl (omega arith) (omega arith) two_calls-IsCountedEvent
      two_calls-IsWritten (omega arith)
