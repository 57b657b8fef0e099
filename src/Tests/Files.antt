-- ===== src/Tests/Files.antt =====
-- Runs of the file sinks and of the console sink.
use ngin_log.Base.{
  flatten, ℕ, map, All, zero, suc, ◌≤◌, ◌<◌, true, false, not, List, [], ◌∷◌, ◌++◌, none, some,
  Bytes, arith, bytes_eq_refl, ap, length, ◌≡◌, ◌≢◌, ◌⊎◌, refl,
}
use ngin_log.Base.Int.{pos}
use ngin_log.Level.{info, codes}
use ngin_log.Types.{LogRecordView}
use ngin_log.Format.Text.{int_eq}
use ngin_log.Files.{
  FileSystem, Stream, Formatters, enter, fclose, fflush, store, bytes_at, shown_at,
}
use ngin_log.Files.FileSink.{FileSinkOptions, make_file_sink}
use ngin_log.Files.FileSink.Lifetime.{make_file_sink-calls}
use ngin_log.Files.FileSink.Lines
use ngin_log.Files.FileSink.Text.{
  TextRecordFormatter, default_options, text_formatters, make_file_sink-IsLine,
}
use ngin_log.Format.Output.{IsLine}
use ngin_log.Format.Text
use ngin_log.Format.Text.{empty_cache}
use ngin_log.Files.ConsoleSink.{ConsoleSink, flush}
use ngin_log.Files.ConsoleSink.Routing.{lines_where, to_stderr, write_records, write_records-flush}
use ngin_log.Files.RotatingFileSink.{
  RotatingFileSinkOptions, RotatingFileSink, make_rotating_file_sink, rotate_files,
  make_local_date_key, too_large, write,
}
use ngin_log.Files.RotatingFileSink.Archive.{archive}
use ngin_log.Files.RotatingFileSink.Bounds.{Appends, StartsAnew, write_lem, write-size}
use ngin_log.Files.RotatingFileSink.Calls
use ngin_log.Files.RotatingFileSink.Days.{write-rotates_twice}
use ngin_log.Files.RotatingFileSink.External.{Ends, write-external}
use ngin_log.Files.RotatingFileSink.Due.{is_due, day_after}
use ngin_log.Files.RotatingFileSink.Lifetime.{make_rotating_file_sink-calls}
use ngin_log.Files.RotatingFileSink.Made.{IsFine, stored_from}
use ngin_log.Files.RotatingFileSink.Rotated.{IsSound, shown_name}
use ngin_log.Files.RotatingFileSink.Shift.{name, name-ne, Shifted, rotate_files-Shifted}
use ngin_log.Tests.{a_record, platform}
use ngin_log.Tests.Formats.{platform-IsPlain}

-- A directory with a current file and one behind it; a stream writes one byte through at a time.
abbrev pub disk : FileSystem
disk = record {
  entry = enter (codes "a") (some 0) (enter (name (codes "a") 1) (some 1) (λ p. none));
  bytes = store 0 (codes "new") (store 1 (codes "old") (λ i. []));
  next_file = 2;
  device = 0;
  can_open = λ p. true;
  can_rename = λ from to. true;
  spill = λ b. 1;
}

-- A formatter that counts its records, and prints the count behind the message.
abbrev counting : Formatters ℕ
counting = record { format = λ n r. (r.message ++ (n ∷ []), suc n); make_text = λ b. some 0 }

-- Each second is a day of its own.
abbrev localtime : ℕ → ℕ × ℕ
localtime second = (0, second)

abbrev options : RotatingFileSinkOptions ℕ
options = record {
  path = codes "a";
  append = true;
  auto_flush = false;
  max_file_bytes = 6;
  max_files = 1;
  rotate_at_startup = false;
  rotate_daily_local = true;
  detect_external_rotation = true;
  formatter = none;
}

disk_path : disk.entry (codes "a") ≡ some 0
disk_path = rw (bytes_eq_refl (codes "a")) refl

disk_old : disk.entry (name (codes "a") 1) ≡ some 1
disk_old =
    rw (name-ne (codes "a") 0 1 (λ e. omega (arith, e)), bytes_eq_refl (name (codes "a") 1)) refl

made : (j i : ℕ) → j ≤ 1 → disk.entry (name (codes "a") j) ≡ some i → i < 2
made zero i h e = ground (arith, disk_path)
made (suc zero) i h e = ground (arith, disk_old)
made (suc (suc j)) i h e = absurd (omega arith)

apart :
    (j i : ℕ)
    → j < 1
    → disk.entry (codes "a") ≡ some i
    → disk.entry (name (codes "a") (suc j)) ≢ some i
apart zero i h e g = ground (arith, disk_path, disk_old)
apart (suc j) i h e g = absurd (omega arith)

disk-IsFine : IsFine (codes "a") 1 disk
disk-IsFine = record { can_open = refl; can_rename = λ from to. refl; made = made; apart = apart }

abbrev some_calls : List Calls.Call
some_calls =
    Calls.write_ a_record
    ∷ Calls.flush_
    ∷ Calls.force_rotate
    ∷ Calls.reopen_
    ∷ Calls.write_ a_record
    ∷ []

make_rotating_file_sink-calls_example :
    (lost : Bytes) × (stored_from (codes "a") disk 1 ++ Calls.lines counting localtime some_calls 0
      ≡ lost
        ++ archive (
            Calls.calls counting localtime some_calls
              (make_rotating_file_sink counting options disk)))
make_rotating_file_sink-calls_example =
    make_rotating_file_sink-calls counting localtime options disk 0 some_calls disk-IsFine refl refl

rotate_files-Shifted_example : Shifted (codes "a") 1 disk (rotate_files (codes "a") 1 disk)
rotate_files-Shifted_example = rotate_files-Shifted (codes "a") 1 disk (λ from to. refl)

-- The sink with a day behind it.
abbrev a_stream : Stream
a_stream = record { file = 0; pending = [] }

abbrev a_sink : RotatingFileSink ℕ
a_sink = record {
  options = options;
  formatter = some 0;
  file = some a_stream;
  current_file_bytes = 3;
  last_local_date_key = pos 7;
  identity = some (0, 0);
  host = disk;
}

a_sink-IsSound : IsSound a_sink a_stream
a_sink-IsSound = record {
  open_ = refl;
  linked = disk_path;
  identified = refl;
  made = made;
  apart = λ j h. apart j 0 h disk_path;
  counted = refl;
  can_open = refl;
  can_rename = λ from to. refl;
}

-- The line of the record `a_record`, and the sink with it.
abbrev a_line : Bytes
a_line = (counting.format 0 a_record).0

abbrev written : RotatingFileSink ℕ
written = write counting localtime a_record a_sink

write_lem_example :
    ((is_due localtime a_record a_line a_sink ≡ false) × Appends a_line a_sink written
      ⊎ (is_due localtime a_record a_line a_sink ≡ true) × StartsAnew a_line a_sink written)
    × ((st' : Stream) × IsSound written st')
    × (written.formatter ≡ some 1)
    × (written.last_local_date_key ≡ day_after localtime a_record a_line a_sink)
write_lem_example = write_lem counting localtime a_record 0 a_sink a_stream a_sink-IsSound refl

a_length : length (shown_name a_sink 0) ≡ 3
a_length = ap (λ o. length (shown_at a_sink.file disk o)) disk_path

write-size_example : (length (shown_name written 0) ≤ 6) ⊎ (shown_name written 0 ≡ a_line)
write-size_example =
    write-size counting localtime a_record 0 a_sink a_stream a_sink-IsSound refl (omega arith)
      (omega (arith, a_length))

-- The line has four bytes; behind the three of the file it is too large.
a_line-too_large : too_large a_line a_sink ≡ true
unfolding too_large
a_line-too_large = refl

another_day : int_eq (make_local_date_key localtime a_record.timestamp) (pos 7) ≡ false
unfolding make_local_date_key
another_day = refl

write-rotates_twice_example :
    StartsAnew a_line a_sink written
    × StartsAnew (counting.format 1 a_record).0 written (write counting localtime a_record written)
write-rotates_twice_example =
    write-rotates_twice counting localtime a_record a_record 0 a_sink a_stream a_sink-IsSound refl
      refl refl another_day a_line-too_large refl

abbrev file_options : FileSinkOptions ℕ
file_options = record { append = true; auto_flush = false; formatter = none }

abbrev file_calls : List Lines.Call
file_calls = Lines.write_ a_record ∷ Lines.flush_ ∷ Lines.reopen_ ∷ Lines.write_ a_record ∷ []

make_file_sink-calls_example :
    Lines.flushed counting
      (codes "a")
      (Lines.calls counting file_calls (make_file_sink counting (codes "a") file_options disk))
    ≡ Lines.log_of counting true file_calls 0 (bytes_at disk (disk.entry (codes "a")))
make_file_sink-calls_example =
    make_file_sink-calls counting (codes "a") file_options disk 0 file_calls refl refl

abbrev console : ConsoleSink ℕ
console = record {
  options = record {
    use_stderr_for_errors = true;
    include_source = true;
    auto_flush = false;
    formatter = none;
  };
  formatter = none;
  stdout = record { file = 0; pending = codes "x" };
  stderr = record { file = 1; pending = [] };
  host = disk;
}

abbrev two_records : List LogRecordView
two_records = a_record ∷ record a_record { level = info } ∷ []

write_records-flush_example :
    ((flush (write_records counting two_records console)).host.bytes 0
      ≡ codes "newx" ++ lines_where counting (λ r. not (to_stderr console.options r)) two_records 0)
    × ((flush (write_records counting two_records console)).host.bytes 1
        ≡ codes "old" ++ lines_where counting (to_stderr console.options) two_records 0)
write_records-flush_example =
    write_records-flush counting two_records 0 console refl (λ e. omega (arith, e))

make_file_sink-IsLine_example :
    let k = text_formatters platform in
    let options : FileSinkOptions TextRecordFormatter = record {
      append = true;
      auto_flush = true;
      formatter = none;
    } in
    let lines =
      map (λ r. (Text.format platform (default_options true) empty_cache r).0) two_records in
    (Lines.flushed k
        (codes "a")
        (Lines.calls k (map Lines.write_ two_records) (make_file_sink k (codes "a") options disk))
      ≡ bytes_at disk (disk.entry (codes "a")) ++ flatten lines)
    × All IsLine lines
make_file_sink-IsLine_example =
    make_file_sink-IsLine platform (codes "a") true true disk two_records platform-IsPlain refl

-- The sink whose file was moved to `a.1`, with another file at its path.
abbrev moved_disk : FileSystem
moved_disk = record disk {
  entry = enter (codes "a") (some 1) (enter (name (codes "a") 1) (some 0) (λ p. none));
}

abbrev moved_sink : RotatingFileSink ℕ
moved_sink = record a_sink {
  file = some (record { file = 0; pending = codes "x" });
  host = moved_disk;
}

moved_path : moved_disk.entry (codes "a") ≡ some 1
moved_path = rw (bytes_eq_refl (codes "a")) refl

moved_old : moved_disk.entry (name (codes "a") 1) ≡ some 0
moved_old =
    rw (name-ne (codes "a") 0 1 (λ e. omega (arith, e)), bytes_eq_refl (name (codes "a") 1)) refl

moved_made : (j i : ℕ) → j ≤ 1 → moved_disk.entry (name (codes "a") j) ≡ some i → i < 2
moved_made zero i h e = ground (arith, moved_path)
moved_made (suc zero) i h e = ground (arith, moved_old)
moved_made (suc (suc j)) i h e = absurd (omega arith)

moved_apart :
    (j i : ℕ)
    → j < 1
    → moved_disk.entry (codes "a") ≡ some i
    → moved_disk.entry (name (codes "a") (suc j)) ≢ some i
moved_apart zero i h e g = ground (arith, moved_path, moved_old)
moved_apart (suc j) i h e g = absurd (omega arith)

moved-IsFine : IsFine (codes "a") 1 (fclose (record { file = 0; pending = codes "x" }) moved_disk)
unfolding fclose fflush
moved-IsFine = record {
  can_open = refl;
  can_rename = λ from to. refl;
  made = moved_made;
  apart = moved_apart;
}

write-external_example : Ends a_line moved_sink (write counting localtime a_record moved_sink)
write-external_example =
    write-external counting localtime a_record 0 moved_sink
      (record { file = 0; pending = codes "x" }) 1 refl refl moved_path (λ e. omega (arith, e))
      moved-IsFine refl refl refl
