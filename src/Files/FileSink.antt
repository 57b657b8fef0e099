-- ===== src/Files/FileSink.antt =====
-- include/NGIN/Log/Sinks/FileSink.hpp and src/NGIN/Log/Sinks/FileSink.cpp. Each public operation runs
-- under the sink's lock and is one step; the file system that it changes is part of the state. The
-- scratch string is what `Format` returns.
pub mod Lines
pub mod Lifetime
pub mod Text
use ngin_log.Base.{ℕ, Bool, true, false, [], Option, none, some, Bytes, if◌then◌else◌}
use ngin_log.Types.{LogRecordView}
use ngin_log.Files.{FileSystem, Stream, Formatters, or_made, fopen, fflush, fwrite, fclose}

pub record FileSinkOptions (F : Type 0) : Type 0 where
  pub append : Bool
  pub auto_flush : Bool
  pub formatter : Option F

pub record FileSink (F : Type 0) : Type 0 where
  pub path : Bytes
  pub append : Bool
  pub auto_flush : Bool
  pub file : Option Stream
  pub formatter : Option F
  pub host : FileSystem

module _ {F : Type 0} where
  opened : Option Stream × FileSystem → FileSink F → Bool × FileSink F
  opened (none, fs) s = (false, record s { file = none; host = fs })
  opened (some st, fs) s = (true, record s { file = some st; host = fs })

  -- `OpenFileLocked`.
  unfoldable pub open_file_locked : FileSink F → Bool × FileSink F
  unfolding opened
  open_file_locked s = opened (fopen s.append s.path s.host) s

  close_stream : Option Stream → FileSink F → FileSink F
  close_stream none s = s
  close_stream (some st) s = record s { file = none; host = fclose st s.host }

  -- `CloseFileLocked`; its `fflush` leaves the `fclose` behind it nothing to write.
  unfoldable pub close_file_locked : FileSink F → FileSink F
  unfolding close_stream
  close_file_locked s = close_stream s.file s

  -- The destructor.
  abbrev pub destroy_sink : FileSink F → FileSink F
  destroy_sink = close_file_locked

  abbrev pub is_open : FileSink F → Bool
  is_open s = elim s.file [ none ↦ false | some _ ↦ true ]

  -- `Reopen`.
  unfoldable pub reopen : FileSink F → Bool × FileSink F
  unfolding open_file_locked close_file_locked
  reopen s = open_file_locked (close_file_locked s)

  -- `!m_file && !OpenFileLocked()`, negated.
  ensure_open : Option Stream → FileSink F → Bool × FileSink F
  unfolding open_file_locked
  ensure_open (some st) s = (true, s)
  ensure_open none s = open_file_locked s

  flush_if : Bool → Option Stream → FileSink F → FileSink F
  flush_if true (some st) s =
      let (st', fs) = fflush st s.host in record s { file = some st'; host = fs }
  flush_if _ _ s = s

  -- `Flush`.
  unfoldable pub flush : FileSink F → FileSink F
  unfolding flush_if
  flush s = flush_if true s.file s

  -- `fwrite` to the open file, and the flush behind it.
  put : Bytes → Option Stream → FileSink F → FileSink F
  unfolding flush_if
  put line none s = s
  put line (some st) s =
      let (st', fs) = fwrite line st s.host in
      flush_if s.auto_flush (some st') (record s { file = some st'; host = fs })

  write_line : Bytes → Bool × FileSink F → FileSink F
  unfolding put
  write_line line (false, s) = s
  write_line line (true, s) = put line s.file s

  module _ (k : Formatters F) where
    -- The constructor.
    unfoldable pub make_file_sink : Bytes → FileSinkOptions F → FileSystem → FileSink F
    unfolding open_file_locked
    make_file_sink path options fs =
        (open_file_locked (record {
          path = path;
          append = options.append;
          auto_flush = options.auto_flush;
          file = none;
          formatter = or_made k options.formatter;
          host = fs;
        })).1

    -- The formatting proper; without a formatter the scratch string is cleared.
    format_by : Option F → LogRecordView → FileSink F → Bytes × FileSink F
    format_by none r s = ([], record s { formatter = none })
    format_by (some f) r s =
        let (line, f') = k.format f r in (line, record s { formatter = some f' })

    -- `FormatRecordLocked`.
    unfoldable pub format_record_locked : LogRecordView → FileSink F → Bytes × FileSink F
    unfolding format_by
    format_record_locked r s = format_by (or_made k s.formatter) r s

    -- `Write`.
    unfoldable pub write : LogRecordView → FileSink F → FileSink F
    unfolding format_record_locked ensure_open write_line
    write r s =
        let (line, s') = format_record_locked r s in write_line line (ensure_open s'.file s')
