-- ===== src/Files/ConsoleSink.antt =====
-- include/NGIN/Log/Sinks/ConsoleSink.hpp and src/NGIN/Log/Sinks/ConsoleSink.cpp. The process's two
-- streams stand in the sink's state, with the files behind them; each public operation runs under the
-- sink's lock and is one step.
pub mod Routing
use ngin_log.Base.{Bool, true, false, ◌&&◌, Option, none, some, Bytes, if◌then◌else◌}
use ngin_log.Level.{LogLevel, warn, error, fatal}
use ngin_log.Types.{LogRecordView}
use ngin_log.Files.{FileSystem, Stream, Formatters, fwrite, fflush}

pub record ConsoleSinkOptions (F : Type 0) : Type 0 where
  pub use_stderr_for_errors : Bool
  pub include_source : Bool
  pub auto_flush : Bool
  pub formatter : Option F

pub record ConsoleSink (F : Type 0) : Type 0 where
  pub options : ConsoleSinkOptions F
  pub formatter : Option F
  pub stdout : Stream
  pub stderr : Stream
  pub host : FileSystem

-- `level == LogLevel::Warn || level == LogLevel::Error || level == LogLevel::Fatal`.
unfoldable pub is_error : LogLevel → Bool
is_error warn = true
is_error error = true
is_error fatal = true
is_error _ = false

-- `fwrite`, and the flush behind it.
unfoldable pub put : Bool → Bytes → Stream → FileSystem → Stream × FileSystem
put auto_flush line st fs =
    let (st', fs') = fwrite line st fs in if auto_flush then fflush st' fs' else (st', fs')

module _ {F : Type 0} where
  -- `Flush`.
  unfoldable pub flush : ConsoleSink F → ConsoleSink F
  flush s =
      let (out, fs) = fflush s.stdout s.host in
      let (err, fs') = fflush s.stderr fs in record s { stdout = out; stderr = err; host = fs' }

  module _ (k : Formatters F) where
    -- `CreateDefaultFormatter` where there is no formatter.
    abbrev pub or_default : ConsoleSinkOptions F → Option F → Option F
    or_default options none = k.make_text options.include_source
    or_default options (some f) = some f

    -- The constructor, with the streams as the process has them.
    unfoldable pub make_console_sink :
        ConsoleSinkOptions F → Stream → Stream → FileSystem → ConsoleSink F
    make_console_sink options out err fs = record {
      options = options;
      formatter = or_default options options.formatter;
      stdout = out;
      stderr = err;
      host = fs;
    }

    -- `Write` behind the choice of its formatter.
    unfoldable pub write_by : Option F → LogRecordView → ConsoleSink F → ConsoleSink F
    unfolding is_error
    write_by none r s = record s { formatter = none }
    write_by (some f) r s =
        let (line, f') = k.format f r in
        if s.options.use_stderr_for_errors && is_error r.level
        then (let (st, fs) = put s.options.auto_flush line s.stderr s.host in
            record s { formatter = some f'; stderr = st; host = fs })
        else (let (st, fs) = put s.options.auto_flush line s.stdout s.host in
            record s { formatter = some f'; stdout = st; host = fs })

    -- `Write`.
    unfoldable pub write : LogRecordView → ConsoleSink F → ConsoleSink F
    unfolding write_by
    write r s = write_by (or_default s.options s.formatter) r s
