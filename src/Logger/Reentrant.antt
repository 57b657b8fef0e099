-- ===== src/Logger/Reentrant.antt =====
-- Sinks that log to the logger that writes to them, on the same thread: include/NGIN/Log/Logger.hpp and
-- its `DispatchRecursionGuard`.
use ngin_log.Base.{
  ℕ, ◌+◌, ◌%◌, ◌^◌, ◌<◌, true, false, List, [], ◌∷◌, Option, none, some, Bytes, arith, length, ◌≡◌,
  ◌≢◌, refl, ap, ◌∙◌,
}
use ngin_log.Level.{LogLevel}
use ngin_log.Types.{SourceLocation, LogRecordView}
use ngin_log.Builder.{RecordBuilder, new, message}
use ngin_log.Logger.{
  State, count_error, get_sinks_snapshot, make_record, Sinks, write_all, dispatch_to, dispatch,
  log_message, enter, leave,
}
use ngin_log.Logger.Dispatch.{live, dispatch_nested}
use ngin_log.Logger.Filter.{IsEnabled, log_built}

-- What a sink logs, and to which sinks the logger would then write.
pub record Echo (W : Type 0) : Type 0 where
  pub sinks : Sinks W
  pub compile_time_min : LogLevel
  pub level : LogLevel
  pub words : Bytes
  pub source : SourceLocation
  pub now : ℕ
  pub thread_id_hash : ℕ

module _ {W : Type 0} (e : Echo W) where
  abbrev pub echo : State W → State W
  echo s = log_message e.sinks e.compile_time_min e.level e.words e.source e.now e.thread_id_hash s

  -- Sinks that log a message whenever they are written to or flushed.
  abbrev pub echoing : Sinks W
  echoing = record { write = λ i r s. echo s; flush = λ i s. echo s }

  abbrev pub counting : ℕ → State W → State W
  counting n s = record s {
    logger = record s.logger { sink_error_count = (s.logger.sink_error_count + n) % 2 ^ 64 };
  }

  echo_nested :
      (s : State W)
      → s.in_dispatch ≡ true
      → get_sinks_snapshot s.logger ≢ []
      → IsEnabled e.compile_time_min e.level s.logger
      → echo s ≡ record s { logger = count_error s.logger }
  unfolding log_message
  echo_nested s inside some_ enabled =
      log_built e.sinks e.compile_time_min e.level (λ b t. (false, message b e.words, t)) e.source
        e.now e.thread_id_hash s s (message new e.words) enabled refl
      ∙ dispatch_nested e.sinks e.level (message new e.words) e.source e.now e.thread_id_hash s
          inside some_

  write_all-counting :
      (sinks : List (Option ℕ)) (r : LogRecordView) (s : State W)
      → s.in_dispatch ≡ true
      → get_sinks_snapshot s.logger ≢ []
      → IsEnabled e.compile_time_min e.level s.logger
      → s.logger.sink_error_count < 2 ^ 64
      → write_all echoing sinks r s ≡ counting (length (live sinks)) s
  unfolding write_all live
  write_all-counting [] r s inside some_ enabled h =
      ap (λ (n : ℕ). record s { logger = record s.logger { sink_error_count = n } }) (omega arith)
  write_all-counting (none ∷ sinks) r s inside some_ enabled h =
      write_all-counting sinks r s inside some_ enabled h
  write_all-counting (some i ∷ sinks) r s inside some_ enabled h =
      let t : State W = record s { logger = count_error s.logger } in
      let enabled' : IsEnabled e.compile_time_min e.level t.logger = record {
        compiled = enabled.compiled;
        running = enabled.running;
        ordinary = enabled.ordinary;
      } in
      ap (write_all echoing sinks r) (echo_nested s inside some_ enabled)
      ∙ write_all-counting sinks r t inside some_ enabled' (omega arith)
      ∙ ap (λ (n : ℕ). record s { logger = record s.logger { sink_error_count = n } }) (omega arith)

  dispatch_to-counting :
      (sinks : List (Option ℕ)) (level : LogLevel) (b : RecordBuilder) (source : SourceLocation)
      (now hash : ℕ) (s : State W)
      → get_sinks_snapshot s.logger ≡ sinks
      → s.in_dispatch ≡ false
      → IsEnabled e.compile_time_min e.level s.logger
      → s.logger.sink_error_count < 2 ^ 64
      → dispatch_to echoing sinks level b source now hash s ≡ counting (length (live sinks)) s
  unfolding dispatch_to live
  dispatch_to-counting [] level b source now hash s q idle enabled h =
      ap (λ (n : ℕ). record s { logger = record s.logger { sink_error_count = n } }) (omega arith)
  dispatch_to-counting (i ∷ sinks) level b source now hash s q idle enabled h =
      let r = make_record s.logger.name s.context level b source now hash in
      let enabled' : IsEnabled e.compile_time_min e.level (enter s).logger = record {
        compiled = enabled.compiled;
        running = enabled.running;
        ordinary = enabled.ordinary;
      } in
      let some_ : get_sinks_snapshot s.logger ≢ [] = λ z. cc in
      let w = write_all-counting (i ∷ sinks) r (enter s) refl some_ enabled' h in
      rw (idle, dispatch_to) (ap leave w)

-- Every sink of a logger logs a message to it whenever it is written to, at a level that passes the filters.
-- A dispatch that is not inside another then comes to an end all the same: no record of a sink's own is
-- written to any sink, each sink of the snapshot that is there counts one error, modulo 2^64, and nothing
-- else of the state changes.
pub dispatch-counting :
    {W : Type 0} (e : Echo W) (level : LogLevel) (b : RecordBuilder) (source : SourceLocation)
    (now hash : ℕ) (s : State W)
    → s.in_dispatch ≡ false
    → IsEnabled e.compile_time_min e.level s.logger
    → s.logger.sink_error_count < 2 ^ 64
    → dispatch (echoing e) level b source now hash s
      ≡ counting e (length (live (get_sinks_snapshot s.logger))) s
unfolding dispatch
dispatch-counting e level b source now hash s idle enabled h =
    dispatch_to-counting e (get_sinks_snapshot s.logger) level b source now hash s refl idle enabled
      h
