-- ===== src/Logger/Filter.antt =====
-- Which calls are dispatched, and one call from its message to its sinks.
use ngin_log.Base.{
  ℕ, ◌≤◌, Bool, true, false, ◌&&◌, Bytes, take, arith, leb, ◌≡◌, ◌≢◌, inl, inr, refl, ◌∙◌,
  Bool-cases,
}
use ngin_log.Level.{LogLevel, off, to_uint8, codes}
use ngin_log.Types.{max_message_bytes, SourceLocation, LogRecordView}
use ngin_log.Builder.{RecordBuilder, new, message}
use ngin_log.Builder.Validity.{new-IsValid}
use ngin_log.Builder.Contents.{message_lem}
use ngin_log.Logger.{
  Logger, State, count_error, get_sinks_snapshot, is_runtime_enabled, make_record, Sinks, dispatch,
  log, log_message,
}
use ngin_log.Logger.Dispatch.{live, outside, after, dispatch-after}

-- A level passes the filter of the type and that of the logger; `off` passes none.
pub record IsEnabled (compile_time_min level : LogLevel) (l : Logger) : Type 0 where
  pub compiled : to_uint8 compile_time_min ≤ to_uint8 level
  pub running : l.runtime_min ≤ to_uint8 level
  pub ordinary : level ≢ off

passes : LogLevel → LogLevel → Logger → Bool
passes compile_time_min level l =
    leb (to_uint8 compile_time_min) (to_uint8 level) && is_runtime_enabled l level

passes-IsEnabled :
    (compile_time_min level : LogLevel) (l : Logger)
    → IsEnabled compile_time_min level l
    → passes compile_time_min level l ≡ true
unfolding passes is_runtime_enabled
passes-IsEnabled compile_time_min off l e = absurd (e.ordinary refl)
passes-IsEnabled compile_time_min _ l e = ground arith

IsEnabled-passes :
    (compile_time_min level : LogLevel) (l : Logger)
    → passes compile_time_min level l ≡ true
    → IsEnabled compile_time_min level l
unfolding passes is_runtime_enabled
IsEnabled-passes compile_time_min off l e = ground arith
IsEnabled-passes compile_time_min _ l e = record {
  compiled = ground arith;
  running = ground arith;
  ordinary = λ q. cc;
}

module _ {W : Type 0} (k : Sinks W) (compile_time_min level : LogLevel) where
  -- A call whose level does not pass both filters, or is `off`, does nothing at all: the callback is
  -- not run, and the whole state is as it was.
  pub log_disabled :
      (fn : RecordBuilder → State W → Bool × RecordBuilder × State W) (source : SourceLocation)
      (now hash : ℕ) (s : State W)
      → ¬ IsEnabled compile_time_min level s.logger
      → log k compile_time_min level fn source now hash s ≡ s
  unfolding log passes
  log_disabled fn source now hash s disabled =
      elim (Bool-cases (passes compile_time_min level s.logger)) [
        | inl e ↦ absurd (disabled (IsEnabled-passes compile_time_min level s.logger e))
        | inr e ↦ rw e
      ]

  -- A call whose level passes, and whose callback throws, counts one error more and dispatches
  -- what the callback had built, with the marker as its message.
  pub log_threw :
      (fn : RecordBuilder → State W → Bool × RecordBuilder × State W) (source : SourceLocation)
      (now hash : ℕ) (s t : State W) (b : RecordBuilder)
      → IsEnabled compile_time_min level s.logger
      → fn new s ≡ (true, b, t)
      → log k compile_time_min level fn source now hash s
        ≡ dispatch k level
            (message b (codes "[log-builder-threw]"))
            source
            now
            hash
            (record t { logger = count_error t.logger })
  unfolding log passes
  log_threw fn source now hash s t b enabled e =
      rw (passes-IsEnabled compile_time_min level s.logger enabled, e)

  pub log_built :
      (fn : RecordBuilder → State W → Bool × RecordBuilder × State W) (source : SourceLocation)
      (now hash : ℕ) (s t : State W) (b : RecordBuilder)
      → IsEnabled compile_time_min level s.logger
      → fn new s ≡ (false, b, t)
      → log k compile_time_min level fn source now hash s ≡ dispatch k level b source now hash t
  unfolding log passes
  log_built fn source now hash s t b enabled e =
      rw (passes-IsEnabled compile_time_min level s.logger enabled, e)

-- A message that passes both filters, on a thread that is not dispatching, reaches every sink of
-- the snapshot that is there, once, in order: in one record, at its level, with the first 512
-- bytes of the message. The sinks may do anything outside the logger and its thread, and nothing of these
-- changes.
pub log_message-after :
    {W : Type 0} (write : ℕ → LogRecordView → W → W) (flush : ℕ → W → W)
    (compile_time_min level : LogLevel) (words : Bytes) (source : SourceLocation) (now hash : ℕ)
    (s : State W)
    → IsEnabled compile_time_min level s.logger
    → s.in_dispatch ≡ false
    → (r : LogRecordView) × (log_message
          (outside write flush)
          compile_time_min
          level
          words
          source
          now
          hash
          s
        ≡ after write flush (live (get_sinks_snapshot s.logger)) r s)
      × (r.message ≡ take max_message_bytes words)
      × (r.level ≡ level)
      × (r.logger_name ≡ s.logger.name)
unfolding log_message make_record
log_message-after write flush compile_time_min level words source now hash s enabled idle = (
  make_record s.logger.name s.context level (message new words) source now hash,
  log_built (outside write flush) compile_time_min level (λ b t. (false, message b words, t)) source
        now hash s s (message new words) enabled refl
      ∙ dispatch-after write flush level (message new words) source now hash s idle,
  (message_lem new words new-IsValid).0,
  refl,
  refl,
)
