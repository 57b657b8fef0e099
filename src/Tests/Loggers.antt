-- ===== src/Tests/Loggers.antt =====
-- Runs of the logger.
use ngin_log.Base.{Bool, true, [], ◌++◌, ◌≡◌, ◌≢◌, refl, arith, take}
use ngin_log.Level.{trace, info, warn, codes}
use ngin_log.Types.{max_message_bytes, LogRecordView}
use ngin_log.Types.Arena
use ngin_log.Builder.{RecordBuilder, message, get_attributes}
use ngin_log.Logger.{
  State, context_pool_bytes, merge, make_record, get_sinks_snapshot, dispatch, log_message,
}
use ngin_log.Logger.Merge.{IsMergeOf}
use ngin_log.Logger.Offered.{copied, merge-IsMergeOf}
use ngin_log.Logger.Dispatch.{Delivered, noting, note, live, after, dispatch-after}
use ngin_log.Logger.Filter.{IsEnabled, log_message-after}
use ngin_log.Tests.{one_attribute, here, a_context, a_logger, idle}

merge-IsMergeOf_example :
    IsMergeOf
      (copied
          (record (Arena.fresh context_pool_bytes) {
            truncated_bytes = one_attribute.pool.truncated_bytes;
          })
          a_context
        ++ get_attributes one_attribute)
      (merge a_context one_attribute).attributes
merge-IsMergeOf_example = merge-IsMergeOf a_context one_attribute

dispatch-after_example :
    dispatch noting warn one_attribute here 1000 7 idle
    ≡ after note
        (λ i w. w)
        (live (get_sinks_snapshot a_logger))
        (make_record a_logger.name a_context warn one_attribute here 1000 7)
        idle
dispatch-after_example = dispatch-after note (λ i w. w) warn one_attribute here 1000 7 idle refl

has_sinks : get_sinks_snapshot a_logger ≢ []
has_sinks e = ground arith

-- A callback that sets a message and throws, and one that does not throw.
abbrev throwing : RecordBuilder → State Delivered → Bool × RecordBuilder × State Delivered
throwing b s = (true, message b (codes "half"), s)

trace-IsEnabled : ¬ IsEnabled trace trace a_logger
trace-IsEnabled h = let r = h.running in omega arith

warn-IsEnabled : IsEnabled info warn a_logger
warn-IsEnabled = record {
  compiled = omega arith;
  running = omega arith;
  ordinary = λ e. ground arith;
}

log_message-after_example :
    (r : LogRecordView) × (log_message noting info warn (codes "disk full") here 1000 7 idle
      ≡ after note (λ i w. w) (live (get_sinks_snapshot a_logger)) r idle)
    × (r.message ≡ take max_message_bytes (codes "disk full"))
    × (r.level ≡ warn)
    × (r.logger_name ≡ codes "Net")
log_message-after_example =
    log_message-after note (λ i w. w) info warn (codes "disk full") here 1000 7 idle warn-IsEnabled
      refl
