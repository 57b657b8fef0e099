-- ===== src/Logger/Sink.antt =====
-- include/NGIN/Log/Sink.hpp: the sink that discards all records, and the construction of a shared sink.
-- The interface `ILogSink` is the record `Sinks` of Logger.
use ngin_log.Base.{
  ℕ, Bool, false, List, [], ◌∷◌, Option, none, some, if◌then◌else◌, ◌≡◌, refl, sym, ap, ◌∙◌,
}
use ngin_log.Level.{LogLevel}
use ngin_log.Types.{SourceLocation, LogRecordView}
use ngin_log.Builder.{RecordBuilder}
use ngin_log.Logger.{
  State, count_error, get_sinks_snapshot, make_record, Sinks, write_all, dispatch_to, dispatch,
  enter, leave,
}

-- `NullSink`: what `Write` and `Flush` leave of all that a call can reach.
abbrev pub null_write : {W : Type 0} → LogRecordView → State W → State W
null_write r s = s

abbrev pub null_flush : {W : Type 0} → State W → State W
null_flush s = s

abbrev pub null_sinks : {W : Type 0} → Sinks W
null_sinks = record { write = λ i r s. null_write r s; flush = λ i s. null_flush s }

-- `MakeSink`: the pointer to the new sink, or an empty one where its allocation or its construction threw.
abbrev pub make_sink : Bool → ℕ → Option ℕ
make_sink made i = if made then some i else none

module _ {W : Type 0} where
  write_all-null_sinks :
      (sinks : List (Option ℕ)) (r : LogRecordView) (s : State W)
      → write_all null_sinks sinks r s ≡ s
  unfolding write_all
  write_all-null_sinks [] r s = refl
  write_all-null_sinks (none ∷ sinks) r s = write_all-null_sinks sinks r s
  write_all-null_sinks (some i ∷ sinks) r s = write_all-null_sinks sinks r s

  dispatch_to-null_sinks :
      (sinks : List (Option ℕ)) (level : LogLevel) (b : RecordBuilder) (source : SourceLocation)
      (now hash : ℕ) (s : State W)
      → s.in_dispatch ≡ false
      → dispatch_to null_sinks sinks level b source now hash s ≡ s
  unfolding dispatch_to
  dispatch_to-null_sinks [] level b source now hash s idle = refl
  dispatch_to-null_sinks (i ∷ sinks) level b source now hash s idle =
      let r = make_record s.logger.name s.context level b source now hash in
      ap
        (λ b.
          if b
          then record s { logger = count_error s.logger }
          else leave (write_all null_sinks (i ∷ sinks) r (enter s)))
        idle
      ∙ ap leave (write_all-null_sinks (i ∷ sinks) r (enter s))
      ∙ ap (λ f. record s { in_dispatch = f }) (sym idle)

  -- A dispatch to null sinks, with null pointers among them or not, changes nothing.
  pub dispatch-null_sinks :
      (level : LogLevel) (b : RecordBuilder) (source : SourceLocation) (now hash : ℕ) (s : State W)
      → s.in_dispatch ≡ false
      → dispatch null_sinks level b source now hash s ≡ s
  unfolding dispatch
  dispatch-null_sinks level b source now hash s idle =
      dispatch_to-null_sinks (get_sinks_snapshot s.logger) level b source now hash s idle
