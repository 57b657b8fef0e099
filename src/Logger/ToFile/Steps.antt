-- ===== src/Logger/ToFile/Steps.antt =====
-- What one request does to the file sink of a logger: Logger/ToFile.
use ngin_log.Base.{ℕ, Bool, true, false, [], ◌∷◌, some, ◌≡◌, refl, sym, ap, subst, ◌∙◌}
use ngin_log.Level.{LogLevel}
use ngin_log.Types.{SourceLocation}
use ngin_log.Builder.{RecordBuilder, new}
use ngin_log.Logger.{
  Logger, State, count_error, get_sinks_snapshot, make_record, write_all, flush_all, flush,
  dispatch_to, dispatch, log,
}
use ngin_log.Logger.Filter.{IsEnabled, log_disabled, log_built, log_threw}
use ngin_log.Files.{Formatters}
use ngin_log.Files.FileSink
use ngin_log.Files.FileSink.{FileSink}
use ngin_log.Logger.ToFile.{file_sinks, in_state, built, IsLoud, log_, flush_, request}

-- The logger hands on to one sink, and its thread is in no dispatch.
pub record IsReady {W : Type 0} (s : State W) : Type 0 where
  pub one_sink : get_sinks_snapshot s.logger ≡ some 0 ∷ []
  pub idle : s.in_dispatch ≡ false

-- The parts of a state that decide what later requests log.
pub record Agrees {W : Type 0} (s t : State W) : Type 0 where
  pub name : t.logger.name ≡ s.logger.name
  pub runtime_min : t.logger.runtime_min ≡ s.logger.runtime_min
  pub context : t.context ≡ s.context
  pub ready : IsReady t

module _ {F : Type 0} (k : Formatters F) where
  -- A dispatch writes one record to the file sink and changes nothing else.
  dispatch-write :
      (level : LogLevel) (b : RecordBuilder) (source : SourceLocation) (now hash : ℕ)
      (s : State (FileSink F))
      → IsReady s
      → let r = make_record s.logger.name s.context level b source now hash in
        dispatch (file_sinks k) level b source now hash s
        ≡ record s { in_dispatch = false; world = FileSink.write k r s.world }
  unfolding dispatch dispatch_to write_all
  dispatch-write level b source now hash s v =
      ap (λ o. dispatch_to (file_sinks k) o level b source now hash s) v.one_sink ∙ (rw v.idle refl)

  pub flush-flush :
      (s : State (FileSink F))
      → IsReady s
      → flush (file_sinks k) s ≡ record s { world = FileSink.flush s.world }
  unfolding flush flush_all
  flush-flush s v = ap (λ o. flush_all (file_sinks k) o s) v.one_sink

  -- A request leaves the file sink so, and changes nothing on which later requests depend.
  pub record IsStep (s t : State (FileSink F)) (w : FileSink F) : Type 0 where
    pub agrees : Agrees s t
    pub world : t.world ≡ w

  written-IsStep :
      (level : LogLevel) (b : RecordBuilder) (source : SourceLocation) (now hash : ℕ)
      (s : State (FileSink F)) (errors : ℕ)
      → IsReady s
      → IsStep s
          (dispatch
            (file_sinks k)
            level
            b
            source
            now
            hash
            (record s { logger = record s.logger { sink_error_count = errors } }))
          (FileSink.write k (make_record s.logger.name s.context level b source now hash) s.world)
  unfolding make_record
  written-IsStep level b source now hash s errors v =
      let s' : State (FileSink F) = record s {
        logger = record s.logger { sink_error_count = errors };
      } in
      let v' : IsReady s' = record { one_sink = v.one_sink; idle = v.idle } in
      let w =
        FileSink.write k (make_record s.logger.name s.context level b source now hash) s.world in
      subst (λ t. IsStep s t w) (sym (dispatch-write level b source now hash s' v'))
        (record {
          agrees = record {
            name = refl;
            runtime_min = refl;
            context = refl;
            ready = record { one_sink = v.one_sink; idle = refl };
          };
          world = refl;
        })

  module _ (compile_time_min : LogLevel) where
    enabled :
        (level : LogLevel) (l : Logger)
        → IsLoud compile_time_min l.runtime_min level
        → IsEnabled compile_time_min level l
    enabled level l h = record { compiled = h.compiled; running = h.running; ordinary = h.ordinary }

    loud_outcome :
        (level : LogLevel)
        (fn : RecordBuilder → State (FileSink F) → Bool × RecordBuilder × State (FileSink F))
        (source : SourceLocation) (now hash : ℕ) (s : State (FileSink F))
        → IsReady s
        → IsEnabled compile_time_min level s.logger
        → (o : Bool × RecordBuilder) → fn new s ≡ in_state s o
        → IsStep s (log (file_sinks k) compile_time_min level fn source now hash s) (
            FileSink.write k
              (make_record s.logger.name s.context level (built o) source now hash)
              s.world)
    loud_outcome level fn source now hash s v e (true, b) q =
        let w = make_record s.logger.name s.context level (built (true, b)) source now hash in
        subst (λ t. IsStep s t (FileSink.write k w s.world))
          (sym (log_threw (file_sinks k) compile_time_min level fn source now hash s s b e q))
          (written-IsStep level (built (true, b)) source now hash s
            (count_error s.logger).sink_error_count v)
    loud_outcome level fn source now hash s v e (false, b) q =
        let w = make_record s.logger.name s.context level b source now hash in
        subst (λ t. IsStep s t (FileSink.write k w s.world))
          (sym (log_built (file_sinks k) compile_time_min level fn source now hash s s b e q))
          (written-IsStep level b source now hash s s.logger.sink_error_count v)

    -- A call that is loud enough writes its record.
    pub loud-IsStep :
        (level : LogLevel) (fill : RecordBuilder → Bool × RecordBuilder) (source : SourceLocation)
        (now hash : ℕ) (s : State (FileSink F))
        → IsReady s
        → IsLoud compile_time_min s.logger.runtime_min level
        → IsStep s (request k compile_time_min (log_ level fill source now hash) s) (
            FileSink.write k
              (make_record s.logger.name s.context level (built (fill new)) source now hash)
              s.world)
    unfolding request
    loud-IsStep level fill source now hash s v h =
        loud_outcome level (λ b t. in_state t (fill b)) source now hash s v
          (enabled level s.logger h) (fill new) refl

    -- Any other call does nothing.
    pub silent_step :
        (level : LogLevel) (fill : RecordBuilder → Bool × RecordBuilder) (source : SourceLocation)
        (now hash : ℕ) (s : State (FileSink F))
        → ¬ IsLoud compile_time_min s.logger.runtime_min level
        → request k compile_time_min (log_ level fill source now hash) s ≡ s
    unfolding request
    silent_step level fill source now hash s h =
        log_disabled (file_sinks k) compile_time_min level (λ b t. in_state t (fill b)) source now
          hash s
          (λ e. h (record { compiled = e.compiled; running = e.running; ordinary = e.ordinary }))

    pub flush-IsStep :
        (s : State (FileSink F))
        → IsReady s
        → IsStep s (request k compile_time_min flush_ s) (FileSink.flush s.world)
    unfolding request
    flush-IsStep s v =
        subst (λ t. IsStep s t (FileSink.flush s.world)) (sym (flush-flush s v))
          (record {
            agrees = record {
              name = refl;
              runtime_min = refl;
              context = refl;
              ready = record { one_sink = v.one_sink; idle = v.idle };
            };
            world = refl;
          })
