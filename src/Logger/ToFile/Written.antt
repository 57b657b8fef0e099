-- ===== src/Logger/ToFile/Written.antt =====
-- What stands in the file behind a program's requests: Logger/ToFile.
use ngin_log.Base.{
  ℕ, Bool, true, List, [], ◌∷◌, ◌++◌, map, some, Bytes, if◌then◌else◌, ◌≡◌, refl, sym, ap, ap₂,
  subst, ◌∙◌,
}
use ngin_log.Level.{LogLevel, to_uint8}
use ngin_log.Types.{LogRecordView}
use ngin_log.Builder.{new}
use ngin_log.Context.{Storage, push_log_context, destroy}
use ngin_log.Logger.{State, flush, make_record, make_logger, publish_sink_snapshot}
use ngin_log.Files.{FileSystem, Formatters, or_made, bytes_at}
use ngin_log.Files.FileSink
use ngin_log.Files.FileSink.{FileSink, FileSinkOptions, make_file_sink}
use ngin_log.Files.FileSink.Lines.{Call, write_, calls, log_of, flushed}
use ngin_log.Files.FileSink.Lines
use ngin_log.Files.FileSink.Lifetime.{make_file_sink-calls}
use ngin_log.Logger.ToFile.{
  file_sinks, Request, requests, request, start, IsLoud, built, Logged, nothing, loud, silent,
  minimum, flushed_, pushed, ended, log_, set_runtime_min_, flush_, push_, end_,
}
use ngin_log.Logger.ToFile.Steps.{
  IsReady, Agrees, loud-IsStep, silent_step, flush-IsStep, flush-flush,
}

module _ {F : Type 0} (k : Formatters F) (compile_time_min : LogLevel) (name : Bytes) where
  -- From one state to another the file sink was given these records, in this order, with flushes
  -- among them.
  record IsWritten (s t : State (FileSink F)) (rs : List LogRecordView) : Type 0 where
    given : List Call
    ready : IsReady t
    world : t.world ≡ calls k given s.world
    logs :
        (append : Bool) (f : F) (b : Bytes)
        → log_of k append given f b ≡ log_of k append (map write_ rs) f b

  -- A state from which requests log what `Logged` says for a minimum and a context.
  record IsFrom (m : ℕ) (x : Storage) (s : State (FileSink F)) : Type 0 where
    name_ : s.logger.name ≡ name
    runtime_min : s.logger.runtime_min ≡ m
    context : s.context ≡ x
    ready : IsReady s

  stepped :
      {m : ℕ} {x : Storage} {s t : State (FileSink F)} → IsFrom m x s → Agrees s t → IsFrom m x t
  stepped v a = record {
    name_ = a.name ∙ v.name_;
    runtime_min = a.runtime_min ∙ v.runtime_min;
    context = a.context ∙ v.context;
    ready = a.ready;
  }

  give_write :
      {s t u : State (FileSink F)} {rs : List LogRecordView} (r : LogRecordView)
      → t.world ≡ FileSink.write k r s.world
      → IsWritten t u rs
      → IsWritten s u (r ∷ rs)
  unfolding calls Lines.call log_of
  give_write r e h = record {
    given = write_ r ∷ h.given;
    ready = h.ready;
    world = h.world ∙ ap (calls k h.given) e;
    logs = λ append f b. h.logs append (k.format f r).1 (b ++ (k.format f r).0);
  }

  give_flush :
      {s t u : State (FileSink F)} {rs : List LogRecordView}
      → t.world ≡ FileSink.flush s.world
      → IsWritten t u rs
      → IsWritten s u rs
  unfolding calls Lines.call log_of
  give_flush e h = record {
    given = Lines.flush_ ∷ h.given;
    ready = h.ready;
    world = h.world ∙ ap (calls k h.given) e;
    logs = h.logs;
  }

  give_nothing :
      {s t u : State (FileSink F)} {rs : List LogRecordView}
      → t.world ≡ s.world
      → IsWritten t u rs
      → IsWritten s u rs
  give_nothing e h = record {
    given = h.given;
    ready = h.ready;
    world = h.world ∙ ap (calls k h.given) e;
    logs = h.logs;
  }

  requests-IsWritten :
      {m : ℕ} {x : Storage} {qs : List Request} {rs : List LogRecordView}
      (h : Logged compile_time_min name m x qs rs) (s : State (FileSink F))
      → IsFrom m x s
      → IsWritten s (requests k compile_time_min qs s) rs
  unfolding requests request calls push_log_context
  requests-IsWritten nothing s v = record {
    given = [];
    ready = v.ready;
    world = refl;
    logs = λ append f b. refl;
  }
  requests-IsWritten (loud {level} {fill} {source} {now} {hash} l h) s v =
      let w =
        loud-IsStep k compile_time_min level fill source now hash s v.ready
          (subst (λ m. IsLoud compile_time_min m level) (sym v.runtime_min) l) in
      give_write _
        (w.world
          ∙ ap₂
              (λ n y.
                FileSink.write k (make_record n y level (built (fill new)) source now hash) s.world)
              v.name_ v.context)
        (requests-IsWritten h (request k compile_time_min (log_ level fill source now hash) s)
          (stepped v w.agrees))
  requests-IsWritten (silent {qs} {rs} {level} {fill} {source} {now} {hash} l h) s v =
      subst (λ t. IsWritten s (requests k compile_time_min qs t) rs)
        (sym (
          silent_step k compile_time_min level fill source now hash s
            (λ e. l (subst (λ m. IsLoud compile_time_min m level) v.runtime_min e))))
        (requests-IsWritten h s v)
  requests-IsWritten (minimum {level} h) s v = give_nothing refl (
      requests-IsWritten h (request k compile_time_min (set_runtime_min_ level) s) (record {
        name_ = v.name_;
        runtime_min = refl;
        context = v.context;
        ready = record { one_sink = v.ready.one_sink; idle = v.ready.idle };
      }))
  requests-IsWritten (flushed_ h) s v =
      let w = flush-IsStep k compile_time_min s v.ready in
      give_flush w.world
        (requests-IsWritten h (request k compile_time_min flush_ s) (stepped v w.agrees))
  requests-IsWritten (pushed {attributes} h) s v = give_nothing refl (
      requests-IsWritten h (request k compile_time_min (push_ attributes) s) (record {
        name_ = v.name_;
        runtime_min = v.runtime_min;
        context = ap (λ y. y ++ attributes) v.context;
        ready = record { one_sink = v.ready.one_sink; idle = v.ready.idle };
      }))
  requests-IsWritten (ended {scope} h) s v = give_nothing refl (
      requests-IsWritten h (request k compile_time_min (end_ scope) s) (record {
        name_ = v.name_;
        runtime_min = v.runtime_min;
        context = ap (destroy scope) v.context;
        ready = record { one_sink = v.ready.one_sink; idle = v.ready.idle };
      }))

-- The bytes of the file at a path, behind a last flush of the logger.
abbrev pub on_disk : {F : Type 0} → Formatters F → Bytes → State (FileSink F) → Bytes
on_disk k path s = let fs = (flush (file_sinks k) s).world.host in bytes_at fs (fs.entry path)

-- A logger is made around one file sink, on a host that allows the sink its path and gives it a formatter.
-- The program logs by `Log`, with callbacks that fill the builder and may throw, sets the logger's
-- level, flushes it, and opens and ends context scopes. Behind a last flush of the logger the file holds
-- the sink's log of exactly the records of the calls that were loud enough when they were made, in their
-- order, each with the context of its moment: what the file held before, or nothing of that where the sink
-- does not append, and then each record's line.
pub on_disk-requests :
    {F : Type 0} (k : Formatters F) (name : Bytes) (compile_time_min runtime_min : LogLevel)
    (path : Bytes) (options : FileSinkOptions F) (fs : FileSystem) (f : F) (qs : List Request)
    (rs : List LogRecordView)
    → fs.can_open path ≡ true
    → or_made k options.formatter ≡ some f
    → Logged compile_time_min name (to_uint8 runtime_min) [] qs rs
    → on_disk k path (requests k compile_time_min qs (start k name runtime_min path options fs))
      ≡ log_of k options.append
          (map write_ rs)
          f
          (if options.append then bytes_at fs (fs.entry path) else [])
unfolding make_logger publish_sink_snapshot
on_disk-requests k name compile_time_min runtime_min path options fs f qs rs opens made h =
    let s = start k name runtime_min path options fs in
    let w = requests-IsWritten k compile_time_min name h s (record {
      name_ = refl;
      runtime_min = refl;
      context = refl;
      ready = record { one_sink = refl; idle = refl };
    }) in
    ap (λ u. bytes_at u.world.host (u.world.host.entry path)) (flush-flush k _ w.ready)
    ∙ ap (flushed k path) w.world
    ∙ make_file_sink-calls k path options fs f w.given opens made
    ∙ w.logs options.append f (if options.append then bytes_at fs (fs.entry path) else [])
