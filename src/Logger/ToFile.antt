-- ===== src/Logger/ToFile.antt =====
-- A logger of include/NGIN/Log/Logger.hpp whose one sink is the `FileSink` of
-- src/NGIN/Log/Sinks/FileSink.cpp, on one thread: what a program asks of them, and which records its
-- requests are to log.
pub mod Steps
pub mod Written
pub mod Json
use ngin_log.Base.{
  ℕ, ◌≤◌, Bool, true, false, List, [], ◌∷◌, ◌++◌, map, some, Bytes, if◌then◌else◌, ◌≡◌, ◌≢◌, ◌⊎◌,
  inl, inr, refl, dec_le,
}
use ngin_log.Level.{LogLevel, off, to_uint8, codes}
use ngin_log.Types.{SourceLocation, LogRecordView}
use ngin_log.Builder.{RecordBuilder, new, message}
use ngin_log.Context.{ContextAttribute, Storage, ScopedLogContext, push_log_context, destroy}
use ngin_log.Logger.{Logger, State, set_runtime_min, make_logger, make_record, Sinks, flush, log}
use ngin_log.Files.{FileSystem, Formatters}
use ngin_log.Files.FileSink
use ngin_log.Files.FileSink.{FileSink, FileSinkOptions, make_file_sink}

-- The sink of the logger: the file sink is the world.
abbrev pub file_sinks : {F : Type 0} → Formatters F → Sinks (FileSink F)
file_sinks k = record {
  write = λ i r s. record s { world = FileSink.write k r s.world };
  flush = λ i s. record s { world = FileSink.flush s.world };
}

-- What the program asks for: a record by `Log` with a callback that fills the builder and says
-- whether it threw, with the place, the time and the thread of the call; another level for the logger;
-- a flush; attributes for the thread's context; and the end of a scope of such attributes.
pub data Request : Type 0 where
  log_ :
      LogLevel → (RecordBuilder → Bool × RecordBuilder) → SourceLocation → (now hash : ℕ) → Request
  set_runtime_min_ : LogLevel → Request
  flush_ : Request
  push_ : List ContextAttribute → Request
  end_ : ScopedLogContext → Request

-- The callback of `Info(message)` and the others.
abbrev pub words : Bytes → RecordBuilder → Bool × RecordBuilder
words s b = (false, message b s)

abbrev pub in_state : {W : Type 0} → State W → Bool × RecordBuilder → Bool × RecordBuilder × State W
in_state s (threw, b) = (threw, b, s)

module _ {F : Type 0} (k : Formatters F) (compile_time_min : LogLevel) where
  unfoldable pub request : Request → State (FileSink F) → State (FileSink F)
  request (log_ level fill source now hash) s =
      log (file_sinks k) compile_time_min level (λ b t. in_state t (fill b)) source now hash s
  request (set_runtime_min_ level) s = record s { logger = set_runtime_min s.logger level }
  request flush_ s = flush (file_sinks k) s
  request (push_ attributes) s = record s { context = (push_log_context s.context attributes).1 }
  request (end_ scope) s = record s { context = destroy scope s.context }

  unfoldable pub requests : List Request → State (FileSink F) → State (FileSink F)
  unfolding request
  requests [] s = s
  requests (q ∷ qs) s = requests qs (request q s)

-- The program's start: a logger around the sink, which is made for a path.
abbrev pub start :
    {F : Type 0}
    → Formatters F
    → Bytes
    → LogLevel
    → Bytes
    → FileSinkOptions F
    → FileSystem
    → State (FileSink F)
start k name runtime_min path options fs = record {
  logger = make_logger true name runtime_min (some 0 ∷ []);
  in_dispatch = false;
  context = [];
  world = make_file_sink k path options fs;
}

-- The builder that a callback leaves for the dispatch.
abbrev pub built : Bool × RecordBuilder → RecordBuilder
built (true, b) = message b (codes "[log-builder-threw]")
built (false, b) = b

-- A level is loud enough for the type and for the logger as it is set; `off` never is.
pub record IsLoud (compile_time_min : LogLevel) (runtime_min : ℕ) (level : LogLevel) : Type 0 where
  pub compiled : to_uint8 compile_time_min ≤ to_uint8 level
  pub running : runtime_min ≤ to_uint8 level
  pub ordinary : level ≢ off

-- The records that requests are to log, from a minimum level and a context on: one for each call whose
-- level is loud enough when it is made, in the order of the calls, with the context of that moment.
pub data Logged (compile_time_min : LogLevel) (name : Bytes)
    : ℕ → Storage → List Request → List LogRecordView → Type 0 where
  nothing : {m : ℕ} {x : Storage} → Logged compile_time_min name m x [] []
  loud :
      {m : ℕ} {x : Storage} {qs : List Request} {rs : List LogRecordView} {level : LogLevel}
      {fill : RecordBuilder → Bool × RecordBuilder} {source : SourceLocation} {now hash : ℕ}
      → IsLoud compile_time_min m level
      → Logged compile_time_min name m x qs rs
      → Logged compile_time_min name m x
          (log_ level fill source now hash ∷ qs)
          (make_record name x level (built (fill new)) source now hash ∷ rs)
  silent :
      {m : ℕ} {x : Storage} {qs : List Request} {rs : List LogRecordView} {level : LogLevel}
      {fill : RecordBuilder → Bool × RecordBuilder} {source : SourceLocation} {now hash : ℕ}
      → ¬ IsLoud compile_time_min m level
      → Logged compile_time_min name m x qs rs
      → Logged compile_time_min name m x (log_ level fill source now hash ∷ qs) rs
  minimum :
      {m : ℕ} {x : Storage} {qs : List Request} {rs : List LogRecordView} {level : LogLevel}
      → Logged compile_time_min name (to_uint8 level) x qs rs
      → Logged compile_time_min name m x (set_runtime_min_ level ∷ qs) rs
  flushed_ :
      {m : ℕ} {x : Storage} {qs : List Request} {rs : List LogRecordView}
      → Logged compile_time_min name m x qs rs
      → Logged compile_time_min name m x (flush_ ∷ qs) rs
  pushed :
      {m : ℕ} {x : Storage} {qs : List Request} {rs : List LogRecordView}
      {attributes : List ContextAttribute}
      → Logged compile_time_min name m (x ++ attributes) qs rs
      → Logged compile_time_min name m x (push_ attributes ∷ qs) rs
  ended :
      {m : ℕ} {x : Storage} {qs : List Request} {rs : List LogRecordView} {scope : ScopedLogContext}
      → Logged compile_time_min name m (destroy scope x) qs rs
      → Logged compile_time_min name m x (end_ scope ∷ qs) rs

is_off_or_not : (level : LogLevel) → (level ≡ off) ⊎ (level ≢ off)
is_off_or_not off = inl refl
is_off_or_not level = inr (λ e. cc)

loud_decision :
    (compile_time_min : LogLevel) (m : ℕ) (level : LogLevel) → Dec (IsLoud compile_time_min m level)
loud_decision compile_time_min m level = elim (is_off_or_not level) [
  | inl e ↦ no (λ h. h.ordinary e)
  | inr ordinary ↦ elim (dec_le (to_uint8 compile_time_min) (to_uint8 level)) [
    | no n ↦ no (λ h. n h.compiled)
    | yes compiled ↦ elim (dec_le m (to_uint8 level)) [
      | no n ↦ no (λ h. n h.running)
      | yes running ↦ yes (record { compiled = compiled; running = running; ordinary = ordinary })
    ]
  ]
]

-- Every list of requests has its records.
pub Logged-total :
    (compile_time_min : LogLevel) (name : Bytes) (m : ℕ) (x : Storage) (qs : List Request)
    → (rs : List LogRecordView) × Logged compile_time_min name m x qs rs
Logged-total compile_time_min name m x [] = ([], nothing)
Logged-total compile_time_min name m x (log_ level fill source now hash ∷ qs) =
    let (rs, h) = Logged-total compile_time_min name m x qs in
    elim (loud_decision compile_time_min m level) [
      | yes l ↦ (make_record name x level (built (fill new)) source now hash ∷ rs, loud l h)
      | no l ↦ (rs, silent l h)
    ]
Logged-total compile_time_min name m x (set_runtime_min_ level ∷ qs) =
    let (rs, h) = Logged-total compile_time_min name (to_uint8 level) x qs in (rs, minimum h)
Logged-total compile_time_min name m x (flush_ ∷ qs) =
    let (rs, h) = Logged-total compile_time_min name m x qs in (rs, flushed_ h)
Logged-total compile_time_min name m x (push_ attributes ∷ qs) =
    let (rs, h) = Logged-total compile_time_min name m (x ++ attributes) qs in (rs, pushed h)
Logged-total compile_time_min name m x (end_ scope ∷ qs) =
    let (rs, h) = Logged-total compile_time_min name m (destroy scope x) qs in (rs, ended h)
