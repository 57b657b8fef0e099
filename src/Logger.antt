-- ===== src/Logger.antt =====
-- include/NGIN/Log/Logger.hpp: filtering, the merge of context and record attributes, and the
-- dispatch to the sinks. A sink is known by a number; what it does is a parameter. All that a call
-- of the logger can reach on its thread is one state: the logger, the thread's recursion flag and
-- context, and a world that belongs to the sinks.
pub mod Merge
pub mod Offered
pub mod Dispatch
pub mod Filter
pub mod Reentrant
pub mod Sink
pub mod Methods
pub mod ToFile
use ngin_log.Base.{
  ℕ, zero, suc, ◌+◌, ◌-◌, ◌*◌, Bool, true, false, not, ◌&&◌, ◌||◌, List, [], ◌∷◌, ◌++◌, Option,
  none, some, Bytes, ltb, leb, ◌==◌, if◌then◌else◌, length, bytes_eq, add_u32, add_u64,
}
use ngin_log.Level.{LogLevel, trace, debug, info, warn, error, fatal, off, to_uint8, codes}
use ngin_log.Types.{
  max_attributes, max_attr_text_bytes, LogAttributeKind, default, AttributeValue, int64, uint64,
  double, boolean, text, LogAttribute, SourceLocation, LogRecordView,
}
use ngin_log.Types.Arena
use ngin_log.Types.Arena.{Arena, read}
use ngin_log.Builder.{
  RecordBuilder, new, message, get_message, get_attributes, get_truncated_attribute_count,
  get_truncated_bytes,
}
use ngin_log.Context.{ContextAttribute, Storage, get_log_context_view}

-- `m_activeSinks` is `none` where no snapshot was ever published; a null sink pointer is `none`.
pub record Logger : Type 0 where
  pub name : Bytes
  pub runtime_min : ℕ
  pub active_sinks : Option (List (Option ℕ))
  pub sink_error_count : ℕ

pub record State (W : Type 0) : Type 0 where
  pub logger : Logger
  pub in_dispatch : Bool
  pub context : Storage
  pub world : W

-- `m_sinkErrorCount.fetch_add(1)`.
abbrev pub count_error : Logger → Logger
count_error l = record l { sink_error_count = add_u64 l.sink_error_count 1 }

abbrev pub set_runtime_min : Logger → LogLevel → Logger
set_runtime_min l level = record l { runtime_min = to_uint8 level }

-- `PublishSinkSnapshot`; the flag says whether the allocation succeeds.
unfoldable pub publish_sink_snapshot : Bool → Logger → List (Option ℕ) → Logger
publish_sink_snapshot allocated l sinks =
    if allocated then record l { active_sinks = some sinks } else count_error l

abbrev pub set_sinks : Bool → Logger → List (Option ℕ) → Logger
set_sinks = publish_sink_snapshot

-- The constructor.
unfoldable pub make_logger : Bool → Bytes → LogLevel → List (Option ℕ) → Logger
unfolding publish_sink_snapshot
make_logger allocated name runtime_min sinks =
    publish_sink_snapshot allocated
      (record {
        name = name;
        runtime_min = to_uint8 runtime_min;
        active_sinks = none;
        sink_error_count = 0;
      })
      sinks

abbrev pub get_sinks_snapshot : Logger → List (Option ℕ)
get_sinks_snapshot l = elim l.active_sinks [ none ↦ [] | some sinks ↦ sinks ]

is_off : LogLevel → Bool
is_off off = true
is_off _ = false

unfoldable pub is_runtime_enabled : Logger → LogLevel → Bool
unfolding is_off
is_runtime_enabled l level = leb l.runtime_min (to_uint8 level) && not (is_off level)

-- The merge in progress: `mergedAttributes`, the context text pool with `truncatedBytes`, and
-- `truncatedAttributeCount`.
pub record Merged : Type 0 where
  pub attributes : List (LogAttribute Bytes)
  pub pool : Arena
  pub truncated_attribute_count : ℕ

abbrev pub context_pool_bytes : ℕ
context_pool_bytes = max_attr_text_bytes * 2

-- `CopyContextText`: the bytes that the view shows.
unfoldable pub copy_context_text : Arena → Bytes → Bytes × Arena
copy_context_text a input =
    let (v, a') = Arena.copy_text context_pool_bytes a input in (read a' v, a')

copied_text : Bytes × Arena → AttributeValue Bytes × Arena
copied_text (s, a) = (text s, a)

unfoldable pub copy_context_value : Arena → AttributeValue Bytes → AttributeValue Bytes × Arena
unfolding copied_text
copy_context_value a (int64 i) = (int64 i, a)
copy_context_value a (uint64 n) = (uint64 n, a)
copy_context_value a (double d) = (double d, a)
copy_context_value a (boolean b) = (boolean b, a)
copy_context_value a (text s) = copied_text (copy_context_text a s)

-- The loop of `appendOrReplace`: the list with the first attribute of that key replaced.
unfoldable pub replace :
    LogAttribute Bytes → List (LogAttribute Bytes) → Option (List (LogAttribute Bytes))
replace a [] = none
replace a (x ∷ xs) = elim (bytes_eq x.key a.key) [
  | true ↦ some (a ∷ xs)
  | false ↦ elim (replace a xs) [ none ↦ none | some ys ↦ some (x ∷ ys) ]
]

unfoldable pub append_or_replace : Merged → LogAttribute Bytes → Merged
unfolding replace
append_or_replace m a = elim (replace a m.attributes) [
  | some xs ↦ record m { attributes = xs }
  | none ↦
      if leb max_attributes (length m.attributes)
      then record m { truncated_attribute_count = add_u32 m.truncated_attribute_count 1 }
      else record m { attributes = m.attributes ++ a ∷ [] }
]

-- The loop over the thread's context: the key is copied before the value.
unfoldable pub merge_context : Merged → List ContextAttribute → Merged
merge_context m [] = m
merge_context m (c ∷ cs) =
    let (key, a) = copy_context_text m.pool c.key in
    let (value, a') = copy_context_value a c.value in
    merge_context
      (append_or_replace (record m { pool = a' })
        (record { key = key; value = value; kind = default }))
      cs

-- The loop over the builder's attributes.
unfoldable pub merge_attributes : Merged → List (LogAttribute Bytes) → Merged
merge_attributes m [] = m
merge_attributes m (x ∷ xs) = merge_attributes (append_or_replace m x) xs

unfoldable pub merge : List ContextAttribute → RecordBuilder → Merged
merge context b =
    merge_attributes
      (merge_context
        (record {
          attributes = [];
          pool = record (Arena.fresh context_pool_bytes) {
            truncated_bytes = get_truncated_bytes b;
          };
          truncated_attribute_count = get_truncated_attribute_count b;
        })
        context)
      (get_attributes b)

-- The record that `Dispatch` gives to the sinks.
unfoldable pub make_record :
    Bytes
    → List ContextAttribute
    → LogLevel
    → RecordBuilder
    → SourceLocation
    → ℕ
    → ℕ
    → LogRecordView
make_record name context level b source now thread_id_hash =
    let m = merge (get_log_context_view context) b in
    record {
      timestamp = now;
      level = level;
      logger_name = name;
      message = get_message b;
      source = source;
      thread_id_hash = thread_id_hash;
      attributes = m.attributes;
      truncated_attribute_count = m.truncated_attribute_count;
      truncated_bytes = m.pool.truncated_bytes;
    }

-- What the sinks do, by `ILogSink` of include/NGIN/Log/Sink.hpp: `Write` and `Flush` may change all that
-- the thread can reach. They are `noexcept`: a call returns, or it ends the program, behind which
-- there is no state.
pub record Sinks (W : Type 0) : Type 0 where
  pub write : ℕ → LogRecordView → State W → State W
  pub flush : ℕ → State W → State W

module _ {W : Type 0} where
  -- `DispatchRecursionGuard`: its constructor and its destructor.
  abbrev pub enter : State W → State W
  enter s = record s { in_dispatch = true }

  abbrev pub leave : State W → State W
  leave s = record s { in_dispatch = false }

  module _ (k : Sinks W) where
    -- The loop over the sinks of the snapshot. No exception leaves a sink, so that the handler is never
    -- entered; nor is that of `Flush`.
    unfoldable pub write_all : List (Option ℕ) → LogRecordView → State W → State W
    write_all [] r s = s
    write_all (none ∷ sinks) r s = write_all sinks r s
    write_all (some i ∷ sinks) r s = write_all sinks r (k.write i r s)

    unfoldable pub flush_all : List (Option ℕ) → State W → State W
    flush_all [] s = s
    flush_all (none ∷ sinks) s = flush_all sinks s
    flush_all (some i ∷ sinks) s = flush_all sinks (k.flush i s)

    -- `Flush`.
    unfoldable pub flush : State W → State W
    unfolding flush_all
    flush s = flush_all (get_sinks_snapshot s.logger) s

    -- `Dispatch` behind the test of the snapshot.
    dispatch_to :
        List (Option ℕ) → LogLevel → RecordBuilder → SourceLocation → ℕ → ℕ → State W → State W
    unfolding write_all make_record
    dispatch_to [] level b source now hash s = s
    dispatch_to (i ∷ sinks) level b source now hash s =
        if s.in_dispatch
        then record s { logger = count_error s.logger }
        else (let r = make_record s.logger.name s.context level b source now hash in
            leave (write_all (i ∷ sinks) r (enter s)))

    unfoldable pub dispatch : LogLevel → RecordBuilder → SourceLocation → ℕ → ℕ → State W → State W
    unfolding dispatch_to
    dispatch level b source now hash s =
        dispatch_to (get_sinks_snapshot s.logger) level b source now hash s

    -- `Log<L>(fn)` of `Logger<CompileTimeMin>`: the callback fills the builder, may do what it likes
    -- on its thread, and says whether it threw.
    unfoldable pub log :
        (compile_time_min level : LogLevel)
        → (RecordBuilder → State W → Bool × RecordBuilder × State W)
        → SourceLocation
        → ℕ
        → ℕ
        → State W
        → State W
    unfolding dispatch is_runtime_enabled
    log compile_time_min level fn source now hash s =
        if leb (to_uint8 compile_time_min) (to_uint8 level) && is_runtime_enabled s.logger level
        then (let (threw, b, s') = fn new s in
            if threw
            then dispatch level (message b (codes "[log-builder-threw]")) source now hash
                (record s' { logger = count_error s'.logger })
            else dispatch level b source now hash s')
        else s

    -- `Trace`, `Debug` and the others, given a message.
    unfoldable pub log_message :
        (compile_time_min level : LogLevel) → Bytes → SourceLocation → ℕ → ℕ → State W → State W
    unfolding log
    log_message compile_time_min level words source now hash s =
        log compile_time_min level (λ b t. (false, message b words, t)) source now hash s
