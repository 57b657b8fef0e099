-- ===== src/Logger/Methods.antt =====
-- include/NGIN/Log/Logger.hpp: the methods that read a logger, and those of each level, for a message
-- and for a callback.
use ngin_log.Base.{ℕ, Bool, Bytes, Option, none, some, ◌==◌, if◌then◌else◌, ◌≡◌, refl}
use ngin_log.Level.{LogLevel, trace, debug, info, warn, error, fatal, off}
use ngin_log.Types.{SourceLocation}
use ngin_log.Builder.{RecordBuilder}
use ngin_log.Logger.{Logger, State, set_runtime_min, Sinks, log, log_message}

-- `static_cast<LogLevel>`; `none` where no enumerator has the value.
abbrev pub from_uint8 : ℕ → Option LogLevel
from_uint8 n =
    if n == 0
    then some trace
    else if n == 1
    then some debug
    else if n == 2
    then some info
    else if n == 3
    then some warn
    else if n == 4
    then some error
    else if n == 5
    then some fatal
    else if n == 6
    then some off
    else none

abbrev pub get_runtime_min : Logger → Option LogLevel
get_runtime_min l = from_uint8 l.runtime_min

abbrev pub get_name : Logger → Bytes
get_name l = l.name

abbrev pub get_sink_error_count : Logger → ℕ
get_sink_error_count l = l.sink_error_count

-- The level that was set is the level that is read.
pub get_runtime_min-set_runtime_min :
    (l : Logger) (level : LogLevel) → get_runtime_min (set_runtime_min l level) ≡ some level
get_runtime_min-set_runtime_min l trace = refl
get_runtime_min-set_runtime_min l debug = refl
get_runtime_min-set_runtime_min l info = refl
get_runtime_min-set_runtime_min l warn = refl
get_runtime_min-set_runtime_min l error = refl
get_runtime_min-set_runtime_min l fatal = refl
get_runtime_min-set_runtime_min l off = refl

-- What `Log` is given: a callback that takes the builder, or one that takes nothing. Either may do
-- what it likes on its thread, and says whether it threw.
pub data Callback (W : Type 0) : Type 0 where
  with_builder : (RecordBuilder → State W → Bool × RecordBuilder × State W) → Callback W
  plain : (State W → Bool × State W) → Callback W

module _ {W : Type 0} where
  -- `std::invoke`.
  abbrev pub invoke : Callback W → RecordBuilder → State W → Bool × RecordBuilder × State W
  invoke (with_builder fn) b s = fn b s
  invoke (plain fn) b s = let (threw, t) = fn s in (threw, b, t)

  module _ (k : Sinks W) (compile_time_min : LogLevel) where
    abbrev pub trace_message : Bytes → SourceLocation → ℕ → ℕ → State W → State W
    trace_message = log_message k compile_time_min trace

    abbrev pub trace_with : Callback W → SourceLocation → ℕ → ℕ → State W → State W
    trace_with fn = log k compile_time_min trace (invoke fn)

    abbrev pub debug_message : Bytes → SourceLocation → ℕ → ℕ → State W → State W
    debug_message = log_message k compile_time_min debug

    abbrev pub debug_with : Callback W → SourceLocation → ℕ → ℕ → State W → State W
    debug_with fn = log k compile_time_min debug (invoke fn)

    abbrev pub info_message : Bytes → SourceLocation → ℕ → ℕ → State W → State W
    info_message = log_message k compile_time_min info

    abbrev pub info_with : Callback W → SourceLocation → ℕ → ℕ → State W → State W
    info_with fn = log k compile_time_min info (invoke fn)

    abbrev pub warn_message : Bytes → SourceLocation → ℕ → ℕ → State W → State W
    warn_message = log_message k compile_time_min warn

    abbrev pub warn_with : Callback W → SourceLocation → ℕ → ℕ → State W → State W
    warn_with fn = log k compile_time_min warn (invoke fn)

    abbrev pub error_message : Bytes → SourceLocation → ℕ → ℕ → State W → State W
    error_message = log_message k compile_time_min error

    abbrev pub error_with : Callback W → SourceLocation → ℕ → ℕ → State W → State W
    error_with fn = log k compile_time_min error (invoke fn)

    abbrev pub fatal_message : Bytes → SourceLocation → ℕ → ℕ → State W → State W
    fatal_message = log_message k compile_time_min fatal

    abbrev pub fatal_with : Callback W → SourceLocation → ℕ → ℕ → State W → State W
    fatal_with fn = log k compile_time_min fatal (invoke fn)
