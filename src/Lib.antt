-- ===== src/Lib.antt =====
-- NGIN.Log, a C++23 logging library: a model of its core and what is proved of it.
--
-- A call of a logger (include/NGIN/Log/Logger.hpp) whose level passes the filters fills a bounded
-- record (RecordBuilder.hpp), merges it with the attributes of the thread's scopes (Context.hpp) and
-- gives one view of the result to each sink. A sink turns it into a line by a formatter
-- (RecordFormatter.hpp, src/NGIN/Log/RecordFormatter.cpp). The registry (LoggerRegistry.hpp) owns the
-- loggers and keeps their levels and sinks at what defaults and prefix rules say.
--
--   Base       helpers: lists and text by native numbers, machine words, `std::to_chars`.
--   Level      include/NGIN/Log/LogLevel.hpp.
--   Types      include/NGIN/Log/Types.hpp and Config.hpp; Types/Inline is `InlineText`, Types/Arena
--              the text pool that `RecordBuilder::CopyText` and `Logger::CopyContextText` share.
--   Builder    include/NGIN/Log/RecordBuilder.hpp: `message`, `attr` and what they call.
--   Format     src/NGIN/Log/FormattingUtilities.hpp; Format/Text, Format/Json and Format/LogFmt are
--              the three formatters of src/NGIN/Log/RecordFormatter.cpp, Format/Standard the three behind
--              one interface. Format/Json/Reader is a reader of JSON lines that is not code of the
--              repository. Format/RecordLine is src/NGIN/Log/Sinks/RecordLine.hpp, which no file includes.
--   Context    include/NGIN/Log/Context.hpp: `push_log_context` and the scope object's operations.
--   Logger     include/NGIN/Log/Logger.hpp: filters, snapshot, merge, dispatch, flush.
--              Logger/Methods are the methods of the levels and the getters, Logger/Sink is
--              include/NGIN/Log/Sink.hpp, Logger/Reentrant has sinks that log to their own logger, and
--              Logger/ToFile composes the logger, its thread's context and a file sink.
--   Registry   include/NGIN/Log/LoggerRegistry.hpp: one step per operation under its lock;
--              Registry/Operations runs them in any order, Registry/Failing also where snapshots of sinks
--              find no memory.
--   Async      include/NGIN/Log/Sinks/AsyncSink.hpp: the queue and the copies of records; Async/Sink is
--              its state, the rounds of `Write` and of the worker as steps, and Async/Sink/Worker
--              the worker's loop, the drop reports and `Flush`. Async/Sink/Pipe is an abstract pipe of
--              records without ring and copies, which the sink is compared with.
--              Async/ToFile has a file sink behind it.
--   Files      what the file sinks use of the C library's streams and of `std::filesystem`: paths, files,
--              streams with buffers. Files/FileSink, Files/RotatingFileSink and Files/ConsoleSink are
--              include/NGIN/Log/Sinks/ and src/NGIN/Log/Sinks/ of those names; Files/Standard gives a
--              sink the three formatters.
--   Tests      the theorems at concrete inputs.
--
-- Text is a list of bytes. A buffer is a list of its bytes and a `string_view` into it an offset and
-- a size, so that what an old view shows after a later write is something to prove; elsewhere a view
-- is the bytes that it shows. Counters wrap at 2^32 and 2^64. Loops are recursions on the list that
-- they run over; `std::to_chars` divides on fuel, one step for each unit of its number, which is more
-- than its digits. The reader of JSON lines is on fuel too, one unit for each byte that it is given;
-- it works on bytes and does not ask whether a text is UTF-8.
-- The template `Attr` is a sum of the branches that the argument's type selects. What throws
-- is a flag or an absent result. The operations of `ILogSink` are `noexcept`: an exception that would leave
-- one ends the program, so that the handlers around them in Logger.hpp are never entered and are left out.
-- Those of AsyncSink.hpp, whose sink is a template's argument, are modelled by a flag, which a sink that keeps
-- to the interface never raises.
--
-- A rotating sink keeps its files under the path and `path.1`, `path.2` and so on. Its state holds the
-- directory: which file is at which path, the bytes of each file, and what the sink's stream holds
-- back. A sink `shows` at a path the file's bytes and those that it holds back for it.
--
-- Parameters: the standard library's printing of doubles and calendar times (`Platform`), its
-- `std::to_string` of a double, what sinks do (`Sinks`), whether the allocation of a snapshot
-- succeeds, the clock, the thread's hash, the local time of a second, the formatter of a sink
-- (`Formatters`), which paths the host opens and renames, and when a stream writes its buffer through.
--
-- The asynchronous sink runs on several threads: its steps are the rounds of a call of `Write` (one
-- attempt to enqueue, with the test of `m_running` before it), one record taken by the worker, and a
-- shutdown, in any order. A call that waits is a step that does not return, and is tried again later.
-- The worker's loop with its batches, drop reports and last flush is on fuel, one unit for each test of
-- its condition; one more than the queue's capacity is enough for a sink that was stopped.
--
-- Not modelled: concurrent calls of one logger (an operation is one step), the asynchronous sink's
-- notification callback and the memory orders of its atomics, exhaustion of memory but for a sink
-- snapshot, writes and flushes that fail, what other processes do to a sink's files while a call runs,
-- Windows branches, and the build.
pub mod Base
pub mod Level
pub mod Types
pub mod Builder
pub mod Format
pub mod Context
pub mod Logger
pub mod Registry
pub mod Async
pub mod Files
mod Tests
