-- ===== src/Files.antt =====
-- What the file sinks use of the C library's streams and of `std::filesystem`: a directory of paths,
-- the bytes of the files, and streams with a buffer. A file is known by its number, which stands for
-- the inode; a file without a path goes on existing for the streams that have it open. A call that
-- the host may refuse is refused where the host's functions say so.
pub mod Streams
pub mod FileSink
pub mod RotatingFileSink
pub mod ConsoleSink
pub mod Standard
use ngin_log.Base.{
  ℕ, suc, ◌+◌, Bool, true, false, List, [], ◌∷◌, ◌++◌, Option, none, some, Bytes, ◌==◌,
  if◌then◌else◌, length, take, drop, bytes_eq,
}
use ngin_log.Types.{LogRecordView}

pub record FileSystem : Type 0 where
  pub entry : Bytes → Option ℕ
  pub bytes : ℕ → Bytes
  pub next_file : ℕ
  pub device : ℕ
  pub can_open : Bytes → Bool
  pub can_rename : Bytes → Bytes → Bool
  -- How many of its buffered bytes a stream writes through at once.
  pub spill : Bytes → ℕ

-- `FILE*` of an open file.
pub record Stream : Type 0 where
  pub file : ℕ
  pub pending : Bytes

-- `IRecordFormatter`: what `Format` of a formatter's object makes of a record, and the object as it
-- leaves it; and what making a text formatter comes to, with the source or without it and with local
-- times, which is nothing where that throws.
pub record Formatters (F : Type 0) : Type 0 where
  pub format : F → LogRecordView → Bytes × F
  pub make_text : Bool → Option F

-- `formatter ? formatter : CreateDefaultFormatter()`, with the formatter of `FileSink`.
abbrev pub or_made : {F : Type 0} → Formatters F → Option F → Option F
or_made k none = k.make_text true
or_made k (some f) = some f

abbrev pub enter : Bytes → Option ℕ → (Bytes → Option ℕ) → Bytes → Option ℕ
enter p o f q = if bytes_eq p q then o else f q

abbrev pub store : ℕ → Bytes → (ℕ → Bytes) → ℕ → Bytes
store i s f j = if j == i then s else f j

abbrev pub bytes_at : FileSystem → Option ℕ → Bytes
bytes_at fs none = []
bytes_at fs (some i) = fs.bytes i

-- `fopen` in the modes "ab" and "wb".
open_entry : Bool → Bytes → FileSystem → Option ℕ → ℕ × FileSystem
open_entry append path fs (some i) =
    (i, if append then fs else record fs { bytes = store i [] fs.bytes })
open_entry append path fs none = (
  fs.next_file,
  record fs {
    entry = enter path (some fs.next_file) fs.entry;
    bytes = store fs.next_file [] fs.bytes;
    next_file = suc fs.next_file;
  },
)

unfoldable pub fopen : Bool → Bytes → FileSystem → Option Stream × FileSystem
unfolding open_entry
fopen append path fs =
    if fs.can_open path
    then (let (i, fs') = open_entry append path fs (fs.entry path) in
        (some (record { file = i; pending = [] }), fs'))
    else (none, fs)

-- `fflush`.
unfoldable pub fflush : Stream → FileSystem → Stream × FileSystem
fflush st fs = (
  record st { pending = [] },
  record fs { bytes = store st.file (fs.bytes st.file ++ st.pending) fs.bytes },
)

-- `fwrite` of all the bytes.
unfoldable pub fwrite : Bytes → Stream → FileSystem → Stream × FileSystem
fwrite data_ st fs =
    let buffered = st.pending ++ data_ in
    let n = fs.spill buffered in
    (
      record st { pending = drop n buffered },
      record fs { bytes = store st.file (fs.bytes st.file ++ take n buffered) fs.bytes },
    )

-- `fclose`: the stream's buffer is written, and the stream is gone.
unfoldable pub fclose : Stream → FileSystem → FileSystem
unfolding fflush
fclose st fs = (fflush st fs).1

-- `filesystem::exists` and then `file_size`, and zero for a path without a file.
unfoldable pub file_size : Bytes → FileSystem → ℕ
file_size path fs = length (bytes_at fs (fs.entry path))

-- `filesystem::remove`.
unfoldable pub remove : Bytes → FileSystem → FileSystem
remove path fs = record fs { entry = enter path none fs.entry }

-- `filesystem::rename` of a path that has a file.
unfoldable pub rename : Bytes → Bytes → FileSystem → FileSystem
rename from to fs =
    if fs.can_rename from to
    then record fs { entry = enter to (fs.entry from) (enter from none fs.entry) }
    else fs

-- What a sink shows: the bytes of a file with those that its stream still holds.
abbrev pub shown : Option Stream → FileSystem → ℕ → Bytes
shown none fs i = fs.bytes i
shown (some st) fs i = if i == st.file then fs.bytes i ++ st.pending else fs.bytes i

abbrev pub shown_at : Option Stream → FileSystem → Option ℕ → Bytes
shown_at st fs none = []
shown_at st fs (some i) = shown st fs i
