-- ===== src/Files/RotatingFileSink.antt =====
-- include/NGIN/Log/Sinks/RotatingFileSink.hpp and src/NGIN/Log/Sinks/RotatingFileSink.cpp, the POSIX
-- branches. Each public operation runs under the sink's lock and is one step; the file system that it
-- changes is part of the state. `localtime_r` is a parameter, which gives the fields `tm_year` and
-- `tm_yday`.
pub mod Shift
pub mod Rotated
pub mod Put
pub mod Reopened
pub mod Due
pub mod Written
pub mod Cases
pub mod Archive
pub mod Calls
pub mod Made
pub mod Lifetime
pub mod Bounds
pub mod Days
pub mod External
use ngin_log.Base.{
  ℕ, suc, ◌+◌, ◌*◌, ◌/◌, Bool, true, false, not, ◌&&◌, ◌||◌, [], ◌∷◌, ◌++◌, Option, none, some,
  Bytes, ltb, ◌==◌, if◌then◌else◌, length, add_u64,
}
use ngin_log.Base.Int.{ℤ, pos, negsuc}
use ngin_log.Base.Digits.{digits}
use ngin_log.Level.{codes}
use ngin_log.Types.{LogRecordView}
use ngin_log.Format.Text.{int_eq}
use ngin_log.Files.{
  FileSystem, Stream, Formatters, or_made, fopen, fflush, fwrite, fclose, file_size, remove, rename,
}

pub record RotatingFileSinkOptions (F : Type 0) : Type 0 where
  pub path : Bytes
  pub append : Bool
  pub auto_flush : Bool
  pub max_file_bytes : ℕ
  pub max_files : ℕ
  pub rotate_at_startup : Bool
  pub rotate_daily_local : Bool
  pub detect_external_rotation : Bool
  pub formatter : Option F

-- `FileIdentity`, which is `none` where it is not valid: the device and the inode.
abbrev pub FileIdentity : Type 0
FileIdentity = Option (ℕ × ℕ)

pub record RotatingFileSink (F : Type 0) : Type 0 where
  pub options : RotatingFileSinkOptions F
  pub formatter : Option F
  pub file : Option Stream
  pub current_file_bytes : ℕ
  pub last_local_date_key : ℤ
  pub identity : FileIdentity
  pub host : FileSystem

-- `m_options.path + "." + std::to_string(index)`.
unfoldable pub numbered : Bytes → ℕ → Bytes
numbered path index = path ++ (b'.' ∷ digits 10 index)

-- The body of the loop of `RotateLocked`, and the move of the current file behind it.
unfoldable pub move_if_exists : Bytes → Bytes → FileSystem → FileSystem
unfolding rename
move_if_exists from to fs = elim (fs.entry from) [ none ↦ fs | some _ ↦ rename from to fs ]

-- The loop of `RotateLocked`, with `index` from its argument down to 2.
unfoldable pub shift_files : Bytes → ℕ → FileSystem → FileSystem
unfolding numbered move_if_exists
shift_files path (suc (suc index)) fs =
    shift_files path (suc index)
      (move_if_exists (numbered path (suc index)) (numbered path (suc (suc index))) fs)
shift_files path _ fs = fs

-- The renames and removals of `RotateLocked`.
unfoldable pub rotate_files : Bytes → ℕ → FileSystem → FileSystem
unfolding shift_files remove
rotate_files path max_files fs =
    if ltb 0 max_files
    then move_if_exists path (path ++ codes ".1")
        (shift_files path max_files (remove (numbered path max_files) fs))
    else remove path fs

-- `MakeLocalDateKey`.
unfoldable pub make_local_date_key : (ℕ → ℕ × ℕ) → ℕ → ℤ
make_local_date_key localtime timestamp =
    let (year, yday) = localtime (timestamp / 1000000000) in pos ((year + 1900) * 1000 + yday)

-- `==` of two valid identities.
unfoldable pub same_identity : ℕ × ℕ → ℕ × ℕ → Bool
same_identity (device, inode) (device', inode') = device == device' && inode == inode'

-- `ReadPathIdentity`.
unfoldable pub read_path_identity : Bytes → FileSystem → FileIdentity
read_path_identity path fs = elim (fs.entry path) [ none ↦ none | some i ↦ some (fs.device, i) ]

-- `ReadFileIdentity`.
abbrev pub read_file_identity : Option Stream → FileSystem → FileIdentity
read_file_identity none fs = none
read_file_identity (some st) fs = some (fs.device, st.file)

module _ {F : Type 0} where
  -- The rest of `OpenFileLocked` behind its `fopen`.
  unfoldable pub opened :
      Option Stream × FileSystem → RotatingFileSink F → Bool × RotatingFileSink F
  unfolding file_size
  opened (none, fs) s = (false, record s { file = none; host = fs })
  opened (some st, fs) s = (
    true,
    record s {
      file = some st;
      host = fs;
      current_file_bytes = file_size s.options.path fs;
      identity = read_file_identity (some st) fs;
    },
  )

  -- `OpenFileLocked`.
  unfoldable pub open_file_locked : RotatingFileSink F → Bool × RotatingFileSink F
  unfolding opened
  open_file_locked s = opened (fopen s.options.append s.options.path s.host) s

  unfoldable pub close_stream : Option Stream → RotatingFileSink F → RotatingFileSink F
  close_stream none s = record s { identity = none }
  close_stream (some st) s = record s { file = none; host = fclose st s.host; identity = none }

  -- `CloseFileLocked`.
  unfoldable pub close_file_locked : RotatingFileSink F → RotatingFileSink F
  unfolding close_stream
  close_file_locked s = close_stream s.file s

  -- `RotateLocked`.
  unfoldable pub rotate_locked : RotatingFileSink F → Bool × RotatingFileSink F
  rotate_locked s =
      let t = close_file_locked s in
      open_file_locked (record t {
        host = rotate_files t.options.path t.options.max_files t.host;
        current_file_bytes = 0;
      })

  -- The destructor.
  abbrev pub destroy_sink : RotatingFileSink F → RotatingFileSink F
  destroy_sink = close_file_locked

  abbrev pub force_rotate : RotatingFileSink F → Bool × RotatingFileSink F
  force_rotate = rotate_locked

  abbrev pub is_open : RotatingFileSink F → Bool
  is_open s = elim s.file [ none ↦ false | some _ ↦ true ]

  -- `Reopen`.
  unfoldable pub reopen : RotatingFileSink F → Bool × RotatingFileSink F
  reopen s = open_file_locked (close_file_locked s)

  -- `ShouldRotateByDateLocked` behind its first test.
  unfoldable pub should_rotate_by_key : ℤ → RotatingFileSink F → Bool × RotatingFileSink F
  should_rotate_by_key key s =
      if int_eq s.last_local_date_key (negsuc 0)
      then (false, record s { last_local_date_key = key })
      else if not (int_eq key s.last_local_date_key)
      then (true, record s { last_local_date_key = key })
      else (false, s)

  -- `ShouldRotateByDateLocked`.
  unfoldable pub should_rotate_by_date_locked :
      (ℕ → ℕ × ℕ) → LogRecordView → RotatingFileSink F → Bool × RotatingFileSink F
  unfolding should_rotate_by_key
  should_rotate_by_date_locked localtime r s =
      if s.options.rotate_daily_local
      then should_rotate_by_key (make_local_date_key localtime r.timestamp) s
      else (false, s)

  reopen_unless_same : FileIdentity → FileIdentity → RotatingFileSink F → RotatingFileSink F
  reopen_unless_same (some a) (some b) s = if same_identity a b then s else (reopen s).1
  reopen_unless_same _ _ s = s

  -- `DetectExternalRotationLocked`, whose result no caller reads.
  unfoldable pub detect_external_rotation_locked : RotatingFileSink F → RotatingFileSink F
  unfolding reopen_unless_same
  detect_external_rotation_locked s =
      reopen_unless_same s.identity (read_path_identity s.options.path s.host) s

  unfoldable pub ensure_open : Option Stream → RotatingFileSink F → Bool × RotatingFileSink F
  ensure_open (some st) s = (true, s)
  ensure_open none s = open_file_locked s

  unfoldable pub flush_if : Bool → Option Stream → RotatingFileSink F → RotatingFileSink F
  flush_if true (some st) s =
      let (st', fs) = fflush st s.host in record s { file = some st'; host = fs }
  flush_if _ _ s = s

  -- `Flush`.
  unfoldable pub flush : RotatingFileSink F → RotatingFileSink F
  unfolding flush_if
  flush s = flush_if true s.file s

  -- The last lines of `Write`.
  unfoldable pub put : Bytes → Option Stream → RotatingFileSink F → RotatingFileSink F
  unfolding flush_if
  put line none s = s
  put line (some st) s =
      let (st', fs) = fwrite line st s.host in
      flush_if s.options.auto_flush (some st') (record s {
        file = some st';
        host = fs;
        current_file_bytes = add_u64 s.current_file_bytes (length line);
      })

  unfoldable pub write_line : Bytes → Bool × RotatingFileSink F → RotatingFileSink F
  unfolding put
  write_line line (false, s) = s
  write_line line (true, s) = put line s.file s

  -- The test of the size in `Write`.
  unfoldable pub too_large : Bytes → RotatingFileSink F → Bool
  too_large line s =
      ltb 0 s.options.max_file_bytes
      && ltb s.options.max_file_bytes (add_u64 s.current_file_bytes (length line))

  -- The rotation in `Write`: the date is looked at only where the size does not call for one.
  unfoldable pub rotate_if_due :
      (ℕ → ℕ × ℕ) → LogRecordView → Bytes → RotatingFileSink F → RotatingFileSink F
  unfolding too_large
  rotate_if_due localtime r line s =
      if too_large line s
      then (rotate_locked s).1
      else (let (due, s') = should_rotate_by_date_locked localtime r s in
          if due then (rotate_locked s').1 else s')

  -- `Write` behind its first test of the file.
  unfoldable pub write_opened :
      (ℕ → ℕ × ℕ) → LogRecordView → Bytes → Bool × RotatingFileSink F → RotatingFileSink F
  unfolding ensure_open
  write_opened localtime r line (false, s) = s
  write_opened localtime r line (true, s) =
      let t = if s.options.detect_external_rotation then detect_external_rotation_locked s else s in
      let u = rotate_if_due localtime r line t in write_line line (ensure_open u.file u)

  module _ (k : Formatters F) (localtime : ℕ → ℕ × ℕ) where
    unfoldable pub write_by : Option F → LogRecordView → RotatingFileSink F → RotatingFileSink F
    unfolding ensure_open
    write_by none r s = record s { formatter = none }
    write_by (some f) r s =
        let (line, f') = k.format f r in
        write_opened localtime r line (ensure_open s.file (record s { formatter = some f' }))

    -- `Write`.
    unfoldable pub write : LogRecordView → RotatingFileSink F → RotatingFileSink F
    unfolding write_by
    write r s = write_by (or_made k s.formatter) r s

  -- The constructor.
  unfoldable pub make_rotating_file_sink :
      Formatters F → RotatingFileSinkOptions F → FileSystem → RotatingFileSink F
  make_rotating_file_sink k options fs =
      let s =
        (open_file_locked (record {
          options = options;
          formatter = or_made k options.formatter;
          file = none;
          current_file_bytes = 0;
          last_local_date_key = negsuc 0;
          identity = none;
          host = fs;
        })).1 in
      if options.rotate_at_startup then (rotate_locked s).1 else s
