-- ===== src/Files/RotatingFileSink/Rotated.antt =====
-- What a rotation does to the files that a sink shows.
use ngin_log.Base.{
  ℕ, zero, suc, ◌%◌, ◌^◌, ◌≤◌, ◌<◌, Bool, true, false, [], Option, none, some, Bytes, arith, ◌==◌,
  length, bytes_eq_refl, ◌≡◌, ◌≢◌, inl, inr, refl, sym, ap, ◌∙◌, Option-cases,
}
use ngin_log.Files.{
  FileSystem, Stream, enter, store, open_entry, fopen, fflush, fclose, file_size, shown, shown_at,
}
use ngin_log.Files.Streams.{new_stream, bytes-fclose}
use ngin_log.Files.RotatingFileSink.{
  RotatingFileSink, rotate_files, opened, open_file_locked, close_stream, close_file_locked,
  rotate_locked,
}
use ngin_log.Files.RotatingFileSink.Shift.{name, name-ne, CanRename, Shifted, rotate_files-Shifted}

-- What the sink shows at a name: the bytes of the file with those that the sink has buffered for it.
abbrev pub shown_name : {F : Type 0} → RotatingFileSink F → ℕ → Bytes
shown_name s j = shown_at s.file s.host (s.host.entry (name s.options.path j))

-- The sink has its current file open, under its path and no other of its names; its names have files
-- that were made; its counter is the size of what it shows there, modulo 2^64; and the host allows it
-- to open its path and to rename.
pub record IsSound {F : Type 0} (s : RotatingFileSink F) (st : Stream) : Type 0 where
  pub open_ : s.file ≡ some st
  pub linked : s.host.entry s.options.path ≡ some st.file
  pub identified : s.identity ≡ some (s.host.device, st.file)
  pub made :
      (j i : ℕ)
      → j ≤ s.options.max_files
      → s.host.entry (name s.options.path j) ≡ some i
      → i < s.host.next_file
  pub apart :
      (j : ℕ) → j < s.options.max_files → s.host.entry (name s.options.path (suc j)) ≢ some st.file
  pub counted : s.current_file_bytes % 2 ^ 64 ≡ length (shown (some st) s.host st.file) % 2 ^ 64
  pub can_open : s.host.can_open s.options.path ≡ true
  pub can_rename : CanRename s.host

-- The file system with a new, empty file at the path.
abbrev pub with_new : Bytes → FileSystem → FileSystem
with_new path fs = record fs {
  entry = enter path (some fs.next_file) fs.entry;
  bytes = store fs.next_file [] fs.bytes;
  next_file = suc fs.next_file;
}

pub fopen_new :
    (append : Bool) (path : Bytes) (fs : FileSystem)
    → fs.can_open path ≡ true
    → fs.entry path ≡ none
    → fopen append path fs ≡ (some (new_stream fs.next_file), with_new path fs)
unfolding fopen open_entry
fopen_new append path fs c e =
    let opening : open_entry append path fs (fs.entry path) ≡ (fs.next_file, with_new path fs) =
      ap (open_entry append path fs) e in
    (rw c refl) ∙ ap (λ p. (some (new_stream p.0), p.1)) opening

pub file_size_new :
    (path : Bytes) (fs : FileSystem)
    → file_size path (with_new path fs)
      ≡ length (shown (some (new_stream fs.next_file)) (with_new path fs) fs.next_file)
unfolding file_size
file_size_new path fs =
    let e : (fs.next_file == fs.next_file) ≡ true = ground arith in
    (rw (bytes_eq_refl path) (rw e refl))

module _ {F : Type 0} (s : RotatingFileSink F) (st : Stream) (v : IsSound s st) where
  -- The file system when the stream is closed, and when the files are moved.
  abbrev pub closed : FileSystem
  closed = fclose st s.host

  abbrev pub moved : FileSystem
  moved = rotate_files s.options.path s.options.max_files closed

  abbrev pub rotated : RotatingFileSink F
  rotated = record s {
    file = some (new_stream moved.next_file);
    host = with_new s.options.path moved;
    current_file_bytes = file_size s.options.path (with_new s.options.path moved);
    identity = some (moved.device, moved.next_file);
  }

  closed-CanRename : CanRename closed
  unfolding fclose fflush
  closed-CanRename = v.can_rename

  moved-Shifted : Shifted s.options.path s.options.max_files closed moved
  moved-Shifted = rotate_files-Shifted s.options.path s.options.max_files closed closed-CanRename

  moved_opens : moved.can_open s.options.path ≡ true
  unfolding fclose fflush
  moved_opens =
      ap (λ (f : Bytes → Bool). f s.options.path) moved-Shifted.files.can_open ∙ v.can_open

  pub rotate_locked_eq : rotate_locked s ≡ (true, rotated)
  unfolding rotate_locked open_file_locked close_file_locked close_stream opened
  rotate_locked_eq =
      ap
        (λ (o : Option Stream).
          let t = close_stream o s in
          open_file_locked (record t {
            host = rotate_files t.options.path t.options.max_files t.host;
            current_file_bytes = 0;
          }))
        v.open_
      ∙ ap
          (λ p.
            opened p
              (record s { file = none; host = moved; identity = none; current_file_bytes = 0 }))
          (fopen_new s.options.append s.options.path moved moved_opens moved-Shifted.emptied)

  moved_next : moved.next_file ≡ s.host.next_file
  unfolding fclose fflush
  moved_next = moved-Shifted.files.next_file

  -- A file that was made before the rotation shows what it showed.
  old_shown :
      (i : ℕ) → i < s.host.next_file → shown rotated.file rotated.host i ≡ shown s.file s.host i
  old_shown i h =
      let other : (i == moved.next_file) ≡ false = ground (arith, moved_next) in
      (rw other refl)
      ∙ ap (λ (f : ℕ → Bytes). f i) moved-Shifted.files.bytes
      ∙ bytes-fclose st s.host i
      ∙ ap (λ o. shown o s.host i) (sym v.open_)

  rotated_entry :
      (j : ℕ)
      → j < s.options.max_files
      → rotated.host.entry (name s.options.path (suc j)) ≡ s.host.entry (name s.options.path j)
  unfolding fclose fflush
  rotated_entry j h =
      (rw (name-ne s.options.path 0 (suc j) (λ e. omega (arith, e))) refl)
      ∙ moved-Shifted.shifted j h

  rotated_path : rotated.host.entry s.options.path ≡ some moved.next_file
  rotated_path = rw (bytes_eq_refl s.options.path) refl

  -- After a rotation each name shows what the name before it showed.
  pub rotated_old : (j : ℕ) → j < s.options.max_files → shown_name rotated (suc j) ≡ shown_name s j
  rotated_old j h =
      ap (shown_at rotated.file rotated.host) (rotated_entry j h)
      ∙ (elim (Option-cases (s.host.entry (name s.options.path j))) [
        | inl e ↦ rw e refl
        | inr (i, e) ↦ rw e (old_shown i (v.made j i (omega arith) e))
      ])

  -- And the current path shows nothing.
  pub rotated_current : shown_name rotated 0 ≡ []
  rotated_current =
      ap (shown_at rotated.file rotated.host) rotated_path
      ∙ (let e : (moved.next_file == moved.next_file) ≡ true = ground arith in rw e refl)

  pub rotated-IsSound : IsSound rotated (new_stream moved.next_file)
  rotated-IsSound = record {
    open_ = refl;
    linked = rotated_path;
    identified = refl;
    made = λ j i h e. made j i h e;
    apart = λ j h e.
        let less = v.made j moved.next_file (omega arith) (sym (rotated_entry j h) ∙ e) in
        omega (arith, less, moved_next);
    counted = ap (λ n. n % 2 ^ 64) (file_size_new s.options.path moved);
    can_open = moved_opens;
    can_rename = λ from to.
        ap (λ (f : Bytes → Bytes → Bool). f from to) moved-Shifted.files.can_rename
        ∙ closed-CanRename from to;
  }
    where
      made :
          (j i : ℕ)
          → j ≤ s.options.max_files
          → rotated.host.entry (name s.options.path j) ≡ some i
          → i < rotated.host.next_file
      made zero i h e =
          let same : some moved.next_file ≡ some i = sym rotated_path ∙ e in ground (arith, same)
      made (suc j) i h e =
          let less = v.made j i (omega arith) (sym (rotated_entry j (omega arith)) ∙ e) in
          omega (arith, less, moved_next)
