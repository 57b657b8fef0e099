-- ===== src/Files/RotatingFileSink/External.antt =====
-- A write behind an external rotation, which the sink detects by the identities of the files.
use ngin_log.Base.{
  ℕ, suc, ◌≤◌, ◌<◌, true, false, ◌++◌, none, some, Bytes, arith, ◌==◌, if◌then◌else◌, ◌≡◌, ◌≢◌, ◌⊎◌,
  inl, inr, refl, sym, ap, subst, ◌∙◌, Option-cases,
}
use ngin_log.Types.{LogRecordView}
use ngin_log.Files.{Formatters, or_made, Stream, fclose, fflush, shown_at, bytes_at}
use ngin_log.Files.RotatingFileSink.{
  RotatingFileSink, same_identity, read_path_identity, reopen_unless_same,
  detect_external_rotation_locked, open_file_locked, close_stream, close_file_locked, reopen,
  rotate_if_due, put, ensure_open, write_line, write_opened, write_by, write,
}
use ngin_log.Files.RotatingFileSink.Bounds.{Appends, StartsAnew}
use ngin_log.Files.RotatingFileSink.Due.{due_cases, cond_true}
use ngin_log.Files.RotatingFileSink.Made.{IsFine, stored, open_file_locked-IsOpened}
use ngin_log.Files.RotatingFileSink.Put.{put-IsAppended}
use ngin_log.Files.RotatingFileSink.Rotated.{
  shown_name, IsSound, rotated_old, rotated_current, rotated-IsSound,
}
use ngin_log.Files.RotatingFileSink.Shift.{name}
use ngin_log.Files.RotatingFileSink.Written.{detect_same, open_already, formatted, write_opened_eq}
use ngin_log.Files.Streams.{bytes-fclose}

-- `line` is at the end of the current file, with a rotation before it or without one, and the sink is
-- sound.
abbrev pub Ends : {F : Type 0} → Bytes → RotatingFileSink F → RotatingFileSink F → Type 0
Ends line s u = (Appends line s u ⊎ StartsAnew line s u) × ((st : Stream) × IsSound u st)

module _ {F : Type 0} (k : Formatters F) (localtime : ℕ → ℕ × ℕ) (r : LogRecordView) where
  opened_write :
      (line : Bytes) (t : RotatingFileSink F) (st : Stream)
      → IsSound t st
      → Ends line t (write_opened localtime r line (true, t))
  opened_write line t st v =
      let (w, way) = due_cases localtime r line t st v in
      elim way [
        | inl (_, h) ↦
            let a = put-IsAppended _ st w line in
            subst (Ends line t)
              (sym (
                write_opened_eq k localtime r line t st v st
                  (ap (λ (u : RotatingFileSink F). u.file) h ∙ w.open_)
                ∙ ap (λ (u : RotatingFileSink F). put line u.file u) h))
              (inl (record { current = a.current; old = a.old }), (a.stream, a.sound))
        | inr (_, h) ↦
            let v' = rotated-IsSound _ st w in
            let a = put-IsAppended _ _ v' line in
            subst (Ends line t)
              (sym (
                write_opened_eq k localtime r line t st v _
                  (ap (λ (u : RotatingFileSink F). u.file) h ∙ v'.open_)
                ∙ ap (λ (u : RotatingFileSink F). put line u.file u) h))
              (
                inr (record {
                  current = a.current ∙ ap (λ b. b ++ line) (rotated_current _ st w);
                  old = λ j less. a.old j less ∙ rotated_old _ st w j less;
                }),
                (a.stream, a.sound),
              )
      ]

  module _ (s : RotatingFileSink F) (st : Stream) (i : ℕ) (open_ : s.file ≡ some st)
      (identified : s.identity ≡ some (s.host.device, st.file))
      (moved : s.host.entry s.options.path ≡ some i) (other : i ≢ st.file) where
    -- The identity under the path is not that of the sink's file.
    detected : detect_external_rotation_locked s ≡ (reopen s).1
    unfolding detect_external_rotation_locked reopen_unless_same read_path_identity same_identity
    detected =
        let p : read_path_identity s.options.path s.host ≡ some (s.host.device, i) =
          rw (moved, read_path_identity) refl in
        let d : (s.host.device == s.host.device) ≡ true = ground arith in
        let e : (st.file == i) ≡ false = ground (arith, other) in
        ap (λ x. reopen_unless_same x (read_path_identity s.options.path s.host) s) identified
        ∙ ap (λ x. reopen_unless_same (some (s.host.device, st.file)) x s) p
        ∙ (rw (d, e) refl)

    abbrev closed_sink : RotatingFileSink F
    closed_sink = record s { file = none; host = fclose st s.host; identity = none }

    reopened : (reopen s).1 ≡ (open_file_locked closed_sink).1
    unfolding reopen close_file_locked close_stream
    reopened = ap (λ o. (open_file_locked (close_stream o s)).1) open_

    -- What was shown through the sink is stored when its file is closed.
    stored_shown : (j : ℕ) → stored s.options.path (fclose st s.host) j ≡ shown_name s j
    unfolding fclose fflush
    stored_shown j = elim (Option-cases (s.host.entry (name s.options.path j))) [
      | inl e ↦ ap (bytes_at (fclose st s.host)) e ∙ ap (shown_at s.file s.host) (sym e)
      | inr (x, e) ↦
          ap (bytes_at (fclose st s.host)) e
          ∙ bytes-fclose st s.host x
          ∙ ap (λ o. shown_at o s.host (some x)) (sym open_)
          ∙ ap (shown_at s.file s.host) (sym e)
    ]

    external_write :
        (line : Bytes)
        → IsFine s.options.path s.options.max_files (fclose st s.host)
        → s.options.append ≡ true
        → s.options.detect_external_rotation ≡ true
        → Ends line s (write_opened localtime r line (true, s))
    unfolding write_opened
    external_write line fine appends detects =
        let t = (open_file_locked closed_sink).1 in
        let h = open_file_locked-IsOpened closed_sink fine in
        let rest = λ (x : RotatingFileSink F).
          let u = rotate_if_due localtime r line x in write_line line (ensure_open u.file u) in
        let same : (if t.options.detect_external_rotation
              then detect_external_rotation_locked t
              else t)
            ≡ t =
          cond_true _ _ (ap (λ o. o.detect_external_rotation) h.options ∙ detects)
          ∙ detect_same t h.stream h.sound in
        let path : write_opened localtime r line (true, t)
            ≡ write_opened localtime r line (true, s) =
          ap rest same ∙ sym (ap rest (cond_true _ _ detects ∙ detected ∙ reopened)) in
        let shows =
          λ (j : ℕ) (less : j ≤ s.options.max_files). h.shows appends j less ∙ stored_shown j in
        let (way, sound) = subst (Ends line t) path (opened_write line t h.stream h.sound) in
        let below = λ (j : ℕ) (less : j < s.options.max_files).
          subst (λ o. j < o.max_files) (sym h.options) less in
        (
          elim way [
            | inl a ↦ inl (record {
              current = a.current ∙ ap (λ b. b ++ line) (shows 0 (omega arith));
              old = λ j less. a.old j (below j less) ∙ shows (suc j) (omega arith);
            })
            | inr a ↦ inr (record {
              current = a.current;
              old = λ j less. a.old j (below j less) ∙ shows j (omega arith);
            })
          ],
          sound,
        )

-- A sink that appends, detects external rotations and has or can make a formatter has its file open,
-- but another file stands at its path; the host allows it its path and the renames, and with the sink's
-- file closed, the files at its names were made and the one at the path is at no other of the names.
-- A record that is written then has its line at the end of the file that stands at the path. Either it
-- is behind what that held, and the files at the other names show what they showed through the sink,
-- its buffer included; or it is alone there behind a rotation, and each old file shows what the file
-- before it showed. The sink is sound again.
pub write-external :
    {F : Type 0} (k : Formatters F) (localtime : ℕ → ℕ × ℕ) (r : LogRecordView) (f : F)
    (s : RotatingFileSink F) (st : Stream) (i : ℕ)
    → s.file ≡ some st
    → s.identity ≡ some (s.host.device, st.file)
    → s.host.entry s.options.path ≡ some i
    → i ≢ st.file
    → IsFine s.options.path s.options.max_files (fclose st s.host)
    → s.options.append ≡ true
    → s.options.detect_external_rotation ≡ true
    → or_made k s.formatter ≡ some f
    → Ends (k.format f r).0 s (write k localtime r s)
unfolding write write_by
write-external k localtime r f s st i open_ identified moved other fine appends detects ready =
    let (line, f') = k.format f r in
    let s' = formatted s f' in
    let path : write k localtime r s ≡ write_opened localtime r line (true, s') =
      ap (λ g. write_by k localtime g r s) ready
      ∙ ap (write_opened localtime r line) (open_already s' st open_) in
    let (way, sound) =
      external_write k localtime r s' st i open_ identified moved other line fine appends detects in
    subst (Ends line s) (sym path) (
      elim way [
        | inl a ↦ inl (record { current = a.current; old = a.old })
        | inr a ↦ inr (record { current = a.current; old = a.old })
      ],
      sound,
    )
