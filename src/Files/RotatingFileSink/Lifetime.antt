-- ===== src/Files/RotatingFileSink/Lifetime.antt =====
-- A sink from its constructor on.
use ngin_log.Base.{
  ℕ, zero, suc, ◌≤◌, true, List, [], ◌++◌, none, some, Bytes, arith, if◌then◌else◌, ◌≡◌, inl, inr,
  sym, ap, ap₂, subst, ◌∙◌, Bool-cases,
}
use mathlib.Core.List.{append_assoc}
use ngin_log.Base.Int.{negsuc}
use ngin_log.Files.{FileSystem, Stream, Formatters, or_made}
use ngin_log.Files.RotatingFileSink.{
  RotatingFileSink, RotatingFileSinkOptions, open_file_locked, rotate_locked,
  make_rotating_file_sink,
}
use ngin_log.Files.RotatingFileSink.Rotated.{shown_name, IsSound}
use ngin_log.Files.RotatingFileSink.Cases.{rotate_locked-IsRotated}
use ngin_log.Files.RotatingFileSink.Archive.{archive_from, archive, rotate_locked-archive}
use ngin_log.Files.RotatingFileSink.Calls.{Call, calls, lines, calls-archive}
use ngin_log.Files.RotatingFileSink.Made.{IsFine, IsOpened, stored_from, open_file_locked-IsOpened}

opened_archive :
    {F : Type 0} (s u : RotatingFileSink F)
    → IsOpened s u
    → s.options.append ≡ true
    → (n : ℕ) → n ≤ s.options.max_files
    → stored_from s.options.path s.host n ≡ archive_from u n
unfolding stored_from archive_from
opened_archive s u h a zero less = sym (h.shows a 0 less)
opened_archive s u h a (suc n) less =
    ap₂ (λ x y. x ++ y) (sym (h.shows a (suc n) less)) (opened_archive s u h a n (omega arith))

-- The sink of the constructor.
record IsMade {F : Type 0} (k : Formatters F) (options : RotatingFileSinkOptions F)
    (fs : FileSystem) (s : RotatingFileSink F) : Type 0 where
  stream : Stream
  sound : IsSound s stream
  options_ : s.options ≡ options
  formatter : s.formatter ≡ or_made k options.formatter
  kept :
      options.append ≡ true
      → (lost : Bytes) × (stored_from options.path fs options.max_files ≡ lost ++ archive s)

module _ {F : Type 0} (k : Formatters F) (options : RotatingFileSinkOptions F) (fs : FileSystem)
    (v : IsFine options.path options.max_files fs) where
  abbrev closed_sink : RotatingFileSink F
  closed_sink = record {
    options = options;
    formatter = or_made k options.formatter;
    file = none;
    current_file_bytes = 0;
    last_local_date_key = negsuc 0;
    identity = none;
    host = fs;
  }

  abbrev opened_sink : RotatingFileSink F
  opened_sink = (open_file_locked closed_sink).1

  opened_sink-IsOpened : IsOpened closed_sink opened_sink
  opened_sink-IsOpened = open_file_locked-IsOpened closed_sink v

  abbrev h : IsOpened closed_sink opened_sink
  h = opened_sink-IsOpened

  opened_kept :
      options.append ≡ true → stored_from options.path fs options.max_files ≡ archive opened_sink
  opened_kept a =
      opened_archive closed_sink opened_sink h a options.max_files (omega arith)
      ∙ ap (λ (o : RotatingFileSinkOptions F). archive_from opened_sink o.max_files) (sym h.options)

  make-IsMade : IsMade k options fs (make_rotating_file_sink k options fs)
  unfolding make_rotating_file_sink
  make-IsMade =
      let (a, (st, w), same) = rotate_locked-IsRotated opened_sink h.stream h.sound in
      elim (Bool-cases options.rotate_at_startup) [
        | inl e ↦
            subst
              (λ b. IsMade k options fs (if b then (rotate_locked opened_sink).1 else opened_sink))
              (sym e)
              (record {
                stream = st;
                sound = w;
                options_ = a.options ∙ h.options;
                formatter = same ∙ h.formatter;
                kept = λ b. (
                  shown_name opened_sink opened_sink.options.max_files,
                  opened_kept b ∙ rotate_locked-archive opened_sink h.stream h.sound,
                );
              })
        | inr e ↦
            subst
              (λ b. IsMade k options fs (if b then (rotate_locked opened_sink).1 else opened_sink))
              (sym e)
              (record {
                stream = h.stream;
                sound = h.sound;
                options_ = h.options;
                formatter = h.formatter;
                kept = λ b. ([], opened_kept b);
              })
      ]

-- A sink that appends and has or can make a formatter is made on a host that allows it its path and
-- the renames, where the files at its names were made and the one at its path is at no other of its
-- names. Through any calls of `Write`, `Flush`, `Reopen` and `ForceRotate`, its files show, from the
-- oldest to the current one, what was stored in the files of the same names and then the records'
-- lines in the order of the calls, but for bytes that are lost from the front.
pub make_rotating_file_sink-calls :
    {F : Type 0} (k : Formatters F) (localtime : ℕ → ℕ × ℕ) (options : RotatingFileSinkOptions F)
    (fs : FileSystem) (f : F) (cs : List Call)
    → IsFine options.path options.max_files fs
    → options.append ≡ true
    → or_made k options.formatter ≡ some f
    → (lost : Bytes) × (stored_from options.path fs options.max_files ++ lines k localtime cs f
        ≡ lost ++ archive (calls k localtime cs (make_rotating_file_sink k options fs)))
make_rotating_file_sink-calls k localtime options fs f cs v appends ready =
    let m = make-IsMade k options fs v in
    let s = make_rotating_file_sink k options fs in
    let (lost, kept) = m.kept appends in
    let ((lost', kept'), _) =
      calls-archive k localtime cs f s m.stream m.sound
        (ap (λ (o : RotatingFileSinkOptions _). o.append) m.options_ ∙ appends)
        (ap (or_made k) (m.formatter ∙ ready)) in
    (
      lost ++ lost',
      ap (λ x. x ++ lines k localtime cs f) kept
          ∙ append_assoc lost (archive s) (lines k localtime cs f)
          ∙ ap (λ x. lost ++ x) kept'
          ∙ sym (append_assoc lost lost' (archive (calls k localtime cs s))),
    )
