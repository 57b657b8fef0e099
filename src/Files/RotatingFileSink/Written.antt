-- ===== src/Files/RotatingFileSink/Written.antt =====
-- `Write` of a sound sink, step by step.
use ngin_log.Base.{
  ℕ, true, some, Bytes, arith, ◌==◌, if◌then◌else◌, ◌≡◌, inl, inr, refl, ap, ◌∙◌, Bool-cases,
}
use ngin_log.Types.{LogRecordView}
use ngin_log.Files.{Formatters, or_made, Stream}
use ngin_log.Files.RotatingFileSink.{
  RotatingFileSink, same_identity, read_path_identity, reopen_unless_same,
  detect_external_rotation_locked, put, rotate_if_due, ensure_open, write_line, write_opened,
  write_by, write,
}
use ngin_log.Files.RotatingFileSink.Due.{cond_true, cond_false}
use ngin_log.Files.RotatingFileSink.Rotated.{IsSound}

module _ {F : Type 0} where
  -- A known identity is the one under the path.
  pub detect_same :
      (s : RotatingFileSink F) (st : Stream) → IsSound s st → detect_external_rotation_locked s ≡ s
  unfolding detect_external_rotation_locked reopen_unless_same read_path_identity same_identity
  detect_same s st v =
      let e : (st.file == st.file) ≡ true = ground arith in
      let d : (s.host.device == s.host.device) ≡ true = ground arith in
      let p : read_path_identity s.options.path s.host ≡ some (s.host.device, st.file) =
        rw (v.linked, read_path_identity) refl in
      ap (λ i. reopen_unless_same i (read_path_identity s.options.path s.host) s) v.identified
      ∙ ap (λ i. reopen_unless_same (some (s.host.device, st.file)) i s) p
      ∙ (rw (d, e) refl)

  pub open_already :
      (s : RotatingFileSink F) (st : Stream) → s.file ≡ some st → ensure_open s.file s ≡ (true, s)
  unfolding ensure_open
  open_already s st e = ap (λ o. ensure_open o s) e

  -- The sink with the formatter that a record leaves it with.
  abbrev pub formatted : RotatingFileSink F → F → RotatingFileSink F
  formatted s f = record s { formatter = some f }

  pub formatted-IsSound :
      (s : RotatingFileSink F) (st : Stream) (f : F) → IsSound s st → IsSound (formatted s f) st
  formatted-IsSound s st f v = record {
    open_ = v.open_;
    linked = v.linked;
    identified = v.identified;
    made = v.made;
    apart = v.apart;
    counted = v.counted;
    can_open = v.can_open;
    can_rename = v.can_rename;
  }

  module _ (k : Formatters F) (localtime : ℕ → ℕ × ℕ) (r : LogRecordView) where
    pub write_opened_eq :
        (line : Bytes) (s : RotatingFileSink F) (st : Stream)
        → IsSound s st
        → (st' : Stream) → (rotate_if_due localtime r line s).file ≡ some st'
        → write_opened localtime r line (true, s)
          ≡ put line (rotate_if_due localtime r line s).file (rotate_if_due localtime r line s)
    unfolding write_opened write_line
    write_opened_eq line s st v st' e =
        let u = λ (t : RotatingFileSink F). rotate_if_due localtime r line t in
        let detected : (if s.options.detect_external_rotation
              then detect_external_rotation_locked s
              else s)
            ≡ s =
          elim (Bool-cases s.options.detect_external_rotation) [
            | inl b ↦ cond_true _ _ b ∙ detect_same s st v
            | inr b ↦ cond_false _ _ b
          ] in
        ap (λ t. write_line line (ensure_open (u t).file (u t))) detected
        ∙ ap (write_line line) (open_already (u s) st' e)

    -- A record's line is put at the end of the sink as it is after the rotation, if one was due.
    pub write_eq :
        (f : F) (s : RotatingFileSink F) (st : Stream)
        → IsSound s st
        → or_made k s.formatter ≡ some f
        → (st' : Stream)
        → (rotate_if_due localtime r (k.format f r).0 (formatted s (k.format f r).1)).file
          ≡ some st'
        → write k localtime r s
          ≡ put
              (k.format f r).0
              (rotate_if_due localtime r (k.format f r).0 (formatted s (k.format f r).1)).file
              (rotate_if_due localtime r (k.format f r).0 (formatted s (k.format f r).1))
    unfolding write write_by
    write_eq f s st v e st' o =
        let line = (k.format f r).0 in
        let s' = formatted s (k.format f r).1 in
        ap (λ g. write_by k localtime g r s) e
        ∙ ap (write_opened localtime r line) (open_already s' st v.open_)
        ∙ write_opened_eq line s' st (formatted-IsSound s st _ v) st' o
