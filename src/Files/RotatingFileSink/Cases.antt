-- ===== src/Files/RotatingFileSink/Cases.antt =====
-- The two ways in which `Write` goes on a sound sink: behind a rotation, and without one.
use ngin_log.Base.{
  ℕ, suc, ◌<◌, Bool, true, false, [], some, Bytes, ◌≡◌, ◌⊎◌, inl, inr, refl, sym, ap, subst, ◌∙◌,
}
use ngin_log.Base.Int.{ℤ}
use ngin_log.Types.{LogRecordView}
use ngin_log.Files.{Formatters, or_made, Stream}
use ngin_log.Files.RotatingFileSink.{
  RotatingFileSink, rotate_locked, rotate_if_due, too_large, put, write,
}
use ngin_log.Files.RotatingFileSink.Put.{IsAppended, put-IsAppended}
use ngin_log.Files.RotatingFileSink.Rotated.{
  shown_name, IsSound, rotate_locked_eq, rotated_old, rotated_current, rotated-IsSound,
}
use ngin_log.Files.RotatingFileSink.Due.{due_cases, is_due, day_after}
use ngin_log.Files.RotatingFileSink.Written.{formatted, formatted-IsSound, write_eq}

-- `b` shows what `s` shows, at each name.
pub record IsKept {F : Type 0} (s b : RotatingFileSink F) : Type 0 where
  pub options : b.options ≡ s.options
  pub shows : (j : ℕ) → shown_name b j ≡ shown_name s j

-- `b` shows nothing at its path, and at each other name what `s` shows at the name before it.
pub record IsRotated {F : Type 0} (s b : RotatingFileSink F) : Type 0 where
  pub options : b.options ≡ s.options
  pub current : shown_name b 0 ≡ []
  pub old : (j : ℕ) → j < s.options.max_files → shown_name b (suc j) ≡ shown_name s j

-- A rotation of a sound sink, which is sound again.
pub rotate_locked-IsRotated :
    {F : Type 0} (s : RotatingFileSink F) (st : Stream)
    → IsSound s st
    → IsRotated s (rotate_locked s).1
      × ((st' : Stream) × IsSound (rotate_locked s).1 st')
      × (rotate_locked s).1.formatter ≡ s.formatter
rotate_locked-IsRotated s st v =
    subst
      (λ (u : RotatingFileSink _).
        IsRotated s u × ((st' : Stream) × IsSound u st') × u.formatter ≡ s.formatter)
      (sym (ap (λ p. p.1) (rotate_locked_eq s st v)))
      (
        record { options = refl; current = rotated_current s st v; old = rotated_old s st v },
        (_, rotated-IsSound s st v),
        refl,
      )

-- A write puts the record's line behind the current file of a sink that is the one before it or its
-- rotation; it is the rotation where one is due.
pub record IsWrite {F : Type 0} (due : Bool) (day : ℤ) (f : F) (line : Bytes)
    (s u : RotatingFileSink F) : Type 0 where
  pub before : RotatingFileSink F
  pub appended : IsAppended before u line
  pub formatter : u.formatter ≡ some f
  pub last : u.last_local_date_key ≡ day
  pub way : (due ≡ false) × IsKept s before ⊎ (due ≡ true) × IsRotated s before

pub write_options :
    {F : Type 0} (due : Bool) (day : ℤ) (f : F) (line : Bytes) (s u : RotatingFileSink F)
    → IsWrite due day f line s u
    → u.options ≡ s.options
write_options due day f line s u w =
    w.appended.options ∙ (elim w.way [ inl (_, a) ↦ a.options | inr (_, a) ↦ a.options ])

pub write-IsWrite :
    {F : Type 0} (k : Formatters F) (localtime : ℕ → ℕ × ℕ) (r : LogRecordView) (f : F)
    (s : RotatingFileSink F) (st : Stream)
    → IsSound s st
    → or_made k s.formatter ≡ some f
    → IsWrite
        (is_due localtime r (k.format f r).0 s)
        (day_after localtime r (k.format f r).0 s)
        (k.format f r).1
        (k.format f r).0
        s
        (write k localtime r s)
unfolding too_large
write-IsWrite k localtime r f s st v e =
    let (line, f') = k.format f r in
    let t = formatted s f' in
    let due = is_due localtime r line s in
    let day = day_after localtime r line s in
    let (w, way) = due_cases localtime r line t st (formatted-IsSound s st f' v) in
    let done =
      λ (b : RotatingFileSink _) (st' : Stream) (c : IsSound b st') (g : b.formatter ≡ some f')
          (l : b.last_local_date_key ≡ day) (h : rotate_if_due localtime r line t ≡ b)
          (x : (due ≡ false) × IsKept s b ⊎ (due ≡ true) × IsRotated s b).
        let a = put-IsAppended b st' c line in
        subst (IsWrite due day f' line s)
          (sym (
            write_eq k localtime r f s st v e st'
              (ap (λ (u : RotatingFileSink _). u.file) h ∙ c.open_)
            ∙ ap (λ (u : RotatingFileSink _). put line u.file u) h))
          (record {
            before = b;
            appended = a;
            formatter = a.formatter ∙ g;
            last = a.day ∙ l;
            way = x;
          }) in
    elim way [
      | inl (n, h) ↦ done _ st w refl refl h (inl (n, record { options = refl; shows = λ j. refl }))
      | inr (d, h) ↦ done _ _ (rotated-IsSound _ st w) refl refl h (
          inr (
            d,
            record { options = refl; current = rotated_current _ st w; old = rotated_old _ st w },
          ))
    ]
