-- ===== src/Files/RotatingFileSink/Days.antt =====
-- Two rotations on one day.
use ngin_log.Base.{
  ℕ, Bool, true, false, not, ◌&&◌, ◌||◌, some, arith, Bytes, ◌≡◌, ◌⊎◌, inl, inr, ap, ap₂, ◌∙◌,
}
use ngin_log.Base.Int.{negsuc}
use ngin_log.Types.{LogRecordView}
use ngin_log.Format.Text.{int_eq}
use ngin_log.Files.{Formatters, or_made, Stream}
use ngin_log.Files.RotatingFileSink.{
  RotatingFileSink, RotatingFileSinkOptions, make_local_date_key, too_large, write,
}
use ngin_log.Files.RotatingFileSink.Bounds.{Appends, StartsAnew, write_lem}
use ngin_log.Files.RotatingFileSink.Cases.{write_options, write-IsWrite}
use ngin_log.Files.RotatingFileSink.Due.{cond_true}
use ngin_log.Files.RotatingFileSink.Rotated.{IsSound}

due_starts :
    {F : Type 0} (due : Bool) (line : Bytes) (s u : RotatingFileSink F)
    → (due ≡ false) × Appends line s u ⊎ (due ≡ true) × StartsAnew line s u
    → due ≡ true
    → StartsAnew line s u
due_starts due line s u (inl (n, _)) e = cc
due_starts due line s u (inr (_, a)) e = a

or_size : (a b : Bool) → a ≡ true → (a || b) ≡ true
or_size a b e = ground arith

or_day : (a b c d : Bool) → b ≡ true → c ≡ false → d ≡ false → (a || (b && (not c && not d))) ≡ true
or_day a b c d e f g = ground arith

-- A record that rotates by its size does not bring its day into the sink. So where a sink that rotates
-- daily has a known day, and a record of another day is too large for the current file, the next
-- record of that same day is put into a new file again. Each of the two is alone in its file, and each
-- of the two writes moves the older files by one name.
pub write-rotates_twice :
    {F : Type 0} (k : Formatters F) (localtime : ℕ → ℕ × ℕ) (r r' : LogRecordView) (f : F)
    (s : RotatingFileSink F) (st : Stream)
    → IsSound s st
    → or_made k s.formatter ≡ some f
    → s.options.rotate_daily_local ≡ true
    → int_eq s.last_local_date_key (negsuc 0) ≡ false
    → int_eq (make_local_date_key localtime r.timestamp) s.last_local_date_key ≡ false
    → too_large (k.format f r).0 s ≡ true
    → make_local_date_key localtime r'.timestamp ≡ make_local_date_key localtime r.timestamp
    → StartsAnew (k.format f r).0 s (write k localtime r s)
      × StartsAnew
          (k.format (k.format f r).1 r').0
          (write k localtime r s)
          (write k localtime r' (write k localtime r s))
write-rotates_twice k localtime r r' f s st v e daily known other large same =
    let u = write k localtime r s in
    let (way, (st', w), g, last) = write_lem k localtime r f s st v e in
    let kept : u.last_local_date_key ≡ s.last_local_date_key = last ∙ cond_true _ _ large in
    let still : u.options.rotate_daily_local ≡ true =
      ap (λ (o : RotatingFileSinkOptions _). o.rotate_daily_local)
        (write_options _ _ _ _ s u (write-IsWrite k localtime r f s st v e))
      ∙ daily in
    let (way', _, _, _) = write_lem k localtime r' (k.format f r).1 u st' w (ap (or_made k) g) in
    (
      due_starts _ _ s u way (or_size _ _ large),
      due_starts _ _ u (write k localtime r' u) way' (
          or_day _ _ _ _ still (ap (λ l. int_eq l (negsuc 0)) kept ∙ known)
            (ap₂ int_eq same kept ∙ other)),
    )
