-- ===== src/Files/RotatingFileSink/Bounds.antt =====
-- What one `Write` leaves in the files: which are moved, and how large the current one is.
use ngin_log.Base.{
  ℕ, suc, ◌+◌, ◌^◌, ◌≤◌, ◌<◌, Bool, true, false, ◌++◌, some, Bytes, arith, ◌||◌, length,
  length-append, add_u64, ◌≡◌, ◌⊎◌, inl, inr, sym, ap, subst, ◌∙◌,
}
use ngin_log.Base.Int.{ℤ}
use ngin_log.Types.{LogRecordView}
use ngin_log.Files.{Formatters, or_made, Stream, shown}
use ngin_log.Files.RotatingFileSink.{RotatingFileSink, too_large, write}
use ngin_log.Files.RotatingFileSink.Put.{current_shown}
use ngin_log.Files.RotatingFileSink.Due.{is_due, day_after}
use ngin_log.Files.RotatingFileSink.Rotated.{shown_name, IsSound}
use ngin_log.Files.RotatingFileSink.Cases.{IsWrite, write-IsWrite}

-- The current file shows `line` behind what it showed, and the others show what they showed.
pub record Appends {F : Type 0} (line : Bytes) (s u : RotatingFileSink F) : Type 0 where
  pub current : shown_name u 0 ≡ shown_name s 0 ++ line
  pub old : (j : ℕ) → j < s.options.max_files → shown_name u (suc j) ≡ shown_name s (suc j)

-- The current file shows `line` alone, and each of the others what the file before it showed.
pub record StartsAnew {F : Type 0} (line : Bytes) (s u : RotatingFileSink F) : Type 0 where
  pub current : shown_name u 0 ≡ line
  pub old : (j : ℕ) → j < s.options.max_files → shown_name u (suc j) ≡ shown_name s j

write_ways :
    {F : Type 0} (due : Bool) (day : ℤ) (f : F) (line : Bytes) (s u : RotatingFileSink F)
    → IsWrite due day f line s u
    → (due ≡ false) × Appends line s u ⊎ (due ≡ true) × StartsAnew line s u
write_ways due day f line s u w =
    let a = w.appended in
    elim w.way [
      | inl (n, k) ↦ inl (
        n,
        record {
          current = a.current ∙ ap (λ b. b ++ line) (k.shows 0);
          old = λ j h. a.old j (subst (λ o. j < o.max_files) (sym k.options) h) ∙ k.shows (suc j);
        },
      )
      | inr (d, k) ↦ inr (
        d,
        record {
          current = a.current ∙ ap (λ b. b ++ line) k.current;
          old = λ j h. a.old j (subst (λ o. j < o.max_files) (sym k.options) h) ∙ k.old j h;
        },
      )
    ]

-- A record that is written to a sound sink with a formatter has its line at the end of the current
-- file. It is behind what that file showed, and no other file has changed, where no rotation is due;
-- where one is, it is alone there, and each old file shows what the file before it showed. A rotation
-- is due when the line would make the file larger than its limit, or when the sink rotates daily and
-- the record's day is not the known one that it keeps. The sink is sound again, its formatter is as
-- the record left it, and its day is the record's where the sink rotates daily, but not where the size
-- called for the rotation.
pub write_lem :
    {F : Type 0} (k : Formatters F) (localtime : ℕ → ℕ × ℕ) (r : LogRecordView) (f : F)
    (s : RotatingFileSink F) (st : Stream)
    → IsSound s st
    → or_made k s.formatter ≡ some f
    → ((is_due localtime r (k.format f r).0 s ≡ false)
          × Appends (k.format f r).0 s (write k localtime r s)
        ⊎ (is_due localtime r (k.format f r).0 s ≡ true)
          × StartsAnew (k.format f r).0 s (write k localtime r s))
      × ((st' : Stream) × IsSound (write k localtime r s) st')
      × ((write k localtime r s).formatter ≡ some (k.format f r).1)
      × ((write k localtime r s).last_local_date_key ≡ day_after localtime r (k.format f r).0 s)
write_lem k localtime r f s st v e =
    let w = write-IsWrite k localtime r f s st v e in
    (write_ways _ _ _ _ s _ w, (w.appended.stream, w.appended.sound), w.formatter, w.last)

or_false : (a b : Bool) → (a || b) ≡ false → a ≡ false
or_false a b e = ground arith

-- The counter of a sound sink, as far as the size test sees it.
small_length :
    {F : Type 0} (s : RotatingFileSink F) (st : Stream) (line : Bytes)
    → IsSound s st
    → 0 < s.options.max_file_bytes
    → length (shown_name s 0) + length line < 2 ^ 64
    → too_large line s ≡ false
    → length (shown_name s 0) + length line ≤ s.options.max_file_bytes
unfolding too_large
small_length s st line v limited fits small =
    let shows : length (shown_name s 0) ≡ length (shown (some st) s.host st.file) =
      ap length (current_shown s st v) in
    let whole : add_u64 s.current_file_bytes (length line) ≡ length (shown_name s 0) + length line =
      omega (arith, v.counted, shows, fits) in
    ground (arith, small, limited, whole)

-- With a size limit, and as long as sizes fit in 64 bits, the current file of a sound sink with a
-- formatter is within the limit behind a write, or shows the record's line alone.
pub write-size :
    {F : Type 0} (k : Formatters F) (localtime : ℕ → ℕ × ℕ) (r : LogRecordView) (f : F)
    (s : RotatingFileSink F) (st : Stream)
    → IsSound s st
    → or_made k s.formatter ≡ some f
    → 0 < s.options.max_file_bytes
    → length (shown_name s 0) + length (k.format f r).0 < 2 ^ 64
    → (length (shown_name (write k localtime r s) 0) ≤ s.options.max_file_bytes)
      ⊎ (shown_name (write k localtime r s) 0 ≡ (k.format f r).0)
write-size k localtime r f s st v e limited fits =
    let (way, _, _, _) = write_lem k localtime r f s st v e in
    elim way [
      | inl (n, a) ↦
          let bound = small_length s st (k.format f r).0 v limited fits (or_false _ _ n) in
          inl (
            omega
              (arith, ap length a.current, length-append (shown_name s 0) (k.format f r).0, bound))
      | inr (_, a) ↦ inr a.current
    ]
