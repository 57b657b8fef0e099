-- ===== src/Files/RotatingFileSink/Put.antt =====
-- What the last lines of `Write` and `Flush` do to the files that a sink shows.
use ngin_log.Base.{
  ℕ, suc, ◌+◌, ◌%◌, ◌^◌, ◌<◌, Bool, true, false, [], ◌++◌, Option, some, Bytes, arith, ◌==◌, ==_iff,
  length, length-append, add_u64, ◌≡◌, inl, inr, refl, sym, ap, ap₂, subst, ◌∙◌, Bool-cases,
  Option-cases,
}
use ngin_log.Files.{FileSystem, Stream, fwrite, fflush, shown, shown_at}
use ngin_log.Files.Streams.{IsStreamed, fwrite-IsStreamed, fflush-IsStreamed, if_nil}
use ngin_log.Files.RotatingFileSink.{RotatingFileSink, flush_if, put, flush}
use ngin_log.Files.RotatingFileSink.Shift.{name}
use ngin_log.Files.RotatingFileSink.Rotated.{shown_name, IsSound}

-- A sound sink with the same options, formatter and day, whose current file shows `line` behind what it showed, and whose
-- other files show what they showed.
pub record IsAppended {F : Type 0} (s u : RotatingFileSink F) (line : Bytes) : Type 0 where
  pub stream : Stream
  pub sound : IsSound u stream
  pub options : u.options ≡ s.options
  pub formatter : u.formatter ≡ s.formatter
  pub day : u.last_local_date_key ≡ s.last_local_date_key
  pub current : shown_name u 0 ≡ shown_name s 0 ++ line
  pub old : (j : ℕ) → j < s.options.max_files → shown_name u (suc j) ≡ shown_name s (suc j)

module _ {F : Type 0} (s : RotatingFileSink F) (st : Stream) (v : IsSound s st) where
  pub current_shown : shown_name s 0 ≡ shown (some st) s.host st.file
  current_shown =
      ap (λ o. shown_at o s.host (s.host.entry s.options.path)) v.open_
      ∙ ap (shown_at (some st) s.host) v.linked

  abbrev pub streamed : Stream → FileSystem → ℕ → RotatingFileSink F
  streamed st' fs' n = record s { file = some st'; host = fs'; current_file_bytes = n }

  old_shown :
      (st' : Stream) (fs' : FileSystem) (n : ℕ) (line : Bytes)
      → IsStreamed st st' s.host fs' line
      → (j : ℕ) → j < s.options.max_files
      → shown_name (streamed st' fs' n) (suc j) ≡ shown_name s (suc j)
  old_shown st' fs' n line h j less =
      ap (λ (f : Bytes → Option ℕ). shown_at (some st') fs' (f (name s.options.path (suc j))))
        h.entry
      ∙ (elim (Option-cases (s.host.entry (name s.options.path (suc j)))) [
        | inl e ↦ rw e refl
        | inr (i, e) ↦
            let other : (i == st.file) ≡ false = elim (Bool-cases (i == st.file)) [
              | inl same ↦ absurd (v.apart j less (e ∙ ap some ((==_iff i st.file).0 same)))
              | inr b ↦ b
            ] in
            ap (shown_at (some st') fs') e
            ∙ h.shows i
            ∙ (rw other refl)
            ∙ ap (λ o. shown_at o s.host (some i)) (sym v.open_)
            ∙ ap (shown_at s.file s.host) (sym e)
      ])

  pub streamed-IsAppended :
      (st' : Stream) (fs' : FileSystem) (n : ℕ) (line : Bytes)
      → IsStreamed st st' s.host fs' line
      → n % 2 ^ 64 ≡ (length (shown (some st) s.host st.file) + length line) % 2 ^ 64
      → IsAppended s (streamed st' fs' n) line
  streamed-IsAppended st' fs' n line h count =
      let same : (st.file == st.file) ≡ true = ground arith in
      let shows : shown (some st') fs' st.file ≡ shown (some st) s.host st.file ++ line =
        h.shows st.file ∙ (rw same refl) in
      let linked : fs'.entry s.options.path ≡ some st.file =
        ap (λ (f : Bytes → Option ℕ). f s.options.path) h.entry ∙ v.linked in
      record {
        stream = st';
        sound = record {
          open_ = refl;
          linked = linked ∙ ap some (sym h.file);
          identified = v.identified ∙ ap₂ (λ (d i : ℕ). some (d, i)) (sym h.device) (sym h.file);
          made = λ j i le e.
              subst (λ (k : ℕ). i < k) (sym h.next_file)
                (v.made j i le
                  (sym (ap (λ (f : Bytes → Option ℕ). f (name s.options.path j)) h.entry) ∙ e));
          apart = λ j less e. v.apart j less (
              sym (ap (λ (f : Bytes → Option ℕ). f (name s.options.path (suc j))) h.entry)
              ∙ e
              ∙ ap some h.file);
          counted =
              count
              ∙ ap (λ k. k % 2 ^ 64) (sym (length-append (shown (some st) s.host st.file) line))
              ∙ ap (λ (b : Bytes). length b % 2 ^ 64) (sym shows)
              ∙ ap (λ i. length (shown (some st') fs' i) % 2 ^ 64) (sym h.file);
          can_open = ap (λ (f : Bytes → Bool). f s.options.path) h.can_open ∙ v.can_open;
          can_rename = λ from to.
              ap (λ (f : Bytes → Bytes → Bool). f from to) h.can_rename ∙ v.can_rename from to;
        };
        options = refl;
        formatter = refl;
        day = refl;
        current =
            ap (shown_at (some st') fs') linked ∙ shows ∙ ap (λ b. b ++ line) (sym current_shown);
        old = old_shown st' fs' n line h;
      }

  -- The line is behind what the current file shows, whether it is flushed or not.
  pub put-IsAppended : (line : Bytes) → IsAppended s (put line s.file s) line
  unfolding put flush_if
  put-IsAppended line =
      let (st', fs') = fwrite line st s.host in
      let n = add_u64 s.current_file_bytes (length line) in
      let count : n % 2 ^ 64 ≡ (length (shown (some st) s.host st.file) + length line) % 2 ^ 64 =
        omega (arith, v.counted) in
      let h = fwrite-IsStreamed line st s.host in
      subst (λ u. IsAppended s u line) (sym (ap (λ o. put line o s) v.open_))
        (elim (Bool-cases s.options.auto_flush) [
          | inl e ↦
              subst (λ u. IsAppended s u line)
                (ap (λ b. flush_if b (some st') (streamed st' fs' n)) (sym e))
                (streamed-IsAppended _ _ n line (fflush-IsStreamed line st st' s.host fs' h) count)
          | inr e ↦
              subst (λ u. IsAppended s u line)
                (ap (λ b. flush_if b (some st') (streamed st' fs' n)) (sym e))
                (streamed-IsAppended st' fs' n line h count)
        ])

  pub flush-IsAppended : IsAppended s (flush s) []
  unfolding flush flush_if fflush
  flush-IsAppended =
      let h : IsStreamed st st s.host s.host [] = record {
        file = refl;
        entry = refl;
        next_file = refl;
        device = refl;
        can_open = refl;
        can_rename = refl;
        shows = λ i. sym (if_nil (i == st.file) (shown (some st) s.host i));
      } in
      let count : s.current_file_bytes % 2 ^ 64
          ≡ (length (shown (some st) s.host st.file) + length {A = ℕ} []) % 2 ^ 64 =
        omega (arith, v.counted) in
      subst (λ u. IsAppended s u []) (sym (ap (λ o. flush_if true o s) v.open_))
        (streamed-IsAppended _ _ s.current_file_bytes []
          (fflush-IsStreamed [] st st s.host s.host h) count)
