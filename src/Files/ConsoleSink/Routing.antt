-- ===== src/Files/ConsoleSink/Routing.antt =====
-- What a `ConsoleSink` prints to which stream.
use ngin_log.Base.{
  ℕ, Bool, true, false, not, ◌&&◌, List, [], ◌∷◌, ◌++◌, some, Bytes, arith, ◌==◌, if◌then◌else◌,
  ◌≡◌, ◌≢◌, inl, inr, refl, sym, ap, ap₂, subst, ◌∙◌, Bool-cases,
}
use mathlib.Core.List.{append_assoc, append-nil}
use ngin_log.Types.{LogRecordView}
use ngin_log.Files.{FileSystem, Stream, Formatters, fflush, shown}
use ngin_log.Files.Streams.{IsStreamed, fwrite-IsStreamed, fflush-IsStreamed}
use ngin_log.Files.ConsoleSink.{
  ConsoleSinkOptions, ConsoleSink, is_error, put, flush, or_default, write_by, write,
}

put-IsStreamed :
    (auto_flush : Bool) (line : Bytes) (st : Stream) (fs : FileSystem)
    → IsStreamed st (put auto_flush line st fs).0 fs (put auto_flush line st fs).1 line
unfolding put
put-IsStreamed true line st fs = fflush-IsStreamed line st _ fs _ (fwrite-IsStreamed line st fs)
put-IsStreamed false line st fs = fwrite-IsStreamed line st fs

-- The bytes of a stream's file and those that it holds.
abbrev pub printed : Stream → FileSystem → Bytes
printed st fs = fs.bytes st.file ++ st.pending

own_shown : (st : Stream) (fs : FileSystem) → shown (some st) fs st.file ≡ printed st fs
own_shown st fs = let same : (st.file == st.file) ≡ true = ground arith in rw same refl

module _ (st st' : Stream) (fs fs' : FileSystem) (line : Bytes)
    (h : IsStreamed st st' fs fs' line) where
  printed_more : printed st' fs' ≡ printed st fs ++ line
  printed_more =
      let same : (st.file == st.file) ≡ true = ground arith in
      sym (own_shown st' fs') ∙ ap (shown (some st') fs') h.file ∙ h.shows st.file ∙ (rw same refl)

  printed_other : (o : Stream) → (o.file == st.file) ≡ false → printed o fs' ≡ printed o fs
  printed_other o e =
      let other : (o.file == st'.file) ≡ false = ap (λ i. o.file == i) h.file ∙ e in
      let unshown : shown (some st') fs' o.file ≡ fs'.bytes o.file = rw other refl in
      ap (λ b. b ++ o.pending) (sym unshown ∙ h.shows o.file ∙ (rw e refl))

-- The record goes to `stderr`.
abbrev pub to_stderr : {F : Type 0} → ConsoleSinkOptions F → LogRecordView → Bool
to_stderr options r = options.use_stderr_for_errors && is_error r.level

module _ {F : Type 0} (k : Formatters F) where
  unfoldable pub write_records : List LogRecordView → ConsoleSink F → ConsoleSink F
  write_records [] s = s
  write_records (r ∷ rs) s = write_records rs (write k r s)

  -- The lines of the records that `p` selects, where each record is formatted in its turn.
  unfoldable pub lines_where : (LogRecordView → Bool) → List LogRecordView → F → Bytes
  lines_where p [] f = []
  lines_where p (r ∷ rs) f =
      (if p r then (k.format f r).0 else []) ++ lines_where p rs (k.format f r).1

  record IsPrinted (s u : ConsoleSink F) (f : F) (out err : Bytes) : Type 0 where
    options : u.options ≡ s.options
    stdout : u.stdout.file ≡ s.stdout.file
    stderr : u.stderr.file ≡ s.stderr.file
    ready : or_default k u.options u.formatter ≡ some f
    printed_out : printed u.stdout u.host ≡ printed s.stdout s.host ++ out
    printed_err : printed u.stderr u.host ≡ printed s.stderr s.host ++ err

  write-IsPrinted :
      (r : LogRecordView) (f : F) (s : ConsoleSink F)
      → or_default k s.options s.formatter ≡ some f
      → s.stdout.file ≢ s.stderr.file
      → IsPrinted s
          (write k r s)
          (k.format f r).1
          (if not (to_stderr s.options r) then (k.format f r).0 else [])
          (if to_stderr s.options r then (k.format f r).0 else [])
  unfolding write write_by
  write-IsPrinted r f s e apart =
      let (line, f') = k.format f r in
      let oe : (s.stdout.file == s.stderr.file) ≡ false = ground (arith, apart) in
      let eo : (s.stderr.file == s.stdout.file) ≡ false = ground (arith, apart) in
      let auto = s.options.auto_flush in
      let err = put auto line s.stderr s.host in
      let out = put auto line s.stdout s.host in
      let he = put-IsStreamed auto line s.stderr s.host in
      let ho = put-IsStreamed auto line s.stdout s.host in
      let result : Bool → ConsoleSink F = λ b.
        if b
        then record s { formatter = some f'; stderr = err.0; host = err.1 }
        else record s { formatter = some f'; stdout = out.0; host = out.1 } in
      let goal : Bool → ConsoleSink F → Type 0 =
        λ b u. IsPrinted s u f' (if not b then line else []) (if b then line else []) in
      subst (goal (to_stderr s.options r)) (sym (ap (λ g. write_by k g r s) e))
        (elim (Bool-cases (to_stderr s.options r)) [
          | inl b ↦
              subst (λ b. goal b (result b)) (sym b)
                (record {
                  options = refl;
                  stdout = refl;
                  stderr = he.file;
                  ready = refl;
                  printed_out =
                      printed_other _ _ _ _ line he s.stdout oe
                      ∙ sym (append-nil (printed s.stdout s.host));
                  printed_err = printed_more _ _ _ _ line he;
                })
          | inr b ↦
              subst (λ b. goal b (result b)) (sym b)
                (record {
                  options = refl;
                  stdout = ho.file;
                  stderr = refl;
                  ready = refl;
                  printed_out = printed_more _ _ _ _ line ho;
                  printed_err =
                      printed_other _ _ _ _ line ho s.stderr eo
                      ∙ sym (append-nil (printed s.stderr s.host));
                })
        ])

  -- A flush puts what was printed into the files.
  flush-stored :
      (s : ConsoleSink F)
      → s.stdout.file ≢ s.stderr.file
      → ((flush s).host.bytes s.stdout.file ≡ printed s.stdout s.host)
        × ((flush s).host.bytes s.stderr.file ≡ printed s.stderr s.host)
  unfolding flush fflush
  flush-stored s apart =
      let oe : (s.stdout.file == s.stderr.file) ≡ false = ground (arith, apart) in
      let eo : (s.stderr.file == s.stdout.file) ≡ false = ground (arith, apart) in
      let oo : (s.stdout.file == s.stdout.file) ≡ true = ground arith in
      let ee : (s.stderr.file == s.stderr.file) ≡ true = ground arith in
      ((rw oe (rw oo refl)), (rw ee (rw eo refl)))

  -- A console sink has or can make a formatter, and its two streams are on different files. When
  -- records are written to it and it is flushed, the file of each stream holds what was printed
  -- there before and then the lines of its records in their order: those of warnings, errors and
  -- fatal errors are on `stderr` where the options say so, and all others on `stdout`.
  pub write_records-flush :
      (rs : List LogRecordView) (f : F) (s : ConsoleSink F)
      → or_default k s.options s.formatter ≡ some f
      → s.stdout.file ≢ s.stderr.file
      → ((flush (write_records rs s)).host.bytes s.stdout.file
          ≡ printed s.stdout s.host ++ lines_where (λ r. not (to_stderr s.options r)) rs f)
        × ((flush (write_records rs s)).host.bytes s.stderr.file
            ≡ printed s.stderr s.host ++ lines_where (to_stderr s.options) rs f)
  unfolding write_records lines_where
  write_records-flush [] f s e apart =
      let (o, r) = flush-stored s apart in (o ∙ sym (append-nil _), r ∙ sym (append-nil _))
  write_records-flush (r ∷ rs) f s e apart =
      let h = write-IsPrinted r f s e apart in
      let u = write k r s in
      let f' = (k.format f r).1 in
      let apart' : u.stdout.file ≢ u.stderr.file = λ same. apart (sym h.stdout ∙ same ∙ h.stderr) in
      let (o, p) = write_records-flush rs f' u h.ready apart' in
      let whole =
        λ (i : ℕ) (st : Stream) (old line : Bytes) (q : ConsoleSinkOptions F → LogRecordView → Bool)
            (a : printed st u.host ≡ old ++ line)
            (b : (flush (write_records rs u)).host.bytes i
              ≡ printed st u.host ++ lines_where (q u.options) rs f').
          b
          ∙ ap₂ (λ x op. x ++ lines_where (q op) rs f') a h.options
          ∙ append_assoc old line (lines_where (q s.options) rs f') in
      (
        ap (λ i. (flush (write_records rs u)).host.bytes i) (sym h.stdout)
            ∙ whole _ u.stdout _ _ (λ op r. not (to_stderr op r)) h.printed_out o,
        ap (λ i. (flush (write_records rs u)).host.bytes i) (sym h.stderr)
            ∙ whole _ u.stderr _ _ to_stderr h.printed_err p,
      )
