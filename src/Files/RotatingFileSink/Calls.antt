-- ===== src/Files/RotatingFileSink/Calls.antt =====
-- Sequences of calls of the public operations, and what the files show behind them.
use ngin_log.Base.{
  ℕ, true, List, [], ◌∷◌, ◌++◌, some, Bytes, arith, ◌≡◌, inl, inr, refl, sym, ap, ◌∙◌,
}
use mathlib.Core.List.{append_assoc, append-nil}
use ngin_log.Types.{LogRecordView}
use ngin_log.Files.{Formatters, or_made, Stream}
use ngin_log.Files.RotatingFileSink.{RotatingFileSink, rotate_locked, reopen, flush, write}
use ngin_log.Files.RotatingFileSink.Put.{IsAppended, flush-IsAppended}
use ngin_log.Files.RotatingFileSink.Reopened.{reopen-IsAppended}
use ngin_log.Files.RotatingFileSink.Rotated.{shown_name, IsSound}
use ngin_log.Files.RotatingFileSink.Cases.{write-IsWrite, rotate_locked-IsRotated}
use ngin_log.Files.RotatingFileSink.Archive.{
  archive_from, archive, appended_archive, write_archive, rotate_locked-archive,
}

-- A call of a public operation of the sink.
pub data Call : Type 0 where
  write_ : LogRecordView → Call
  flush_ : Call
  force_rotate : Call
  reopen_ : Call

module _ {F : Type 0} (k : Formatters F) (localtime : ℕ → ℕ × ℕ) where
  unfoldable pub call : Call → RotatingFileSink F → RotatingFileSink F
  call (write_ r) s = write k localtime r s
  call flush_ s = flush s
  call force_rotate s = (rotate_locked s).1
  call reopen_ s = (reopen s).1

  unfoldable pub calls : List Call → RotatingFileSink F → RotatingFileSink F
  unfolding call
  calls [] s = s
  calls (c ∷ cs) s = calls cs (call c s)

  -- The lines of the records among the calls, with a formatter that formats them one by one.
  unfoldable pub lines : List Call → F → Bytes
  lines [] f = []
  lines (write_ r ∷ cs) f = (k.format f r).0 ++ lines cs (k.format f r).1
  lines (_ ∷ cs) f = lines cs f

  -- One call: the sink is sound again, and the bytes of its archive are those before it and the line of
  -- the call, but for some that are lost from the front.
  record IsCalled (c : Call) (f : F) (s : RotatingFileSink F) : Type 0 where
    stream : Stream
    sound : IsSound (call c s) stream
    append : (call c s).options.append ≡ s.options.append
    next : F
    ready : or_made k (call c s).formatter ≡ some next
    following : (cs : List Call) → lines (c ∷ cs) f ≡ lines (c ∷ []) f ++ lines cs next
    lost : Bytes
    kept : archive s ++ lines (c ∷ []) f ≡ lost ++ archive (call c s)

  write-IsCalled :
      (r : LogRecordView) (f : F) (s : RotatingFileSink F) (st : Stream)
      → IsSound s st
      → or_made k s.formatter ≡ some f
      → IsCalled (write_ r) f s
  unfolding call lines
  write-IsCalled r f s st v e =
      let w = write-IsWrite k localtime r f s st v e in
      let line = (k.format f r).0 in
      record {
        stream = w.appended.stream;
        sound = w.appended.sound;
        append =
            ap (λ o. o.append)
              (w.appended.options
                ∙ (elim w.way [ inl (_, a) ↦ a.options | inr (_, a) ↦ a.options ]));
        next = (k.format f r).1;
        ready = ap (or_made k) w.formatter;
        following = λ cs. ap (λ l. l ++ lines cs (k.format f r).1) (sym (append-nil line));
        lost = elim (write_archive _ _ _ line s _ w) [
          | inl _ ↦ []
          | inr _ ↦ shown_name s s.options.max_files
        ];
        kept =
            ap (λ l. archive s ++ l) (append-nil line)
            ∙ (elim (write_archive _ _ _ line s _ w)
                as (λ x.
                  archive s ++ line
                  ≡ (elim x [ inl _ ↦ [] | inr _ ↦ shown_name s s.options.max_files ])
                    ++ archive (write k localtime r s)) [ inl h ↦ h | inr h ↦ h ]);
      }

  -- A call that formats no record and appends nothing.
  quiet-IsCalled :
      (c : Call) (f : F) (s : RotatingFileSink F)
      → or_made k s.formatter ≡ some f
      → ((cs : List Call) → lines (c ∷ cs) f ≡ lines cs f)
      → IsAppended s (call c s) []
      → IsCalled c f s
  unfolding lines
  quiet-IsCalled c f s e same a = record {
    stream = a.stream;
    sound = a.sound;
    append = ap (λ o. o.append) a.options;
    next = f;
    ready = ap (or_made k) a.formatter ∙ e;
    following = λ cs. same cs ∙ ap (λ l. l ++ lines cs f) (sym (same []));
    lost = [];
    kept =
        ap (λ l. archive s ++ l) (same [])
        ∙ sym (appended_archive s (call c s) [] a s.options.max_files (omega arith))
        ∙ ap (λ o. archive_from (call c s) o.max_files) (sym a.options);
  }

  call-IsCalled :
      (c : Call) (f : F) (s : RotatingFileSink F) (st : Stream)
      → IsSound s st
      → s.options.append ≡ true
      → or_made k s.formatter ≡ some f
      → IsCalled c f s
  unfolding call lines
  call-IsCalled (write_ r) f s st v appends e = write-IsCalled r f s st v e
  call-IsCalled flush_ f s st v appends e =
      quiet-IsCalled flush_ f s e (λ cs. refl) (flush-IsAppended s st v)
  call-IsCalled reopen_ f s st v appends e =
      quiet-IsCalled reopen_ f s e (λ cs. refl) (reopen-IsAppended s st v appends)
  call-IsCalled force_rotate f s st v appends e =
      let (a, (st', w), same) = rotate_locked-IsRotated s st v in
      record {
        stream = st';
        sound = w;
        append = ap (λ o. o.append) a.options;
        next = f;
        ready = ap (or_made k) same ∙ e;
        following = λ cs. refl;
        lost = shown_name s s.options.max_files;
        kept = append-nil (archive s) ∙ rotate_locked-archive s st v;
      }

  -- Through any calls of `Write`, `Flush`, `Reopen` and `ForceRotate` on a sound sink that appends,
  -- the files show, from the oldest to the current one, what they showed and then the records' lines
  -- in the order of the calls, but for bytes that are lost from the front; and the sink is sound again.
  pub calls-archive :
      (cs : List Call) (f : F) (s : RotatingFileSink F) (st : Stream)
      → IsSound s st
      → s.options.append ≡ true
      → or_made k s.formatter ≡ some f
      → ((lost : Bytes) × (archive s ++ lines cs f ≡ lost ++ archive (calls cs s)))
        × ((st' : Stream) × IsSound (calls cs s) st')
  unfolding calls lines
  calls-archive [] f s st v appends e = (([], append-nil (archive s)), (st, v))
  calls-archive (c ∷ cs) f s st v appends e =
      let h = call-IsCalled c f s st v appends e in
      let ((lost, kept), sound) =
        calls-archive cs h.next (call c s) h.stream h.sound (h.append ∙ appends) h.ready in
      (
        (
          h.lost ++ lost,
          ap (λ l. archive s ++ l) (h.following cs)
              ∙ sym (append_assoc (archive s) (lines (c ∷ []) f) (lines cs h.next))
              ∙ ap (λ l. l ++ lines cs h.next) h.kept
              ∙ append_assoc h.lost (archive (call c s)) (lines cs h.next)
              ∙ ap (λ l. h.lost ++ l) kept
              ∙ sym (append_assoc h.lost lost (archive (calls cs (call c s)))),
        ),
        sound,
      )
