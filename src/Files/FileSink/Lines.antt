-- ===== src/Files/FileSink/Lines.antt =====
-- What the file of a `FileSink` shows through its calls: a log that grows at its end.
use ngin_log.Base.{
  ℕ, Bool, true, List, [], ◌∷◌, ◌++◌, Option, none, some, Bytes, arith, ◌==◌, if◌then◌else◌, ◌≡◌,
  inl, inr, refl, sym, ap, ap₂, subst, ◌∙◌, Bool-cases,
}
use mathlib.Core.List.{append-nil}
use ngin_log.Types.{LogRecordView}
use ngin_log.Files.{
  FileSystem, Stream, Formatters, or_made, store, bytes_at, open_entry, fopen, fwrite, fflush,
  fclose, shown, shown_at,
}
use ngin_log.Files.Streams.{
  IsStreamed, fwrite-IsStreamed, fflush-IsStreamed, fclose-IsStreamed, new_stream, if_nil,
}
use ngin_log.Files.FileSink.{
  FileSink, opened, open_file_locked, close_stream, close_file_locked, reopen, ensure_open,
  flush_if, flush, put, write_line, format_by, format_record_locked, write,
}

-- The sink has the file at its path open, and a formatter; and the host allows it its path.
pub record IsSound {F : Type 0} (k : Formatters F) (f : F) (s : FileSink F) (st : Stream)
    : Type 0 where
  pub open_ : s.file ≡ some st
  pub linked : s.host.entry s.path ≡ some st.file
  pub can_open : s.host.can_open s.path ≡ true
  pub ready : or_made k s.formatter ≡ some f

-- What the sink shows at its path.
abbrev pub shown_path : {F : Type 0} → FileSink F → Bytes
shown_path s = shown_at s.file s.host (s.host.entry s.path)

pub data Call : Type 0 where
  write_ : LogRecordView → Call
  flush_ : Call
  reopen_ : Call

module _ {F : Type 0} (k : Formatters F) where
  unfoldable pub call : Call → FileSink F → FileSink F
  call (write_ r) s = write k r s
  call flush_ s = flush s
  call reopen_ s = (reopen s).1

  unfoldable pub calls : List Call → FileSink F → FileSink F
  unfolding call
  calls [] s = s
  calls (c ∷ cs) s = calls cs (call c s)

  -- The log that the calls make of one: records are appended, and a reopening keeps the log or starts
  -- it anew.
  unfoldable pub log_of : Bool → List Call → F → Bytes → Bytes
  log_of append [] f b = b
  log_of append (write_ r ∷ cs) f b = log_of append cs (k.format f r).1 (b ++ (k.format f r).0)
  log_of append (flush_ ∷ cs) f b = log_of append cs f b
  log_of append (reopen_ ∷ cs) f b = log_of append cs f (if append then b else [])

  pub record IsLogged (s u : FileSink F) (f : F) (b : Bytes) : Type 0 where
    pub stream : Stream
    pub sound : IsSound k f u stream
    pub append : u.append ≡ s.append
    pub path : u.path ≡ s.path
    pub shows : shown_path u ≡ b

  module _ (f : F) (s : FileSink F) (st : Stream) (v : IsSound k f s st) where
    current_shown : shown_path s ≡ shown (some st) s.host st.file
    current_shown =
        ap (λ o. shown_at o s.host (s.host.entry s.path)) v.open_
        ∙ ap (shown_at (some st) s.host) v.linked

    streamed-IsLogged :
        (st' : Stream) (fs' : FileSystem) (g : Option F) (f' : F) (line : Bytes)
        → or_made k g ≡ some f'
        → IsStreamed st st' s.host fs' line
        → IsLogged s
            (record s { file = some st'; host = fs'; formatter = g })
            f'
            (shown_path s ++ line)
    streamed-IsLogged st' fs' g f' line ready h =
        let same : (st.file == st.file) ≡ true = ground arith in
        let linked : fs'.entry s.path ≡ some st.file =
          ap (λ (e : Bytes → Option ℕ). e s.path) h.entry ∙ v.linked in
        record {
          stream = st';
          sound = record {
            open_ = refl;
            linked = linked ∙ ap some (sym h.file);
            can_open = ap (λ (c : Bytes → Bool). c s.path) h.can_open ∙ v.can_open;
            ready = ready;
          };
          append = refl;
          path = refl;
          shows =
              ap (shown_at (some st') fs') linked
              ∙ h.shows st.file
              ∙ (rw same refl)
              ∙ ap (λ b. b ++ line) (sym current_shown);
        }

    flush-IsLogged : IsLogged s (flush s) f (shown_path s)
    unfolding flush flush_if fflush
    flush-IsLogged =
        let h = fflush-IsStreamed [] st st s.host s.host (record {
          file = refl;
          entry = refl;
          next_file = refl;
          device = refl;
          can_open = refl;
          can_rename = refl;
          shows = λ i. sym (if_nil (i == st.file) (shown (some st) s.host i));
        }) in
        subst (λ u. IsLogged s u f (shown_path s)) (sym (ap (λ o. flush_if true o s) v.open_))
          (subst (IsLogged s _ f) (append-nil (shown_path s))
            (streamed-IsLogged _ _ s.formatter f [] v.ready h))

    -- Behind a flush the file holds what the sink shows.
    flush-stored : bytes_at (flush s).host ((flush s).host.entry s.path) ≡ shown_path s
    unfolding flush flush_if fflush
    flush-stored =
        let same : (st.file == st.file) ≡ true = ground arith in
        ap (λ o. let u = flush_if true o s in bytes_at u.host (u.host.entry s.path)) v.open_
        ∙ ap (bytes_at (fflush st s.host).1) v.linked
        ∙ (rw same refl)
        ∙ sym current_shown

    write-IsLogged :
        (r : LogRecordView)
        → IsLogged s (write k r s) (k.format f r).1 (shown_path s ++ (k.format f r).0)
    unfolding write format_record_locked format_by ensure_open write_line put flush_if
    write-IsLogged r =
        let (line, f') = k.format f r in
        let s' : FileSink F = record s { formatter = some f' } in
        let (st', fs') = fwrite line st s.host in
        let h = fwrite-IsStreamed line st s.host in
        let goal : FileSink F → Type 0 = λ u. IsLogged s u f' (shown_path s ++ line) in
        let written : write k r s
            ≡ flush_if s.auto_flush (some st') (record s' { file = some st'; host = fs' }) =
          ap (λ g. let (l, t) = format_by k g r s in write_line l (ensure_open t.file t)) v.ready
          ∙ ap (λ o. write_line line (ensure_open o s')) v.open_
          ∙ ap (λ o. put line o s') v.open_ in
        subst goal (sym written) (elim (Bool-cases s.auto_flush) [
          | inl e ↦
              subst (λ b. goal (flush_if b (some st') (record s' { file = some st'; host = fs' })))
                (sym e)
                (streamed-IsLogged _ _ (some f') f' line refl
                  (fflush-IsStreamed line st st' s.host fs' h))
          | inr e ↦
              subst (λ b. goal (flush_if b (some st') (record s' { file = some st'; host = fs' })))
                (sym e) (streamed-IsLogged st' fs' (some f') f' line refl h)
        ])

    reopen-IsLogged : IsLogged s (reopen s).1 f (if s.append then shown_path s else [])
    unfolding reopen open_file_locked close_file_locked close_stream opened fopen open_entry fclose
        fflush
    reopen-IsLogged =
        let fs' = fclose st s.host in
        let t : FileSink F = record s { file = none; host = fs' } in
        let next : Bool → ℕ × FileSystem → FileSink F =
          λ b p. (opened (if b then (some (new_stream p.0), p.1) else (none, fs')) t).1 in
        let reopened : (reopen s).1 ≡ next true (open_entry s.append s.path fs' (some st.file)) =
          ap (λ o. (open_file_locked (close_stream o s)).1) v.open_
          ∙ ap (λ b. next b (open_entry s.append s.path fs' (fs'.entry s.path))) v.can_open
          ∙ ap (λ o. next true (open_entry s.append s.path fs' o)) v.linked in
        let goal : Bool → FileSink F → Type 0 =
          λ b u. IsLogged s u f (if b then shown_path s else []) in
        subst (goal s.append) (sym reopened) (elim (Bool-cases s.append) [
          | inl e ↦
              subst (λ b. goal b (next true (open_entry b s.path fs' (some st.file)))) (sym e)
                (subst (IsLogged s _ f) (append-nil (shown_path s))
                  (streamed-IsLogged _ _ s.formatter f [] v.ready (fclose-IsStreamed st s.host)))
          | inr e ↦
              let same : (st.file == st.file) ≡ true = ground arith in
              subst (λ b. goal b (next true (open_entry b s.path fs' (some st.file)))) (sym e)
                (record {
                  stream = new_stream st.file;
                  sound = record {
                    open_ = refl;
                    linked = v.linked;
                    can_open = v.can_open;
                    ready = v.ready;
                  };
                  append = refl;
                  path = refl;
                  shows =
                      ap
                        (shown_at (some (new_stream st.file))
                          (record fs' { bytes = store st.file [] fs'.bytes }))
                        v.linked
                      ∙ (rw same refl);
                })
        ])

  -- The bytes of the file at a path, behind a flush of the sink.
  abbrev pub flushed : Bytes → FileSink F → Bytes
  flushed path s = bytes_at (flush s).host ((flush s).host.entry path)

  pub further :
      (cs : List Call) (f : F) (s u : FileSink F) (b : Bytes)
      → (h : IsLogged s u f b) → flushed u.path (calls cs u) ≡ log_of u.append cs f (shown_path u)
      → flushed s.path (calls cs u) ≡ log_of s.append cs f b
  further cs f s u b h e =
      ap (λ p. flushed p (calls cs u)) (sym h.path)
      ∙ e
      ∙ ap₂ (λ a x. log_of a cs f x) h.append h.shows

  pub calls-log_of :
      (cs : List Call) (f : F) (s : FileSink F) (st : Stream)
      → IsSound k f s st
      → flushed s.path (calls cs s) ≡ log_of s.append cs f (shown_path s)
  unfolding calls call log_of
  calls-log_of [] f s st v = flush-stored f s st v
  calls-log_of (write_ r ∷ cs) f s st v =
      further cs _ s _ _ (write-IsLogged f s st v r)
        (calls-log_of cs _ _ _ (write-IsLogged f s st v r).sound)
  calls-log_of (flush_ ∷ cs) f s st v =
      further cs f s _ _ (flush-IsLogged f s st v)
        (calls-log_of cs f _ _ (flush-IsLogged f s st v).sound)
  calls-log_of (reopen_ ∷ cs) f s st v =
      further cs f s _ _ (reopen-IsLogged f s st v)
        (calls-log_of cs f _ _ (reopen-IsLogged f s st v).sound)
