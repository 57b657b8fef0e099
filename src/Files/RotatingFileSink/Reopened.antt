-- ===== src/Files/RotatingFileSink/Reopened.antt =====
-- `Reopen` of a sink that appends.
use ngin_log.Base.{ℕ, ◌+◌, ◌%◌, ◌^◌, true, [], none, some, arith, length, ◌≡◌, sym, ap, subst, ◌∙◌}
use ngin_log.Files.{FileSystem, Stream, bytes_at, fopen, fclose, fflush, file_size, shown}
use ngin_log.Files.Streams.{new_stream, fopen_again, bytes-fclose, fclose-IsStreamed}
use ngin_log.Files.RotatingFileSink.{
  RotatingFileSink, opened, open_file_locked, close_stream, close_file_locked, reopen,
}
use ngin_log.Files.RotatingFileSink.Put.{IsAppended, streamed-IsAppended}
use ngin_log.Files.RotatingFileSink.Rotated.{IsSound}

module _ {F : Type 0} (s : RotatingFileSink F) (st : Stream) (v : IsSound s st)
    (appends : s.options.append ≡ true) where
  abbrev after : FileSystem
  after = fclose st s.host

  reopen_eq : (reopen s).1 ≡ record s {
    file = some (new_stream st.file);
    host = after;
    current_file_bytes = file_size s.options.path after;
    identity = some (s.host.device, st.file);
  }
  unfolding reopen open_file_locked close_file_locked close_stream opened fclose fflush
  reopen_eq =
      let t : RotatingFileSink F = record s { file = none; host = after; identity = none } in
      ap (λ o. (open_file_locked (close_stream o s)).1) v.open_
      ∙ ap (λ b. (opened (fopen b s.options.path after) t).1) appends
      ∙ ap (λ p. (opened p t).1) (fopen_again s.options.path after st.file v.can_open v.linked)

  -- What was buffered is in the file, which shows what it showed.
  pub reopen-IsAppended : IsAppended s (reopen s).1 []
  unfolding fclose
  reopen-IsAppended =
      subst (λ u. IsAppended s u []) (sym reopen_eq)
        (subst
          (λ i.
            IsAppended s
              (record s {
                file = some (new_stream st.file);
                host = after;
                current_file_bytes = file_size s.options.path after;
                identity = i;
              })
              [])
          v.identified
          (streamed-IsAppended s st v (new_stream st.file) after (file_size s.options.path after) []
            (fclose-IsStreamed st s.host) counts))
    where
      counts :
          file_size s.options.path after % 2 ^ 64
          ≡ (length (shown (some st) s.host st.file) + length {A = ℕ} []) % 2 ^ 64
      counts =
          unfold file_size in
          let e : file_size s.options.path after ≡ length (shown (some st) s.host st.file) =
            ap (λ o. length (bytes_at after o)) v.linked
            ∙ ap length (bytes-fclose st s.host st.file) in
          omega (arith, e)
