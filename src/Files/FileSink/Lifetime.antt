-- ===== src/Files/FileSink/Lifetime.antt =====
-- A `FileSink` from its constructor on.
use ngin_log.Base.{
  ℕ, Bool, true, false, List, [], Option, none, some, Bytes, arith, ◌==◌, if◌then◌else◌,
  bytes_eq_refl, ◌≡◌, refl, sym, ap, subst, ◌∙◌,
}
use mathlib.Core.List.{append-nil}
use ngin_log.Files.{FileSystem, Formatters, or_made, store, bytes_at, open_entry, fopen, shown_at}
use ngin_log.Files.Streams.{new_stream}
use ngin_log.Files.FileSink.{FileSinkOptions, FileSink, opened, open_file_locked, make_file_sink}
use ngin_log.Files.FileSink.Lines.{IsLogged, Call, calls, log_of, flushed, further, calls-log_of}

no_bytes : (b : Bool) → ◌≡◌ {A = Bytes} [] (if b then [] else [])
no_bytes true = refl
no_bytes false = refl

module _ {F : Type 0} (k : Formatters F) where
  abbrev closed_sink : Bytes → FileSinkOptions F → FileSystem → FileSink F
  closed_sink path options fs = record {
    path = path;
    append = options.append;
    auto_flush = options.auto_flush;
    file = none;
    formatter = or_made k options.formatter;
    host = fs;
  }

  module _ (path : Bytes) (options : FileSinkOptions F) (fs : FileSystem) (f : F)
      (opens : fs.can_open path ≡ true) (ready : or_made k options.formatter ≡ some f) where
    ready_again : or_made k (or_made k options.formatter) ≡ some f
    ready_again = ap (or_made k) ready

    opened_sink : Option ℕ → Bool → FileSink F
    unfolding opened open_entry
    opened_sink o b =
        let (i, fs') = open_entry b path fs o in
        (opened (some (new_stream i), fs') (closed_sink path options fs)).1

    opened-IsLogged :
        (o : Option ℕ) (b : Bool)
        → fs.entry path ≡ o
        → IsLogged k
            (closed_sink path options fs)
            (opened_sink o b)
            f
            (if b then bytes_at fs o else [])
    unfolding opened_sink opened open_entry
    opened-IsLogged none b e =
        let same : (fs.next_file == fs.next_file) ≡ true = ground arith in
        record {
          stream = new_stream fs.next_file;
          sound = record {
            open_ = refl;
            linked = rw (bytes_eq_refl path) refl;
            can_open = opens;
            ready = ready_again;
          };
          append = refl;
          path = refl;
          shows = (rw (bytes_eq_refl path) (rw same refl)) ∙ no_bytes b;
        }
    opened-IsLogged (some i) true e =
        let same : (i == i) ≡ true = ground arith in
        record {
          stream = new_stream i;
          sound = record { open_ = refl; linked = e; can_open = opens; ready = ready_again };
          append = refl;
          path = refl;
          shows =
              ap (shown_at (some (new_stream i)) fs) e ∙ (rw same refl) ∙ append-nil (fs.bytes i);
        }
    opened-IsLogged (some i) false e =
        let same : (i == i) ≡ true = ground arith in
        record {
          stream = new_stream i;
          sound = record { open_ = refl; linked = e; can_open = opens; ready = ready_again };
          append = refl;
          path = refl;
          shows =
              ap (shown_at (some (new_stream i)) (record fs { bytes = store i [] fs.bytes })) e
              ∙ (rw same refl);
        }

    made-IsLogged :
        IsLogged k
          (closed_sink path options fs)
          (make_file_sink k path options fs)
          f
          (if options.append then bytes_at fs (fs.entry path) else [])
    unfolding make_file_sink open_file_locked opened fopen opened_sink
    made-IsLogged =
        let t = closed_sink path options fs in
        let made : make_file_sink k path options fs ≡ opened_sink (fs.entry path) options.append =
          ap
            (λ b.
              let p = open_entry options.append path fs (fs.entry path) in
              (opened (if b then (some (new_stream p.0), p.1) else (none, fs)) t).1)
            opens in
        subst (λ u. IsLogged k t u f (if options.append then bytes_at fs (fs.entry path) else []))
          (sym made) (opened-IsLogged (fs.entry path) options.append refl)

-- A sink that has or can make a formatter is made on a host that allows it its path. Through any calls
-- of `Write`, `Flush` and `Reopen`, the file at the path holds, behind a last flush, the log that
-- starts from what was stored there, or from nothing where the sink does not append: each record's
-- line is appended to it in the order of the calls, and a reopening empties it where the sink does not
-- append.
pub make_file_sink-calls :
    {F : Type 0} (k : Formatters F) (path : Bytes) (options : FileSinkOptions F) (fs : FileSystem)
    (f : F) (cs : List Call)
    → fs.can_open path ≡ true
    → or_made k options.formatter ≡ some f
    → flushed k path (calls k cs (make_file_sink k path options fs))
      ≡ log_of k options.append cs f (if options.append then bytes_at fs (fs.entry path) else [])
make_file_sink-calls k path options fs f cs opens ready =
    let h = made-IsLogged k path options fs f opens ready in
    further k cs f (closed_sink k path options fs) (make_file_sink k path options fs) _ h
      (calls-log_of k cs f (make_file_sink k path options fs) h.stream h.sound)
