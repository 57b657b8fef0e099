-- ===== src/Files/FileSink/Text.antt =====
-- A `FileSink` with its default formatter, the text formatter of src/NGIN/Log/RecordFormatter.cpp.
use ngin_log.Base.{
  Bool, true, List, [], ◌∷◌, ◌++◌, map, All, none, some, Bytes, flatten, if◌then◌else◌, ◌≡◌, refl,
  sym, ap, ◌∙◌,
}
use mathlib.Core.List.{append_assoc, append-nil}
use ngin_log.Types.{LogRecordView}
use ngin_log.Format.{Platform, iso8601_local}
use ngin_log.Format.Lines.{format_all-IsLine}
use ngin_log.Format.Output.{IsPlain, IsLine}
use ngin_log.Format.Text
use ngin_log.Format.Text.{TextRecordFormatterOptions, TimestampCache, empty_cache}
use ngin_log.Format.Text.Cache.{format_all, format_all_lem}
use ngin_log.Files.{FileSystem, Formatters, bytes_at}
use ngin_log.Files.FileSink.{FileSinkOptions, make_file_sink}
use ngin_log.Files.FileSink.Lifetime.{make_file_sink-calls}
use ngin_log.Files.FileSink.Lines.{write_, calls, log_of, flushed}

-- The object of a `TextRecordFormatter`, and its `Format`.
abbrev pub TextRecordFormatter : Type 0
TextRecordFormatter = TextRecordFormatterOptions × TimestampCache

-- The options of `FileSink::CreateDefaultFormatter`, but for the source.
abbrev pub default_options : Bool → TextRecordFormatterOptions
default_options include_source = record {
  include_source = include_source;
  timestamp_style = iso8601_local;
}

abbrev pub text_formatters : Platform → Formatters TextRecordFormatter
text_formatters p = record {
  format = λ f r. let (line, cache) = Text.format p f.0 f.1 r in (line, (f.0, cache));
  make_text = λ include_source. some (default_options include_source, empty_cache);
}

log_of-format_all :
    (p : Platform) (append : Bool) (o : TextRecordFormatterOptions) (c : TimestampCache)
    (rs : List LogRecordView) (b : Bytes)
    → log_of (text_formatters p) append (map write_ rs) (o, c) b
      ≡ b ++ flatten (format_all p o c rs)
unfolding log_of format_all
log_of-format_all p append o c [] b = sym (append-nil b)
log_of-format_all p append o c (r ∷ rs) b =
    let (line, cache) = Text.format p o c r in
    log_of-format_all p append o cache rs (b ++ line)
    ∙ append_assoc b line (flatten (format_all p o cache rs))

-- A file sink without a formatter of its own, on a host that allows it its path, is given records and
-- flushed. Its file then holds what it held before, or nothing of that where the sink does not append,
-- and for each record, in their order, what a new text formatter makes of it; and each of these is one
-- line, with no control byte, that is none below 0x20, but the newline at its end, if the standard library writes none.
pub make_file_sink-IsLine :
    (p : Platform) (path : Bytes) (append auto_flush : Bool) (fs : FileSystem)
    (rs : List LogRecordView)
    → IsPlain p
    → fs.can_open path ≡ true
    → let k = text_formatters p in
      let options : FileSinkOptions TextRecordFormatter = record {
        append = append;
        auto_flush = auto_flush;
        formatter = none;
      } in
      let lines = map (λ r. (Text.format p (default_options true) empty_cache r).0) rs in
      (flushed k path (calls k (map write_ rs) (make_file_sink k path options fs))
        ≡ (if append then bytes_at fs (fs.entry path) else []) ++ flatten lines)
      × All IsLine lines
make_file_sink-IsLine p path append auto_flush fs rs plain opens =
    let o = default_options true in
    let options : FileSinkOptions TextRecordFormatter = record {
      append = append;
      auto_flush = auto_flush;
      formatter = none;
    } in
    let old = if append then bytes_at fs (fs.entry path) else [] in
    (
      make_file_sink-calls (text_formatters p) path options fs (o, empty_cache) (map write_ rs)
            opens refl
          ∙ log_of-format_all p append o empty_cache rs old
          ∙ ap (λ l. old ++ flatten l) (format_all_lem p o rs),
      rw⁻¹ (format_all_lem p o rs) (format_all-IsLine p plain o rs),
    )
