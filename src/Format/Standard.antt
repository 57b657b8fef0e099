-- ===== src/Format/Standard.antt =====
-- The three formatters of src/NGIN/Log/RecordFormatter.cpp behind `IRecordFormatter` of
-- include/NGIN/Log/RecordFormatter.hpp.
use ngin_log.Base.{List, [], ◌∷◌, All, Bytes, ◌≡◌, refl, ap}
use ngin_log.Types.{LogRecordView}
use ngin_log.Format.{Platform}
use ngin_log.Format.Output.{IsPlain, IsLine}
use ngin_log.Format.Lines.{format_all-IsLine, json_format-IsLine, logfmt_format-IsLine}
use ngin_log.Format.Text
use ngin_log.Format.Text.{TextRecordFormatterOptions, TimestampCache, empty_cache}
use ngin_log.Format.Text.Cache.{format_all}
use ngin_log.Format.Json
use ngin_log.Format.Json.{JsonRecordFormatterOptions}
use ngin_log.Format.LogFmt
use ngin_log.Format.LogFmt.{LogFmtRecordFormatterOptions}

pub data RecordFormatter : Type 0 where
  text_formatter : TextRecordFormatterOptions → TimestampCache → RecordFormatter
  json_formatter : JsonRecordFormatterOptions → RecordFormatter
  logfmt_formatter : LogFmtRecordFormatterOptions → RecordFormatter

-- The virtual call of `Format`: only the text formatter changes by it.
unfoldable pub format_record : Platform → RecordFormatter → LogRecordView → Bytes × RecordFormatter
format_record p (text_formatter o cache) r =
    let (line, cache') = Text.format p o cache r in (line, text_formatter o cache')
format_record p (json_formatter o) r = (Json.format p o r, json_formatter o)
format_record p (logfmt_formatter o) r = (LogFmt.format p o r, logfmt_formatter o)

-- What a formatter makes of records, one after the other.
unfoldable pub outputs : Platform → RecordFormatter → List LogRecordView → List Bytes
unfolding format_record
outputs p f [] = []
outputs p f (r ∷ rs) = let (line, f') = format_record p f r in line ∷ outputs p f' rs

-- The formatters as their constructors make them.
abbrev pub new_text : TextRecordFormatterOptions → RecordFormatter
new_text o = text_formatter o empty_cache

pub data IsNew : RecordFormatter → Type 0 where
  text_ : (o : TextRecordFormatterOptions) → IsNew (new_text o)
  json_ : (o : JsonRecordFormatterOptions) → IsNew (json_formatter o)
  logfmt_ : (o : LogFmtRecordFormatterOptions) → IsNew (logfmt_formatter o)

outputs-format_all :
    (p : Platform) (o : TextRecordFormatterOptions) (c : TimestampCache) (rs : List LogRecordView)
    → outputs p (text_formatter o c) rs ≡ format_all p o c rs
unfolding outputs format_all
outputs-format_all p o c [] = refl
outputs-format_all p o c (r ∷ rs) =
    let (line, cache) = Text.format p o c r in ap (λ l. line ∷ l) (outputs-format_all p o cache rs)

-- A new formatter, for text, JSON or logfmt and with any options, is given records one after the other.
-- Whatever they hold, each of its outputs is one line: no control byte, that is none below 0x20, stands in it but the
-- newline at its end, if the standard library writes none.
pub outputs-IsLine :
    (p : Platform) (f : RecordFormatter) (rs : List LogRecordView)
    → IsPlain p
    → IsNew f
    → All IsLine (outputs p f rs)
unfolding outputs
outputs-IsLine p f rs plain (text_ o) =
    rw (outputs-format_all p o empty_cache rs) (format_all-IsLine p plain o rs)
outputs-IsLine p f [] plain (json_ o) = tt
outputs-IsLine p f (r ∷ rs) plain (json_ o) =
    (json_format-IsLine p plain o r, outputs-IsLine p (json_formatter o) rs plain (json_ o))
outputs-IsLine p f [] plain (logfmt_ o) = tt
outputs-IsLine p f (r ∷ rs) plain (logfmt_ o) =
    (logfmt_format-IsLine p plain o r, outputs-IsLine p (logfmt_formatter o) rs plain (logfmt_ o))
