-- ===== src/Format/Json/ReadFile.antt =====
-- What the reader of Format/Json/Reader gets out of a file with lines of `JsonRecordFormatter`,
-- src/NGIN/Log/RecordFormatter.cpp.
use ngin_log.Base.{
  ℕ, zero, suc, ◌≤◌, false, List, [], ◌∷◌, map, Option, none, some, Bytes, All, arith, length,
  length-append, flatten, ◌≡◌, refl, sym, ap, subst, ◌∙◌,
}
use mathlib.Core.List.{append-nil}
use ngin_log.Types.{LogRecordView}
use ngin_log.Format.{Platform, is_iso}
use ngin_log.Format.Appended.{Fits}
use ngin_log.Format.Json.{JsonRecordFormatterOptions, format}
use ngin_log.Format.Json.Reader.{JsonLine, json_line, lines, json_lines}
use ngin_log.Format.Json.ReadBack.{line_shown, format-line_shown, to_json_line, json_line-format}

-- What the reader does with a line and the lines behind it.
behind : JsonLine → Option (List JsonLine) → Option (List JsonLine)
behind line o = elim o [ none ↦ none | some more ↦ some (line ∷ more) ]

with_lines : ℕ → Option (JsonLine × Bytes) → Option (List JsonLine)
unfolding behind
with_lines fuel none = none
with_lines fuel (some (line, rest)) = behind line (lines fuel rest)

lines-line_shown :
    (o : JsonRecordFormatterOptions) (r : LogRecordView) (rest : Bytes) (fuel : ℕ)
    → lines (suc fuel) (line_shown o r rest) ≡ with_lines fuel (json_line (line_shown o r rest))
unfolding lines with_lines line_shown
lines-line_shown o r rest fuel = refl

module _ (p : Platform) (o : JsonRecordFormatterOptions)
    (e : is_iso o.timestamp_style ≡ false) where
  lines-flatten :
      (fuel : ℕ) (rs : List LogRecordView)
      → length rs ≤ fuel
      → All Fits rs
      → lines fuel (flatten (map (format p o) rs)) ≡ some (map (to_json_line o) rs)
  unfolding lines with_lines
  lines-flatten fuel [] b h = refl
  lines-flatten zero (r ∷ rs) b h = absurd (omega arith)
  lines-flatten (suc fuel) (r ∷ rs) b (h, hs) =
      let rest = flatten (map (format p o) rs) in
      ap (lines (suc fuel)) (format-line_shown p o r rest e h)
      ∙ lines-line_shown o r rest fuel
      ∙ ap (λ s. with_lines fuel (json_line s)) (sym (format-line_shown p o r rest e h))
      ∙ ap (with_lines fuel) (json_line-format p o r rest e h)
      ∙ ap (behind (to_json_line o r)) (lines-flatten fuel rs (omega arith) hs)

  length-format : (r : LogRecordView) → Fits r → 1 ≤ length (format p o r)
  unfolding line_shown
  length-format r h =
      let s = line_shown o r [] in
      subst (λ (t : Bytes). 1 ≤ length t)
        (sym (format-line_shown p o r [] e h) ∙ append-nil (format p o r)) (omega arith)

  length-lines :
      (rs : List LogRecordView) → All Fits rs → length rs ≤ length (flatten (map (format p o) rs))
  length-lines [] h = omega arith
  length-lines (r ∷ rs) (h, hs) = omega (
    arith,
    length-append (format p o r) (flatten (map (format p o) rs)),
    length-format r h,
    length-lines rs hs,
  )

  -- A file that holds the lines of the JSON formatter for some records, in a style that shows a count since
  -- the epoch: a reader of JSON finds one line for each record, in their order, and in each line what
  -- stands in its record, if the numbers of the records have the widths of their types and none has a
  -- double among its attributes. The reader takes texts as bytes and does not check that they are UTF-8.
  pub json_lines-format :
      (rs : List LogRecordView)
      → All Fits rs
      → json_lines (flatten (map (format p o) rs)) ≡ some (map (to_json_line o) rs)
  json_lines-format rs h = lines-flatten _ rs (length-lines rs h) h
