-- ===== src/Format/Text/Cache.antt =====
-- The text formatter's cache never shows: what a record is formatted to does not depend on the
-- records before it.
use ngin_log.Base.{
  ℕ, ◌/◌, true, false, not, ◌&&◌, List, [], ◌∷◌, ◌++◌, map, Bytes, arith, ◌≡◌, ◌⊎◌, inl, inr, refl,
  sym, ap, ap₂, ◌∙◌, Bool-cases,
}
use ngin_log.Base.Int.{pos}
use ngin_log.Types.{LogRecordView}
use ngin_log.Format.{
  TimestampStyle, epoch_nanoseconds, epoch_milliseconds, iso8601_utc, iso8601_local, is_iso,
  Platform, fill_cached_time_parts, append_iso_timestamp, append_timestamp, is_empty,
}
use ngin_log.Format.Text.{
  TextRecordFormatterOptions, TimestampCache, empty_cache, int_eq, refresh, body, format,
}

-- The cache is as it was made, or it holds the texts of its second.
abbrev pub CacheIsValid : Platform → TimestampStyle → TimestampCache → Type 0
CacheIsValid p style c =
    (c ≡ empty_cache)
    ⊎ ((second : ℕ) × (c.second ≡ pos second)
        × ((c.prefix, c.suffix) ≡ fill_cached_time_parts p style second))

module _ (p : Platform) where
  int_eq→eq :
      (c : TimestampCache) (s second : ℕ)
      → c.second ≡ pos s
      → int_eq c.second (pos second) ≡ true
      → s ≡ second
  int_eq→eq c s second e h = ground arith

  empty_misses :
      (c : TimestampCache) (second : ℕ) → c ≡ empty_cache → int_eq c.second (pos second) ≡ true → ⊥
  empty_misses c second e hit =
      let q : int_eq c.second (pos second) ≡ false =
        ap (λ (d : TimestampCache). int_eq d.second (pos second)) e in
      cc

  hit_filled :
      (style : TimestampStyle) (c : TimestampCache) (second : ℕ)
      → CacheIsValid p style c
      → int_eq c.second (pos second) ≡ true
      → (c.prefix, c.suffix) ≡ fill_cached_time_parts p style second
  hit_filled style c second (inl e) hit = absurd (empty_misses c second e hit)
  hit_filled style c second (inr (s, e, parts)) hit =
      parts ∙ ap (fill_cached_time_parts p style) (int_eq→eq c s second e hit)

  -- In an ISO style the lock leaves the texts of the record's second in the cache.
  refresh-filled :
      (style : TimestampStyle) (c : TimestampCache) (second : ℕ)
      → CacheIsValid p style c
      → is_iso style ≡ true
      → ((refresh p style c second).prefix, (refresh p style c second).suffix)
        ≡ fill_cached_time_parts p style second
  unfolding refresh
  refresh-filled style c second v iso = elim (Bool-cases (int_eq c.second (pos second))) [
    | inl hit ↦ rw (iso, hit) (hit_filled style c second v hit)
    | inr miss ↦ rw (iso, miss)
  ]

  refresh-CacheIsValid :
      (style : TimestampStyle) (c : TimestampCache) (second : ℕ)
      → CacheIsValid p style c
      → CacheIsValid p style (refresh p style c second)
  unfolding refresh
  refresh-CacheIsValid style c second v =
      elim (Bool-cases (is_iso style && not (int_eq c.second (pos second)))) [
        | inl fill ↦ rw fill (inr (second, refl, refl))
        | inr keep ↦ rw keep v
      ]

  iso_cached :
      (style : TimestampStyle) (timestamp : ℕ) (prefix suffix output : Bytes)
      → (prefix, suffix) ≡ fill_cached_time_parts p style (timestamp / 1000000000)
      → append_iso_timestamp p timestamp style prefix suffix output
        ≡ append_iso_timestamp p timestamp style [] [] output
  unfolding append_iso_timestamp
  iso_cached style timestamp prefix suffix output e =
      elim (Bool-cases (is_empty prefix && is_empty suffix)) [
        | inl none ↦ rw none refl
        | inr filled ↦ rw (filled, ← e) refl
      ]

  -- Texts that were filled in before give the timestamp that is made without them.
  append_timestamp-cached :
      (timestamp : ℕ) (style : TimestampStyle) (prefix suffix output : Bytes)
      → (is_iso style ≡ true
          → (prefix, suffix) ≡ fill_cached_time_parts p style (timestamp / 1000000000))
      → append_timestamp p timestamp style prefix suffix output
        ≡ append_timestamp p timestamp style [] [] output
  unfolding append_timestamp
  append_timestamp-cached timestamp epoch_nanoseconds prefix suffix output h = refl
  append_timestamp-cached timestamp epoch_milliseconds prefix suffix output h = refl
  append_timestamp-cached timestamp iso8601_utc prefix suffix output h =
      iso_cached iso8601_utc timestamp prefix suffix output (h refl)
  append_timestamp-cached timestamp iso8601_local prefix suffix output h =
      iso_cached iso8601_local timestamp prefix suffix output (h refl)

  -- The output does not depend on a valid cache.
  pub body-refresh :
      (o : TextRecordFormatterOptions) (c : TimestampCache) (r : LogRecordView)
      → CacheIsValid p o.timestamp_style c
      → body p o (refresh p o.timestamp_style c (r.timestamp / 1000000000)) r
        ≡ body p o empty_cache r
  unfolding body
  body-refresh o c r v =
      let d = refresh p o.timestamp_style c (r.timestamp / 1000000000) in
      rw (
        append_timestamp-cached r.timestamp o.timestamp_style d.prefix d.suffix (b'[' ∷ [])
          (refresh-filled o.timestamp_style c (r.timestamp / 1000000000) v))

  -- The records that one formatter is given, in order, and what it makes of them.
  unfoldable pub format_all :
      TextRecordFormatterOptions → TimestampCache → List LogRecordView → List Bytes
  format_all o c [] = []
  format_all o c (r ∷ rs) = let (output, c') = format p o c r in output ∷ format_all o c' rs

  format_all-map :
      (o : TextRecordFormatterOptions) (c : TimestampCache) (rs : List LogRecordView)
      → CacheIsValid p o.timestamp_style c
      → format_all o c rs ≡ map (λ r. (format p o empty_cache r).0) rs
  unfolding format_all format
  format_all-map o c [] v = refl
  format_all-map o c (r ∷ rs) v =
      ap₂ ◌∷◌
        (ap (λ s. s ++ b'\n' ∷ [])
          (body-refresh o c r v ∙ sym (body-refresh o empty_cache r (inl refl))))
        (format_all-map o (refresh p o.timestamp_style c (r.timestamp / 1000000000)) rs
          (refresh-CacheIsValid o.timestamp_style c (r.timestamp / 1000000000) v))

  -- A text formatter gives each record of any sequence the output that a new formatter would give
  -- it: its cache of the calendar time never shows.
  pub format_all_lem :
      (o : TextRecordFormatterOptions) (rs : List LogRecordView)
      → format_all o empty_cache rs ≡ map (λ r. (format p o empty_cache r).0) rs
  format_all_lem o rs = format_all-map o empty_cache rs (inl refl)
