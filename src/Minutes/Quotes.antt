-- ===== src/Minutes/Quotes.antt =====
-- The quote timeline against two plain maps.
use Prim.Native.String.{String}
use trading_monitoring_dashb.Base.{
  Option, none, some, List, [], ◌∷◌, ◌≡◌, ◌≢◌, refl, sym, ap, ◌∙◌, inl, inr, Bool-cases, All,
  if◌then◌else◌,
}
use trading_monitoring_dashb.Base.Int.{ℤ, eq_ℤ}
use trading_monitoring_dashb.Base.NumMap.{
  NumMap, map_get, map_get-map_set, HasDistinctKeys, map_set-HasDistinctKeys,
}
use trading_monitoring_dashb.Base.Sort.{IsDistinct, find_key, sort_by-find_key}
use trading_monitoring_dashb.Base.Keyed.{sort_by-IsAscending}
use trading_monitoring_dashb.Js.{Js, num, is_number}
use trading_monitoring_dashb.Minutes.{
  minute_of, TimelineState, reset_baseline, to_record, entry_points, baseline_series, QuotePoint,
  resolve_point_ts, add_finite, QuoteMinuteMaps, add_quote, base_maps, QuoteTimeline, reset_quotes,
  put_finite, put_quote_at, put_quote, quote_records,
}
use trading_monitoring_dashb.Minutes.Record.{
  value_of, to_record-get, IsTimeline, reset_baseline-IsTimeline, put_latest-record,
}
use trading_monitoring_dashb.OrderFlow.{minute_key}

-- The record of a timeline is the map `m`.
abbrev pub Shows : TimelineState → NumMap Js → Type 0
Shows st m = IsTimeline st × ((k : ℤ) → map_get k (to_record st.series) ≡ map_get k m)

entries-All :
    (a : ℤ) (m : NumMap Js) → All (λ e. a ≢ e.0) m → All (λ p. a ≢ minute_of p) (entry_points m)
entries-All a [] h = tt
entries-All a ((k, v) ∷ m) h = (h.0, entries-All a m h.1)

entries-IsDistinct : (m : NumMap Js) → HasDistinctKeys m → IsDistinct minute_of (entry_points m)
entries-IsDistinct [] d = tt
entries-IsDistinct ((k, v) ∷ m) d = (entries-All k m d.0, entries-IsDistinct m d.1)

entries-find_key :
    (k : ℤ) (m : NumMap Js) → value_of (find_key minute_of k (entry_points m)) ≡ map_get k m
unfolding find_key map_get
entries-find_key k [] = refl
entries-find_key k ((j, v) ∷ m) = elim (Bool-cases (eq_ℤ j k)) [
  | inl e ↦ rw e refl
  | inr e ↦ rw e (entries-find_key k m)
]

baseline-Shows : (m : NumMap Js) → HasDistinctKeys m → Shows (reset_baseline (baseline_series m)) m
unfolding baseline_series
baseline-Shows m d =
    let a = sort_by-IsAscending minute_of (entry_points m) (entries-IsDistinct m d) in
    (
      reset_baseline-IsTimeline (baseline_series m) a,
      λ k.
          unfold reset_baseline in
          to_record-get k (baseline_series m) a
          ∙ ap value_of (sort_by-find_key minute_of k (entry_points m))
          ∙ entries-find_key k m,
    )

put_finite-Shows :
    (minute : ℤ) (v : Js) (st : TimelineState) (m : NumMap Js)
    → Shows st m
    → Shows (put_finite minute v st) (add_finite minute v m)
unfolding is_number
put_finite-Shows minute (num n) st m (t, e) =
    let r = put_latest-record (record { minute_ts = minute; value = num n }) st t refl in
    (
      r.0,
      λ k.
          r.1 k
          ∙ ap (λ o. if eq_ℤ minute k then some (num n) else o) (e k)
          ∙ sym (map_get-map_set minute k (num n) m),
    )
put_finite-Shows minute v st m h = h

add_finite-HasDistinctKeys :
    (minute : ℤ) (v : Js) (m : NumMap Js)
    → HasDistinctKeys m
    → HasDistinctKeys (add_finite minute v m)
add_finite-HasDistinctKeys minute (num n) m d = map_set-HasDistinctKeys minute (num n) m d
add_finite-HasDistinctKeys minute v m d = d

abbrev AreDistinct : QuoteMinuteMaps → Type 0
AreDistinct m = HasDistinctKeys m.main_chip_by_minute × HasDistinctKeys m.long_short_force_by_minute

add_quote-AreDistinct :
    (m : QuoteMinuteMaps) (p : QuotePoint) (o : Option ℤ)
    → AreDistinct m
    → AreDistinct (add_quote m p o)
add_quote-AreDistinct m p none d = d
add_quote-AreDistinct m p (some ts) d = (
  add_finite-HasDistinctKeys (minute_key ts) p.main_chip m.main_chip_by_minute d.0,
  add_finite-HasDistinctKeys (minute_key ts) p.long_short_force m.long_short_force_by_minute d.1,
)

module _ (date_parse : String → Option ℤ) where
  base_maps-AreDistinct :
      (ps : List QuotePoint) (m : QuoteMinuteMaps)
      → AreDistinct m
      → AreDistinct (base_maps date_parse m ps)
  unfolding base_maps
  base_maps-AreDistinct [] m d = d
  base_maps-AreDistinct (p ∷ ps) m d =
      base_maps-AreDistinct ps _ (add_quote-AreDistinct m p (resolve_point_ts date_parse p) d)

  abbrev pub no_quotes : QuoteMinuteMaps
  no_quotes = record { main_chip_by_minute = []; long_short_force_by_minute = [] }

  -- What the hook goes through: the rows of a day, and latest quotes.
  pub data QuoteEvent : Type 0 where
    rows : List QuotePoint → QuoteEvent
    latest : QuotePoint → QuoteEvent

  unfoldable pub run_timeline : QuoteTimeline → List QuoteEvent → QuoteTimeline
  run_timeline q [] = q
  run_timeline q (rows ps ∷ es) = run_timeline (reset_quotes date_parse ps) es
  run_timeline q (latest p ∷ es) = run_timeline (put_quote date_parse p q) es

  -- The same on two maps: rows start them anew, and a quote writes its values under its minute.
  unfoldable pub run_maps : QuoteMinuteMaps → List QuoteEvent → QuoteMinuteMaps
  run_maps m [] = m
  run_maps m (rows ps ∷ es) = run_maps (base_maps date_parse no_quotes ps) es
  run_maps m (latest p ∷ es) = run_maps (add_quote m p (resolve_point_ts date_parse p)) es

  abbrev pub ShowsMaps : QuoteTimeline → QuoteMinuteMaps → Type 0
  ShowsMaps q m = Shows q.main m.main_chip_by_minute × Shows q.long m.long_short_force_by_minute

  reset_quotes-ShowsMaps :
      (ps : List QuotePoint)
      → ShowsMaps (reset_quotes date_parse ps) (base_maps date_parse no_quotes ps)
  unfolding reset_quotes
  reset_quotes-ShowsMaps ps =
      let d = base_maps-AreDistinct ps no_quotes (tt, tt) in
      (baseline-Shows _ d.0, baseline-Shows _ d.1)

  put_quote-ShowsMaps :
      (p : QuotePoint) (o : Option ℤ) (q : QuoteTimeline) (m : QuoteMinuteMaps)
      → ShowsMaps q m
      → ShowsMaps (put_quote_at p o q) (add_quote m p o)
  put_quote-ShowsMaps p none q m h = h
  put_quote-ShowsMaps p (some ts) q m h = (
    put_finite-Shows (minute_key ts) p.main_chip q.main m.main_chip_by_minute h.0,
    put_finite-Shows (minute_key ts) p.long_short_force q.long m.long_short_force_by_minute h.1,
  )

  run_timeline-ShowsMaps :
      (es : List QuoteEvent) (q : QuoteTimeline) (m : QuoteMinuteMaps)
      → ShowsMaps q m
      → ShowsMaps (run_timeline q es) (run_maps m es)
  unfolding run_timeline run_maps put_quote
  run_timeline-ShowsMaps [] q m h = h
  run_timeline-ShowsMaps (rows ps ∷ es) q m h =
      run_timeline-ShowsMaps es (reset_quotes date_parse ps) _ (reset_quotes-ShowsMaps ps)
  run_timeline-ShowsMaps (latest p ∷ es) q m h =
      run_timeline-ShowsMaps es _ _ (put_quote-ShowsMaps p (resolve_point_ts date_parse p) q m h)

  -- After the rows of a day and any sequence of further rows and latest quotes, the two records that
  -- the hook returns have under each minute what two plain maps have that are started by the rows and
  -- written by each quote; the sorted series, the search and the index map do not show.
  pub quote_records-eq :
      (ps : List QuotePoint) (es : List QuoteEvent) (k : ℤ)
      → (map_get k
            (quote_records (run_timeline (reset_quotes date_parse ps) es)).main_chip_by_minute
          ≡ map_get k (run_maps (base_maps date_parse no_quotes ps) es).main_chip_by_minute)
        × (map_get k
              (quote_records
                (run_timeline (reset_quotes date_parse ps) es)).long_short_force_by_minute
            ≡ map_get k
                (run_maps (base_maps date_parse no_quotes ps) es).long_short_force_by_minute)
  unfolding quote_records
  quote_records-eq ps es k =
      let s =
        run_timeline-ShowsMaps es (reset_quotes date_parse ps) (base_maps date_parse no_quotes ps)
          (reset_quotes-ShowsMaps ps) in
      (s.0.1 k, s.1.1 k)
