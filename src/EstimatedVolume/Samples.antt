-- ===== src/EstimatedVolume/Samples.antt =====
-- The maps that the loops of estimated-volume-mapper.ts make of today's rows.
use trading_monitoring_dashb.Base.{
  Option, none, some, List, [], ◌∷◌, ◌≡◌, refl, ap, ◌∙◌, inl, inr, Bool-cases, if◌then◌else◌, sym,
}
use trading_monitoring_dashb.Base.Int.{ℤ, eq_ℤ}
use trading_monitoring_dashb.Base.NumMap.{
  map_get, map_get-map_set, HasDistinctKeys, map_set-HasDistinctKeys,
}
use trading_monitoring_dashb.Base.Keyed.{IsKeyed, map_set-IsKeyed}
use trading_monitoring_dashb.EstimatedVolume.{
  VolumePlatform, MarketSummaryPoint, MinuteSample, TodayRow, TodaySample, Maps, to_minute_sample,
  add_today, collect_today, sample_of,
}
use trading_monitoring_dashb.OrderFlow.{minute_key}
use trading_monitoring_dashb.EstimatedVolume.Expected.{row_at, last_row}

abbrev pub row_minute : TodayRow → ℤ
row_minute r = r.minute_ts

module _ (platform : VolumePlatform) where
  -- The last sample of a minute, or `o` if there is none.
  abbrev pub later_sample : ℤ → Option MinuteSample → Option MinuteSample → Option MinuteSample
  later_sample k o none = o
  later_sample k o (some s) = if eq_ℤ s.minute_ts k then some s else o

  unfoldable pub last_sample :
      ℤ → Option MinuteSample → List MarketSummaryPoint → Option MinuteSample
  last_sample k o [] = o
  last_sample k o (p ∷ ps) = last_sample k (later_sample k o (to_minute_sample platform p)) ps

  abbrev pub row_of : Option MinuteSample → Option TodayRow
  row_of none = none
  row_of (some s) = some (record {
    minute_ts = s.minute_ts;
    minute_of_day = s.minute_of_day;
    today_estimated = s.estimated;
  })

  abbrev pub given_of : Option MinuteSample → Option TodaySample
  given_of none = none
  given_of (some s) =
      some
        (record { yesterday_estimated = s.yesterday_estimated; estimated_diff = s.estimated_diff })

  abbrev pub Agree : ℤ → Option MinuteSample → Maps → Type 0
  Agree k o m = (map_get k m.rows ≡ row_of o) × (map_get k m.samples ≡ given_of o)

  add_today-Agree :
      (k : ℤ) (o p : Option MinuteSample) (m : Maps)
      → Agree k o m
      → Agree k (later_sample k o p) (add_today platform m p)
  add_today-Agree k o none m h = h
  add_today-Agree k o (some s) m h = elim (Bool-cases (eq_ℤ s.minute_ts k)) [
    | inl e ↦ rw e (
      map_get-map_set s.minute_ts k _ m.rows ∙ rw e refl,
      map_get-map_set s.minute_ts k _ m.samples ∙ rw e refl,
    )
    | inr e ↦ rw e (
      map_get-map_set s.minute_ts k _ m.rows ∙ rw e h.0,
      map_get-map_set s.minute_ts k _ m.samples ∙ rw e h.1,
    )
  ]

  pub collect_today-Agree :
      (k : ℤ) (ps : List MarketSummaryPoint) (o : Option MinuteSample) (m : Maps)
      → Agree k o m
      → Agree k (last_sample k o ps) (collect_today platform m ps)
  unfolding last_sample collect_today
  collect_today-Agree k [] o m h = h
  collect_today-Agree k (p ∷ ps) o m h =
      collect_today-Agree k ps _ _ (add_today-Agree k o (to_minute_sample platform p) m h)

  abbrev pub IsMap : Maps → Type 0
  IsMap m = IsKeyed row_minute m.rows × HasDistinctKeys m.rows

  add_today-IsMap : (o : Option MinuteSample) (m : Maps) → IsMap m → IsMap (add_today platform m o)
  add_today-IsMap none m h = h
  add_today-IsMap (some s) m h =
      let r : TodayRow = record {
        minute_ts = s.minute_ts;
        minute_of_day = s.minute_of_day;
        today_estimated = s.estimated;
      } in
      (map_set-IsKeyed row_minute r m.rows h.0, map_set-HasDistinctKeys s.minute_ts r m.rows h.1)

  pub collect_today-IsMap :
      (ps : List MarketSummaryPoint) (m : Maps) → IsMap m → IsMap (collect_today platform m ps)
  unfolding collect_today
  collect_today-IsMap [] m h = h
  collect_today-IsMap (p ∷ ps) m h =
      collect_today-IsMap ps _ (add_today-IsMap (to_minute_sample platform p) m h)

  -- The sample of a row.
  abbrev pub sampled : Option MarketSummaryPoint → Option MinuteSample
  sampled none = none
  sampled (some p) = to_minute_sample platform p

  later-sampled :
      (k : ℤ) (o : Option MarketSummaryPoint) (p : MarketSummaryPoint) (a b : Option ℤ)
      → to_minute_sample platform p ≡ sample_of platform p a b
      → later_sample k (sampled o) (sample_of platform p a b)
        ≡ sampled (if row_at k a b then some p else o)
  later-sampled k o p none b q = refl
  later-sampled k o p (some ts) none q = refl
  later-sampled k o p (some ts) (some e) q = elim (Bool-cases (eq_ℤ (minute_key ts) k)) [
    | inl f ↦ rw f (sym q)
    | inr f ↦ rw f refl
  ]

  pub last_sample-sampled :
      (k : ℤ) (o : Option MarketSummaryPoint) (ps : List MarketSummaryPoint)
      → last_sample k (sampled o) ps ≡ sampled (last_row k o ps)
  unfolding last_sample last_row to_minute_sample
  last_sample-sampled k o [] = refl
  last_sample-sampled k o (p ∷ ps) =
      ap (λ x. last_sample k x ps) (later-sampled k o p p.minute_ts p.estimated_turnover refl)
      ∙ last_sample-sampled k (if row_at k p.minute_ts p.estimated_turnover then some p else o) ps
