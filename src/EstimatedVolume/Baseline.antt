-- ===== src/EstimatedVolume/Baseline.antt =====
-- buildEstimatedVolumeBaseline of estimated-volume-mapper.ts against the description of a point by the rows.
use trading_monitoring_dashb.Base.{
  Option, none, some, List, [], ◌∷◌, map, ◌≡◌, refl, ap, ◌∙◌, inl, inr, Bool-cases, All, true,
}
use mathlib.Core.Path.{subst}
use trading_monitoring_dashb.Base.Int.{ℤ, pos, eq_ℤ, eq_ℤ_iff, ◌<ℤ◌}
use trading_monitoring_dashb.Base.NumMap.{NumMap, map_get, values}
use trading_monitoring_dashb.Base.Sort.{IsAscending, find_key, sort_by, sort_by-find_key}
use trading_monitoring_dashb.Base.Keyed.{values-find_key, values-IsDistinct, sort_by-IsAscending}
use trading_monitoring_dashb.EstimatedVolume.{
  VolumePlatform, MarketSummaryPoint, EstimatedVolumeSeriesPoint, TodayRow, TodaySample, with_diff,
  to_minute_sample, collect_yesterday, collect_today, to_series_point, sample_of,
  build_estimated_volume_baseline, given_diff, given_yesterday, or_number,
}
use trading_monitoring_dashb.OrderFlow.{minute_key}
use trading_monitoring_dashb.EstimatedVolume.Expected.{
  row_at, last_row, IsRowAt, last_row-IsRowAt, clock_minute, last_estimate, point_from,
  expected_point, or_number-eq, with_diff-eq-point_with, collect_yesterday-eq-last_estimate,
}
use trading_monitoring_dashb.EstimatedVolume.Patch.{minute_of, with_estimated_diff-minute}
use trading_monitoring_dashb.EstimatedVolume.Samples.{
  row_minute, row_of, given_of, Agree, sampled, collect_today-Agree, collect_today-IsMap,
  last_sample-sampled,
}

module _ (platform : VolumePlatform) where
  module _ (yesterday : NumMap ℤ) (samples : NumMap TodaySample) where
    point_minute :
        (r : TodayRow) → (to_series_point platform yesterday samples r).minute_ts ≡ r.minute_ts
    unfolding to_series_point with_diff
    point_minute r =
        let sample = map_get r.minute_ts samples in
        with_estimated_diff-minute (given_diff platform sample) (
          with_diff platform r.minute_ts r.minute_of_day (platform.label r.minute_ts)
            (or_number (given_yesterday platform sample)
              (or_number (map_get r.minute_of_day yesterday) (pos 0)))
            r.today_estimated)

    abbrev pub point_of : Option TodayRow → Option EstimatedVolumeSeriesPoint
    point_of none = none
    point_of (some r) = some (to_series_point platform yesterday samples r)

    map-find_key :
        (k : ℤ) (rows : List TodayRow)
        → find_key minute_of k (map (to_series_point platform yesterday samples) rows)
          ≡ point_of (find_key row_minute k rows)
    unfolding find_key to_series_point
    map-find_key k [] = refl
    map-find_key k (r ∷ rows) =
        rw (point_minute r, map-find_key k rows)
          (elim (Bool-cases (eq_ℤ r.minute_ts k)) [ inl e ↦ rw e refl | inr e ↦ rw e refl ])

    map-below :
        (a : ℤ) (rows : List TodayRow)
        → All (λ r. a <ℤ r.minute_ts) rows
        → All (λ p. a <ℤ minute_of p) (map (to_series_point platform yesterday samples) rows)
    map-below a [] h = tt
    map-below a (r ∷ rows) h = (rw (point_minute r) h.0, map-below a rows h.1)

    map-IsAscending :
        (rows : List TodayRow)
        → IsAscending row_minute rows
        → IsAscending minute_of (map (to_series_point platform yesterday samples) rows)
    map-IsAscending [] h = tt
    map-IsAscending (r ∷ rows) h =
        (rw (point_minute r) (map-below r.minute_ts rows h.0), map-IsAscending rows h.1)

  module _ (yesterday : List MarketSummaryPoint) (samples : NumMap TodaySample) where
    abbrev yesterday_map : NumMap ℤ
    yesterday_map = collect_yesterday platform [] yesterday

    fallback-eq : (d : ℤ) → map_get d yesterday_map ≡ last_estimate platform d none yesterday
    fallback-eq d =
        collect_yesterday-eq-last_estimate platform d [] yesterday
        ∙ ap (λ o. last_estimate platform d o yesterday) (unfold map_get in refl)

    point_with-eq :
        (p : MarketSummaryPoint) (k e : ℤ)
        → map_get k samples
          ≡ some (record {
            yesterday_estimated = p.yesterday_estimated_turnover;
            estimated_diff = p.estimated_turnover_diff;
          })
        → some (
            to_series_point platform yesterday_map samples (record {
              minute_ts = k;
              minute_of_day = clock_minute platform k;
              today_estimated = e;
            }))
          ≡ point_from platform k p
              (some e)
              (last_estimate platform (clock_minute platform k) none yesterday)
    unfolding to_series_point
    point_with-eq p k e g =
        rw
          (
            g,
            fallback-eq (clock_minute platform k),
            or_number-eq platform (last_estimate platform (clock_minute platform k) none yesterday)
                (pos 0),
            or_number-eq platform p.yesterday_estimated_turnover _,
          )
          (ap some (with_diff-eq-point_with platform k e _ p.estimated_turnover_diff))

    point_of-from :
        (k : ℤ) (p : MarketSummaryPoint) (a b : Option ℤ)
        → row_at k a b ≡ true
        → map_get k samples ≡ given_of platform (sample_of platform p a b)
        → point_of yesterday_map samples (row_of platform (sample_of platform p a b))
          ≡ point_from platform k p b
              (last_estimate platform (clock_minute platform k) none yesterday)
    point_of-from k p none b h g = cc
    point_of-from k p (some ts) none h g = cc
    point_of-from k p (some ts) (some e) h g =
        subst
          (λ j.
            map_get j samples ≡ given_of platform (sample_of platform p (some ts) (some e))
            → point_of yesterday_map samples
                (row_of platform (sample_of platform p (some ts) (some e)))
              ≡ point_from platform j p (some e)
                  (last_estimate platform (clock_minute platform j) none yesterday))
          ((eq_ℤ_iff (minute_key ts) k).0 h) (point_with-eq p (minute_key ts) e) g

    point_of-expected :
        (k : ℤ) (o : Option MarketSummaryPoint)
        → IsRowAt k o
        → map_get k samples ≡ given_of platform (sampled platform o)
        → point_of yesterday_map samples (row_of platform (sampled platform o))
          ≡ expected_point platform k o yesterday
    unfolding to_minute_sample
    point_of-expected k none h g = refl
    point_of-expected k (some p) h g = point_of-from k p p.minute_ts p.estimated_turnover h g

  -- The minutes of the baseline ascend. The last of today's rows with a time in a minute and with an
  -- estimate makes the minute's point, and a minute without such a row has none. The point holds the
  -- minute, its label, the minute of the day on the clock, the row's estimate, and as yesterday's
  -- estimate the one that the row gives, or else the estimate of yesterday's last such row at the same
  -- minute of the day, or else zero. Its two differences are the positive and the negative part of
  -- the difference that the row gives, or else of today's estimate minus yesterday's.
  pub build_estimated_volume_baseline-at :
      (today yesterday : List MarketSummaryPoint)
      → IsAscending minute_of (build_estimated_volume_baseline platform today yesterday).0
        × ((k : ℤ)
            → find_key minute_of k (build_estimated_volume_baseline platform today yesterday).0
              ≡ expected_point platform k (last_row k none today) yesterday)
  unfolding build_estimated_volume_baseline
  build_estimated_volume_baseline-at today yesterday =
      let m = collect_today platform (record { rows = []; samples = [] }) today in
      let y = collect_yesterday platform [] yesterday in
      let (keyed, distinct) =
        collect_today-IsMap platform today (record { rows = []; samples = [] }) (tt, tt) in
      let agree = λ (k : ℤ).
        subst (λ o. Agree platform k o m) (last_sample-sampled platform k none today)
          (collect_today-Agree platform k today none (record { rows = []; samples = [] })
            (unfold map_get in refl, unfold map_get in refl)) in
      (
        map-IsAscending y m.samples (sort_by row_minute (values m.rows)) (
            sort_by-IsAscending row_minute (values m.rows)
              (values-IsDistinct row_minute m.rows keyed distinct)),
        λ k.
            map-find_key y m.samples k (sort_by row_minute (values m.rows))
            ∙ ap (point_of y m.samples) (
                sort_by-find_key row_minute k (values m.rows)
                ∙ values-find_key row_minute k m.rows keyed
                ∙ (agree k).0)
            ∙ point_of-expected yesterday m.samples k (last_row k none today)
                (last_row-IsRowAt k none today tt) (agree k).1,
      )
