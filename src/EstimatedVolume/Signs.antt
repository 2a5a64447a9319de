-- ===== src/EstimatedVolume/Signs.antt =====
-- The two differences of a point: one of them is zero, and each has its sign.
use Prim.Native.String.{String}
use trading_monitoring_dashb.Base.{
  Option, none, some, List, [], ◌∷◌, ◌≡◌, refl, arith, ◌⊎◌, inl, inr, Bool-cases, All, map,
  if◌then◌else◌,
}
use trading_monitoring_dashb.Base.Int.{ℤ, pos, leb_ℤ, ltb_ℤ, ◌≤ℤ◌}
use trading_monitoring_dashb.Base.NumMap.{NumMap, map_get}
use trading_monitoring_dashb.EstimatedVolume.{
  VolumePlatform, MarketSummaryPoint, EstimatedVolumeSeriesPoint, EstimatedVolumeRealtimePatch,
  TodayRow, TodaySample, with_estimated_diff, with_diff, to_series_point,
  build_estimated_volume_baseline, patched_point, or_number, given_diff, given_yesterday,
  minute_of_day_from_epoch_ms,
}
use trading_monitoring_dashb.OrderFlow.{minute_key}

-- The positive difference is not negative, the negative one not positive, and one of them is zero.
pub record HasSigns (p : EstimatedVolumeSeriesPoint) : Type 0 where
  pub positive : pos 0 ≤ℤ p.positive_diff
  pub negative : p.negative_diff ≤ℤ pos 0
  pub one_zero : (p.positive_diff ≡ pos 0) ⊎ (p.negative_diff ≡ pos 0)

module _ (platform : VolumePlatform) where
  split_diff :
      (d : ℤ)
      → (pos 0 ≤ℤ (if ltb_ℤ (pos 0) d then d else pos 0))
        × ((if ltb_ℤ d (pos 0) then d else pos 0) ≤ℤ pos 0)
        × (((if ltb_ℤ (pos 0) d then d else pos 0) ≡ pos 0)
            ⊎ ((if ltb_ℤ d (pos 0) then d else pos 0) ≡ pos 0))
  split_diff d = elim (Bool-cases (ltb_ℤ (pos 0) d)) [
    | inl e ↦ rw e (ground arith, ground arith, inr (ground arith))
    | inr e ↦ rw e (omega arith, ground arith, inl refl)
  ]

  with_diff-HasSigns :
      (minute day : ℤ) (time : String) (y t : ℤ) → HasSigns (with_diff platform minute day time y t)
  unfolding with_diff
  with_diff-HasSigns minute day time y t =
      let s = split_diff (platform.minus t y) in
      record { positive = s.0; negative = s.1; one_zero = s.2 }

  with_estimated_diff-HasSigns :
      (o : Option ℤ) (p : EstimatedVolumeSeriesPoint)
      → HasSigns p
      → HasSigns (with_estimated_diff o p)
  with_estimated_diff-HasSigns none p h = h
  with_estimated_diff-HasSigns (some d) p h = elim (Bool-cases (leb_ℤ (pos 0) d)) [
    | inl e ↦ rw e (record { positive = ground arith; negative = omega arith; one_zero = inr refl })
    | inr e ↦ rw e (record { positive = omega arith; negative = ground arith; one_zero = inl refl })
  ]

  series_point-HasSigns :
      (yesterday : NumMap ℤ) (samples : NumMap TodaySample) (r : TodayRow)
      → HasSigns (to_series_point platform yesterday samples r)
  unfolding to_series_point
  series_point-HasSigns yesterday samples r =
      let sample = map_get r.minute_ts samples in
      with_estimated_diff-HasSigns (given_diff platform sample)
        (with_diff platform r.minute_ts r.minute_of_day (platform.label r.minute_ts)
          (or_number (given_yesterday platform sample)
            (or_number (map_get r.minute_of_day yesterday) (pos 0)))
          r.today_estimated)
        (with_diff-HasSigns r.minute_ts r.minute_of_day (platform.label r.minute_ts) _
          r.today_estimated)

  points-HasSigns :
      (yesterday : NumMap ℤ) (samples : NumMap TodaySample) (rows : List TodayRow)
      → All HasSigns (map (to_series_point platform yesterday samples) rows)
  points-HasSigns yesterday samples [] = tt
  points-HasSigns yesterday samples (r ∷ rows) =
      (series_point-HasSigns yesterday samples r, points-HasSigns yesterday samples rows)

  -- Whatever subtraction rounds to, and whichever differences the rows and the patch give: of each
  -- point of a baseline, and of the point of a patch, the positive difference is not below zero, the
  -- negative one not above, and one of the two is zero.
  pub points_have_signs :
      (today yesterday : List MarketSummaryPoint) (patch : EstimatedVolumeRealtimePatch)
      (by_minute_of_day : NumMap ℤ)
      → All HasSigns (build_estimated_volume_baseline platform today yesterday).0
        × HasSigns (patched_point platform patch by_minute_of_day)
  unfolding build_estimated_volume_baseline patched_point
  points_have_signs today yesterday patch by_minute_of_day =
      let minute = minute_key patch.minute_ts in
      let day = minute_of_day_from_epoch_ms platform minute in
      let y =
        or_number patch.yesterday_estimated (or_number (map_get day by_minute_of_day) (pos 0)) in
      (
        points-HasSigns _ _ _,
        with_estimated_diff-HasSigns patch.estimated_diff
            (with_diff platform minute day (platform.label minute) y patch.today_estimated)
            (with_diff-HasSigns minute day (platform.label minute) y patch.today_estimated),
      )
