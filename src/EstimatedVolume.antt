-- ===== src/EstimatedVolume.antt =====
-- apps/frontend/src/features/dashboard/lib/estimated-volume-mapper.ts: the turnover that is estimated
-- for today, minute by minute, beside yesterday's. Numbers are finite, and a time is a whole number of
-- milliseconds in the range of `Date`; a field of a row is `none` where it is no number.
use Prim.Native.String.{String}
use trading_monitoring_dashb.Base.{
  ℕ, ◌+◌, ◌*◌, Option, none, some, List, [], ◌∷◌, ◌++◌, map, set, if◌then◌else◌,
}
use trading_monitoring_dashb.Base.Int.{ℤ, pos, leb_ℤ, ltb_ℤ}
use trading_monitoring_dashb.Base.NumMap.{NumMap, map_get, map_set, values}
use trading_monitoring_dashb.Base.Sort.{sort_by, find_index}
use trading_monitoring_dashb.OrderFlow.{minute_key}
pub mod Signs
pub mod Expected
pub mod Samples
pub mod Baseline
pub mod Patch

-- The formatters, and the subtraction of numbers. `clock` is the hour and the minute in Taipei.
pub record VolumePlatform : Type 0 where
  pub label : ℤ → String
  pub clock : ℤ → ℕ × ℕ
  pub minus : ℤ → ℤ → ℤ

pub record MarketSummaryPoint : Type 0 where
  pub minute_ts : Option ℤ
  pub estimated_turnover : Option ℤ
  pub yesterday_estimated_turnover : Option ℤ
  pub estimated_turnover_diff : Option ℤ

pub record MinuteSample : Type 0 where
  pub minute_ts : ℤ
  pub minute_of_day : ℤ
  pub estimated : ℤ
  pub yesterday_estimated : Option ℤ
  pub estimated_diff : Option ℤ

pub record EstimatedVolumeSeriesPoint : Type 0 where
  pub minute_ts : ℤ
  pub minute_of_day : ℤ
  pub time : String
  pub yesterday_estimated : ℤ
  pub today_estimated : ℤ
  pub positive_diff : ℤ
  pub negative_diff : ℤ

pub record EstimatedVolumeRealtimePatch : Type 0 where
  pub minute_ts : ℤ
  pub today_estimated : ℤ
  pub yesterday_estimated : Option ℤ
  pub estimated_diff : Option ℤ

-- A row of `todayByMinuteTs`, and one of `todaySampleByMinuteTs`.
pub record TodayRow : Type 0 where
  pub minute_ts : ℤ
  pub minute_of_day : ℤ
  pub today_estimated : ℤ

pub record TodaySample : Type 0 where
  pub yesterday_estimated : Option ℤ
  pub estimated_diff : Option ℤ

pub record Maps : Type 0 where
  pub rows : NumMap TodayRow
  pub samples : NumMap TodaySample

abbrev pub or_number : Option ℤ → ℤ → ℤ
or_number none b = b
or_number (some a) b = a

-- `estimatedDiff` takes the place of the difference, where it is given.
abbrev pub with_estimated_diff : Option ℤ → EstimatedVolumeSeriesPoint → EstimatedVolumeSeriesPoint
with_estimated_diff none p = p
with_estimated_diff (some d) p =
    if leb_ℤ (pos 0) d
    then record p { positive_diff = d; negative_diff = pos 0 }
    else record p { positive_diff = pos 0; negative_diff = d }

module _ (platform : VolumePlatform) where
  abbrev pub minute_of_day_from_epoch_ms : ℤ → ℤ
  minute_of_day_from_epoch_ms ts = let (h, m) = platform.clock ts in pos (h * 60 + m)

  abbrev pub sample_of : MarketSummaryPoint → Option ℤ → Option ℤ → Option MinuteSample
  sample_of p (some ts) (some estimated) =
      let minute = minute_key ts in
      some (record {
        minute_ts = minute;
        minute_of_day = minute_of_day_from_epoch_ms minute;
        estimated = estimated;
        yesterday_estimated = p.yesterday_estimated_turnover;
        estimated_diff = p.estimated_turnover_diff;
      })
  sample_of p _ _ = none

  unfoldable pub to_minute_sample : MarketSummaryPoint → Option MinuteSample
  to_minute_sample p = sample_of p p.minute_ts p.estimated_turnover

  unfoldable pub with_diff : ℤ → ℤ → String → ℤ → ℤ → EstimatedVolumeSeriesPoint
  with_diff minute minute_of_day time yesterday today =
      let diff = platform.minus today yesterday in
      record {
        minute_ts = minute;
        minute_of_day = minute_of_day;
        time = time;
        yesterday_estimated = yesterday;
        today_estimated = today;
        positive_diff = if ltb_ℤ (pos 0) diff then diff else pos 0;
        negative_diff = if ltb_ℤ diff (pos 0) then diff else pos 0;
      }

  abbrev pub add_yesterday : NumMap ℤ → Option MinuteSample → NumMap ℤ
  add_yesterday m none = m
  add_yesterday m (some s) = map_set s.minute_of_day s.estimated m

  unfoldable pub collect_yesterday : NumMap ℤ → List MarketSummaryPoint → NumMap ℤ
  collect_yesterday m [] = m
  collect_yesterday m (p ∷ ps) = collect_yesterday (add_yesterday m (to_minute_sample p)) ps

  abbrev pub add_today : Maps → Option MinuteSample → Maps
  add_today m none = m
  add_today m (some s) = record {
    rows =
        map_set s.minute_ts
          (record {
            minute_ts = s.minute_ts;
            minute_of_day = s.minute_of_day;
            today_estimated = s.estimated;
          })
          m.rows;
    samples =
        map_set s.minute_ts
          (record {
            yesterday_estimated = s.yesterday_estimated;
            estimated_diff = s.estimated_diff;
          })
          m.samples;
  }

  unfoldable pub collect_today : Maps → List MarketSummaryPoint → Maps
  collect_today m [] = m
  collect_today m (p ∷ ps) = collect_today (add_today m (to_minute_sample p)) ps

  abbrev pub given_yesterday : Option TodaySample → Option ℤ
  given_yesterday none = none
  given_yesterday (some s) = s.yesterday_estimated

  abbrev pub given_diff : Option TodaySample → Option ℤ
  given_diff none = none
  given_diff (some s) = s.estimated_diff

  -- The callback of `map`.
  unfoldable pub to_series_point :
      NumMap ℤ → NumMap TodaySample → TodayRow → EstimatedVolumeSeriesPoint
  to_series_point yesterday samples r =
      let sample = map_get r.minute_ts samples in
      let fallback = or_number (map_get r.minute_of_day yesterday) (pos 0) in
      with_estimated_diff (given_diff sample) (
        with_diff r.minute_ts r.minute_of_day (platform.label r.minute_ts)
          (or_number (given_yesterday sample) fallback) r.today_estimated)

  unfoldable pub build_estimated_volume_baseline :
      List MarketSummaryPoint → List MarketSummaryPoint → List EstimatedVolumeSeriesPoint × NumMap ℤ
  build_estimated_volume_baseline today yesterday =
      let by_minute_of_day = collect_yesterday [] yesterday in
      let m = collect_today (record { rows = []; samples = [] }) today in
      (
        map (to_series_point by_minute_of_day m.samples)
            (sort_by (λ (r : TodayRow). r.minute_ts) (values m.rows)),
        by_minute_of_day,
      )

  unfoldable pub patched_point :
      EstimatedVolumeRealtimePatch → NumMap ℤ → EstimatedVolumeSeriesPoint
  patched_point patch yesterday =
      let minute = minute_key patch.minute_ts in
      let minute_of_day = minute_of_day_from_epoch_ms minute in
      let fallback = or_number (map_get minute_of_day yesterday) (pos 0) in
      with_estimated_diff patch.estimated_diff (
        with_diff minute minute_of_day (platform.label minute)
          (or_number patch.yesterday_estimated fallback) patch.today_estimated)

  abbrev pub replace_or_push :
      List EstimatedVolumeSeriesPoint
      → EstimatedVolumeSeriesPoint
      → Option ℕ
      → List EstimatedVolumeSeriesPoint
  replace_or_push series p (some i) = sort_by (λ q. q.minute_ts) (set series i p)
  replace_or_push series p none = sort_by (λ q. q.minute_ts) (series ++ (p ∷ []))

  unfoldable pub apply_estimated_volume_realtime_patch :
      List EstimatedVolumeSeriesPoint
      → EstimatedVolumeRealtimePatch
      → NumMap ℤ
      → List EstimatedVolumeSeriesPoint
  apply_estimated_volume_realtime_patch series patch yesterday =
      replace_or_push series (patched_point patch yesterday)
        (find_index (λ q. q.minute_ts) (minute_key patch.minute_ts) series)
