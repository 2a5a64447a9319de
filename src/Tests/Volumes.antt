-- ===== src/Tests/Volumes.antt =====
-- Examples for the theorems on the estimated turnover.
use trading_monitoring_dashb.Base.{
  ltb, ◌+◌, ◌-◌, none, some, List, [], ◌∷◌, ◌≡◌, All, if◌then◌else◌, ◌/◌, ◌%◌,
}
use trading_monitoring_dashb.Base.Int.{ℤ, pos, negsuc, pos_part}
use trading_monitoring_dashb.Base.Sort.{IsAscending, find_key}
use trading_monitoring_dashb.OrderFlow.{minute_key}
use trading_monitoring_dashb.EstimatedVolume.{
  VolumePlatform, MarketSummaryPoint, EstimatedVolumeSeriesPoint, EstimatedVolumeRealtimePatch,
  build_estimated_volume_baseline, patched_point, apply_estimated_volume_realtime_patch,
}
use trading_monitoring_dashb.EstimatedVolume.Signs.{HasSigns, points_have_signs}
use trading_monitoring_dashb.EstimatedVolume.Expected.{last_row, expected_point}
use trading_monitoring_dashb.EstimatedVolume.Baseline.{build_estimated_volume_baseline-at}
use trading_monitoring_dashb.EstimatedVolume.Patch.{
  Holds, apply_estimated_volume_realtime_patch-Holds,
}

-- A clock eight hours ahead, and a subtraction that is exact.
abbrev sample_minus : ℤ → ℤ → ℤ
sample_minus (pos a) (pos b) = if ltb a b then negsuc (b - a - 1) else pos (a - b)
sample_minus a b = pos 0

abbrev sample_platform : VolumePlatform
sample_platform = record {
  label = λ t. "";
  clock = λ t. ((pos_part t / 3600000 + 8) % 24, pos_part t / 60000 % 60);
  minus = sample_minus;
}

abbrev today_rows : List MarketSummaryPoint
today_rows =
    (record {
      minute_ts = some (pos 125000);
      estimated_turnover = some (pos 40);
      yesterday_estimated_turnover = none;
      estimated_turnover_diff = none;
    })
    ∷ (record {
      minute_ts = some (pos 60000);
      estimated_turnover = some (pos 30);
      yesterday_estimated_turnover = some (pos 33);
      estimated_turnover_diff = some (negsuc 2);
    })
    ∷ []

abbrev yesterday_rows : List MarketSummaryPoint
yesterday_rows =
    (record {
      minute_ts = some (pos 120000);
      estimated_turnover = some (pos 35);
      yesterday_estimated_turnover = none;
      estimated_turnover_diff = none;
    })
    ∷ []

abbrev sample_patch : EstimatedVolumeRealtimePatch
sample_patch = record {
  minute_ts = pos 185000;
  today_estimated = pos 50;
  yesterday_estimated = some (pos 45);
  estimated_diff = none;
}

points_have_signs_example :
    All HasSigns (build_estimated_volume_baseline sample_platform today_rows yesterday_rows).0
    × HasSigns (patched_point sample_platform sample_patch [])
points_have_signs_example =
    points_have_signs sample_platform today_rows yesterday_rows sample_patch []

build_estimated_volume_baseline-at_example :
    IsAscending
      (λ (p : EstimatedVolumeSeriesPoint). p.minute_ts)
      (build_estimated_volume_baseline sample_platform today_rows yesterday_rows).0
    × ((k : ℤ)
        → find_key
            (λ (p : EstimatedVolumeSeriesPoint). p.minute_ts)
            k
            (build_estimated_volume_baseline sample_platform today_rows yesterday_rows).0
          ≡ expected_point sample_platform k (last_row k none today_rows) yesterday_rows)
build_estimated_volume_baseline-at_example =
    build_estimated_volume_baseline-at sample_platform today_rows yesterday_rows

abbrev volume_series : List EstimatedVolumeSeriesPoint
volume_series =
    (record {
      minute_ts = pos 120000;
      minute_of_day = pos 482;
      time = "";
      yesterday_estimated = pos 35;
      today_estimated = pos 40;
      positive_diff = pos 5;
      negative_diff = pos 0;
    })
    ∷ []

apply_estimated_volume_realtime_patch-Holds_example :
    Holds
      (patched_point sample_platform sample_patch [])
      volume_series
      (apply_estimated_volume_realtime_patch sample_platform volume_series sample_patch [])
    × ((patched_point sample_platform sample_patch []).minute_ts ≡ minute_key (pos 185000))
apply_estimated_volume_realtime_patch-Holds_example =
    apply_estimated_volume_realtime_patch-Holds sample_platform sample_patch [] volume_series
      (tt, tt)
