-- ===== src/OrderFlow/Series.antt =====
-- The series of a day has one point for each minute that has a bar.
use Prim.Native.String.{String}
use trading_monitoring_dashb.Base.{Option, none, some, List, [], ◌∷◌, if◌then◌else◌}
use trading_monitoring_dashb.Base.Int.{ℤ, eq_ℤ}
use trading_monitoring_dashb.Base.NumMap.{NumMap}
use trading_monitoring_dashb.OrderFlow.{
  minute_key, KbarTodayPoint, MinuteMetricSample, OrderFlowSeriesPoint, chip_of, flow_point,
}

abbrev pub minute_of : OrderFlowSeriesPoint → ℤ
minute_of p = p.minute_ts

-- The last bar of a minute, or `b` if there is none.
unfoldable pub last_bar : ℤ → Option KbarTodayPoint → List KbarTodayPoint → Option KbarTodayPoint
last_bar k b [] = b
last_bar k b (x ∷ xs) = last_bar k (if eq_ℤ (minute_key x.minute_ts) k then some x else b) xs

module _ (label : ℤ → String) where
  -- The point that the minute `k` is to have.
  abbrev pub point_of :
      ℤ → Option MinuteMetricSample → Option KbarTodayPoint → Option OrderFlowSeriesPoint
  point_of k s none = none
  point_of k s (some b) = some (flow_point label k b.close (chip_of s))
