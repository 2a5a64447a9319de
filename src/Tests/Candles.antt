-- ===== src/Tests/Candles.antt =====
-- An example for the theorem on the candle of today.
use trading_monitoring_dashb.Base.{none, some, List, [], ◌∷◌, All, ltb, ◌-◌, arith, if◌then◌else◌}
use trading_monitoring_dashb.Base.Int.{ℤ, pos, negsuc}
use trading_monitoring_dashb.Candle.{
  CandlePlatform, Kbar, aggregate_today_kbar, patch_realtime_today_candle,
}
use trading_monitoring_dashb.Candle.Covers.{IsBar, IsCandle, Covers, patched-Covers}

abbrev sample_minus : ℤ → ℤ → ℤ
sample_minus (pos a) (pos b) = if ltb a b then negsuc (b - a - 1) else pos (a - b)
sample_minus a b = pos 0

abbrev sample_platform : CandlePlatform
sample_platform = record { today_label = "01/05"; minus = sample_minus }

abbrev later_bar : Kbar
later_bar = record {
  minute_ts = pos 120000;
  open_price = pos 101;
  high = pos 105;
  low = pos 100;
  close = pos 104;
  trade_date = "2026-01-05";
  day_amplitude = none;
}

abbrev first_bar : Kbar
first_bar = record {
  minute_ts = pos 60000;
  open_price = pos 99;
  high = pos 102;
  low = pos 98;
  close = pos 101;
  trade_date = "2026-01-05";
  day_amplitude = none;
}

abbrev current_bar : Kbar
current_bar = record {
  minute_ts = pos 180000;
  open_price = pos 104;
  high = pos 104;
  low = pos 97;
  close = pos 97;
  trade_date = "2026-01-05";
  day_amplitude = some (negsuc 7);
}

later_bar-IsBar : IsBar later_bar
later_bar-IsBar = record {
  open_low = omega arith;
  open_high = omega arith;
  close_low = omega arith;
  close_high = omega arith;
}

first_bar-IsBar : IsBar first_bar
first_bar-IsBar = record {
  open_low = omega arith;
  open_high = omega arith;
  close_low = omega arith;
  close_high = omega arith;
}

current_bar-IsBar : IsBar current_bar
current_bar-IsBar = record {
  open_low = omega arith;
  open_high = omega arith;
  close_low = omega arith;
  close_high = omega arith;
}

abbrev two_bars : List Kbar
two_bars = later_bar ∷ first_bar ∷ []

patched-Covers_example :
    IsCandle (
      patch_realtime_today_candle sample_platform
        (aggregate_today_kbar sample_platform two_bars)
        current_bar)
    × Covers
        (patch_realtime_today_candle sample_platform
          (aggregate_today_kbar sample_platform two_bars)
          current_bar)
        current_bar
    × All
        (Covers (
          patch_realtime_today_candle sample_platform
            (aggregate_today_kbar sample_platform two_bars)
            current_bar))
        two_bars
patched-Covers_example =
    patched-Covers sample_platform two_bars current_bar (later_bar-IsBar, (first_bar-IsBar, tt))
      current_bar-IsBar
