-- ===== src/Candle.antt =====
-- apps/frontend/src/features/dashboard/hooks/use-participant-amplitude.ts: the candle of today from
-- the bars of the day, and its patch by the bar that is current. Numbers are finite.
use Prim.Native.String.{String}
use trading_monitoring_dashb.Base.{
  ℕ, suc, Bool, true, false, Option, none, some, List, [], ◌∷◌, if◌then◌else◌,
}
use trading_monitoring_dashb.Base.Int.{ℤ, pos, negsuc, leb_ℤ}
use trading_monitoring_dashb.Base.Sort.{sort_by}
pub mod Covers

-- The label of today in Taipei, and the subtraction of numbers.
pub record CandlePlatform : Type 0 where
  pub today_label : String
  pub minus : ℤ → ℤ → ℤ

-- `day_amplitude` is `none` where it is no number.
pub record Kbar : Type 0 where
  pub minute_ts : ℤ
  pub open_price : ℤ
  pub high : ℤ
  pub low : ℤ
  pub close : ℤ
  pub trade_date : String
  pub day_amplitude : Option ℤ

pub record ParticipantCandlePoint : Type 0 where
  pub day : String
  pub trade_date : String
  pub open_price : ℤ
  pub high : ℤ
  pub low : ℤ
  pub close : ℤ
  pub amplitude : ℤ
  pub is_realtime : Bool

-- `Math.max(a, b)` and `Math.min(a, b)`
abbrev pub max_ℤ : ℤ → ℤ → ℤ
max_ℤ a b = if leb_ℤ a b then b else a

abbrev pub min_ℤ : ℤ → ℤ → ℤ
min_ℤ a b = if leb_ℤ a b then a else b

-- `Math.abs`
abbrev pub normalize_amplitude : ℤ → ℤ
normalize_amplitude (pos n) = pos n
normalize_amplitude (negsuc n) = pos (suc n)

unfoldable pub highest : ℤ → List Kbar → ℤ
highest h [] = h
highest h (k ∷ ks) = highest (max_ℤ h k.high) ks

unfoldable pub lowest : ℤ → List Kbar → ℤ
lowest l [] = l
lowest l (k ∷ ks) = lowest (min_ℤ l k.low) ks

unfoldable pub last_of : Kbar → List Kbar → Kbar
last_of k [] = k
last_of k (j ∷ ks) = last_of j ks

module _ (platform : CandlePlatform) where
  -- The amplitude that the bar gives, or else the distance.
  abbrev pub amplitude_of : Option ℤ → ℤ → ℤ → ℤ
  amplitude_of none high low = normalize_amplitude (platform.minus high low)
  amplitude_of (some a) high low = normalize_amplitude a

  abbrev pub candle_of : List Kbar → Option ParticipantCandlePoint
  candle_of [] = none
  candle_of (first ∷ rest) =
      let last = last_of first rest in
      let high = highest first.high rest in
      let low = lowest first.low rest in
      some (record {
        day = platform.today_label;
        trade_date = first.trade_date;
        open_price = first.open_price;
        high = high;
        low = low;
        close = last.close;
        amplitude = amplitude_of last.day_amplitude high low;
        is_realtime = true;
      })

  unfoldable pub aggregate_today_kbar : List Kbar → Option ParticipantCandlePoint
  aggregate_today_kbar kbars = candle_of (sort_by (λ (k : Kbar). k.minute_ts) kbars)

  unfoldable pub patch_realtime_today_candle :
      Option ParticipantCandlePoint → Kbar → ParticipantCandlePoint
  patch_realtime_today_candle none k = record {
    day = platform.today_label;
    trade_date = k.trade_date;
    open_price = k.open_price;
    high = k.high;
    low = k.low;
    close = k.close;
    amplitude = amplitude_of k.day_amplitude k.high k.low;
    is_realtime = true;
  }
  patch_realtime_today_candle (some current) k =
      let high = max_ℤ current.high k.high in
      let low = min_ℤ current.low k.low in
      record current {
        high = high;
        low = low;
        close = k.close;
        amplitude = amplitude_of k.day_amplitude high low;
      }
