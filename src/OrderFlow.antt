-- ===== src/OrderFlow.antt =====
-- apps/frontend/src/features/dashboard/lib/market-overview-mapper.ts and secondary-overlay-series.ts:
-- bars and metrics of a day as a series of minutes. A time is a whole number of milliseconds in the
-- range of `Date`; `label` is the formatter of the minute's label.
use Prim.Native.String.{String}
use trading_monitoring_dashb.Base.{
  ℕ, suc, ◌+◌, ◌*◌, ◌/◌, Bool, true, false, not, ◌||◌, Option, none, some, List, [], ◌∷◌, ◌++◌, map,
  get_elem?, set, if◌then◌else◌,
}
use trading_monitoring_dashb.Base.Int.{ℤ, pos, negsuc, neg_ℤ, leb_ℤ}
use trading_monitoring_dashb.Base.NumMap.{NumMap, map_get, map_set, values}
use trading_monitoring_dashb.Base.Sort.{sort_by, find_index}
use trading_monitoring_dashb.Js.{Js, num, infinite, str, is_number}
use trading_monitoring_dashb.Collect.{nullish}
pub mod Metrics
pub mod Series
pub mod Patch

-- `Math.floor(ts / 60_000) * 60_000`
unfoldable pub minute_key : ℤ → ℤ
minute_key (pos n) = pos (n / 60000 * 60000)
minute_key (negsuc n) = neg_ℤ (pos ((n + 60000) / 60000 * 60000))

pub record KbarTodayPoint : Type 0 where
  pub minute_ts : ℤ
  pub close : Js

pub record MetricTodayPoint : Type 0 where
  pub main_force_big_order : Js
  pub ts : Js
  pub event_ts : Js

pub record MinuteMetricSample : Type 0 where
  pub minute_ts : ℤ
  pub ts : ℤ
  pub value : Js

pub record OrderFlowSeriesPoint : Type 0 where
  pub minute_ts : ℤ
  pub time : String
  pub index_price : Js
  pub chip_delta : Js

pub record OrderFlowRealtimePatch : Type 0 where
  pub minute_ts : ℤ
  pub index_price : Js
  pub chip_delta : Js

abbrev pub zero_number : Js
zero_number = num (pos 0)

-- The time of a metric; `none` where it is not finite.
abbrev pub finite_ts : (String → Option ℤ) → Js → Js → Option ℤ
finite_ts date_parse (num n) event_ts = some n
finite_ts date_parse (infinite b) event_ts = none
finite_ts date_parse ts (str s) = date_parse s
finite_ts date_parse ts event_ts = none

abbrev pub sample_at : Js → Option ℤ → Option MinuteMetricSample
sample_at value none = none
sample_at value (some t) = some (record { minute_ts = minute_key t; ts = t; value = value })

-- `toMinuteMetricSample`; `date_parse` is `Date.parse`, `none` for NaN.
unfoldable pub to_minute_metric_sample :
    (String → Option ℤ) → MetricTodayPoint → Option MinuteMetricSample
to_minute_metric_sample date_parse m =
    if not (is_number m.main_force_big_order)
    then none
    else sample_at m.main_force_big_order (finite_ts date_parse m.ts m.event_ts)

-- `!current || sample.ts >= current.ts`
abbrev pub replaces : Option MinuteMetricSample → MinuteMetricSample → Bool
replaces none sample = true
replaces (some current) sample = leb_ℤ current.ts sample.ts

abbrev pub collect_sample :
    NumMap MinuteMetricSample → Option MinuteMetricSample → NumMap MinuteMetricSample
collect_sample m none = m
collect_sample m (some s) =
    if replaces (map_get s.minute_ts m) s then map_set s.minute_ts s m else m

unfoldable pub latest_metrics :
    (String → Option ℤ)
    → NumMap MinuteMetricSample
    → List MetricTodayPoint
    → NumMap MinuteMetricSample
latest_metrics date_parse m [] = m
latest_metrics date_parse m (x ∷ xs) =
    latest_metrics date_parse (collect_sample m (to_minute_metric_sample date_parse x)) xs

-- `sample?.value ?? 0`
abbrev pub chip_of : Option MinuteMetricSample → Js
chip_of none = zero_number
chip_of (some s) = nullish s.value zero_number

abbrev pub or_zero : Option Js → Js
or_zero none = zero_number
or_zero (some v) = nullish v zero_number

abbrev pub patched_point : OrderFlowRealtimePatch → OrderFlowSeriesPoint → OrderFlowSeriesPoint
patched_point patch current = record current {
  index_price = nullish patch.index_price current.index_price;
  chip_delta = nullish patch.chip_delta current.chip_delta;
}

abbrev pub patch_at :
    List OrderFlowSeriesPoint
    → OrderFlowRealtimePatch
    → ℕ
    → Option OrderFlowSeriesPoint
    → List OrderFlowSeriesPoint
patch_at series patch i none = series
patch_at series patch i (some current) =
    sort_by (λ p. p.minute_ts) (set series i (patched_point patch current))

module _ (label : ℤ → String) where
  abbrev pub flow_point : ℤ → Js → Js → OrderFlowSeriesPoint
  flow_point minute price chip = record {
    minute_ts = minute;
    time = label minute;
    index_price = price;
    chip_delta = chip;
  }

  unfoldable pub collect_kbars :
      NumMap MinuteMetricSample
      → NumMap OrderFlowSeriesPoint
      → List KbarTodayPoint
      → NumMap OrderFlowSeriesPoint
  collect_kbars samples series [] = series
  collect_kbars samples series (k ∷ ks) =
      let minute = minute_key k.minute_ts in
      collect_kbars samples
        (map_set minute (flow_point minute k.close (chip_of (map_get minute samples))) series) ks

  unfoldable pub build_order_flow_series :
      (String → Option ℤ) → List KbarTodayPoint → List MetricTodayPoint → List OrderFlowSeriesPoint
  build_order_flow_series date_parse kbars metrics =
      sort_by (λ p. p.minute_ts)
        (values (collect_kbars (latest_metrics date_parse [] metrics) [] kbars))

  -- The keys of an object with numbers as keys are these numbers.
  unfoldable pub build_order_flow_series_from_timeline_maps :
      NumMap Js → NumMap Js → List OrderFlowSeriesPoint
  build_order_flow_series_from_timeline_maps prices chips =
      map
        (λ minute.
          flow_point minute (or_zero (map_get minute prices)) (or_zero (map_get minute chips)))
        (sort_by (λ (k : ℤ). k) (map (λ (e : ℤ × Js). e.0) prices))

  abbrev pub patch_or_push :
      List OrderFlowSeriesPoint → OrderFlowRealtimePatch → ℤ → Option ℕ → List OrderFlowSeriesPoint
  patch_or_push series patch minute (some i) = patch_at series patch i (get_elem? series i)
  patch_or_push series patch minute none =
      if not (is_number patch.index_price)
      then series
      else sort_by (λ p. p.minute_ts)
          (series
            ++ (flow_point minute patch.index_price (nullish patch.chip_delta zero_number) ∷ []))

  unfoldable pub apply_realtime_patch :
      List OrderFlowSeriesPoint → OrderFlowRealtimePatch → List OrderFlowSeriesPoint
  apply_realtime_patch series patch =
      let minute = minute_key patch.minute_ts in
      patch_or_push series patch minute (find_index (λ p. p.minute_ts) minute series)

-- `typeof secondary === "number" && Number.isFinite(secondary)`
abbrev pub finite_or_carry : Option Js → Js → Js
finite_or_carry (some (num n)) carry = num n
finite_or_carry _ carry = carry

unfoldable pub carry_secondary :
    NumMap Js → Js → List OrderFlowSeriesPoint → List OrderFlowSeriesPoint
carry_secondary secondary carry [] = []
carry_secondary secondary carry (p ∷ ps) =
    let next = finite_or_carry (map_get p.minute_ts secondary) carry in
    record p { chip_delta = next } ∷ carry_secondary secondary next ps

-- `buildSecondaryOverlaySeries`
unfoldable pub build_secondary_overlay_series :
    List OrderFlowSeriesPoint → NumMap Js → List OrderFlowSeriesPoint
unfolding carry_secondary
build_secondary_overlay_series ticks secondary =
    carry_secondary secondary zero_number (sort_by (λ p. p.minute_ts) ticks)
