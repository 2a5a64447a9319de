-- ===== src/Minutes.antt =====
-- apps/frontend/src/features/dashboard/hooks/use-quote-timeline.ts, use-metric-timeline.ts and
-- use-kbar-timeline.ts: values by minute, from the rows of the day and the latest events. The state
-- of a hook is its series and the index map of its reference; an effect is a function on them.
use Prim.Native.String.{String}
use trading_monitoring_dashb.Base.{
  ℕ, Bool, true, false, not, Option, none, some, List, [], ◌∷◌, map, if◌then◌else◌,
}
use trading_monitoring_dashb.Base.Int.{ℤ}
use trading_monitoring_dashb.Base.NumMap.{NumMap, map_get, map_set, values}
use trading_monitoring_dashb.Base.Sort.{sort_by}
use trading_monitoring_dashb.Js.{Js, name, num, str, is_number}
use trading_monitoring_dashb.Timeline.{Row, Upsert, upsert_point, rebuild_index_map}
use trading_monitoring_dashb.OrderFlow.{
  minute_key, KbarTodayPoint, MetricTodayPoint, MinuteMetricSample, sample_at, collect_sample,
}
pub mod Record
pub mod Quotes

pub record MinutePoint : Type 0 where
  pub minute_ts : ℤ
  pub value : Js

abbrev pub minute_of : MinutePoint → ℤ
minute_of p = p.minute_ts

abbrev pub minute_row : Row MinutePoint
minute_row = record {
  minute_ts = minute_of;
  fields = λ p. (name "minuteTs", num p.minute_ts) ∷ (name "value", p.value) ∷ [];
}

-- A series, and the index map in `useRef`.
pub record TimelineState : Type 0 where
  pub series : List MinutePoint
  pub index_map : NumMap ℕ

-- The effect that sets a new baseline: the loop over the series fills a new map.
unfoldable pub reset_baseline : List MinutePoint → TimelineState
reset_baseline series = record { series = series; index_map = rebuild_index_map minute_row series }

abbrev pub after_upsert : Upsert MinutePoint → TimelineState → TimelineState
after_upsert u st =
    if not u.did_change then st else record { series = u.next_series; index_map = u.next_index_map }

-- The callback that is given to `setSeries`.
unfoldable pub put_latest : MinutePoint → TimelineState → TimelineState
put_latest p st = after_upsert (upsert_point minute_row st.series st.index_map p) st

-- `for (const point of series) out[point.minuteTs] = point.value`
unfoldable pub fill_record : NumMap Js → List MinutePoint → NumMap Js
fill_record out [] = out
fill_record out (p ∷ ps) = fill_record (map_set p.minute_ts p.value out) ps

unfoldable pub to_record : List MinutePoint → NumMap Js
unfolding fill_record
to_record series = fill_record [] series

-- The keys of an object in their order, each with its value.
abbrev pub entry_points : NumMap Js → List MinutePoint
entry_points m = map (λ (e : ℤ × Js). record { minute_ts = e.0; value = e.1 }) m

unfoldable pub baseline_series : NumMap Js → List MinutePoint
baseline_series m = sort_by minute_of (entry_points m)

-- use-quote-timeline.ts
pub record QuotePoint : Type 0 where
  pub ts : Js
  pub event_ts : Js
  pub main_chip : Js
  pub long_short_force : Js

abbrev pub number_or_date : (String → Option ℤ) → Js → Option ℤ
number_or_date date_parse (num n) = some n
number_or_date date_parse (str s) = date_parse s
number_or_date date_parse v = none

abbrev pub first_ts : Option ℤ → Option ℤ → Option ℤ
first_ts none b = b
first_ts (some a) b = some a

-- `resolvePointTs`
unfoldable pub resolve_point_ts : (String → Option ℤ) → QuotePoint → Option ℤ
resolve_point_ts date_parse p =
    first_ts (number_or_date date_parse p.ts) (number_or_date date_parse p.event_ts)

abbrev pub add_finite : ℤ → Js → NumMap Js → NumMap Js
add_finite minute (num n) m = map_set minute (num n) m
add_finite minute v m = m

pub record QuoteMinuteMaps : Type 0 where
  pub main_chip_by_minute : NumMap Js
  pub long_short_force_by_minute : NumMap Js

abbrev pub add_quote : QuoteMinuteMaps → QuotePoint → Option ℤ → QuoteMinuteMaps
add_quote m p none = m
add_quote m p (some ts) = record {
  main_chip_by_minute = add_finite (minute_key ts) p.main_chip m.main_chip_by_minute;
  long_short_force_by_minute =
      add_finite (minute_key ts) p.long_short_force m.long_short_force_by_minute;
}

-- `baseMaps`
unfoldable pub base_maps : (String → Option ℤ) → QuoteMinuteMaps → List QuotePoint → QuoteMinuteMaps
base_maps date_parse m [] = m
base_maps date_parse m (p ∷ ps) =
    base_maps date_parse (add_quote m p (resolve_point_ts date_parse p)) ps

pub record QuoteTimeline : Type 0 where
  pub main : TimelineState
  pub long : TimelineState

-- The effect on a new baseline.
unfoldable pub reset_quotes : (String → Option ℤ) → List QuotePoint → QuoteTimeline
unfolding reset_baseline base_maps
reset_quotes date_parse rows =
    let m =
      base_maps date_parse (record { main_chip_by_minute = []; long_short_force_by_minute = [] })
        rows in
    record {
      main = reset_baseline (baseline_series m.main_chip_by_minute);
      long = reset_baseline (baseline_series m.long_short_force_by_minute);
    }

abbrev pub put_finite : ℤ → Js → TimelineState → TimelineState
put_finite minute (num n) st = put_latest (record { minute_ts = minute; value = num n }) st
put_finite minute v st = st

abbrev pub put_quote_at : QuotePoint → Option ℤ → QuoteTimeline → QuoteTimeline
put_quote_at p none q = q
put_quote_at p (some ts) q = record {
  main = put_finite (minute_key ts) p.main_chip q.main;
  long = put_finite (minute_key ts) p.long_short_force q.long;
}

-- The effect on a new latest quote.
unfoldable pub put_quote : (String → Option ℤ) → QuotePoint → QuoteTimeline → QuoteTimeline
put_quote date_parse p q = put_quote_at p (resolve_point_ts date_parse p) q

-- What the hook returns.
unfoldable pub quote_records : QuoteTimeline → QuoteMinuteMaps
unfolding to_record
quote_records q = record {
  main_chip_by_minute = to_record q.main.series;
  long_short_force_by_minute = to_record q.long.series;
}

-- use-metric-timeline.ts
abbrev pub metric_point_ts : (String → Option ℤ) → Js → Js → Option ℤ
metric_point_ts date_parse (num n) event_ts = some n
metric_point_ts date_parse ts (str s) = date_parse s
metric_point_ts date_parse ts event_ts = none

-- `toMetricSample`, and `resolveMetricLatestSample` for an event.
unfoldable pub to_metric_sample : (String → Option ℤ) → MetricTodayPoint → Option MinuteMetricSample
to_metric_sample date_parse m =
    if not (is_number m.main_force_big_order)
    then none
    else sample_at m.main_force_big_order (metric_point_ts date_parse m.ts m.event_ts)

unfoldable pub latest_samples :
    (String → Option ℤ)
    → NumMap MinuteMetricSample
    → List MetricTodayPoint
    → NumMap MinuteMetricSample
latest_samples date_parse m [] = m
latest_samples date_parse m (x ∷ xs) =
    latest_samples date_parse (collect_sample m (to_metric_sample date_parse x)) xs

unfoldable pub reset_metrics : (String → Option ℤ) → List MetricTodayPoint → TimelineState
unfolding reset_baseline
reset_metrics date_parse metrics = reset_baseline (
    sort_by minute_of (
      map (λ (s : MinuteMetricSample). record { minute_ts = s.minute_ts; value = s.value })
        (values (latest_samples date_parse [] metrics))))

abbrev pub put_sample : Option MinuteMetricSample → TimelineState → TimelineState
put_sample none st = st
put_sample (some s) st = put_latest (record { minute_ts = s.minute_ts; value = s.value }) st

unfoldable pub put_metric : (String → Option ℤ) → MetricTodayPoint → TimelineState → TimelineState
put_metric date_parse m st = put_sample (to_metric_sample date_parse m) st

-- use-kbar-timeline.ts
unfoldable pub reset_kbars : List KbarTodayPoint → TimelineState
unfolding reset_baseline
reset_kbars kbars = reset_baseline (
    sort_by minute_of (
      map (λ (k : KbarTodayPoint). record { minute_ts = minute_key k.minute_ts; value = k.close })
        kbars))

unfoldable pub put_kbar : KbarTodayPoint → TimelineState → TimelineState
put_kbar k st = put_latest (record { minute_ts = minute_key k.minute_ts; value = k.close }) st
