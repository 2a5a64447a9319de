-- ===== src/Tests/Timelines.antt =====
-- Examples for the theorems on the series of minutes.
use Prim.Native.String.{String}
use text.Mathlib.Text.{◌==◌ as str_eq}
use trading_monitoring_dashb.Base.{
  Option, none, some, List, [], ◌∷◌, ◌≡◌, refl, arith, if◌then◌else◌,
}
use trading_monitoring_dashb.Base.Int.{ℤ, pos, negsuc, eq_ℤ}
use trading_monitoring_dashb.Base.NumMap.{map_get}
use trading_monitoring_dashb.Base.Sort.{IsSorted, IsAscending}
use trading_monitoring_dashb.Js.{undefined, num, str, is_number}
use trading_monitoring_dashb.Timeline.{find_insert_index, upsert_point, rebuild_index_map}
use trading_monitoring_dashb.Timeline.Search.{count_before, find_insert_index-eq-count_before}
use trading_monitoring_dashb.Timeline.Placement.{Upserts, upsert_point-Upserts}
use trading_monitoring_dashb.Timeline.Index.{IsIndex, upsert_point-IsIndex, rebuild-IsIndex}
use trading_monitoring_dashb.OrderFlow.{
  KbarTodayPoint, MetricTodayPoint, OrderFlowSeriesPoint, OrderFlowRealtimePatch, minute_key,
  latest_metrics, apply_realtime_patch,
}
use trading_monitoring_dashb.OrderFlow.Metrics.{LatestOf, latest_metrics-LatestOf}
use trading_monitoring_dashb.OrderFlow.Patch.{Patched, apply_realtime_patch-Patched}
use trading_monitoring_dashb.Minutes.{
  MinutePoint, minute_of, minute_row, reset_baseline, put_latest, to_record, QuotePoint,
  reset_quotes, base_maps, quote_records,
}
use trading_monitoring_dashb.Minutes.Record.{
  IsTimeline, reset_baseline-IsTimeline, put_latest-record,
}
use trading_monitoring_dashb.Minutes.Quotes.{
  latest, no_quotes, run_timeline, run_maps, quote_records-eq,
}

abbrev two_minutes : List MinutePoint
two_minutes =
    (record { minute_ts = pos 60000; value = num (pos 7) })
    ∷ (record { minute_ts = pos 180000; value = num (negsuc 2) })
    ∷ []

abbrev between : MinutePoint
between = record { minute_ts = pos 120000; value = num (pos 9) }

two_minutes-IsSorted : IsSorted minute_of two_minutes
two_minutes-IsSorted = ((omega arith, tt), (tt, tt))

two_minutes-IsAscending : IsAscending minute_of two_minutes
two_minutes-IsAscending = ((omega arith, tt), (tt, tt))

find_insert_index-eq-count_before_example :
    find_insert_index minute_row two_minutes (pos 120000)
    ≡ count_before minute_row (pos 120000) two_minutes
find_insert_index-eq-count_before_example =
    find_insert_index-eq-count_before minute_row two_minutes (pos 120000) two_minutes-IsSorted

-- An index map that is out of date.
upsert_point-Upserts_example :
    Upserts minute_row two_minutes between
      (upsert_point minute_row two_minutes ((pos 120000, 1) ∷ []) between)
upsert_point-Upserts_example =
    upsert_point-Upserts minute_row two_minutes ((pos 120000, 1) ∷ []) between
      two_minutes-IsAscending

upsert_point-IsIndex_example :
    IsAscending minute_of
      (upsert_point minute_row two_minutes
        (rebuild_index_map minute_row two_minutes)
        between).next_series
    × IsIndex minute_row
        (upsert_point minute_row two_minutes
          (rebuild_index_map minute_row two_minutes)
          between).next_series
        (upsert_point minute_row two_minutes
          (rebuild_index_map minute_row two_minutes)
          between).next_index_map
upsert_point-IsIndex_example =
    upsert_point-IsIndex minute_row two_minutes (rebuild_index_map minute_row two_minutes) between
      two_minutes-IsAscending (rebuild-IsIndex minute_row two_minutes two_minutes-IsAscending)

put_latest-record_example :
    IsTimeline (put_latest between (reset_baseline two_minutes))
    × ((k : ℤ)
        → map_get k (to_record (put_latest between (reset_baseline two_minutes)).series) ≡ (
            if eq_ℤ (pos 120000) k
            then some (num (pos 9))
            else map_get k (to_record (reset_baseline two_minutes).series)))
put_latest-record_example =
    put_latest-record between (reset_baseline two_minutes)
      (reset_baseline-IsTimeline two_minutes two_minutes-IsAscending) (unfold is_number in refl)

-- A parser of dates that knows one.
abbrev one_date : String → Option ℤ
one_date s = if str_eq s "2026-01-05T09:01:30Z" then some (pos 90000) else none

abbrev quote_rows : List QuotePoint
quote_rows =
    (record {
      ts = num (pos 61000);
      event_ts = undefined;
      main_chip = num (pos 3);
      long_short_force = undefined;
    })
    ∷ []

abbrev quote_latest : QuotePoint
quote_latest = record {
  ts = undefined;
  event_ts = str "2026-01-05T09:01:30Z";
  main_chip = num (pos 4);
  long_short_force = num (negsuc 0);
}

quote_records-eq_example :
    (map_get
        (pos 60000)
        (quote_records (
          run_timeline one_date
            (reset_quotes one_date quote_rows)
            (latest quote_latest ∷ []))).main_chip_by_minute
      ≡ map_get
          (pos 60000)
          (run_maps one_date
            (base_maps one_date (no_quotes one_date) quote_rows)
            (latest quote_latest ∷ [])).main_chip_by_minute)
    × (map_get
          (pos 60000)
          (quote_records (
            run_timeline one_date
              (reset_quotes one_date quote_rows)
              (latest quote_latest ∷ []))).long_short_force_by_minute
        ≡ map_get
            (pos 60000)
            (run_maps one_date
              (base_maps one_date (no_quotes one_date) quote_rows)
              (latest quote_latest ∷ [])).long_short_force_by_minute)
quote_records-eq_example =
    quote_records-eq one_date quote_rows (latest quote_latest ∷ []) (pos 60000)

abbrev two_metrics : List MetricTodayPoint
two_metrics =
    (record { main_force_big_order = num (pos 5); ts = num (pos 65000); event_ts = undefined })
    ∷ (record {
      main_force_big_order = num (pos 6);
      ts = undefined;
      event_ts = str "2026-01-05T09:01:30Z";
    })
    ∷ []

abbrev two_bars : List KbarTodayPoint
two_bars =
    (record { minute_ts = pos 120000; close = num (pos 101) })
    ∷ (record { minute_ts = pos 60000; close = num (pos 100) })
    ∷ []

abbrev no_label : ℤ → String
no_label t = ""

latest_metrics-LatestOf_example :
    LatestOf one_date
      (pos 60000)
      two_metrics
      (map_get (pos 60000) (latest_metrics one_date [] two_metrics))
latest_metrics-LatestOf_example = latest_metrics-LatestOf one_date two_metrics (pos 60000)

abbrev flow_series : List OrderFlowSeriesPoint
flow_series =
    (record {
      minute_ts = pos 60000;
      time = "";
      index_price = num (pos 100);
      chip_delta = num (pos 6);
    })
    ∷ []

abbrev flow_patch : OrderFlowRealtimePatch
flow_patch = record { minute_ts = pos 125000; index_price = num (pos 102); chip_delta = undefined }

apply_realtime_patch-Patched_example :
    Patched no_label flow_patch
      (minute_key (pos 125000))
      flow_series
      (apply_realtime_patch no_label flow_series flow_patch)
apply_realtime_patch-Patched_example =
    apply_realtime_patch-Patched no_label flow_patch flow_series (tt, tt)
