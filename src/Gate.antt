-- ===== src/Gate.antt =====
-- apps/frontend/src/features/realtime/services/realtime-manager.ts, `shouldApplyDashboardSseEvent`
-- and what it calls, with the copies of apps/frontend/src/features/realtime/sse-worker.ts: an event
-- is applied only if its time lies in the trading session of its day in Taipei.
use Prim.Native.String.{String}
use text.Mathlib.Text.{◌==◌ as str_eq}
use trading_monitoring_dashb.Base.{
  Bool, true, false, not, ◌&&◌, ◌||◌, Option, none, some, if◌then◌else◌,
}
use trading_monitoring_dashb.Base.Int.{ℤ, leb_ℤ}
use trading_monitoring_dashb.Js.{
  Js, num, str, get, has_text, is_object, truthy, items_or_empty, last_or_undefined,
}
use trading_monitoring_dashb.Events.{
  ServingSseEventName, kbar_current, metric_latest, index_contrib_ranking, index_contrib_sector,
  market_summary_latest, otc_summary_latest, quote_latest, spot_latest_list,
  spot_market_distribution_latest, spot_market_distribution_series, heartbeat, other,
}
pub mod Cache
pub mod Copies

abbrev pub session_start_hhmm : String
session_start_hhmm = "09:00:00"

abbrev pub session_end_hhmm : String
session_end_hhmm = "13:45:00"

-- What the platform provides. `format` is the date in Taipei of a time, and `none` where
-- `Intl.DateTimeFormat` throws a RangeError; `date_parse` is `Date.parse`, `none` for NaN;
-- `at_time` puts a clock time behind a date.
pub record Calendar : Type 0 where
  pub format : ℤ → Option String
  pub date_parse : String → Option ℤ
  pub at_time : String → String → String

pub record Bounds : Type 0 where
  pub start_ms : Option ℤ
  pub end_ms : Option ℤ

-- `cachedSessionDatePart` and `cachedSessionBounds`.
pub record SessionCache : Type 0 where
  pub date_part : Option String
  pub bounds : Option Bounds

-- `first ?? second`
abbrev pub or_else : Option ℤ → Option ℤ → Option ℤ
or_else (some t) b = some t
or_else none b = b

-- `a <= b`, which is false for NaN.
abbrev pub at_most : Option ℤ → Option ℤ → Bool
at_most (some a) (some b) = leb_ℤ a b
at_most _ _ = false

abbrev pub in_bounds : Bounds → ℤ → Bool
in_bounds b ts = at_most b.start_ms (some ts) && at_most (some ts) b.end_ms

module _ (calendar : Calendar) where
  unfoldable pub to_epoch_ms : Js → Option ℤ
  to_epoch_ms (num n) = some n
  to_epoch_ms (str s) = if has_text s then calendar.date_parse s else none
  to_epoch_ms _ = none

  unfoldable pub session_bounds : String → Bounds
  session_bounds date = record {
    start_ms = calendar.date_parse (calendar.at_time date session_start_hhmm);
    end_ms = calendar.date_parse (calendar.at_time date session_end_hhmm);
  }

  -- `cachedSessionDatePart === datePart && cachedSessionBounds`
  cached : SessionCache → String → Option Bounds
  cached c date = elim c.date_part [
    | none ↦ none
    | some d ↦ if str_eq d date then c.bounds else none
  ]

  -- `none`: the formatter has thrown.
  unfoldable pub resolve_session_bounds : SessionCache → ℤ → Option (Bounds × SessionCache)
  unfolding session_bounds cached
  resolve_session_bounds c ts = elim (calendar.format ts) [
    | none ↦ none
    | some date ↦ elim (cached c date) [
      | some b ↦ some (b, c)
      | none ↦ some (
        session_bounds date,
        record { date_part = some date; bounds = some (session_bounds date) },
      )
    ]
  ]

  -- The chain of branches that finds the time of an event.
  unfoldable pub event_time : ServingSseEventName → Js → Option ℤ
  unfolding to_epoch_ms
  event_time kbar_current p = to_epoch_ms (get p "minute_ts")
  event_time metric_latest p = or_else (to_epoch_ms (get p "ts")) (to_epoch_ms (get p "event_ts"))
  event_time market_summary_latest p =
      or_else (to_epoch_ms (get p "minute_ts")) (to_epoch_ms (get p "event_ts"))
  event_time otc_summary_latest p =
      or_else (to_epoch_ms (get p "minute_ts")) (to_epoch_ms (get p "event_ts"))
  event_time index_contrib_ranking p = to_epoch_ms (get p "ts")
  event_time index_contrib_sector p = to_epoch_ms (get p "ts")
  event_time spot_latest_list p = to_epoch_ms (get p "ts")
  event_time spot_market_distribution_latest p = to_epoch_ms (get p "ts")
  event_time spot_market_distribution_series p =
      to_epoch_ms (get (last_or_undefined (items_or_empty (get p "items"))) "ts")
  event_time quote_latest p = or_else (to_epoch_ms (get p "event_ts")) (to_epoch_ms (get p "ts"))
  event_time heartbeat p = none
  event_time other p = none

  abbrev pub check_time : SessionCache → Option ℤ → Option (Bool × SessionCache)
  check_time c none = some (false, c)
  check_time c (some ts) = elim (resolve_session_bounds c ts) [
    | none ↦ none
    | some (b, c') ↦ some (in_bounds b ts, c')
  ]

  abbrev pub check_payload : SessionCache → ServingSseEventName → Js → Option (Bool × SessionCache)
  check_payload c event p =
      if not (is_object p) then some (false, c) else check_time c (event_time event p)

  unfoldable pub should_apply_dashboard_sse_event :
      SessionCache → ServingSseEventName → Js → Option (Bool × SessionCache)
  should_apply_dashboard_sse_event c heartbeat p = some (true, c)
  should_apply_dashboard_sse_event c index_contrib_ranking p = some (true, c)
  should_apply_dashboard_sse_event c index_contrib_sector p = some (true, c)
  should_apply_dashboard_sse_event c event p = check_payload c event p

  -- The copy of the worker, which leaves out two branches that are never reached.
  unfoldable pub worker_event_time : ServingSseEventName → Js → Option ℤ
  unfolding to_epoch_ms
  worker_event_time kbar_current p = to_epoch_ms (get p "minute_ts")
  worker_event_time metric_latest p =
      or_else (to_epoch_ms (get p "ts")) (to_epoch_ms (get p "event_ts"))
  worker_event_time market_summary_latest p =
      or_else (to_epoch_ms (get p "minute_ts")) (to_epoch_ms (get p "event_ts"))
  worker_event_time otc_summary_latest p =
      or_else (to_epoch_ms (get p "minute_ts")) (to_epoch_ms (get p "event_ts"))
  worker_event_time spot_latest_list p = to_epoch_ms (get p "ts")
  worker_event_time spot_market_distribution_latest p = to_epoch_ms (get p "ts")
  worker_event_time spot_market_distribution_series p =
      to_epoch_ms (get (last_or_undefined (items_or_empty (get p "items"))) "ts")
  worker_event_time quote_latest p =
      or_else (to_epoch_ms (get p "event_ts")) (to_epoch_ms (get p "ts"))
  worker_event_time _ p = none

  unfoldable pub worker_should_apply :
      SessionCache → ServingSseEventName → Js → Option (Bool × SessionCache)
  worker_should_apply c heartbeat p = some (true, c)
  worker_should_apply c index_contrib_ranking p = some (true, c)
  worker_should_apply c index_contrib_sector p = some (true, c)
  worker_should_apply c event p =
      if not (truthy p) || not (is_object p)
      then some (false, c)
      else check_time c (worker_event_time event p)
