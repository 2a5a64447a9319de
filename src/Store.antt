-- ===== src/Store.antt =====
-- apps/frontend/src/features/realtime/store/realtime.store.ts: the state that the dashboard reads,
-- and its setters. `applySseBatch` is in Apply.
use Prim.Native.String.{String}
use trading_monitoring_dashb.Base.{Option, none, some, []}
use trading_monitoring_dashb.Base.Dict.{Dict, insert}
use trading_monitoring_dashb.Js.{Js, null, str, get}
use trading_monitoring_dashb.Events.{SseConnectionStatus, idle, ErrorReason}
pub mod Series
pub mod Apply
pub mod Entries
pub mod SeriesLaws
pub mod Lookups
pub mod Unchanged
pub mod Total
pub mod Windows

pub record RealtimeStore : Type 0 where
  pub connection_status : SseConnectionStatus
  pub error_reason : Option ErrorReason
  pub kbar_current_by_code : Dict Js
  pub metric_latest_by_code : Dict Js
  pub index_contrib_ranking : Js
  pub index_contrib_sector : Js
  pub market_summary_latest_by_code : Dict Js
  pub otc_summary_latest_by_code : Dict Js
  pub quote_latest_by_code : Dict Js
  pub spot_latest_list : Js
  pub spot_market_distribution_latest : Js
  pub spot_market_distribution_series : Js
  pub last_heartbeat_ts : Js

abbrev pub initial_state : RealtimeStore
initial_state = record {
  connection_status = idle;
  error_reason = none;
  kbar_current_by_code = [];
  metric_latest_by_code = [];
  index_contrib_ranking = null;
  index_contrib_sector = null;
  market_summary_latest_by_code = [];
  otc_summary_latest_by_code = [];
  quote_latest_by_code = [];
  spot_latest_list = null;
  spot_market_distribution_latest = null;
  spot_market_distribution_series = null;
  last_heartbeat_ts = null;
}

-- A value as the key of an object: a string is its own key, and `to_string` is the platform's
-- conversion of anything else.
abbrev pub property_key : (Js → String) → Js → String
property_key to_string (str s) = s
property_key to_string v = to_string v

unfoldable pub set_connection_status :
    SseConnectionStatus → Option ErrorReason → RealtimeStore → RealtimeStore
set_connection_status status reason s = record s {
  connection_status = status;
  error_reason = reason;
}

unfoldable pub upsert_kbar_current : (Js → String) → Js → RealtimeStore → RealtimeStore
upsert_kbar_current to_string payload s = record s {
  kbar_current_by_code =
      insert (property_key to_string (get payload "code")) payload s.kbar_current_by_code;
}

unfoldable pub upsert_metric_latest : String → Js → RealtimeStore → RealtimeStore
upsert_metric_latest code payload s = record s {
  metric_latest_by_code = insert code payload s.metric_latest_by_code;
}

unfoldable pub set_index_contrib_ranking : Js → RealtimeStore → RealtimeStore
set_index_contrib_ranking payload s = record s { index_contrib_ranking = payload }

unfoldable pub set_index_contrib_sector : Js → RealtimeStore → RealtimeStore
set_index_contrib_sector payload s = record s { index_contrib_sector = payload }

unfoldable pub upsert_market_summary_latest : String → Js → RealtimeStore → RealtimeStore
upsert_market_summary_latest code payload s = record s {
  market_summary_latest_by_code = insert code payload s.market_summary_latest_by_code;
}

unfoldable pub upsert_otc_summary_latest : String → Js → RealtimeStore → RealtimeStore
upsert_otc_summary_latest code payload s = record s {
  otc_summary_latest_by_code = insert code payload s.otc_summary_latest_by_code;
}

unfoldable pub upsert_quote_latest : String → Js → RealtimeStore → RealtimeStore
upsert_quote_latest code payload s = record s {
  quote_latest_by_code = insert code payload s.quote_latest_by_code;
}

unfoldable pub set_heartbeat : Js → RealtimeStore → RealtimeStore
set_heartbeat ts s = record s { last_heartbeat_ts = ts }

unfoldable pub reset_realtime : RealtimeStore → RealtimeStore
reset_realtime s = initial_state
