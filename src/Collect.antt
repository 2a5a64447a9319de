-- ===== src/Collect.antt =====
-- apps/frontend/src/features/realtime/services/realtime-manager.ts, `collectServingSseEvent`: an
-- event's payload is checked against its schema and put into the batch, under a code where the
-- field is a map. The schemas are in Schemas; the `safeParse` of the zod library is
-- a parameter, and `none` is a failed parse.
use Prim.Native.String.{String}
use text.Mathlib.Text.{◌==◌ as str_eq}
use trading_monitoring_dashb.Base.{
  Bool, true, false, Option, none, some, List, [], ◌∷◌, ◌&&◌, if◌then◌else◌,
}
use trading_monitoring_dashb.Base.Int.{ℤ, pos, ltb_ℤ}
use trading_monitoring_dashb.Base.Dict.{Dict, insert}
use trading_monitoring_dashb.Js.{Js, undefined, null, num, infinite, str, get, has_text, is_number}
use trading_monitoring_dashb.Batch.{ServingSseBatch, map_entries}
use trading_monitoring_dashb.Events.{
  ServingSseEventName, kbar_current, metric_latest, index_contrib_ranking, index_contrib_sector,
  market_summary_latest, otc_summary_latest, quote_latest, spot_latest_list,
  spot_market_distribution_latest, spot_market_distribution_series, heartbeat, other,
}
use trading_monitoring_dashb.Schemas.{
  Zod, kbar_current_schema, metric_latest_schema, heartbeat_schema,
  index_contribution_ranking_schema, index_contribution_sector_schema, market_summary_latest_schema,
  otc_summary_latest_schema, quote_latest_schema, spot_latest_list_schema,
  spot_market_distribution_latest_schema, spot_market_distribution_series_schema,
}
pub mod Fallback

abbrev pub SafeParse : Type 0
SafeParse = Zod → Js → Option Js

-- `DEFAULT_STREAM_CODE`, and the code for an index of the OTC market.
abbrev pub default_stream_code : String
default_stream_code = "TXFE6"

abbrev pub default_otc_code : String
default_otc_code = "OTC001"

-- `a < b` for numbers.
unfoldable pub number_lt : Js → Js → Bool
number_lt (num a) (num b) = ltb_ℤ a b
number_lt (num a) (infinite positive) = positive
number_lt (infinite true) b = false
number_lt (infinite false) (num b) = true
number_lt (infinite false) (infinite b) = b
number_lt _ _ = false

-- `first ?? second`
abbrev pub nullish : Js → Js → Js
nullish undefined b = b
nullish null b = b
nullish a b = a

-- `v?.ts ?? v?.minute_ts ?? 0`
unfoldable pub bar_time : Js → Js
bar_time v = nullish (nullish (get v "ts") (get v "minute_ts")) (num (pos 0))

-- The loop over `Object.entries(kbarMap)`; it starts below every number.
unfoldable pub latest_code : Js → String → Dict Js → String
latest_code latest_ts code [] = code
latest_code latest_ts code ((k, v) ∷ kbars) =
    let newer = is_number (bar_time v) && number_lt latest_ts (bar_time v) in
    latest_code (if newer then bar_time v else latest_ts) (if newer then k else code) kbars

-- The code of the newest bar in the store, or `code` if there is none.
unfoldable pub fallback_code : String → Dict Js → String
fallback_code code kbars = latest_code (infinite false) code kbars

-- `value || code`, for a string or `undefined`.
abbrev pub code_or : Js → String → String
code_or (str s) code = if str_eq s "" then code else s
code_or v code = code

-- `typeof code === "string" && code.trim() ? code : …`
abbrev pub trimmed_code_or : Js → String → String
trimmed_code_or (str s) code = if has_text s then s else code
trimmed_code_or v code = code

abbrev pub put : Option (Dict Js) → String → Js → Option (Dict Js)
put m code payload = some (insert code payload (map_entries m))

module _ (kbars : Dict Js) where
  -- What an event whose payload has been parsed to `p` does to the batch; `raw` is the payload as
  -- it came.
  unfoldable pub collect_parsed : ServingSseEventName → Js → Js → ServingSseBatch → ServingSseBatch
  collect_parsed kbar_current raw p b = record b { kbar_current = p }
  collect_parsed metric_latest raw p b = record b {
    metric_latest_map =
        put b.metric_latest_map (code_or (get raw "code") (fallback_code default_stream_code kbars))
          p;
  }
  collect_parsed market_summary_latest raw p b = record b {
    market_summary_map =
        put b.market_summary_map
          (code_or (get p "code")
            (code_or (get p "market_code") (fallback_code default_stream_code kbars)))
          p;
  }
  collect_parsed heartbeat raw p b = record b { heartbeat_ts = get p "ts" }
  collect_parsed index_contrib_ranking raw p b = record b { index_contrib_ranking = p }
  collect_parsed index_contrib_sector raw p b = record b {
    index_contrib_sector = p;
    heartbeat_ts = get p "ts";
  }
  collect_parsed spot_latest_list raw p b = record b { spot_latest_list = p }
  collect_parsed spot_market_distribution_latest raw p b = record b {
    spot_market_distribution_latest = p;
  }
  collect_parsed spot_market_distribution_series raw p b = record b {
    spot_market_distribution_series = p;
  }
  collect_parsed otc_summary_latest raw p b = record b {
    otc_summary_map =
        put b.otc_summary_map
          (trimmed_code_or (get p "code") (fallback_code default_otc_code kbars)) p;
  }
  collect_parsed quote_latest raw p b = record b {
    quote_latest_map =
        put b.quote_latest_map (code_or (get p "code") (fallback_code default_stream_code kbars)) p;
  }
  collect_parsed other raw p b = b

-- The schema of an event; no branch is taken for a name that is not known.
unfoldable pub schema_of : ServingSseEventName → Option Zod
schema_of kbar_current = some kbar_current_schema
schema_of metric_latest = some metric_latest_schema
schema_of market_summary_latest = some market_summary_latest_schema
schema_of heartbeat = some heartbeat_schema
schema_of index_contrib_ranking = some index_contribution_ranking_schema
schema_of index_contrib_sector = some index_contribution_sector_schema
schema_of spot_latest_list = some spot_latest_list_schema
schema_of spot_market_distribution_latest = some spot_market_distribution_latest_schema
schema_of spot_market_distribution_series = some spot_market_distribution_series_schema
schema_of otc_summary_latest = some otc_summary_latest_schema
schema_of quote_latest = some quote_latest_schema
schema_of other = none

abbrev pub parse_event : SafeParse → ServingSseEventName → Js → Option Js
parse_event safe_parse event raw = elim (schema_of event) [
  | none ↦ none
  | some schema ↦ safe_parse schema raw
]

abbrev pub collect_result :
    Dict Js → ServingSseEventName → Js → Option Js → ServingSseBatch → ServingSseBatch
collect_result kbars event raw none b = b
collect_result kbars event raw (some p) b = collect_parsed kbars event raw p b

unfoldable pub collect_serving_sse_event :
    SafeParse → Dict Js → ServingSseEventName → Js → ServingSseBatch → ServingSseBatch
collect_serving_sse_event safe_parse kbars event raw b =
    collect_result kbars event raw (parse_event safe_parse event raw) b
