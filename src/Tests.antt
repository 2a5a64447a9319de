-- ===== src/Tests.antt =====
-- Sample payloads, batches, stores and a platform, for the examples of the theorems.
use Prim.Native.String.{String}
use text.Mathlib.Text.{◌==◌ as str_eq}
use trading_monitoring_dashb.Base.{
  ℕ, Bool, true, false, Option, none, some, List, [], ◌∷◌, if◌then◌else◌,
}
use trading_monitoring_dashb.Base.Int.{ℤ, pos}
use trading_monitoring_dashb.Base.Text.{Text, codes}
use trading_monitoring_dashb.Base.Dict.{Dict}
use trading_monitoring_dashb.Js.{Js, null, num, str, arr, obj, field, end, nil, cons}
use trading_monitoring_dashb.Gate.{Calendar, SessionCache}
use trading_monitoring_dashb.Batch.{ServingSseBatch, empty_batch}
use trading_monitoring_dashb.Store.{RealtimeStore, initial_state}
use trading_monitoring_dashb.Stream.{Platform, Collected}
pub mod Feeds
pub mod Stores
pub mod Managers
pub mod Workers
pub mod Timelines
pub mod Volumes
pub mod Sessions
pub mod Candles

-- A metric of TXFE6, and a newer one.
abbrev pub metric : Js
metric = obj 1 (field "code" (str "TXFE6") (field "ts" (num (pos 50)) end))

abbrev pub newer_metric : Js
newer_metric = obj 2 (field "code" (str "TXFE6") (field "ts" (num (pos 60)) end))

abbrev pub quote : Js
quote = obj 3 (field "code" (str "MXFE6") (field "event_ts" (num (pos 55)) end))

abbrev pub distribution : Js
distribution = obj 4 (field "ts" (num (pos 55)) (field "up_count" (num (pos 7)) end))

abbrev pub older_item : Js
older_item = obj 5 (field "ts" (num (pos 54)) (field "up_count" (num (pos 6)) end))

abbrev pub series : Js
series = obj 6 (field "items" (arr 7 (cons older_item nil)) end)

abbrev pub bar : Js
bar = obj 8 (field "code" (str "TXFE6") (field "minute_ts" (num (pos 52)) end))

abbrev pub newer_bar : Js
newer_bar = obj 9 (field "code" (str "MXFE6") (field "minute_ts" (num (pos 58)) end))

abbrev pub first_batch : ServingSseBatch
first_batch = record empty_batch {
  metric_latest_map = some (("TXFE6", metric) ∷ []);
  spot_market_distribution_latest = distribution;
}

abbrev pub second_batch : ServingSseBatch
second_batch = record empty_batch {
  metric_latest_map = some (("TXFE6", newer_metric) ∷ []);
  quote_latest_map = some (("MXFE6", quote) ∷ []);
}

abbrev pub sample_store : RealtimeStore
sample_store = record initial_state { spot_market_distribution_series = series }

abbrev pub no_string : Js → String
no_string v = "undefined"

-- One session, from 40 to 60.
abbrev pub calendar : Calendar
calendar = record {
  format = λ ts. some "2026-04-01";
  date_parse = λ s. if str_eq s "13:45:00" then some (pos 60) else some (pos 40);
  at_time = λ date clock. clock;
}

abbrev pub no_cache : SessionCache
no_cache = record { date_part = none; bounds = none }

-- Every text is the metric, and every payload passes its schema.
abbrev pub platform : Platform
platform = record {
  calendar = calendar;
  safe_parse = λ schema v. some v;
  json_parse = λ t. some metric;
  to_string = no_string;
}

abbrev pub nothing_collected : Collected
nothing_collected = record { batch = empty_batch; cache = no_cache; processed_any = false }

abbrev pub metric_frame : Text
metric_frame = codes "event: metric_latest\ndata: {}"

abbrev pub quote_frame : Text
quote_frame = codes "event: quote_latest\ndata: []"
