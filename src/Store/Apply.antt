-- ===== src/Store/Apply.antt =====
-- apps/frontend/src/features/realtime/store/realtime.store.ts, `applySseBatch`: the fields of the
-- partial state that it returns, each from its own block, and their union with the state.
use Prim.Native.String.{String}
use trading_monitoring_dashb.Base.{
  ℕ, ◌+◌, Bool, true, false, not, ◌&&◌, ◌||◌, Option, none, some, [], ◌∷◌, ◌++◌, if◌then◌else◌,
}
use trading_monitoring_dashb.Base.Dict.{Dict, lookup, insert}
use trading_monitoring_dashb.Js.{
  Js, undefined, num, get, strict_eq, truthy, is_undefined, shallow_equal,
}
use trading_monitoring_dashb.Batch.{ServingSseBatch, map_entries}
use trading_monitoring_dashb.Store.{RealtimeStore, property_key}
use trading_monitoring_dashb.Store.Series.{
  Appended, throws, same, grown, append_series, to_series_item,
}

-- The batch that `applySseBatch` accepts: the manager's, and four fields of an older shape.
pub record SseBatch : Type 0 where
  pub batch : ServingSseBatch
  pub metric_latest : Js
  pub market_summary_latest : Js
  pub otc_summary_latest : Js
  pub quote_latest : Js

-- What the manager hands over.
abbrev pub of_serving : ServingSseBatch → SseBatch
of_serving b = record {
  batch = b;
  metric_latest = undefined;
  market_summary_latest = undefined;
  otc_summary_latest = undefined;
  quote_latest = undefined;
}

-- `nextState`: `none` is a field that is not set.
pub record Patch : Type 0 where
  pub kbar_current_by_code : Option (Dict Js)
  pub metric_latest_by_code : Option (Dict Js)
  pub market_summary_latest_by_code : Option (Dict Js)
  pub otc_summary_latest_by_code : Option (Dict Js)
  pub quote_latest_by_code : Option (Dict Js)
  pub spot_latest_list : Option Js
  pub spot_market_distribution_latest : Option Js
  pub spot_market_distribution_series : Option Js
  pub index_contrib_ranking : Option Js
  pub index_contrib_sector : Option Js
  pub last_heartbeat_ts : Option Js

abbrev pub or_undefined : Option Js → Js
or_undefined none = undefined
or_undefined (some v) = v

abbrev pub patched {ℓ} : {A : Type ℓ} → Option A → A → A
patched none a = a
patched (some b) a = b

-- `!existing || incomingTs !== existingTs || !shallowEqual(existing, payload)`
unfoldable pub is_stale : Js → Js → Bool
is_stale existing payload =
    not (truthy existing)
    || not (strict_eq (get payload "ts") (get existing "ts"))
    || not (shallow_equal existing payload)

-- One round of the four loops over entries: the state is read, and its copy is written.
unfoldable pub apply_entry : Dict Js → Option (Dict Js) → String → Js → Option (Dict Js)
apply_entry state next code payload =
    if is_stale (or_undefined (lookup code state)) payload
    then some (insert code payload (patched next state))
    else next

unfoldable pub apply_entries : Dict Js → Option (Dict Js) → Dict Js → Option (Dict Js)
apply_entries state next [] = next
apply_entries state next ((code, payload) ∷ es) =
    apply_entries state (apply_entry state next code payload) es

-- `!existing || incomingTs !== existingTs || existing !== batch.kbarCurrent`
unfoldable pub kbar_stale : Js → Js → Bool
kbar_stale existing kbar =
    not (truthy existing)
    || not (strict_eq (get kbar "ts") (get existing "ts"))
    || not (strict_eq existing kbar)

abbrev pub kbar_entry_patch : String → Dict Js → Js → Option (Dict Js)
kbar_entry_patch code m kbar =
    if truthy kbar && kbar_stale (or_undefined (lookup code m)) kbar
    then some (insert code kbar m)
    else none

-- A single value: `if (!shallowEqual(old, new)) nextState.x = new`.
abbrev pub replace_if_new : Bool → Js → Js → Option Js
replace_if_new present old new = if present && not (shallow_equal old new) then some new else none

-- `if (appended && appended !== state.spotMarketDistributionSeries)`; the outer `none` is a throw.
abbrev pub appended_result : Appended → Option (Option Js)
appended_result throws = none
appended_result same = some none
appended_result (grown v) = some (some v)

-- The series as the block of the latest distribution leaves it.
unfoldable pub appended_patch : ℕ → RealtimeStore → ServingSseBatch → Option (Option Js)
appended_patch fresh s b =
    let latest = b.spot_market_distribution_latest in
    if truthy latest
      && not (shallow_equal s.spot_market_distribution_latest latest)
      && not (truthy b.spot_market_distribution_series)
    then appended_result
        (append_series fresh s.spot_market_distribution_series (to_series_item (fresh + 2) latest))
    else some none

abbrev pub heartbeat_patch : Js → Js → Option Js
heartbeat_patch old (num n) = if not (strict_eq old (num n)) then some (num n) else none
heartbeat_patch old _ = none

abbrev pub series_patch : Js → Js → Option Js → Option Js
series_patch old new appended =
    if truthy new && not (shallow_equal old new) then some new else appended

-- What `set` makes of the partial state; with no field set it is the state itself.
unfoldable pub merge_patch : Patch → RealtimeStore → RealtimeStore
merge_patch p s = record s {
  kbar_current_by_code = patched p.kbar_current_by_code s.kbar_current_by_code;
  metric_latest_by_code = patched p.metric_latest_by_code s.metric_latest_by_code;
  index_contrib_ranking = patched p.index_contrib_ranking s.index_contrib_ranking;
  index_contrib_sector = patched p.index_contrib_sector s.index_contrib_sector;
  market_summary_latest_by_code =
      patched p.market_summary_latest_by_code s.market_summary_latest_by_code;
  otc_summary_latest_by_code = patched p.otc_summary_latest_by_code s.otc_summary_latest_by_code;
  quote_latest_by_code = patched p.quote_latest_by_code s.quote_latest_by_code;
  spot_latest_list = patched p.spot_latest_list s.spot_latest_list;
  spot_market_distribution_latest =
      patched p.spot_market_distribution_latest s.spot_market_distribution_latest;
  spot_market_distribution_series =
      patched p.spot_market_distribution_series s.spot_market_distribution_series;
  last_heartbeat_ts = patched p.last_heartbeat_ts s.last_heartbeat_ts;
}

-- `changed`: some field is set.
abbrev pub is_set {ℓ} : {A : Type ℓ} → Option A → Bool
is_set none = false
is_set (some a) = true

unfoldable pub changed : Patch → Bool
changed p =
    is_set p.kbar_current_by_code
    || is_set p.metric_latest_by_code
    || is_set p.market_summary_latest_by_code
    || is_set p.otc_summary_latest_by_code
    || is_set p.quote_latest_by_code
    || is_set p.spot_latest_list
    || is_set p.spot_market_distribution_latest
    || is_set p.spot_market_distribution_series
    || is_set p.index_contrib_ranking
    || is_set p.index_contrib_sector
    || is_set p.last_heartbeat_ts

module _ (to_string : Js → String) where
  abbrev pub single_entry : Js → Dict Js
  single_entry v =
      if truthy v then (property_key to_string (get v "code"), get v "payload") ∷ [] else []

  unfoldable pub kbar_patch : Dict Js → Js → Option (Dict Js)
  kbar_patch m kbar = kbar_entry_patch (property_key to_string (get kbar "code")) m kbar

  unfoldable pub next_state : RealtimeStore → SseBatch → Option Js → Patch
  next_state s sse appended =
      let b = sse.batch in
      record {
        kbar_current_by_code = kbar_patch s.kbar_current_by_code b.kbar_current;
        metric_latest_by_code =
            apply_entries s.metric_latest_by_code none
              (single_entry sse.metric_latest ++ map_entries b.metric_latest_map);
        market_summary_latest_by_code =
            apply_entries s.market_summary_latest_by_code none
              (single_entry sse.market_summary_latest ++ map_entries b.market_summary_map);
        otc_summary_latest_by_code =
            apply_entries s.otc_summary_latest_by_code none
              (single_entry sse.otc_summary_latest ++ map_entries b.otc_summary_map);
        quote_latest_by_code =
            apply_entries s.quote_latest_by_code none
              (single_entry sse.quote_latest ++ map_entries b.quote_latest_map);
        spot_latest_list =
            replace_if_new (truthy b.spot_latest_list) s.spot_latest_list b.spot_latest_list;
        spot_market_distribution_latest =
            replace_if_new (truthy b.spot_market_distribution_latest)
              s.spot_market_distribution_latest b.spot_market_distribution_latest;
        spot_market_distribution_series =
            series_patch s.spot_market_distribution_series b.spot_market_distribution_series
              appended;
        index_contrib_ranking =
            replace_if_new (not (is_undefined b.index_contrib_ranking)) s.index_contrib_ranking
              b.index_contrib_ranking;
        index_contrib_sector =
            replace_if_new (not (is_undefined b.index_contrib_sector)) s.index_contrib_sector
              b.index_contrib_sector;
        last_heartbeat_ts = heartbeat_patch s.last_heartbeat_ts b.heartbeat_ts;
      }

  -- The end of the function: `none` is a throw, at which the state stays as it was.
  abbrev pub finish_batch : SseBatch → RealtimeStore → Option (Option Js) → Option RealtimeStore
  finish_batch sse s none = none
  finish_batch sse s (some appended) =
      let p = next_state s sse appended in some (if changed p then merge_patch p s else s)

  unfoldable pub apply_sse_batch : ℕ → SseBatch → RealtimeStore → Option RealtimeStore
  apply_sse_batch fresh sse s = finish_batch sse s (appended_patch fresh s sse.batch)
