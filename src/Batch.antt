-- ===== src/Batch.antt =====
-- apps/frontend/src/features/realtime/services/realtime-manager.ts: `ServingSseBatch`, the events
-- of one time window, and how `mergeIntoPendingBatch` and `flushPendingBatch` test and join batches.
-- A field that is not set holds `undefined`; a map that is not set is `none`.
use trading_monitoring_dashb.Base.{
  Bool, true, false, not, ◌&&◌, ◌||◌, Option, none, some, [], if◌then◌else◌,
}
use trading_monitoring_dashb.Base.Text.{is_nil}
use trading_monitoring_dashb.Base.Dict.{Dict, assign, IsUnique}
use trading_monitoring_dashb.Js.{Js, undefined, truthy, is_undefined, is_number}
pub mod Merge

pub record ServingSseBatch : Type 0 where
  pub kbar_current : Js
  pub metric_latest_map : Option (Dict Js)
  pub market_summary_map : Option (Dict Js)
  pub otc_summary_map : Option (Dict Js)
  pub quote_latest_map : Option (Dict Js)
  pub spot_latest_list : Js
  pub spot_market_distribution_latest : Js
  pub spot_market_distribution_series : Js
  pub index_contrib_ranking : Js
  pub index_contrib_sector : Js
  pub heartbeat_ts : Js

-- `const batch: ServingSseBatch = {}`
abbrev pub empty_batch : ServingSseBatch
empty_batch = record {
  kbar_current = undefined;
  metric_latest_map = none;
  market_summary_map = none;
  otc_summary_map = none;
  quote_latest_map = none;
  spot_latest_list = undefined;
  spot_market_distribution_latest = undefined;
  spot_market_distribution_series = undefined;
  index_contrib_ranking = undefined;
  index_contrib_sector = undefined;
  heartbeat_ts = undefined;
}

abbrev pub map_entries : Option (Dict Js) → Dict Js
map_entries none = []
map_entries (some m) = m

abbrev pub has_map_entries : Option (Dict Js) → Bool
has_map_entries none = false
has_map_entries (some m) = not (is_nil m)

-- `shouldApply` of `flushPendingBatch`.
unfoldable pub should_apply_batch : ServingSseBatch → Bool
should_apply_batch b =
    truthy b.kbar_current
    || has_map_entries b.metric_latest_map
    || has_map_entries b.market_summary_map
    || has_map_entries b.otc_summary_map
    || has_map_entries b.quote_latest_map
    || truthy b.spot_latest_list
    || truthy b.spot_market_distribution_latest
    || truthy b.spot_market_distribution_series
    || not (is_undefined b.index_contrib_ranking)
    || not (is_undefined b.index_contrib_sector)
    || is_number b.heartbeat_ts

-- `isEmpty` of `mergeIntoPendingBatch`.
unfoldable pub is_empty : ServingSseBatch → Bool
is_empty b =
    not (truthy b.kbar_current)
    && not (has_map_entries b.metric_latest_map)
    && not (has_map_entries b.market_summary_map)
    && not (has_map_entries b.otc_summary_map)
    && not (has_map_entries b.quote_latest_map)
    && not (truthy b.spot_latest_list)
    && not (truthy b.spot_market_distribution_latest)
    && not (truthy b.spot_market_distribution_series)
    && is_undefined b.index_contrib_ranking
    && is_undefined b.index_contrib_sector
    && not (is_number b.heartbeat_ts)

-- `mergeMap`; the copies that it makes are not shared with anything.
unfoldable pub merge_map : Option (Dict Js) → Option (Dict Js) → Option (Dict Js)
merge_map target none = target
merge_map none (some incoming) = some incoming
merge_map (some target) (some incoming) = some (assign target incoming)

abbrev pub prefer : Bool → Js → Js → Js
prefer present incoming target = if present then incoming else target

-- The second part of `mergeIntoPendingBatch`, into a batch that is there.
unfoldable pub merge_batch : ServingSseBatch → ServingSseBatch → ServingSseBatch
merge_batch t i = record {
  kbar_current = prefer (truthy i.kbar_current) i.kbar_current t.kbar_current;
  metric_latest_map = merge_map t.metric_latest_map i.metric_latest_map;
  market_summary_map = merge_map t.market_summary_map i.market_summary_map;
  otc_summary_map = merge_map t.otc_summary_map i.otc_summary_map;
  quote_latest_map = merge_map t.quote_latest_map i.quote_latest_map;
  spot_latest_list = prefer (truthy i.spot_latest_list) i.spot_latest_list t.spot_latest_list;
  spot_market_distribution_latest =
      prefer (truthy i.spot_market_distribution_latest) i.spot_market_distribution_latest
        t.spot_market_distribution_latest;
  spot_market_distribution_series =
      prefer (truthy i.spot_market_distribution_series) i.spot_market_distribution_series
        t.spot_market_distribution_series;
  index_contrib_ranking =
      prefer (not (is_undefined i.index_contrib_ranking)) i.index_contrib_ranking
        t.index_contrib_ranking;
  index_contrib_sector =
      prefer (not (is_undefined i.index_contrib_sector)) i.index_contrib_sector
        t.index_contrib_sector;
  heartbeat_ts = prefer (is_number i.heartbeat_ts) i.heartbeat_ts t.heartbeat_ts;
}

-- The maps of a batch, with no code twice in any of them.
pub record HasUniqueCodes (b : ServingSseBatch) : Type 0 where
  pub metric : IsUnique (map_entries b.metric_latest_map)
  pub market : IsUnique (map_entries b.market_summary_map)
  pub otc : IsUnique (map_entries b.otc_summary_map)
  pub quote : IsUnique (map_entries b.quote_latest_map)
