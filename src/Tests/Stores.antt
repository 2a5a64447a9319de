-- ===== src/Tests/Stores.antt =====
-- Examples for the theorems on batches and on the store.
use trading_monitoring_dashb.Base.{true, false, none, some, ◌≡◌, refl, arith}
use trading_monitoring_dashb.Base.Dict.{lookup}
use trading_monitoring_dashb.Js.{get, truthy, nil, cons}
use trading_monitoring_dashb.Batch.{HasUniqueCodes, should_apply_batch, merge_batch}
use trading_monitoring_dashb.Batch.Merge.{should_apply-merge_batch}
use trading_monitoring_dashb.Store.{RealtimeStore}
use trading_monitoring_dashb.Store.Series.{append_series}
use trading_monitoring_dashb.Store.SeriesLaws.{
  IsSeries, absent, present, AppendsTo, append_series-AppendsTo,
}
use trading_monitoring_dashb.Store.Apply.{of_serving, apply_sse_batch, next_state, changed}
use trading_monitoring_dashb.Store.Lookups.{MapsUpdated, apply_sse_batch-MapsUpdated}
use trading_monitoring_dashb.Store.Unchanged.{HasTruthyPayloads, apply_sse_batch_again}
use trading_monitoring_dashb.Store.Total.{apply_sse_batch-IsSeries}
use trading_monitoring_dashb.Store.Windows.{SameMaps, merge_batch-SameMaps}
use trading_monitoring_dashb.Tests.{
  series, older_item, distribution, first_batch, second_batch, sample_store, no_string,
}

first_unique : HasUniqueCodes first_batch
unfolding lookup
first_unique = record { metric = (refl, tt); market = tt; otc = tt; quote = tt }

second_unique : HasUniqueCodes second_batch
unfolding lookup
second_unique = record { metric = (refl, tt); market = tt; otc = tt; quote = (refl, tt) }

series_IsSeries : IsSeries series
series_IsSeries =
    present 7 (cons older_item nil) (unfold truthy in refl) (unfold get in refl) (omega arith)

none_IsSeries : IsSeries first_batch.spot_market_distribution_series
none_IsSeries = absent (unfold truthy in refl)

append_series-AppendsTo_example :
    AppendsTo series distribution (append_series 20 series distribution)
append_series-AppendsTo_example = append_series-AppendsTo 20 series distribution series_IsSeries

apply_sse_batch-IsSeries_example :
    (s' : RealtimeStore) × (apply_sse_batch no_string 20 (of_serving first_batch) sample_store
      ≡ some s')
    × IsSeries s'.spot_market_distribution_series
apply_sse_batch-IsSeries_example =
    apply_sse_batch-IsSeries no_string 20 first_batch sample_store series_IsSeries none_IsSeries

-- The stores behind the first batch, behind both, and behind both joined.
abbrev first_step :
    (s' : RealtimeStore) × (apply_sse_batch no_string 20 (of_serving first_batch) sample_store
      ≡ some s')
    × IsSeries s'.spot_market_distribution_series
first_step =
    apply_sse_batch-IsSeries no_string 20 first_batch sample_store series_IsSeries none_IsSeries

abbrev second_step :
    (s' : RealtimeStore) × (apply_sse_batch no_string 30 (of_serving second_batch) first_step.0
      ≡ some s')
    × IsSeries s'.spot_market_distribution_series
second_step =
    apply_sse_batch-IsSeries no_string 30 second_batch first_step.0 first_step.2
      (absent (unfold truthy in refl))

abbrev joined_step :
    (s' : RealtimeStore) × (apply_sse_batch no_string 20
        (of_serving (merge_batch first_batch second_batch))
        sample_store
      ≡ some s')
    × IsSeries s'.spot_market_distribution_series
joined_step =
    apply_sse_batch-IsSeries no_string 20 (merge_batch first_batch second_batch) sample_store
      series_IsSeries (absent (unfold truthy merge_batch in refl))

apply_sse_batch-MapsUpdated_example : MapsUpdated first_batch sample_store first_step.0
apply_sse_batch-MapsUpdated_example =
    apply_sse_batch-MapsUpdated no_string 20 first_batch sample_store first_unique first_step.1

first_truthy : HasTruthyPayloads first_batch
first_truthy = record { metric = (unfold truthy in refl, tt); market = tt; otc = tt; quote = tt }

apply_sse_batch_again_example :
    (apply_sse_batch no_string 30 (of_serving first_batch) first_step.0 ≡ some first_step.0)
    × (changed (next_state no_string first_step.0 (of_serving first_batch) none) ≡ false)
apply_sse_batch_again_example =
    apply_sse_batch_again no_string first_batch sample_store 20 first_unique first_truthy 30
      first_step.1

merge_batch-SameMaps_example : SameMaps joined_step.0 second_step.0
merge_batch-SameMaps_example =
    merge_batch-SameMaps no_string first_batch second_batch sample_store 20 20 30 first_unique
      second_unique joined_step.1 first_step.1 second_step.1

first_applies : should_apply_batch first_batch ≡ true
unfolding should_apply_batch truthy
first_applies = refl

should_apply-merge_batch_example : should_apply_batch (merge_batch first_batch second_batch) ≡ true
should_apply-merge_batch_example = should_apply-merge_batch first_batch second_batch first_applies
