-- ===== src/Store/Total.antt =====
-- A batch is applied without an exception, and what the store keeps of the series stays sound.
use Prim.Native.String.{String}
use trading_monitoring_dashb.Base.{
  ℕ, ◌+◌, not, ◌&&◌, Option, none, some, ◌≡◌, ap, Bool-cases, inl, inr,
}
use trading_monitoring_dashb.Js.{Js, truthy, shallow_equal}
use trading_monitoring_dashb.Batch.{ServingSseBatch}
use trading_monitoring_dashb.Store.{RealtimeStore}
use trading_monitoring_dashb.Store.Series.{Appended, throws, same, grown, to_series_item}
use trading_monitoring_dashb.Store.SeriesLaws.{IsSeries, AppendsTo, append_series-AppendsTo}
use trading_monitoring_dashb.Store.Apply.{
  of_serving, patched, appended_patch, appended_result, next_state, merge_patch, finish_batch,
  apply_sse_batch, series_patch,
}
use trading_monitoring_dashb.Store.Lookups.{union_eq}

-- What the block of the latest distribution may hand on.
abbrev IsAppended : Js → Option (Option Js) → Type 0
IsAppended old none = ⊥
IsAppended old (some none) = Unit
IsAppended old (some (some s)) = IsSeries s

appended_result-IsAppended :
    (old next : Js) (r : Appended) → AppendsTo old next r → IsAppended old (appended_result r)
appended_result-IsAppended old next throws h = h
appended_result-IsAppended old next same h = tt
appended_result-IsAppended old next (grown v) h = h.0

appended_patch-IsAppended :
    (fresh : ℕ) (s : RealtimeStore) (b : ServingSseBatch)
    → IsSeries s.spot_market_distribution_series
    → IsAppended s.spot_market_distribution_series (appended_patch fresh s b)
unfolding appended_patch
appended_patch-IsAppended fresh s b h =
    elim (Bool-cases (
      truthy b.spot_market_distribution_latest
      && not (shallow_equal s.spot_market_distribution_latest b.spot_market_distribution_latest)
      && not (truthy b.spot_market_distribution_series))) [
        | inl e ↦ rw e (
            appended_result-IsAppended _ _ _ (
              append_series-AppendsTo fresh s.spot_market_distribution_series
                (to_series_item (fresh + 2) b.spot_market_distribution_latest) h))
        | inr e ↦ rw e tt
      ]

patched_series-IsSeries :
    (old new : Js) (a : Option Js)
    → IsSeries old
    → IsSeries new
    → IsAppended old (some a)
    → IsSeries (patched (series_patch old new a) old)
patched_series-IsSeries old new a h k m =
    elim (Bool-cases (truthy new && not (shallow_equal old new))) [
      | inl e ↦ rw e k
      | inr e ↦ rw e (keep a m)
    ]
  where
    keep : (a : Option Js) → IsAppended old (some a) → IsSeries (patched a old)
    keep none m = h
    keep (some v) m = m

finish_batch-IsSeries :
    (to_string : Js → String) (b : ServingSseBatch) (s : RealtimeStore) (o : Option (Option Js))
    → IsSeries s.spot_market_distribution_series
    → IsSeries b.spot_market_distribution_series
    → IsAppended s.spot_market_distribution_series o
    → (s' : RealtimeStore) × (finish_batch to_string (of_serving b) s o ≡ some s')
      × IsSeries s'.spot_market_distribution_series
finish_batch-IsSeries to_string b s none h k m = absurd m
finish_batch-IsSeries to_string b s (some a) h k m = (
  merge_patch (next_state to_string s (of_serving b) a) s,
  ap some (union_eq (next_state to_string s (of_serving b) a) s),
  unfold merge_patch next_state in
      patched_series-IsSeries s.spot_market_distribution_series b.spot_market_distribution_series a
        h k m,
)

-- For a store whose series is absent or has an array of at most 600 items, and a batch of the
-- manager whose series is so too: the batch is applied without an exception, and in the resulting
-- store the series is absent or has an array of at most 600 items.
pub apply_sse_batch-IsSeries :
    (to_string : Js → String) (fresh : ℕ) (b : ServingSseBatch) (s : RealtimeStore)
    → IsSeries s.spot_market_distribution_series
    → IsSeries b.spot_market_distribution_series
    → (s' : RealtimeStore) × (apply_sse_batch to_string fresh (of_serving b) s ≡ some s')
      × IsSeries s'.spot_market_distribution_series
unfolding apply_sse_batch
apply_sse_batch-IsSeries to_string fresh b s h k =
    finish_batch-IsSeries to_string b s (appended_patch fresh s b) h k
      (appended_patch-IsAppended fresh s b h)
