-- ===== src/Live/Distribution.antt =====
-- What the hook of the distribution writes to the store.
use trading_monitoring_dashb.Base.{
  ℕ, ◌+◌, Option, none, some, ◌≡◌, refl, ap, ◌∙◌, inl, inr, Bool-cases,
}
use trading_monitoring_dashb.Js.{Js, truthy, is_undefined}
use trading_monitoring_dashb.Stream.{Platform}
use trading_monitoring_dashb.Store.{RealtimeStore}
use trading_monitoring_dashb.Store.Apply.{
  of_serving, apply_sse_batch, appended_patch, finish_batch, changed, merge_patch, next_state,
  kbar_patch, apply_entries,
}
use trading_monitoring_dashb.Manager.{store_or}
use trading_monitoring_dashb.Live.{DistributionBaseline, baseline_batch, load_baseline}

-- The store `t` has every field of `s` but the two of the distribution.
abbrev pub SameButDistribution : RealtimeStore → RealtimeStore → Type 0
SameButDistribution s t = t ≡ record s {
  spot_market_distribution_latest = t.spot_market_distribution_latest;
  spot_market_distribution_series = t.spot_market_distribution_series;
}

pub SameButDistribution-trans :
    (s t u : RealtimeStore)
    → SameButDistribution s t
    → SameButDistribution t u
    → SameButDistribution s u
SameButDistribution-trans s t u h k =
    k
    ∙ ap {A = RealtimeStore} {B = RealtimeStore}
        (λ (x : RealtimeStore). record x {
          spot_market_distribution_latest = u.spot_market_distribution_latest;
          spot_market_distribution_series = u.spot_market_distribution_series;
        })
        h

module _ (platform : Platform) (fresh : ℕ) (d : DistributionBaseline) (s : RealtimeStore) where
  finish-SameButDistribution :
      (a : Option (Option Js))
      → SameButDistribution s
          (store_or (finish_batch platform.to_string (of_serving (baseline_batch fresh d)) s a) s)
  unfolding changed merge_patch next_state kbar_patch apply_entries truthy is_undefined
  finish-SameButDistribution none = refl
  finish-SameButDistribution (some a) =
      elim (Bool-cases
        (changed (next_state platform.to_string s (of_serving (baseline_batch fresh d)) a))) [
          | inl e ↦ rw e refl
          | inr e ↦ rw e refl
        ]

  pub load_baseline-SameButDistribution : SameButDistribution s (load_baseline platform fresh d s)
  unfolding load_baseline apply_sse_batch
  load_baseline-SameButDistribution =
      finish-SameButDistribution (appended_patch (fresh + 1) s (baseline_batch fresh d))
