-- ===== src/Worker/Kept.antt =====
-- What collectEvent of sse-worker.ts leaves in the pending batch.
use Prim.Native.String.{String}
use text.Mathlib.Text.{◌==◌ as str_eq}
use trading_monitoring_dashb.Base.{true, not, refl, some, [], ◌∷◌, ◌≡◌, inl, inr, Bool-cases}
use trading_monitoring_dashb.Base.Dict.{Dict, insert}
use trading_monitoring_dashb.Js.{
  Js, undefined, null, bool, num, infinite, str, arr, obj, get, truthy, is_undefined, is_number,
}
use trading_monitoring_dashb.Events.{
  ServingSseEventName, kbar_current, spot_latest_list, spot_market_distribution_latest,
  spot_market_distribution_series, index_contrib_ranking, index_contrib_sector, heartbeat, other,
  metric_latest, market_summary_latest, otc_summary_latest, quote_latest,
}
use trading_monitoring_dashb.Batch.{ServingSseBatch, map_entries, has_map_entries, is_empty}
use trading_monitoring_dashb.Store.Unchanged.{AllTruthy, HasTruthyPayloads}
use trading_monitoring_dashb.Worker.{collect_event, has_no_keys, is_unset, finite_or}

-- What is set in a batch is what the manager looks for: values that are true, maps with entries, and
-- a number for the heartbeat.
pub record IsKept (b : ServingSseBatch) : Type 0 where
  pub kbar : not (truthy b.kbar_current) ≡ is_undefined b.kbar_current
  pub spot : not (truthy b.spot_latest_list) ≡ is_undefined b.spot_latest_list
  pub latest :
      not (truthy b.spot_market_distribution_latest)
      ≡ is_undefined b.spot_market_distribution_latest
  pub series :
      not (truthy b.spot_market_distribution_series)
      ≡ is_undefined b.spot_market_distribution_series
  pub metric : not (has_map_entries b.metric_latest_map) ≡ is_unset b.metric_latest_map
  pub market : not (has_map_entries b.market_summary_map) ≡ is_unset b.market_summary_map
  pub otc : not (has_map_entries b.otc_summary_map) ≡ is_unset b.otc_summary_map
  pub quote : not (has_map_entries b.quote_latest_map) ≡ is_unset b.quote_latest_map
  pub heartbeat : not (is_number b.heartbeat_ts) ≡ is_undefined b.heartbeat_ts

abbrev pub IsSound : ServingSseBatch → Type 0
IsSound b = IsKept b × HasTruthyPayloads b

-- The manager's test for an empty batch agrees with the worker's.
pub kept-is_empty : (b : ServingSseBatch) → IsKept b → is_empty b ≡ has_no_keys b
unfolding is_empty has_no_keys
kept-is_empty b k =
    rw (k.kbar, k.metric, k.market, k.otc, k.quote, k.spot, k.latest, k.series, k.heartbeat) refl

given_kept : (p : Js) → truthy p ≡ true → not (truthy p) ≡ is_undefined p
unfolding truthy is_undefined
given_kept undefined t = cc
given_kept null t = cc
given_kept (bool a) t = rw t refl
given_kept (num a) t = rw t refl
given_kept (infinite a) t = refl
given_kept (str a) t = rw t refl
given_kept (arr r a) t = refl
given_kept (obj r a) t = refl

insert_kept :
    (k : String) (v : Js) (m : Dict Js)
    → not (has_map_entries (some (insert k v m))) ≡ is_unset (some (insert k v m))
unfolding insert
insert_kept k v [] = refl
insert_kept k v ((j, w) ∷ m) = elim (Bool-cases (str_eq j k)) [
  | inl e ↦ rw e refl
  | inr e ↦ rw e refl
]

finite_kept :
    (v old : Js)
    → not (is_number old) ≡ is_undefined old
    → not (is_number (finite_or v old)) ≡ is_undefined (finite_or v old)
unfolding is_number is_undefined
finite_kept (num n) old h = refl
finite_kept undefined old h = h
finite_kept null old h = h
finite_kept (bool a) old h = h
finite_kept (infinite a) old h = h
finite_kept (str a) old h = h
finite_kept (arr r a) old h = h
finite_kept (obj r a) old h = h

insert-AllTruthy :
    (k : String) (v : Js) (m : Dict Js) → truthy v ≡ true → AllTruthy m → AllTruthy (insert k v m)
unfolding insert
insert-AllTruthy k v [] t a = (t, tt)
insert-AllTruthy k v ((j, w) ∷ m) t a = elim (Bool-cases (str_eq j k)) [
  | inl e ↦ rw e (t, a.1)
  | inr e ↦ rw e (a.0, insert-AllTruthy k v m t a.1)
]

pub collect_event-IsSound :
    (event : ServingSseEventName) (p : Js) (b : ServingSseBatch)
    → truthy p ≡ true
    → IsSound b
    → IsSound (collect_event event p b)
unfolding collect_event
collect_event-IsSound kbar_current p b t (u, h) = (
  record {
    kbar = given_kept p t;
    spot = u.spot;
    latest = u.latest;
    series = u.series;
    metric = u.metric;
    market = u.market;
    otc = u.otc;
    quote = u.quote;
    heartbeat = u.heartbeat;
  },
  record { metric = h.metric; market = h.market; otc = h.otc; quote = h.quote },
)
collect_event-IsSound metric_latest p b t (u, h) = (
  record {
    kbar = u.kbar;
    spot = u.spot;
    latest = u.latest;
    series = u.series;
    metric = insert_kept _ p (map_entries b.metric_latest_map);
    market = u.market;
    otc = u.otc;
    quote = u.quote;
    heartbeat = u.heartbeat;
  },
  record {
    metric = insert-AllTruthy _ p (map_entries b.metric_latest_map) t h.metric;
    market = h.market;
    otc = h.otc;
    quote = h.quote;
  },
)
collect_event-IsSound market_summary_latest p b t (u, h) = (
  record {
    kbar = u.kbar;
    spot = u.spot;
    latest = u.latest;
    series = u.series;
    metric = u.metric;
    market = insert_kept _ p (map_entries b.market_summary_map);
    otc = u.otc;
    quote = u.quote;
    heartbeat = u.heartbeat;
  },
  record {
    metric = h.metric;
    market = insert-AllTruthy _ p (map_entries b.market_summary_map) t h.market;
    otc = h.otc;
    quote = h.quote;
  },
)
collect_event-IsSound otc_summary_latest p b t (u, h) = (
  record {
    kbar = u.kbar;
    spot = u.spot;
    latest = u.latest;
    series = u.series;
    metric = u.metric;
    market = u.market;
    otc = insert_kept _ p (map_entries b.otc_summary_map);
    quote = u.quote;
    heartbeat = u.heartbeat;
  },
  record {
    metric = h.metric;
    market = h.market;
    otc = insert-AllTruthy _ p (map_entries b.otc_summary_map) t h.otc;
    quote = h.quote;
  },
)
collect_event-IsSound quote_latest p b t (u, h) = (
  record {
    kbar = u.kbar;
    spot = u.spot;
    latest = u.latest;
    series = u.series;
    metric = u.metric;
    market = u.market;
    otc = u.otc;
    quote = insert_kept _ p (map_entries b.quote_latest_map);
    heartbeat = u.heartbeat;
  },
  record {
    metric = h.metric;
    market = h.market;
    otc = h.otc;
    quote = insert-AllTruthy _ p (map_entries b.quote_latest_map) t h.quote;
  },
)
collect_event-IsSound spot_latest_list p b t (u, h) = (
  record {
    kbar = u.kbar;
    spot = given_kept p t;
    latest = u.latest;
    series = u.series;
    metric = u.metric;
    market = u.market;
    otc = u.otc;
    quote = u.quote;
    heartbeat = u.heartbeat;
  },
  record { metric = h.metric; market = h.market; otc = h.otc; quote = h.quote },
)
collect_event-IsSound spot_market_distribution_latest p b t (u, h) = (
  record {
    kbar = u.kbar;
    spot = u.spot;
    latest = given_kept p t;
    series = u.series;
    metric = u.metric;
    market = u.market;
    otc = u.otc;
    quote = u.quote;
    heartbeat = u.heartbeat;
  },
  record { metric = h.metric; market = h.market; otc = h.otc; quote = h.quote },
)
collect_event-IsSound spot_market_distribution_series p b t (u, h) = (
  record {
    kbar = u.kbar;
    spot = u.spot;
    latest = u.latest;
    series = given_kept p t;
    metric = u.metric;
    market = u.market;
    otc = u.otc;
    quote = u.quote;
    heartbeat = u.heartbeat;
  },
  record { metric = h.metric; market = h.market; otc = h.otc; quote = h.quote },
)
collect_event-IsSound index_contrib_ranking p b t (u, h) = (
  record {
    kbar = u.kbar;
    spot = u.spot;
    latest = u.latest;
    series = u.series;
    metric = u.metric;
    market = u.market;
    otc = u.otc;
    quote = u.quote;
    heartbeat = u.heartbeat;
  },
  record { metric = h.metric; market = h.market; otc = h.otc; quote = h.quote },
)
collect_event-IsSound index_contrib_sector p b t (u, h) = (
  record {
    kbar = u.kbar;
    spot = u.spot;
    latest = u.latest;
    series = u.series;
    metric = u.metric;
    market = u.market;
    otc = u.otc;
    quote = u.quote;
    heartbeat = finite_kept (get p "ts") b.heartbeat_ts u.heartbeat;
  },
  record { metric = h.metric; market = h.market; otc = h.otc; quote = h.quote },
)
collect_event-IsSound heartbeat p b t (u, h) = (
  record {
    kbar = u.kbar;
    spot = u.spot;
    latest = u.latest;
    series = u.series;
    metric = u.metric;
    market = u.market;
    otc = u.otc;
    quote = u.quote;
    heartbeat = finite_kept (get p "ts") b.heartbeat_ts u.heartbeat;
  },
  record { metric = h.metric; market = h.market; otc = h.otc; quote = h.quote },
)
collect_event-IsSound other p b t (u, h) = (
  record {
    kbar = u.kbar;
    spot = u.spot;
    latest = u.latest;
    series = u.series;
    metric = u.metric;
    market = u.market;
    otc = u.otc;
    quote = u.quote;
    heartbeat = u.heartbeat;
  },
  record { metric = h.metric; market = h.market; otc = h.otc; quote = h.quote },
)
