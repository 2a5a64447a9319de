-- ===== src/Live.antt =====
-- apps/frontend/src/app/RealtimeBootstrap.tsx: the effect that opens and closes the connection with
-- the session; no other code calls the manager's methods or `resetRealtime`. And
-- apps/frontend/src/features/dashboard/hooks/use-spot-market-distribution.ts, the other code that
-- writes to the realtime store: its effect applies the distribution that its query holds, which the
-- cache of the query may have kept from a session before.
use Prim.Native.String.{String}
use trading_monitoring_dashb.Base.{
  ℕ, ◌+◌, Bool, true, false, not, ◌&&◌, Option, none, some, ◌≡◌, if◌then◌else◌,
}
use trading_monitoring_dashb.Js.{Js, Items, nil, cons, undefined, arr, obj, end, field}
use trading_monitoring_dashb.Batch.{ServingSseBatch, empty_batch}
use trading_monitoring_dashb.Collect.{nullish}
use trading_monitoring_dashb.Store.{RealtimeStore, reset_realtime}
use trading_monitoring_dashb.Store.Apply.{of_serving, apply_sse_batch}
use trading_monitoring_dashb.Stream.{Platform}
use trading_monitoring_dashb.Manager.{Manager, connect, disconnect, store_or}
use trading_monitoring_dashb.Manager.Steps.{Step, is_call, new_manager}
use trading_monitoring_dashb.Session.{AuthStore, new_store, has_token, is_visitor}
pub mod Distribution
pub mod SignedOut
pub mod SignedIn

-- The session that the effect has seen last, and whether it returned a cleanup.
pub record Live : Type 0 where
  pub manager : Manager
  pub session : AuthStore
  pub cleanup : Bool

abbrev pub should_connect : AuthStore → Bool
should_connect s = has_token s.token && not (is_visitor s.role)

abbrev pub reset_store : Manager → Manager
reset_store m = record m { store = reset_realtime m.store }

abbrev pub connect_or_reset : Bool → Option String → AuthStore → Manager → Live
connect_or_reset true (some token) s m = record {
  manager = connect token m;
  session = s;
  cleanup = true;
}
connect_or_reset should token s m = record {
  manager = reset_store (disconnect m);
  session = s;
  cleanup = false;
}

unfoldable pub realtime_effect : AuthStore → Manager → Live
realtime_effect s m =
    if not s.resolved
    then record { manager = m; session = s; cleanup = false }
    else connect_or_reset (should_connect s) s.token s m

-- The cleanup that the last run of the effect returned, and the effect for the new session.
unfoldable pub rerun_effect : AuthStore → Live → Live
unfolding realtime_effect
rerun_effect s l = realtime_effect s (if l.cleanup then disconnect l.manager else l.manager)

abbrev pub new_live : Option String → Live
new_live item = record { manager = new_manager; session = new_store item; cleanup = false }

-- `query.data`: the latest distribution, and the array of today with its reference.
pub record DistributionBaseline : Type 0 where
  pub latest : Js
  pub today : Items
  pub today_ref : ℕ

-- `data.today.length > 0 ? { items: data.today } : undefined`; the new object is `fresh`.
abbrev pub series_of : ℕ → ℕ → Items → Js
series_of fresh today_ref nil = undefined
series_of fresh today_ref (cons x xs) = obj fresh (field "items" (arr today_ref (cons x xs)) end)

-- The batch that the effect applies.
abbrev pub baseline_batch : ℕ → DistributionBaseline → ServingSseBatch
baseline_batch fresh d = record empty_batch {
  spot_market_distribution_latest = nullish d.latest undefined;
  spot_market_distribution_series = series_of fresh d.today_ref d.today;
}

-- The effect of the hook, for data that the query holds; an exception leaves the store as it is.
unfoldable pub load_baseline : Platform → ℕ → DistributionBaseline → RealtimeStore → RealtimeStore
load_baseline platform fresh d s =
    store_or
      (apply_sse_batch platform.to_string (fresh + 1) (of_serving (baseline_batch fresh d)) s) s

-- The session changes; or something happens next to the manager that is not a call of its methods; or
-- the hook of the distribution writes to the store, whatever the session is.
pub data LiveStep (platform : Platform) (l : Live) : Live → Type 0 where
  changes : (s : AuthStore) → LiveStep platform l (rerun_effect s l)
  happens :
      {m : Manager} (st : Step platform l.manager m)
      → is_call st ≡ false
      → LiveStep platform l (record l { manager = m })
  loads :
      (fresh : ℕ) (d : DistributionBaseline)
      → LiveStep platform l (record l {
        manager = record l.manager { store = load_baseline platform fresh d l.manager.store };
      })

pub data LiveReach (platform : Platform) : Live → Type 0 where
  begin : (item : Option String) → LiveReach platform (new_live item)
  next : {k l : Live} → LiveReach platform k → LiveStep platform k l → LiveReach platform l
