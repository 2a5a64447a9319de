-- ===== src/Live/SignedOut.antt =====
-- What is left of the stream's data when the user is signed out.
use Prim.Native.String.{String}
use mathlib.Core.Path.{subst}
use trading_monitoring_dashb.Base.{
  Bool, true, false, not, Option, none, some, ◌≡◌, refl, sym, ap, ◌∙◌, inl, inr, Bool-cases,
  if◌then◌else◌,
}
use trading_monitoring_dashb.Store.{RealtimeStore, initial_state, reset_realtime}
use trading_monitoring_dashb.Stream.{Platform}
use trading_monitoring_dashb.Manager.{Manager, disconnect}
use trading_monitoring_dashb.Manager.Steps.{begin, new_manager}
use trading_monitoring_dashb.Manager.Calls.{IsSingle, connect-IsSingle, disconnect-IsSingle}
use trading_monitoring_dashb.Manager.OneStream.{
  same-IsSingle, Step-IsSingle, Reach-IsSingle, IsSingle-AtMostOneStream,
}
use trading_monitoring_dashb.Manager.Quiet.{IsQuiet, disconnect-IsQuiet, event-IsFrozen}
use trading_monitoring_dashb.Session.{AuthStore}
use trading_monitoring_dashb.Live.{
  Live, should_connect, reset_store, connect_or_reset, realtime_effect, rerun_effect, new_live,
  LiveStep, changes, happens, LiveReach, load_baseline,
}
use trading_monitoring_dashb.Live.Distribution.{
  SameButDistribution, SameButDistribution-trans, load_baseline-SameButDistribution,
}
use trading_monitoring_dashb.Live

-- A session that is known and has no right to a connection.
abbrev pub IsSignedOut : AuthStore → Type 0
IsSignedOut s = (s.resolved ≡ true) × (should_connect s ≡ false)

-- The manager does nothing, and the store is the initial one but for the two fields of the
-- distribution, which are no data of the stream then.
pub record IsEmpty (m : Manager) : Type 0 where
  pub quiet : IsQuiet m
  pub stopped : m.stopped_by_client ≡ true
  pub store : SameButDistribution initial_state m.store

pub record IsLive (l : Live) : Type 0 where
  pub single : IsSingle l.manager
  pub empty : IsSignedOut l.session → IsEmpty l.manager

reset-IsSingle : (m : Manager) → IsSingle m → IsSingle (reset_store m)
reset-IsSingle m h =
    same-IsSingle m (reset_store m)
      (record { tasks = refl; stream = refl; controller = refl; sequence = refl; waiters = refl }) h

pub reset-IsEmpty : (m : Manager) → IsEmpty (reset_store (disconnect m))
unfolding reset_realtime
reset-IsEmpty m =
    let q = disconnect-IsQuiet m in
    record {
      quiet = record {
        no_token = q.no_token;
        no_controller = q.no_controller;
        no_attempt = q.no_attempt;
        no_batch = q.no_batch;
        no_flush = q.no_flush;
        status = refl;
        reason = refl;
      };
      stopped = unfold disconnect in refl;
      store = refl;
    }

disconnect-IsLive :
    (s : AuthStore) (m : Manager)
    → IsSingle m
    → IsLive (record { manager = reset_store (disconnect m); session = s; cleanup = false })
disconnect-IsLive s m h = record {
  single = reset-IsSingle (disconnect m) (disconnect-IsSingle m h);
  empty = λ o. reset-IsEmpty m;
}

connect_or_reset-IsLive :
    (should : Bool) (token : Option String) (s : AuthStore) (m : Manager)
    → should_connect s ≡ should
    → IsSingle m
    → IsLive (connect_or_reset should token s m)
connect_or_reset-IsLive true (some token) s m e h = record {
  single = connect-IsSingle token m h;
  empty = λ o. absurd (clash (sym e ∙ o.1));
}
  where
    clash : true ≡ false → ⊥
    clash c = cc
connect_or_reset-IsLive true none s m e h = disconnect-IsLive s m h
connect_or_reset-IsLive false token s m e h = disconnect-IsLive s m h

realtime_effect-IsLive : (s : AuthStore) (m : Manager) → IsSingle m → IsLive (realtime_effect s m)
unfolding realtime_effect
realtime_effect-IsLive s m h = elim (Bool-cases s.resolved) [
  | inl e ↦
      subst (λ b. IsLive (chosen b)) (sym e)
        (connect_or_reset-IsLive (should_connect s) s.token s m refl h)
  | inr e ↦
      subst (λ b. IsLive (chosen b)) (sym e)
        (record { single = h; empty = λ o. absurd (clash (sym o.0 ∙ e)) })
]
  where
    chosen : Bool → Live
    chosen b =
        if not b
        then record { manager = m; session = s; cleanup = false }
        else connect_or_reset (should_connect s) s.token s m

    clash : true ≡ false → ⊥
    clash c = cc

pub loaded-IsQuiet :
    (m : Manager) (s : RealtimeStore)
    → SameButDistribution m.store s
    → IsQuiet m
    → IsQuiet (record m { store = s })
loaded-IsQuiet m s same q = record {
  no_token = q.no_token;
  no_controller = q.no_controller;
  no_attempt = q.no_attempt;
  no_batch = q.no_batch;
  no_flush = q.no_flush;
  status = ap (λ (x : RealtimeStore). x.connection_status) same ∙ q.status;
  reason = ap (λ (x : RealtimeStore). x.error_reason) same ∙ q.reason;
}

loaded-IsLive :
    (s : RealtimeStore) (k : Live)
    → SameButDistribution k.manager.store s
    → IsLive k
    → IsLive (record k { manager = record k.manager { store = s } })
loaded-IsLive s k same h = record {
  single =
      same-IsSingle k.manager (record k.manager { store = s })
        (record { tasks = refl; stream = refl; controller = refl; sequence = refl; waiters = refl })
        h.single;
  empty = λ o.
      let e = h.empty o in
      record {
        quiet = loaded-IsQuiet k.manager s same e.quiet;
        stopped = e.stopped;
        store = SameButDistribution-trans initial_state k.manager.store s e.store same;
      };
}

LiveStep-IsLive : {platform : Platform} {k l : Live} → LiveStep platform k l → IsLive k → IsLive l
unfolding rerun_effect
LiveStep-IsLive {k = k} (changes s) h = elim (Bool-cases k.cleanup) [
  | inl e ↦
      rw e
        (realtime_effect-IsLive s (disconnect k.manager) (disconnect-IsSingle k.manager h.single))
  | inr e ↦ rw e (realtime_effect-IsLive s k.manager h.single)
]
LiveStep-IsLive {platform = p} {k = k} (happens st c) h = record {
  single = Step-IsSingle st h.single;
  empty = λ o.
      let e = h.empty o in
      let f =
        event-IsFrozen {platform = p} st c (IsSingle-AtMostOneStream k.manager h.single) e.quiet
          e.stopped in
      record {
        quiet = f.quiet;
        stopped = f.stopped;
        store = subst (SameButDistribution initial_state) (sym f.same_store) e.store;
      };
}
LiveStep-IsLive {platform = p} {k = k} (Live.loads fresh d) h =
    loaded-IsLive (load_baseline p fresh d k.manager.store) k
      (load_baseline-SameButDistribution p fresh d k.manager.store) h

pub LiveReach-IsLive : (platform : Platform) (l : Live) → LiveReach platform l → IsLive l
LiveReach-IsLive platform l (Live.begin item) = record {
  single = Reach-IsSingle platform new_manager begin;
  empty = λ o. absurd (clash o.0);
}
  where
    clash : false ≡ true → ⊥
    clash c = cc
LiveReach-IsLive platform l (Live.next {k = k} r st) =
    LiveStep-IsLive st (LiveReach-IsLive platform k r)

-- In every state that the session and the connection can reach together: while the session that the
-- effect has seen last is resolved and has no token or the role of a visitor, the manager is stopped
-- and quiet, and every field of the store but the two of the distribution is as in the initial state,
-- whatever responses, chunks, failures and timers of the streams before still arrive, and whatever
-- distributions the hook writes.
pub LiveReach-IsEmpty :
    (platform : Platform) (l : Live)
    → LiveReach platform l
    → IsSignedOut l.session
    → IsEmpty l.manager
LiveReach-IsEmpty platform l r o = (LiveReach-IsLive platform l r).empty o
