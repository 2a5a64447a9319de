-- ===== src/Gate/Copies.antt =====
-- The worker's copy of the gate decides as the manager's does.
use trading_monitoring_dashb.Base.{not, ◌||◌, ◌≡◌, refl, arith}
use trading_monitoring_dashb.Js.{
  Js, undefined, null, bool, num, infinite, str, arr, obj, is_object, truthy,
}
use trading_monitoring_dashb.Events.{
  ServingSseEventName, index_contrib_ranking, index_contrib_sector, heartbeat,
}
use trading_monitoring_dashb.Gate.{
  Calendar, SessionCache, event_time, worker_event_time, should_apply_dashboard_sse_event,
  worker_should_apply,
}

-- The tests on the payload, written differently, agree.
guards_agree : (p : Js) → (not (truthy p) || not (is_object p)) ≡ not (is_object p)
unfolding truthy is_object
guards_agree (bool b) = ground arith
guards_agree (num n) = ground arith
guards_agree (str s) = ground arith
guards_agree (arr r xs) = refl
guards_agree (obj r xs) = refl
guards_agree undefined = refl
guards_agree null = refl
guards_agree (infinite b) = refl

-- For every event, payload and cache: the worker's copy of the gate gives the manager's decision,
-- leaves the same cache, and throws where the manager's does.
pub worker_should_apply-eq :
    (calendar : Calendar) (c : SessionCache) (event : ServingSseEventName) (p : Js)
    → worker_should_apply calendar c event p ≡ should_apply_dashboard_sse_event calendar c event p
unfolding worker_should_apply should_apply_dashboard_sse_event worker_event_time event_time
worker_should_apply-eq calendar c heartbeat p = refl
worker_should_apply-eq calendar c index_contrib_ranking p = refl
worker_should_apply-eq calendar c index_contrib_sector p = refl
worker_should_apply-eq calendar c event p = rw (guards_agree p)
