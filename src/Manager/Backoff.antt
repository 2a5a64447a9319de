-- ===== src/Manager/Backoff.antt =====
-- The delay before a new attempt, and what a failed stream leads to.
use native.Mathlib.Nat.{pow-suc}
use trading_monitoring_dashb.Base.{
  ℕ, zero, suc, ◌*◌, ◌^◌, ◌≤◌, Bool, true, false, ◌||◌, some, ◌==◌, ◌≡◌, inl, inr, refl, arith,
  Bool-cases,
}
use trading_monitoring_dashb.Events.{retrying, error, rate_limited}
use trading_monitoring_dashb.Store.{set_connection_status}
use trading_monitoring_dashb.Manager.{
  pending, Manager, StreamError, insecure_transport, http_status, stream_error, backoff_ms,
  retry_later, schedule_reconnect, set_status, on_failure, on_error,
}

pow_pos : (n : ℕ) → 1 ≤ 2 ^ n
pow_pos zero = omega arith
pow_pos (suc n) = omega (arith, pow_pos n, pow-suc 2 n)

-- For every number of attempts: the delay is at least a second and at most half a minute; one more
-- attempt does not shorten it, and doubles it as long as half a minute is not exceeded.
pub backoff_ms_bounds :
    (n : ℕ)
    → (1000 ≤ backoff_ms n)
      × (backoff_ms n ≤ 30000)
      × (backoff_ms n ≤ backoff_ms (suc n))
      × (backoff_ms n ≤ 15000 → backoff_ms (suc n) ≡ 2 * backoff_ms n)
unfolding backoff_ms
backoff_ms_bounds n = (
  omega (arith, pow_pos n),
  omega (arith, pow_pos n),
  omega (arith, pow_pos n, pow-suc 2 n),
  λ h. omega (arith, pow_pos n, pow-suc 2 n),
)

-- The failures after which the manager gives up.
abbrev pub is_final : StreamError → Bool
is_final insecure_transport = true
is_final (http_status status) = status == 401 || status == 403
is_final stream_error = false

-- A new attempt is due, after one second to half a minute, and the status says so.
pub record IsRetrying (m : Manager) : Type 0 where
  pub delay_ms : ℕ
  pub scheduled : m.reconnect_timer ≡ pending delay_ms
  pub at_least : 1000 ≤ delay_ms
  pub at_most : delay_ms ≤ 30000
  pub status : m.store.connection_status ≡ retrying

retry_later-IsRetrying : (m : Manager) → IsRetrying (retry_later m)
unfolding retry_later schedule_reconnect set_connection_status
retry_later-IsRetrying m =
    let b = backoff_ms_bounds m.reconnect_attempts in
    record {
      delay_ms = backoff_ms m.reconnect_attempts;
      scheduled = refl;
      at_least = b.0;
      at_most = b.1;
      status = refl;
    }

rate_limited_IsRetrying :
    (m : Manager) → IsRetrying (schedule_reconnect 5000 (set_status retrying (some rate_limited) m))
unfolding schedule_reconnect set_connection_status
rate_limited_IsRetrying m = record {
  delay_ms = 5000;
  scheduled = refl;
  at_least = omega arith;
  at_most = omega arith;
  status = refl;
}

on_failure-IsRetrying :
    (e : StreamError) (m : Manager) → is_final e ≡ false → IsRetrying (on_failure e m)
unfolding on_failure
on_failure-IsRetrying insecure_transport m h = cc
on_failure-IsRetrying (http_status s) m h = elim (Bool-cases (s == 429)) [
  | inl e ↦ rw h (rw e (rate_limited_IsRetrying m))
  | inr e ↦ rw h (rw e (retry_later-IsRetrying m))
]
on_failure-IsRetrying stream_error m h = retry_later-IsRetrying m

on_failure_final :
    (e : StreamError) (m : Manager)
    → is_final e ≡ true
    → ((on_failure e m).store.connection_status ≡ error)
      × ((on_failure e m).reconnect_timer ≡ m.reconnect_timer)
unfolding on_failure set_connection_status
on_failure_final insecure_transport m h = (refl, refl)
on_failure_final (http_status s) m h = rw h (refl, refl)
on_failure_final stream_error m h = cc

not_stopped :
    (e : StreamError) (m : Manager)
    → m.stopped_by_client ≡ false
    → on_error false e m ≡ on_failure e m
unfolding on_error
not_stopped e m h = simp h

-- For a stream whose controller is not aborted and a manager that is not stopped: after a failure
-- other than 401, 403 and a blocked transport, a new attempt is due in one second to half a minute
-- and the status is "retrying"; after one of those three the status is "error" and the timer is
-- as it was.
pub on_error_outcome :
    (e : StreamError) (m : Manager)
    → m.stopped_by_client ≡ false
    → (is_final e ≡ false → IsRetrying (on_error false e m))
      × (is_final e ≡ true
          → ((on_error false e m).store.connection_status ≡ error)
            × ((on_error false e m).reconnect_timer ≡ m.reconnect_timer))
on_error_outcome e m h = rw (not_stopped e m h) (on_failure-IsRetrying e m, on_failure_final e m)
