-- ===== src/Tests/Managers.antt =====
-- Examples for the theorems on the manager.
use Prim.Native.String.{String}
use trading_monitoring_dashb.Base.{◌*◌, ◌≤◌, true, false, ◌≡◌, refl, ◌⊎◌}
use trading_monitoring_dashb.Events.{error}
use trading_monitoring_dashb.Manager.{
  Manager, http_status, connect, disconnect, on_error, backoff_ms,
}
use trading_monitoring_dashb.Manager.Steps.{Reach, begin, next, connects, disconnects, new_manager}
use trading_monitoring_dashb.Manager.Backoff.{
  is_final, IsRetrying, backoff_ms_bounds, on_error_outcome,
}
use trading_monitoring_dashb.Manager.Pending.{KeepsBatches, Reach-KeepsBatches}
use trading_monitoring_dashb.Manager.OneStream.{AtMostOneStream, Reach-AtMostOneStream}
use trading_monitoring_dashb.Manager.Quiet.{IsQuiet, IsFrozen, Reach-IsQuiet, stopped-IsFrozen}
use trading_monitoring_dashb.Tests.{platform}

-- A connection, a second one with another token, which waits for the first stream, and its end.
abbrev twice : Manager
twice = connect "token-2" (connect "token-1" new_manager)

twice-Reach : Reach platform twice
twice-Reach = next (next begin (connects "token-1")) (connects "token-2")

Reach-AtMostOneStream_example : AtMostOneStream twice
Reach-AtMostOneStream_example = Reach-AtMostOneStream platform twice twice-Reach

Reach-KeepsBatches_example : KeepsBatches twice
Reach-KeepsBatches_example = Reach-KeepsBatches platform twice twice-Reach

abbrev stopped : Manager
stopped = disconnect twice

stopped_Reach : Reach platform stopped
stopped_Reach = next twice-Reach disconnects

stopped_flag : stopped.stopped_by_client ≡ true
unfolding disconnect trading_monitoring_dashb.Store.set_connection_status
stopped_flag = refl

Reach-IsQuiet_example : IsQuiet stopped
Reach-IsQuiet_example = Reach-IsQuiet platform stopped stopped_Reach stopped_flag

stopped-IsFrozen_example :
    ((token : String) × (disconnect stopped ≡ connect token stopped))
    ⊎ IsFrozen stopped (disconnect stopped)
stopped-IsFrozen_example = stopped-IsFrozen platform stopped_Reach stopped_flag disconnects

on_error_outcome_example :
    (is_final (http_status 401) ≡ false → IsRetrying (on_error false (http_status 401) new_manager))
    × (is_final (http_status 401) ≡ true
        → ((on_error false (http_status 401) new_manager).store.connection_status ≡ error)
          × ((on_error false (http_status 401) new_manager).reconnect_timer
              ≡ new_manager.reconnect_timer))
on_error_outcome_example = on_error_outcome (http_status 401) new_manager refl

backoff_ms_bounds_example :
    (1000 ≤ backoff_ms 5)
    × (backoff_ms 5 ≤ 30000)
    × (backoff_ms 5 ≤ backoff_ms 6)
    × (backoff_ms 5 ≤ 15000 → backoff_ms 6 ≡ 2 * backoff_ms 5)
backoff_ms_bounds_example = backoff_ms_bounds 5
