-- ===== src/Manager.antt =====
-- apps/frontend/src/features/realtime/services/realtime-manager.ts, class `RealtimeManager`, with
-- the worker and the mock of the spot market switched off (both are so unless the build sets
-- VITE_ENABLE_SSE_WORKER and VITE_ENABLE_SPOT_GAP_K_MOCK). The methods are functions on the
-- object's fields, the store, and what the event loop holds: the streams that have not settled and
-- the starts that await one.
use Prim.Native.String.{String}
use text.Mathlib.Text.{◌==◌ as str_eq}
use trading_monitoring_dashb.Base.{
  ℕ, zero, suc, ◌+◌, ◌*◌, ◌^◌, min, max, Bool, true, false, not, ◌&&◌, ◌||◌, Option, none, some,
  List, [], ◌∷◌, ltb, ◌==◌, if◌then◌else◌,
}
use trading_monitoring_dashb.Events.{
  SseConnectionStatus, idle, connecting, connected, retrying, error, ErrorReason,
  stream_disconnected, auth_failed, rate_limited,
}
use trading_monitoring_dashb.Batch.{ServingSseBatch, should_apply_batch, is_empty, merge_batch}
use trading_monitoring_dashb.Store.{RealtimeStore, set_connection_status}
use trading_monitoring_dashb.Store.Apply.{of_serving, apply_sse_batch}
use trading_monitoring_dashb.Stream.{Platform}
pub mod Steps
pub mod Backoff
pub mod Calls
pub mod OneStream
pub mod Streams
pub mod Waiters
pub mod Quiet
pub mod Token
pub mod OwnToken
pub mod Pending

-- `reconnectTimer`: `null`, or a handle whose callback is due after the delay or has run.
pub data Timer : Type 0 where
  off : Timer
  pending : ℕ → Timer
  fired : Timer

-- Before the response, after it, and when only `finally` is left to run.
pub data Phase : Type 0 where
  fetching streaming finishing : Phase

-- A stream whose promise has not settled; `id` names it and its controller, and `token` is the one
-- that `stream` was called with.
pub record Task : Type 0 where
  pub id : ℕ
  pub token : Option String
  pub aborted : Bool
  pub phase : Phase

-- A start that awaits the stream before it.
pub record Waiter : Type 0 where
  pub sequence : ℕ
  pub task : ℕ

pub record Manager : Type 0 where
  pub token : Option String
  pub abort_controller : Option ℕ
  pub stream_task : Option ℕ
  pub reconnect_timer : Timer
  pub reconnect_attempts : ℕ
  pub start_sequence : ℕ
  pub stopped_by_client : Bool
  pub pending_batch : Option ServingSseBatch
  pub pending_batch_timer : Bool
  pub store : RealtimeStore
  pub tasks : List Task
  pub waiters : List Waiter
  pub next_id : ℕ

-- What `stream` may reject with.
pub data StreamError : Type 0 where
  insecure_transport : StreamError
  http_status : ℕ → StreamError
  stream_error : StreamError

abbrev pub is_some {ℓ} : {A : Type ℓ} → Option A → Bool
is_some none = false
is_some (some a) = true

abbrev pub same_text : Option String → String → Bool
same_text none t = false
same_text (some s) t = str_eq s t

abbrev pub same_id : Option ℕ → ℕ → Bool
same_id none n = false
same_id (some m) n = m == n

abbrev pub set_status : SseConnectionStatus → Option ErrorReason → Manager → Manager
set_status status reason m = record m { store = set_connection_status status reason m.store }

unfoldable pub clear_reconnect_timer : Manager → Manager
clear_reconnect_timer m = record m { reconnect_timer = off }

unfoldable pub schedule_reconnect : ℕ → Manager → Manager
unfolding clear_reconnect_timer
schedule_reconnect delay_ms m =
    let c = clear_reconnect_timer m in
    record c { reconnect_attempts = c.reconnect_attempts + 1; reconnect_timer = pending delay_ms }

-- `controller.abort()`
unfoldable pub abort_task : ℕ → List Task → List Task
abort_task id [] = []
abort_task id (t ∷ ts) = (if t.id == id then record t { aborted = true } else t) ∷ abort_task id ts

abbrev pub abort_current : Option ℕ → List Task → List Task
abort_current none ts = ts
abort_current (some id) ts = abort_task id ts

unfoldable pub disconnect : Manager → Manager
unfolding clear_reconnect_timer
disconnect m =
    let c = clear_reconnect_timer (record m {
      stopped_by_client = true;
      token = none;
      start_sequence = m.start_sequence + 1;
      reconnect_attempts = 0;
    }) in
    set_status idle none (record c {
      tasks = abort_current c.abort_controller c.tasks;
      abort_controller = none;
      pending_batch_timer = false;
      pending_batch = none;
    })

-- The end of `startWhenReady`, from `new AbortController()` on.
unfoldable pub launch : Manager → Manager
launch m = set_status (if ltb 0 m.reconnect_attempts then retrying else connecting) none (record m {
  abort_controller = some m.next_id;
  stream_task = some m.next_id;
  tasks = (record { id = m.next_id; token = m.token; aborted = false; phase = fetching }) ∷ m.tasks;
  next_id = m.next_id + 1;
})

abbrev pub wait_or_launch : ℕ → Option ℕ → Manager → Manager
wait_or_launch sequence none m = launch m
wait_or_launch sequence (some task) m = record m {
  waiters = (record { sequence = sequence; task = task }) ∷ m.waiters;
}

-- `startWhenReady`, up to the `await` if there is a stream to wait for.
unfoldable pub start_when_ready : ℕ → Manager → Manager
start_when_ready sequence m =
    if not (is_some m.token)
    then m
    else wait_or_launch sequence m.stream_task
        (record m { tasks = abort_current m.abort_controller m.tasks })

unfoldable pub start : Manager → Manager
unfolding start_when_ready
start m =
    start_when_ready (m.start_sequence + 1) (record m { start_sequence = m.start_sequence + 1 })

unfoldable pub connect : String → Manager → Manager
unfolding start disconnect clear_reconnect_timer
connect token m =
    if str_eq token ""
    then disconnect m
    else if same_text m.token token && is_some m.abort_controller
    then m
    else start (clear_reconnect_timer (record m { token = some token; stopped_by_client = false }))

-- `startWhenReady` behind the `await`.
unfoldable pub resume : ℕ → Manager → Manager
resume sequence m =
    if not (sequence == m.start_sequence) || not (is_some m.token) || m.stopped_by_client
    then m
    else launch m

-- The callback of `reconnectTimer`.
unfoldable pub reconnect : Manager → Manager
reconnect m = start (record m { reconnect_timer = fired })

-- `stream` after a response that is ok.
unfoldable pub on_response : Manager → Manager
on_response m = set_status connected none (record m { reconnect_attempts = 0 })

-- `Math.min(30_000, 1_000 * Math.max(1, 2 ** attempts))`
unfoldable pub backoff_ms : ℕ → ℕ
backoff_ms attempts = min 30000 (1000 * max 1 (2 ^ attempts))

unfoldable pub retry_later : Manager → Manager
retry_later m =
    schedule_reconnect (backoff_ms m.reconnect_attempts)
      (set_status retrying (some stream_disconnected) m)

unfoldable pub on_failure : StreamError → Manager → Manager
unfolding retry_later schedule_reconnect
on_failure insecure_transport m = set_status error (some stream_disconnected) m
on_failure (http_status status) m =
    if status == 401 || status == 403
    then set_status error (some auth_failed) m
    else if status == 429
    then schedule_reconnect 5000 (set_status retrying (some rate_limited) m)
    else retry_later m
on_failure stream_error m = retry_later m

-- The handler of `catch`, for the stream with the flag `aborted` on its controller.
unfoldable pub on_error : Bool → StreamError → Manager → Manager
unfolding on_failure
on_error aborted e m = if m.stopped_by_client || aborted then m else on_failure e m

unfoldable pub remove_task : ℕ → List Task → List Task
remove_task id [] = []
remove_task id (t ∷ ts) = if t.id == id then ts else t ∷ remove_task id ts

-- The handler of `finally`; the promise settles behind it.
unfoldable pub settle : ℕ → Manager → Manager
unfolding remove_task
settle id m = record m {
  abort_controller = if same_id m.abort_controller id then none else m.abort_controller;
  stream_task = if same_id m.stream_task id then none else m.stream_task;
  tasks = remove_task id m.tasks;
}

abbrev pub schedule_flush_pending_batch : Manager → Manager
schedule_flush_pending_batch m = record m { pending_batch_timer = true }

abbrev pub merge_pending : Option ServingSseBatch → ServingSseBatch → ServingSseBatch
merge_pending none incoming = incoming
merge_pending (some target) incoming = merge_batch target incoming

unfoldable pub merge_into_pending_batch : ServingSseBatch → Manager → Manager
merge_into_pending_batch incoming m =
    if is_empty incoming
    then m
    else schedule_flush_pending_batch
        (record m { pending_batch = some (merge_pending m.pending_batch incoming) })

-- An exception of the store is swallowed by the timer's callback.
abbrev pub store_or : Option RealtimeStore → RealtimeStore → RealtimeStore
store_or none s = s
store_or (some s') s = s'

abbrev pub flush_store : Platform → ℕ → Option ServingSseBatch → RealtimeStore → RealtimeStore
flush_store platform fresh none s = s
flush_store platform fresh (some b) s =
    if should_apply_batch b
    then store_or (apply_sse_batch platform.to_string fresh (of_serving b) s) s
    else s

unfoldable pub flush_pending_batch : Platform → ℕ → Manager → Manager
flush_pending_batch platform fresh m = record m {
  pending_batch_timer = false;
  pending_batch = none;
  store = flush_store platform fresh m.pending_batch m.store;
}
