-- ===== src/Manager/Steps.antt =====
-- What may happen next to the manager: calls of its two methods, timers, and the continuations of
-- its promises, in any order that the event loop allows. After a controller has been aborted its
-- `fetch` and its reader deliver nothing more (as the platform documents), so a response and a
-- chunk come only from a stream that is not aborted.
use Prim.Native.String.{String}
use trading_monitoring_dashb.Base.{
  ℕ, Bool, true, false, Option, none, some, List, [], ◌∷◌, ◌==◌, if◌then◌else◌, ◌≡◌, ◌≢◌,
}
use trading_monitoring_dashb.Batch.{ServingSseBatch}
use trading_monitoring_dashb.Store.{initial_state}
use trading_monitoring_dashb.Stream.{Platform}
use trading_monitoring_dashb.Manager.{
  off, pending, Phase, fetching, streaming, finishing, Task, Waiter, Manager, StreamError,
  disconnect, connect, resume, reconnect, on_response, on_error, settle, merge_into_pending_batch,
  flush_pending_batch,
}

unfoldable pub find_task : ℕ → List Task → Option Task
find_task id [] = none
find_task id (t ∷ ts) = if t.id == id then some t else find_task id ts

unfoldable pub set_phase : ℕ → Phase → List Task → List Task
set_phase id phase [] = []
set_phase id phase (t ∷ ts) =
    (if t.id == id then record t { phase = phase } else t) ∷ set_phase id phase ts

unfoldable pub find_waiter : ℕ → List Waiter → Option Waiter
find_waiter sequence [] = none
find_waiter sequence (w ∷ ws) = if w.sequence == sequence then some w else find_waiter sequence ws

unfoldable pub remove_waiter : ℕ → List Waiter → List Waiter
remove_waiter sequence [] = []
remove_waiter sequence (w ∷ ws) =
    if w.sequence == sequence then ws else w ∷ remove_waiter sequence ws

abbrev pub move_task : ℕ → Phase → Manager → Manager
move_task id phase m = record m { tasks = set_phase id phase m.tasks }

abbrev pub drop_waiter : ℕ → Manager → Manager
drop_waiter sequence m = record m { waiters = remove_waiter sequence m.waiters }

-- `new RealtimeManager()`
abbrev pub new_manager : Manager
new_manager = record {
  token = none;
  abort_controller = none;
  stream_task = none;
  reconnect_timer = off;
  reconnect_attempts = 0;
  start_sequence = 0;
  stopped_by_client = false;
  pending_batch = none;
  pending_batch_timer = false;
  store = initial_state;
  tasks = [];
  waiters = [];
  next_id = 0;
}

pub data Step (platform : Platform) (m : Manager) : Manager → Type 0 where
  connects : (token : String) → Step platform m (connect token m)
  disconnects : Step platform m (disconnect m)
  reconnects : (delay : ℕ) → m.reconnect_timer ≡ pending delay → Step platform m (reconnect m)
  -- The stream that the start awaits has settled.
  resumes :
      (w : Waiter)
      → find_waiter w.sequence m.waiters ≡ some w
      → find_task w.task m.tasks ≡ none
      → Step platform m (resume w.sequence (drop_waiter w.sequence m))
  responds :
      (t : Task)
      → find_task t.id m.tasks ≡ some t
      → t.phase ≡ fetching
      → t.aborted ≡ false
      → Step platform m (on_response (move_task t.id streaming m))
  reads :
      (t : Task) (b : ServingSseBatch)
      → find_task t.id m.tasks ≡ some t
      → t.phase ≡ streaming
      → t.aborted ≡ false
      → Step platform m (merge_into_pending_batch b m)
  rejects :
      (t : Task) (e : StreamError)
      → find_task t.id m.tasks ≡ some t
      → t.phase ≢ finishing
      → Step platform m (on_error t.aborted e (move_task t.id finishing m))
  returns :
      (t : Task)
      → find_task t.id m.tasks ≡ some t
      → t.phase ≢ finishing
      → Step platform m (move_task t.id finishing m)
  settles :
      (t : Task)
      → find_task t.id m.tasks ≡ some t
      → t.phase ≡ finishing
      → Step platform m (settle t.id m)
  flushes :
      (fresh : ℕ)
      → m.pending_batch_timer ≡ true
      → Step platform m (flush_pending_batch platform fresh m)

-- A call of a public method.
abbrev pub is_call : {platform : Platform} {m n : Manager} → Step platform m n → Bool
is_call (connects token) = true
is_call disconnects = true
is_call (reconnects delay e) = false
is_call (resumes w e f) = false
is_call (responds t e f g) = false
is_call (reads t b e f g) = false
is_call (rejects t x e f) = false
is_call (returns t e f) = false
is_call (settles t e f) = false
is_call (flushes fresh e) = false

pub data Reach (platform : Platform) : Manager → Type 0 where
  begin : Reach platform new_manager
  next : {m n : Manager} → Reach platform m → Step platform m n → Reach platform n
