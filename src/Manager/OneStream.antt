-- ===== src/Manager/OneStream.antt =====
-- At most one stream is open at a time, and only its own controller is the current one.
use mathlib.Core.Path.{subst}
use trading_monitoring_dashb.Base.{
  ℕ, ◌+◌, ◌≤◌, Bool, true, ◌||◌, Option, none, some, List, [], ◌∷◌, ◌≡◌, refl, sym, arith,
  Bool-cases, ◌⊎◌, inl, inr, All, length,
}
use trading_monitoring_dashb.Batch.{ServingSseBatch}
use trading_monitoring_dashb.Stream.{Platform}
use trading_monitoring_dashb.Manager.{
  Manager, Task, Phase, StreamError, insecure_transport, http_status, stream_error, fired,
  finishing, streaming, reconnect, on_response, on_error, on_failure, settle,
  merge_into_pending_batch, flush_pending_batch,
}
use trading_monitoring_dashb.Manager.Steps.{
  Step, connects, disconnects, reconnects, resumes, responds, reads, rejects, returns, settles,
  flushes, Reach, begin, next, move_task, find_task,
}
use trading_monitoring_dashb.Manager.Calls.{
  IsSingle, start-IsSingle, disconnect-IsSingle, connect-IsSingle, resume-IsSingle,
}
use trading_monitoring_dashb.Manager.Streams.{
  Open, none_open, one_open, one_closing, set_phase-Open, clear_id, settle-Open, Open-settled,
}
use trading_monitoring_dashb.Manager.Waiters.{Descends, AwaitsOpen, none-AwaitsOpen}

-- Fields that the invariant does not name may change.
pub record SameStreams (m n : Manager) : Type 0 where
  pub tasks : n.tasks ≡ m.tasks
  pub stream : n.stream_task ≡ m.stream_task
  pub controller : n.abort_controller ≡ m.abort_controller
  pub sequence : n.start_sequence ≡ m.start_sequence
  pub waiters : n.waiters ≡ m.waiters

pub same-IsSingle : (m n : Manager) → SameStreams m n → IsSingle m → IsSingle n
same-IsSingle m n s h = record {
  open_stream =
      subst (λ x. Open n.tasks n.stream_task x) (sym s.controller)
        (subst (λ x. Open n.tasks x m.abort_controller) (sym s.stream)
          (subst (λ x. Open x m.stream_task m.abort_controller) (sym s.tasks) h.open_stream));
  descends =
      subst (λ x. Descends (x + 1) n.waiters) (sym s.sequence)
        (subst (λ x. Descends (m.start_sequence + 1) x) (sym s.waiters) h.descends);
  awaits =
      subst (λ x. All (AwaitsOpen x n.start_sequence) n.waiters) (sym s.stream)
        (subst (λ x. All (AwaitsOpen m.stream_task x) n.waiters) (sym s.sequence)
          (subst (λ x. All (AwaitsOpen m.stream_task m.start_sequence) x) (sym s.waiters)
            h.awaits));
}

move_task-IsSingle :
    (id : ℕ) (phase : Phase) (m : Manager) → IsSingle m → IsSingle (move_task id phase m)
move_task-IsSingle id phase m h = record {
  open_stream = set_phase-Open id phase h.open_stream;
  descends = h.descends;
  awaits = h.awaits;
}

settle-IsSingle :
    (t : Task) (m : Manager)
    → IsSingle m
    → find_task t.id m.tasks ≡ some t
    → IsSingle (settle t.id m)
unfolding settle
settle-IsSingle t m h f = record {
  open_stream = unfold clear_id in settle-Open t.id h.open_stream f;
  descends = h.descends;
  awaits = settled_awaits (Open-settled t.id h.open_stream f);
}
  where
    settled_awaits : {o : Option ℕ} → o ≡ none → All (AwaitsOpen o m.start_sequence) m.waiters
    settled_awaits e = rw e (none-AwaitsOpen m.start_sequence m.waiters)

on_failure-SameStreams : (e : StreamError) (m : Manager) → SameStreams m (on_failure e m)
unfolding on_failure
on_failure-SameStreams insecure_transport m = ground arith
on_failure-SameStreams (http_status s) m = ground arith
on_failure-SameStreams stream_error m = ground arith

pub on_error-SameStreams :
    (a : Bool) (e : StreamError) (m : Manager) → SameStreams m (on_error a e m)
unfolding on_error
on_error-SameStreams a e m = elim (Bool-cases (m.stopped_by_client || a)) [
  | inl h ↦ rw h (ground arith)
  | inr h ↦ rw h (on_failure-SameStreams e m)
]

pub merge-SameStreams :
    (b : ServingSseBatch) (m : Manager) → SameStreams m (merge_into_pending_batch b m)
unfolding merge_into_pending_batch
merge-SameStreams b m = ground arith

pub Step-IsSingle :
    {platform : Platform} {m n : Manager} → Step platform m n → IsSingle m → IsSingle n
unfolding reconnect on_response flush_pending_batch
Step-IsSingle {m = m} (connects token) h = connect-IsSingle token m h
Step-IsSingle {m = m} disconnects h = disconnect-IsSingle m h
Step-IsSingle {m = m} (reconnects delay e) h =
    start-IsSingle (record m { reconnect_timer = fired })
      (record { open_stream = h.open_stream; descends = h.descends; awaits = h.awaits })
Step-IsSingle {m = m} (resumes w e f) h = resume-IsSingle w m h e f
Step-IsSingle {m = m} (responds t e f g) h =
    let k = move_task-IsSingle t.id streaming m h in
    record { open_stream = k.open_stream; descends = k.descends; awaits = k.awaits }
Step-IsSingle {m = m} (reads t b e f g) h = same-IsSingle m _ (merge-SameStreams b m) h
Step-IsSingle {m = m} (rejects t x e f) h =
    same-IsSingle (move_task t.id finishing m) _ (on_error-SameStreams t.aborted x _)
      (move_task-IsSingle t.id finishing m h)
Step-IsSingle {m = m} (returns t e f) h = move_task-IsSingle t.id finishing m h
Step-IsSingle {m = m} (settles t e f) h = settle-IsSingle t m h e
Step-IsSingle (flushes fresh e) h = record {
  open_stream = h.open_stream;
  descends = h.descends;
  awaits = h.awaits;
}

pub Reach-IsSingle : (platform : Platform) (m : Manager) → Reach platform m → IsSingle m
Reach-IsSingle platform m begin = record { open_stream = none_open; descends = tt; awaits = tt }
Reach-IsSingle platform m (next {m = l} r s) = Step-IsSingle s (Reach-IsSingle platform l r)

-- What the reachable states have in common: at most one stream has not settled; a current
-- controller is that stream's; and a stream that is not the current one is aborted.
pub record AtMostOneStream (m : Manager) : Type 0 where
  pub one : length m.tasks ≤ 1
  pub current :
      (id : ℕ) → m.abort_controller ≡ some id → (t : Task) × (m.tasks ≡ t ∷ []) × (t.id ≡ id)
  pub others_aborted : All (λ t. (t.aborted ≡ true) ⊎ (m.abort_controller ≡ some t.id)) m.tasks

Open-AtMostOne :
    {tasks : List Task} {stream controller : Option ℕ}
    → Open tasks stream controller
    → (length tasks ≤ 1)
      × ((id : ℕ) → controller ≡ some id → (t : Task) × (tasks ≡ t ∷ []) × (t.id ≡ id))
      × All (λ t. (t.aborted ≡ true) ⊎ (controller ≡ some t.id)) tasks
Open-AtMostOne none_open = (omega arith, λ id e. cc, tt)
Open-AtMostOne (one_open t) = (omega arith, λ id e. (t, refl, cc), (inr refl, tt))
Open-AtMostOne (one_closing t h) = (omega arith, λ id e. cc, (inl h, tt))

pub IsSingle-AtMostOneStream : (m : Manager) → IsSingle m → AtMostOneStream m
IsSingle-AtMostOneStream m h =
    let o = Open-AtMostOne h.open_stream in
    record { one = o.0; current = o.1; others_aborted = o.2 }

-- In every state that the manager can reach, by any calls of its methods and any order of timers
-- and continuations: at most one stream is unsettled, a current controller belongs to that stream,
-- and a stream without the current controller is aborted.
pub Reach-AtMostOneStream :
    (platform : Platform) (m : Manager) → Reach platform m → AtMostOneStream m
Reach-AtMostOneStream platform m r = IsSingle-AtMostOneStream m (Reach-IsSingle platform m r)
