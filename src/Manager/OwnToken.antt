-- ===== src/Manager/OwnToken.antt =====
-- With which token a stream is open.
use Prim.Native.String.{String}
use text.Mathlib.Text.{◌==◌ as str_eq}
use mathlib.Core.Path.{subst}
use trading_monitoring_dashb.Base.{
  ℕ, ◌+◌, true, false, not, ◌&&◌, ◌||◌, Option, none, some, List, [], ◌∷◌, ◌==◌, ◌≡◌, refl, sym,
  ◌⊎◌, inl, inr, Bool-cases, All, All-map,
}
use trading_monitoring_dashb.Stream.{Platform}
use trading_monitoring_dashb.Manager.{
  Manager, Task, Phase, Waiter, fetching, fired, finishing, streaming, is_some, same_text, connect,
  disconnect, start, launch, wait_or_launch, resume, reconnect, clear_reconnect_timer, on_response,
  on_error, settle, merge_into_pending_batch, flush_pending_batch, abort_current, remove_task,
}
use trading_monitoring_dashb.Manager.Steps.{
  Step, connects, disconnects, reconnects, resumes, responds, reads, rejects, returns, settles,
  flushes, drop_waiter, move_task, set_phase,
}
use trading_monitoring_dashb.Manager.Calls.{IsSingle}
use trading_monitoring_dashb.Manager.Streams.{
  Open, none_open, one_open, one_closing, abort-Open, same_refl,
}
use trading_monitoring_dashb.Manager.OneStream.{
  SameStreams, on_error-SameStreams, merge-SameStreams,
}
use trading_monitoring_dashb.Manager.Token.{SameClient, on_error-SameClient, merge-SameClient}

-- Aborted, or open with the token `token`.
abbrev pub Uses : Option String → Task → Type 0
Uses token t = (t.aborted ≡ true) ⊎ (t.token ≡ token)

-- Every stream that is not aborted is open with the token that the manager has.
abbrev pub HasOwnStreams : Manager → Type 0
HasOwnStreams m = All (Uses m.token) m.tasks

Open-aborted :
    {tasks : List Task} {stream controller : Option ℕ}
    → Open tasks stream controller
    → controller ≡ none
    → All (λ t. t.aborted ≡ true) tasks
Open-aborted none_open e = tt
Open-aborted (one_open t) e = cc
Open-aborted (one_closing t h) e = (h, tt)

-- The streams behind the abortion of the current one.
stopped-Uses :
    (token : Option String) (m : Manager)
    → IsSingle m
    → All (Uses token) (abort_current m.abort_controller m.tasks)
stopped-Uses token m h =
    All-map (λ t. t.aborted ≡ true) (Uses token) (λ t a. inl a)
      (abort_current m.abort_controller m.tasks) (Open-aborted (abort-Open h.open_stream).0 refl)

launch-HasOwnStreams : (m : Manager) → HasOwnStreams m → HasOwnStreams (launch m)
unfolding launch
launch-HasOwnStreams m h = (inr refl, h)

wait_or_launch-HasOwnStreams :
    (q : ℕ) (o : Option ℕ) (m : Manager) → HasOwnStreams m → HasOwnStreams (wait_or_launch q o m)
wait_or_launch-HasOwnStreams q none m h = launch-HasOwnStreams m h
wait_or_launch-HasOwnStreams q (some t) m h = h

start-HasOwnStreams :
    (m : Manager)
    → IsSingle m
    → (is_some m.token ≡ false → HasOwnStreams m)
    → HasOwnStreams (start m)
unfolding start
start-HasOwnStreams m h u = elim (Bool-cases (is_some m.token)) [
  | inl e ↦ rw e (
      wait_or_launch-HasOwnStreams (m.start_sequence + 1) m.stream_task
        (record m {
          start_sequence = m.start_sequence + 1;
          tasks = abort_current m.abort_controller m.tasks;
        })
        (stopped-Uses m.token m h))
  | inr e ↦ rw e (u e)
]

pub disconnect-HasOwnStreams : (m : Manager) → IsSingle m → HasOwnStreams (disconnect m)
unfolding disconnect
disconnect-HasOwnStreams m h = stopped-Uses none m h

pub connect-HasOwnStreams :
    (token : String) (m : Manager) → IsSingle m → HasOwnStreams m → HasOwnStreams (connect token m)
unfolding connect clear_reconnect_timer
connect-HasOwnStreams token m h u = elim (Bool-cases (str_eq token "")) [
  | inl e ↦ rw e (disconnect-HasOwnStreams m h)
  | inr e ↦ elim (Bool-cases (same_text m.token token && is_some m.abort_controller)) [
    | inl f ↦ rw (e, f) u
    | inr f ↦
        rw (e, f)
          (start-HasOwnStreams
            (clear_reconnect_timer (record m { token = some token; stopped_by_client = false }))
            (record { open_stream = h.open_stream; descends = h.descends; awaits = h.awaits })
            (λ c. absurd (clash c)))
  ]
]
  where
    clash : true ≡ false → ⊥
    clash c = cc

resume-HasOwnStreams : (q : ℕ) (m : Manager) → HasOwnStreams m → HasOwnStreams (resume q m)
unfolding resume
resume-HasOwnStreams q m u =
    elim (Bool-cases
      (not (q == m.start_sequence) || not (is_some m.token) || m.stopped_by_client)) [
        | inl e ↦ rw e u
        | inr e ↦ rw e (launch-HasOwnStreams m u)
      ]

set_phase-Uses :
    (token : Option String) (id : ℕ) (phase : Phase) (ts : List Task)
    → All (Uses token) ts
    → All (Uses token) (set_phase id phase ts)
unfolding set_phase
set_phase-Uses token id phase [] u = tt
set_phase-Uses token id phase (t ∷ ts) u = elim (Bool-cases (t.id == id)) [
  | inl e ↦ rw e (u.0, set_phase-Uses token id phase ts u.1)
  | inr e ↦ rw e (u.0, set_phase-Uses token id phase ts u.1)
]

remove_task-Uses :
    (token : Option String) (id : ℕ) (ts : List Task)
    → All (Uses token) ts
    → All (Uses token) (remove_task id ts)
unfolding remove_task
remove_task-Uses token id [] u = tt
remove_task-Uses token id (t ∷ ts) u = elim (Bool-cases (t.id == id)) [
  | inl e ↦ rw e u.1
  | inr e ↦ rw e (u.0, remove_task-Uses token id ts u.1)
]

same-HasOwnStreams :
    (m n : Manager) → SameStreams m n → SameClient m n → HasOwnStreams m → HasOwnStreams n
same-HasOwnStreams m n s c u =
    subst (λ x. All (Uses x) n.tasks) (sym c.token)
      (subst (λ x. All (Uses m.token) x) (sym s.tasks) u)

-- A step leaves the streams with the manager's token.
pub Step-HasOwnStreams :
    {platform : Platform} {m n : Manager}
    → Step platform m n
    → IsSingle m
    → HasOwnStreams m
    → HasOwnStreams n
unfolding reconnect on_response settle flush_pending_batch
Step-HasOwnStreams {m = m} (connects token) h u = connect-HasOwnStreams token m h u
Step-HasOwnStreams {m = m} disconnects h u = disconnect-HasOwnStreams m h
Step-HasOwnStreams {m = m} (reconnects delay e) h u =
    start-HasOwnStreams (record m { reconnect_timer = fired })
      (record { open_stream = h.open_stream; descends = h.descends; awaits = h.awaits }) (λ c. u)
Step-HasOwnStreams {m = m} (resumes w e f) h u =
    resume-HasOwnStreams w.sequence (drop_waiter w.sequence m) u
Step-HasOwnStreams {m = m} (responds t e f g) h u = set_phase-Uses m.token t.id streaming m.tasks u
Step-HasOwnStreams {m = m} (reads t b e f g) h u =
    same-HasOwnStreams m (merge_into_pending_batch b m) (merge-SameStreams b m)
      (merge-SameClient b m) u
Step-HasOwnStreams {m = m} (rejects t x e f) h u =
    let k = move_task t.id finishing m in
    same-HasOwnStreams k (on_error t.aborted x k) (on_error-SameStreams t.aborted x k)
      (on_error-SameClient t.aborted x k) (set_phase-Uses m.token t.id finishing m.tasks u)
Step-HasOwnStreams {m = m} (returns t e f) h u = set_phase-Uses m.token t.id finishing m.tasks u
Step-HasOwnStreams {m = m} (settles t e f) h u = remove_task-Uses m.token t.id m.tasks u
Step-HasOwnStreams (flushes fresh e) h u = u

-- The call has opened a stream with the token `token`, or its start waits for the stream before to
-- settle, and then launches its own.
abbrev pub IsOpening : Option String → Manager → Type 0
IsOpening token m =
    ((t : Task) × (ts : List Task) × (m.tasks ≡ t ∷ ts)
      × (m.abort_controller ≡ some t.id)
      × (t.token ≡ token)
      × (t.aborted ≡ false)
      × (t.phase ≡ fetching))
    ⊎ ((w : Waiter) × (ws : List Waiter) × (m.waiters ≡ w ∷ ws)
        × (m.stream_task ≡ some w.task)
        × (w.sequence ≡ m.start_sequence)
        × (resume w.sequence m ≡ launch m))

resume_launches :
    (m : Manager)
    → is_some m.token ≡ true
    → m.stopped_by_client ≡ false
    → resume m.start_sequence m ≡ launch m
unfolding resume
resume_launches m h r = rw (same_refl m.start_sequence, h, r) refl

launch-IsOpening : (k : Manager) → IsOpening k.token (launch k)
unfolding launch
launch-IsOpening k = inl (
  record { id = k.next_id; token = k.token; aborted = false; phase = fetching },
  k.tasks,
  refl,
  refl,
  refl,
  refl,
  refl,
)

-- A call of `connect` on a manager that has no token opens a stream, or awaits one to open it.
pub connect-IsOpening :
    (token : String) (m : Manager)
    → str_eq token "" ≡ false
    → m.token ≡ none
    → IsOpening (some token) (connect token m)
unfolding connect clear_reconnect_timer start
connect-IsOpening token m n e =
    let no : (same_text m.token token && is_some m.abort_controller) ≡ false =
      subst (λ o. (same_text o token && is_some m.abort_controller) ≡ false) (sym e) refl in
    let k = clear_reconnect_timer (record m { token = some token; stopped_by_client = false }) in
    rw (n, no)
      (opens
        (record k {
          start_sequence = k.start_sequence + 1;
          tasks = abort_current k.abort_controller k.tasks;
        })
        m.stream_task refl refl)
  where
    opens :
        (k : Manager) (o : Option ℕ)
        → is_some k.token ≡ true
        → k.stopped_by_client ≡ false
        → IsOpening k.token (wait_or_launch k.start_sequence o (record k { stream_task = o }))
    opens k none h r = launch-IsOpening (record k { stream_task = none })
    opens k (some task) h r = inr (
      (record { sequence = k.start_sequence; task = task }),
      k.waiters,
      refl,
      refl,
      refl,
      resume_launches
          (record k {
            stream_task = some task;
            waiters = (record { sequence = k.start_sequence; task = task }) ∷ k.waiters;
          })
          h r,
    )
