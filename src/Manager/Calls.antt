-- ===== src/Manager/Calls.antt =====
-- One stream at a time, kept by connect, disconnect, start and a start behind its await.
use Prim.Native.String.{String}
use text.Mathlib.Text.{◌==◌ as str_eq}
use mathlib.Core.Path.{subst}
use trading_monitoring_dashb.Base.{
  ℕ, ◌+◌, Bool, false, not, ◌&&◌, ◌||◌, Option, none, some, [], ◌∷◌, ◌==◌, ◌≡◌, refl, sym, arith,
  Bool-cases, inl, inr, All,
}
use trading_monitoring_dashb.Manager.{
  Manager, Task, Waiter, fetching, is_some, same_text, abort_current, disconnect, connect, start,
  wait_or_launch, launch, clear_reconnect_timer, resume,
}
use trading_monitoring_dashb.Manager.Steps.{drop_waiter, find_task, find_waiter, remove_waiter}
use trading_monitoring_dashb.Manager.Streams.{
  Open, one_open, abort-Open, Open-nil, gone-none, Open-empty,
}
use trading_monitoring_dashb.Manager.Waiters.{
  Descends, AwaitsOpen, Descends-mono, remove_waiter-Descends, remove_current-Descends,
  remove_waiter-All, old-AwaitsOpen, found-AwaitsOpen,
}

pub record IsSingle (m : Manager) : Type 0 where
  pub open_stream : Open m.tasks m.stream_task m.abort_controller
  pub descends : Descends (m.start_sequence + 1) m.waiters
  pub awaits : All (AwaitsOpen m.stream_task m.start_sequence) m.waiters

-- A stream is launched only where none is open, and the other starts are older.
pub launch-IsSingle :
    (m : Manager) → m.tasks ≡ [] → Descends m.start_sequence m.waiters → IsSingle (launch m)
unfolding launch
launch-IsSingle m e d =
    let new : Task = record {
      id = m.next_id;
      token = m.token;
      aborted = false;
      phase = fetching;
    } in
    record {
      open_stream =
          subst (λ ts. Open (new ∷ ts) (some m.next_id) (some m.next_id)) (sym e) (one_open new);
      descends = Descends-mono m.start_sequence (m.start_sequence + 1) m.waiters (omega arith) d;
      awaits = old-AwaitsOpen (some m.next_id) m.start_sequence m.waiters d;
    }

-- A start that has to wait, or has not.
wait_or_launch-IsSingle :
    (q : ℕ) (o : Option ℕ) (m : Manager)
    → m.stream_task ≡ o
    → Open m.tasks m.stream_task m.abort_controller
    → (o ≡ none → m.tasks ≡ [])
    → m.start_sequence ≡ q + 1
    → Descends (q + 1) m.waiters
    → IsSingle (wait_or_launch (q + 1) o m)
wait_or_launch-IsSingle q none m e o t s d =
    launch-IsSingle m (t refl) (Descends-mono (q + 1) m.start_sequence m.waiters (omega arith) d)
wait_or_launch-IsSingle q (some id) m e o t s d = record {
  open_stream = o;
  descends = (omega arith, d);
  awaits = (
    λ f. inr e,
    old-AwaitsOpen m.stream_task m.start_sequence m.waiters
        (Descends-mono (q + 1) m.start_sequence m.waiters (omega arith) d),
  );
}

pub start-IsSingle : (m : Manager) → IsSingle m → IsSingle (start m)
unfolding start
start-IsSingle m h = elim (Bool-cases (is_some m.token)) [
  | inl e ↦ rw e (
      wait_or_launch-IsSingle m.start_sequence m.stream_task
        (record m {
          start_sequence = m.start_sequence + 1;
          tasks = abort_current m.abort_controller m.tasks;
        })
        refl (abort-Open h.open_stream).1 (Open-nil h.open_stream) refl h.descends)
  | inr e ↦ rw e (record {
    open_stream = h.open_stream;
    descends =
        Descends-mono (m.start_sequence + 1) (m.start_sequence + 1 + 1) m.waiters (omega arith)
          h.descends;
    awaits = old-AwaitsOpen m.stream_task (m.start_sequence + 1) m.waiters h.descends;
  })
]

pub disconnect-IsSingle : (m : Manager) → IsSingle m → IsSingle (disconnect m)
unfolding disconnect
disconnect-IsSingle m h = record {
  open_stream = (abort-Open h.open_stream).0;
  descends =
      Descends-mono (m.start_sequence + 1) (m.start_sequence + 1 + 1) m.waiters (omega arith)
        h.descends;
  awaits = old-AwaitsOpen m.stream_task (m.start_sequence + 1) m.waiters h.descends;
}

pub connect-IsSingle : (token : String) (m : Manager) → IsSingle m → IsSingle (connect token m)
unfolding connect clear_reconnect_timer
connect-IsSingle token m h = elim (Bool-cases (str_eq token "")) [
  | inl e ↦ rw e (disconnect-IsSingle m h)
  | inr e ↦ elim (Bool-cases (same_text m.token token && is_some m.abort_controller)) [
    | inl f ↦ rw (e, f) h
    | inr f ↦
        rw (e, f)
          (start-IsSingle
            (clear_reconnect_timer (record m { token = some token; stopped_by_client = false }))
            (record { open_stream = h.open_stream; descends = h.descends; awaits = h.awaits }))
  ]
]

drop_waiter-IsSingle : (q : ℕ) (m : Manager) → IsSingle m → IsSingle (drop_waiter q m)
drop_waiter-IsSingle q m h = record {
  open_stream = h.open_stream;
  descends = remove_waiter-Descends q (m.start_sequence + 1) m.waiters h.descends;
  awaits = remove_waiter-All (AwaitsOpen m.stream_task m.start_sequence) q m.waiters h.awaits;
}

current_test : (q p : ℕ) (a b : Bool) → (not (q == p) || a || b) ≡ false → q ≡ p
current_test q p a b h = ground arith

-- A start that goes on behind its `await`: it launches a stream only if it is the current one, and
-- then the stream that it has awaited was the open one.
pub resume-IsSingle :
    (w : Waiter) (m : Manager)
    → IsSingle m
    → find_waiter w.sequence m.waiters ≡ some w
    → find_task w.task m.tasks ≡ none
    → IsSingle (resume w.sequence (drop_waiter w.sequence m))
unfolding resume
resume-IsSingle w m h f g =
    elim (Bool-cases
      (not (w.sequence == m.start_sequence) || not (is_some m.token) || m.stopped_by_client)) [
        | inl e ↦ rw e (drop_waiter-IsSingle w.sequence m h)
        | inr e ↦
            let q : w.sequence ≡ m.start_sequence = current_test _ _ _ _ e in
            rw e (
              launch-IsSingle (drop_waiter w.sequence m)
                (Open-empty h.open_stream (
                  gone-none w.task h.open_stream g (
                    found-AwaitsOpen m.stream_task w.sequence m.start_sequence m.waiters h.awaits f
                      q)))
                (subst (λ x. Descends x (remove_waiter w.sequence m.waiters)) q
                  (remove_current-Descends w.sequence m.waiters
                    (subst (λ x. Descends (x + 1) m.waiters) (sym q) h.descends))))
      ]
