-- ===== src/Manager/Pending.antt =====
-- No batch is stranded: while events are pending, a timer is set that will apply them.
use Prim.Native.String.{String}
use text.Mathlib.Text.{◌==◌ as str_eq}
use trading_monitoring_dashb.Base.{
  ℕ, Bool, true, false, ◌&&◌, ◌||◌, Option, none, some, ◌≡◌, refl, sym, ◌∙◌, arith, Bool-cases, inl,
  inr,
}
use trading_monitoring_dashb.Batch.{ServingSseBatch, is_empty, should_apply_batch}
use trading_monitoring_dashb.Batch.Merge.{is_empty-should_apply_batch, should_apply-merge_batch}
use trading_monitoring_dashb.Stream.{Platform}
use trading_monitoring_dashb.Manager.{
  Manager, StreamError, insecure_transport, http_status, stream_error, fired, finishing, is_some,
  same_text, disconnect, connect, start, launch, clear_reconnect_timer, resume, reconnect,
  on_response, on_error, on_failure, settle, merge_pending, merge_into_pending_batch,
  flush_pending_batch,
}
use trading_monitoring_dashb.Manager.Steps.{
  Step, connects, disconnects, reconnects, resumes, responds, reads, rejects, returns, settles,
  flushes, Reach, begin, next, move_task, drop_waiter, new_manager,
}

pub record KeepsBatches (m : Manager) : Type 0 where
  pub timed : m.pending_batch_timer ≡ false → m.pending_batch ≡ none
  pub kept : (b : ServingSseBatch) → m.pending_batch ≡ some b → should_apply_batch b ≡ true

merge_pending-kept :
    (o : Option ServingSseBatch) (i : ServingSseBatch)
    → ((b : ServingSseBatch) → o ≡ some b → should_apply_batch b ≡ true)
    → is_empty i ≡ false
    → should_apply_batch (merge_pending o i) ≡ true
merge_pending-kept none i h e = ground (arith, is_empty-should_apply_batch i)
merge_pending-kept (some t) i h e = should_apply-merge_batch t i (h t refl)

merge-KeepsBatches :
    (b : ServingSseBatch) (m : Manager)
    → KeepsBatches m
    → KeepsBatches (merge_into_pending_batch b m)
unfolding merge_into_pending_batch
merge-KeepsBatches b m h = elim (Bool-cases (is_empty b)) [
  | inl e ↦ rw e h
  | inr e ↦ rw e (record {
    timed = λ f. cc;
    kept = λ c f. rw (← some_eq f) (merge_pending-kept m.pending_batch b h.kept e);
  })
]
  where
    some_eq : {a c : ServingSseBatch} → some a ≡ some c → a ≡ c
    some_eq f = cc

-- The fields are as before, or there is no batch.
record Untouched (m n : Manager) : Type 0 where
  timer : n.pending_batch_timer ≡ m.pending_batch_timer
  batch : n.pending_batch ≡ m.pending_batch

Untouched-KeepsBatches : (m n : Manager) → Untouched m n → KeepsBatches m → KeepsBatches n
Untouched-KeepsBatches m n u h = record {
  timed = λ f. u.batch ∙ h.timed (sym u.timer ∙ f);
  kept = λ b f. h.kept b (sym u.batch ∙ f);
}

cleared-KeepsBatches : (n : Manager) → n.pending_batch ≡ none → KeepsBatches n
cleared-KeepsBatches n e = record { timed = λ f. e; kept = λ b f. absurd (cc_none (sym e ∙ f)) }
  where
    cc_none : {b : ServingSseBatch} → none ≡ some b → ⊥
    cc_none f = cc

start-Untouched : (m : Manager) → Untouched m (start m)
unfolding start launch
start-Untouched m = ground arith

disconnect-KeepsBatches : (m : Manager) → KeepsBatches (disconnect m)
disconnect-KeepsBatches m = cleared-KeepsBatches (disconnect m) (unfold disconnect in refl)

connect-KeepsBatches :
    (token : String) (m : Manager) → KeepsBatches m → KeepsBatches (connect token m)
unfolding connect clear_reconnect_timer
connect-KeepsBatches token m h = elim (Bool-cases (str_eq token "")) [
  | inl e ↦ rw e (disconnect-KeepsBatches m)
  | inr e ↦ elim (Bool-cases (same_text m.token token && is_some m.abort_controller)) [
    | inl f ↦ rw (e, f) h
    | inr f ↦
        rw (e, f)
          (Untouched-KeepsBatches
            (clear_reconnect_timer (record m { token = some token; stopped_by_client = false })) _
            (start-Untouched _) (record { timed = h.timed; kept = h.kept }))
  ]
]

resume-Untouched : (sequence : ℕ) (m : Manager) → Untouched m (resume sequence m)
unfolding resume launch
resume-Untouched sequence m = ground arith

on_failure-Untouched : (e : StreamError) (m : Manager) → Untouched m (on_failure e m)
unfolding on_failure
on_failure-Untouched insecure_transport m = record { timer = refl; batch = refl }
on_failure-Untouched (http_status s) m = ground arith
on_failure-Untouched stream_error m = record { timer = refl; batch = refl }

on_error-Untouched : (a : Bool) (e : StreamError) (m : Manager) → Untouched m (on_error a e m)
unfolding on_error
on_error-Untouched a e m = elim (Bool-cases (m.stopped_by_client || a)) [
  | inl h ↦ rw h (record { timer = refl; batch = refl })
  | inr h ↦ rw h (on_failure-Untouched e m)
]

Step-KeepsBatches :
    {platform : Platform} {m n : Manager} → Step platform m n → KeepsBatches m → KeepsBatches n
unfolding reconnect on_response settle flush_pending_batch
Step-KeepsBatches {m = m} (connects token) h = connect-KeepsBatches token m h
Step-KeepsBatches {m = m} disconnects h = disconnect-KeepsBatches m
Step-KeepsBatches {m = m} (reconnects delay e) h =
    Untouched-KeepsBatches (record m { reconnect_timer = fired }) _
      (start-Untouched (record m { reconnect_timer = fired }))
      (record { timed = h.timed; kept = h.kept })
Step-KeepsBatches {m = m} (resumes w e f) h =
    Untouched-KeepsBatches (drop_waiter w.sequence m) _
      (resume-Untouched w.sequence (drop_waiter w.sequence m))
      (record { timed = h.timed; kept = h.kept })
Step-KeepsBatches (responds t e f g) h = record { timed = h.timed; kept = h.kept }
Step-KeepsBatches {m = m} (reads t b e f g) h = merge-KeepsBatches b m h
Step-KeepsBatches {m = m} (rejects t x e f) h =
    Untouched-KeepsBatches (move_task t.id finishing m) _
      (on_error-Untouched t.aborted x (move_task t.id finishing m))
      (record { timed = h.timed; kept = h.kept })
Step-KeepsBatches (returns t e f) h = record { timed = h.timed; kept = h.kept }
Step-KeepsBatches (settles t e f) h = record { timed = h.timed; kept = h.kept }
Step-KeepsBatches (flushes fresh e) h = cleared-KeepsBatches _ refl

-- In every state that the manager can reach: if events are pending, the timer that will apply them
-- is set, and the pending batch is one that this timer will hand to the store and not drop.
pub Reach-KeepsBatches : (platform : Platform) (m : Manager) → Reach platform m → KeepsBatches m
Reach-KeepsBatches platform m begin = cleared-KeepsBatches new_manager refl
Reach-KeepsBatches platform m (next {m = l} r s) =
    Step-KeepsBatches s (Reach-KeepsBatches platform l r)
