-- ===== src/Manager/Quiet.antt =====
-- After `disconnect` the manager is quiet: nothing reaches the store until `connect` is called.
use Prim.Native.String.{String}
use text.Mathlib.Text.{◌==◌ as str_eq}
use mathlib.Core.Path.{subst}
use trading_monitoring_dashb.Base.{
  ℕ, Bool, true, false, ◌&&◌, Option, none, some, List, [], ◌∷◌, ◌==◌, ◌≡◌, refl, sym, ap, ◌∙◌,
  arith, Bool-cases, ◌⊎◌, inl, inr, All,
}
use trading_monitoring_dashb.Batch.{ServingSseBatch}
use trading_monitoring_dashb.Events.{idle}
use trading_monitoring_dashb.Store.{set_connection_status}
use trading_monitoring_dashb.Stream.{Platform}
use trading_monitoring_dashb.Manager.{
  Manager, Timer, pending, Task, StreamError, insecure_transport, http_status, stream_error,
  on_failure, fired, finishing, is_some, same_text, disconnect, connect, start, launch,
  clear_reconnect_timer, resume, reconnect, on_response, on_error, settle, merge_into_pending_batch,
  flush_pending_batch,
}
use trading_monitoring_dashb.Manager.Steps.{
  is_call, Step, connects, disconnects, reconnects, resumes, responds, reads, rejects, returns,
  settles, flushes, Reach, begin, next, move_task, drop_waiter, find_task,
}
use trading_monitoring_dashb.Manager.OneStream.{AtMostOneStream, Reach-AtMostOneStream}

abbrev pub is_pending : Timer → Bool
is_pending (pending d) = true
is_pending _ = false

-- No token, no current controller, no attempt that is due, no pending events, and the status "idle".
pub record IsQuiet (m : Manager) : Type 0 where
  pub no_token : m.token ≡ none
  pub no_controller : m.abort_controller ≡ none
  pub no_attempt : is_pending m.reconnect_timer ≡ false
  pub no_batch : m.pending_batch ≡ none
  pub no_flush : m.pending_batch_timer ≡ false
  pub status : m.store.connection_status ≡ idle
  pub reason : m.store.error_reason ≡ none

abbrev QuietIfStopped : Manager → Type 0
QuietIfStopped m = m.stopped_by_client ≡ true → IsQuiet m

found_aborted :
    (id : ℕ) (tasks : List Task) (controller : Option ℕ) {t : Task}
    → All (λ t. (t.aborted ≡ true) ⊎ (controller ≡ some t.id)) tasks
    → controller ≡ none
    → find_task id tasks ≡ some t
    → t.aborted ≡ true
unfolding find_task
found_aborted id [] controller a e f = cc
found_aborted id (u ∷ ts) controller a e f = elim (Bool-cases (u.id == id)) [
  | inl h ↦ ground arith
  | inr h ↦ found_aborted id ts controller a.1 e (rw h at f)
]

-- Of a stopped manager every stream is aborted.
stopped_aborted :
    (m : Manager) {t : Task}
    → AtMostOneStream m
    → IsQuiet m
    → find_task t.id m.tasks ≡ some t
    → t.aborted ≡ true
stopped_aborted m {t} o q f =
    found_aborted t.id m.tasks m.abort_controller o.others_aborted q.no_controller f

pub disconnect-IsQuiet : (m : Manager) → IsQuiet (disconnect m)
unfolding disconnect set_connection_status
disconnect-IsQuiet m = record {
  no_token = refl;
  no_controller = refl;
  no_attempt = refl;
  no_batch = refl;
  no_flush = refl;
  status = refl;
  reason = refl;
}

start-stopped : (m : Manager) → (start m).stopped_by_client ≡ m.stopped_by_client
unfolding start launch
start-stopped m = ground arith

connect-QuietIfStopped :
    (token : String) (m : Manager) → QuietIfStopped m → QuietIfStopped (connect token m)
unfolding connect clear_reconnect_timer
connect-QuietIfStopped token m h = elim (Bool-cases (str_eq token "")) [
  | inl e ↦ rw e (λ s. disconnect-IsQuiet m)
  | inr e ↦ elim (Bool-cases (same_text m.token token && is_some m.abort_controller)) [
    | inl f ↦ rw (e, f) h
    | inr f ↦
        rw (e, f)
          (λ s. absurd (
            running (
              sym (
                start-stopped (
                  clear_reconnect_timer
                    (record m { token = some token; stopped_by_client = false })))
              ∙ s)))
  ]
]
  where
    running : false ≡ true → ⊥
    running e = cc

resume_stopped : (q : ℕ) (m : Manager) → m.stopped_by_client ≡ true → resume q m ≡ m
unfolding resume
resume_stopped q m s = ground arith

resume-stopped : (q : ℕ) (m : Manager) → (resume q m).stopped_by_client ≡ m.stopped_by_client
unfolding resume launch
resume-stopped q m = ground arith

on_error_stopped :
    (a : Bool) (e : StreamError) (m : Manager) → m.stopped_by_client ≡ true → on_error a e m ≡ m
unfolding on_error
on_error_stopped a e m s = ground arith

-- A step that is no call of `connect` keeps the manager quiet and stopped, and the store as it is.
pub record IsFrozen (m n : Manager) : Type 0 where
  pub quiet : IsQuiet n
  pub stopped : n.stopped_by_client ≡ true
  pub same_store : n.store ≡ m.store

disconnect-IsFrozen : (m : Manager) → IsQuiet m → IsFrozen m (disconnect m)
disconnect-IsFrozen m q = record {
  quiet = disconnect-IsQuiet m;
  stopped = unfold disconnect in refl;
  same_store = unfold disconnect set_connection_status in ground arith;
}

-- The fields of quietness are as before.
kept-IsFrozen :
    (m n : Manager)
    → IsQuiet m
    → m.stopped_by_client ≡ true
    → n.token ≡ m.token
    → n.abort_controller ≡ none
    → n.reconnect_timer ≡ m.reconnect_timer
    → n.pending_batch ≡ m.pending_batch
    → n.pending_batch_timer ≡ m.pending_batch_timer
    → n.store ≡ m.store
    → n.stopped_by_client ≡ m.stopped_by_client
    → IsFrozen m n
kept-IsFrozen m n q s a b c d e f g = record {
  quiet = record {
    no_token = a ∙ q.no_token;
    no_controller = b;
    no_attempt = ap is_pending c ∙ q.no_attempt;
    no_batch = d ∙ q.no_batch;
    no_flush = e ∙ q.no_flush;
    status = ap (λ x. x.connection_status) f ∙ q.status;
    reason = ap (λ x. x.error_reason) f ∙ q.reason;
  };
  stopped = g ∙ s;
  same_store = f;
}

aborted_clash : (t : Task) → t.aborted ≡ true → t.aborted ≡ false → ⊥
aborted_clash t e f = cc

not_pending : (t : Timer) (delay : ℕ) → is_pending t ≡ false → t ≡ pending delay → ⊥
not_pending t delay e f = cc (ap is_pending f)

settle-IsFrozen :
    (m : Manager) (t : Task) → IsQuiet m → m.stopped_by_client ≡ true → IsFrozen m (settle t.id m)
unfolding settle
settle-IsFrozen m t q s = kept-IsFrozen m _ q s refl (ground arith) refl refl refl refl refl

merge-stopped :
    (b : ServingSseBatch) (m : Manager)
    → (merge_into_pending_batch b m).stopped_by_client ≡ m.stopped_by_client
unfolding merge_into_pending_batch
merge-stopped b m = ground arith

on_error-stopped :
    (a : Bool) (e : StreamError) (m : Manager)
    → (on_error a e m).stopped_by_client ≡ m.stopped_by_client
unfolding on_error on_failure
on_error-stopped a insecure_transport m = ground arith
on_error-stopped a (http_status s) m = ground arith
on_error-stopped a stream_error m = ground arith

flag_clash : true ≡ false → ⊥
flag_clash e = cc

-- Once the manager is stopped, what happens but the calls leaves it so.
pub event-IsFrozen :
    {platform : Platform} {m n : Manager} (st : Step platform m n)
    → is_call st ≡ false
    → AtMostOneStream m
    → IsQuiet m
    → m.stopped_by_client ≡ true
    → IsFrozen m n
event-IsFrozen (connects token) c o q s = absurd (flag_clash c)
event-IsFrozen {m = m} disconnects c o q s = disconnect-IsFrozen m q
event-IsFrozen {m = m} (reconnects delay e) c o q s =
    absurd (not_pending m.reconnect_timer delay q.no_attempt e)
event-IsFrozen {m = m} (resumes w e f) c o q s =
    (rw (resume_stopped w.sequence (drop_waiter w.sequence m) s) (
      kept-IsFrozen m (drop_waiter w.sequence m) q s refl q.no_controller refl refl refl refl refl))
event-IsFrozen {m = m} (responds t e f g) c o q s =
    absurd (aborted_clash t (stopped_aborted m o q e) g)
event-IsFrozen {m = m} (reads t b e f g) c o q s =
    absurd (aborted_clash t (stopped_aborted m o q e) g)
event-IsFrozen {m = m} (rejects t x e f) c o q s =
    (rw (on_error_stopped t.aborted x (move_task t.id finishing m) s) (
      kept-IsFrozen m (move_task t.id finishing m) q s refl q.no_controller refl refl refl refl
        refl))
event-IsFrozen {m = m} (returns t e f) c o q s =
    (kept-IsFrozen m (move_task t.id finishing m) q s refl q.no_controller refl refl refl refl refl)
event-IsFrozen {m = m} (settles t e f) c o q s = (settle-IsFrozen m t q s)
event-IsFrozen {m = m} (flushes fresh e) c o q s = absurd (timer_clash (sym q.no_flush ∙ e))
  where
    timer_clash : false ≡ true → ⊥
    timer_clash e = cc

Step-IsFrozen :
    {platform : Platform} {m n : Manager}
    → Step platform m n
    → AtMostOneStream m
    → IsQuiet m
    → m.stopped_by_client ≡ true
    → ((token : String) × (n ≡ connect token m)) ⊎ IsFrozen m n
Step-IsFrozen (connects token) o q s = inl (token, refl)
Step-IsFrozen {m = m} disconnects o q s = inr (disconnect-IsFrozen m q)
Step-IsFrozen {platform = p} (reconnects delay e) o q s =
    inr (event-IsFrozen {platform = p} (reconnects delay e) refl o q s)
Step-IsFrozen {platform = p} (resumes w e f) o q s =
    inr (event-IsFrozen {platform = p} (resumes w e f) refl o q s)
Step-IsFrozen {platform = p} (responds t e f g) o q s =
    inr (event-IsFrozen {platform = p} (responds t e f g) refl o q s)
Step-IsFrozen {platform = p} (reads t b e f g) o q s =
    inr (event-IsFrozen {platform = p} (reads t b e f g) refl o q s)
Step-IsFrozen {platform = p} (rejects t x e f) o q s =
    inr (event-IsFrozen {platform = p} (rejects t x e f) refl o q s)
Step-IsFrozen {platform = p} (returns t e f) o q s =
    inr (event-IsFrozen {platform = p} (returns t e f) refl o q s)
Step-IsFrozen {platform = p} (settles t e f) o q s =
    inr (event-IsFrozen {platform = p} (settles t e f) refl o q s)
Step-IsFrozen {platform = p} (flushes fresh e) o q s =
    inr (event-IsFrozen {platform = p} (flushes fresh e) refl o q s)

-- A step that stops the manager leaves it quiet.
Step-stops :
    {platform : Platform} {m n : Manager}
    → Step platform m n
    → m.stopped_by_client ≡ false
    → n.stopped_by_client ≡ true
    → IsQuiet n
unfolding reconnect on_response settle flush_pending_batch
Step-stops {m = m} (connects token) r s =
    connect-QuietIfStopped token m (λ e. absurd (clash (sym r ∙ e))) s
  where
    clash : false ≡ true → ⊥
    clash e = cc
Step-stops {m = m} disconnects r s = disconnect-IsQuiet m
Step-stops {m = m} (reconnects delay e) r s =
    cc (start-stopped (record m { reconnect_timer = fired }))
Step-stops {m = m} (resumes w e f) r s = cc (resume-stopped w.sequence (drop_waiter w.sequence m))
Step-stops (responds t e f g) r s = cc
Step-stops {m = m} (reads t b e f g) r s = cc (merge-stopped b m)
Step-stops {m = m} (rejects t x e f) r s =
    cc (on_error-stopped t.aborted x (move_task t.id finishing m))
Step-stops (returns t e f) r s = cc
Step-stops (settles t e f) r s = cc
Step-stops (flushes fresh e) r s = cc

-- In every state that the manager can reach: if it is stopped, it has no token, no current
-- controller, no attempt that is due and no pending events, and its status is "idle", with no
-- reason.
pub Reach-IsQuiet :
    (platform : Platform) (m : Manager) → Reach platform m → m.stopped_by_client ≡ true → IsQuiet m
Reach-IsQuiet platform m begin s = cc
Reach-IsQuiet platform m (next {m = l} r st) s = elim (Bool-cases l.stopped_by_client) [
  | inl e ↦
      let q = Reach-IsQuiet platform l r e in
      after_stopped q (Step-IsFrozen st (Reach-AtMostOneStream platform l r) q e)
  | inr e ↦ Step-stops st e s
]
  where
    after_stopped :
        IsQuiet l → ((token : String) × (m ≡ connect token l)) ⊎ IsFrozen l m → IsQuiet m
    after_stopped q (inl (token, e)) =
        subst IsQuiet (sym e)
          (connect-QuietIfStopped token l (λ k. q) (sym (ap (λ x. x.stopped_by_client) e) ∙ s))
    after_stopped q (inr f) = f.quiet

-- After `disconnect`, in whatever state the manager has got into: each further step is a call of
-- `connect`, or it leaves the manager stopped and quiet and the store exactly as it was, whichever
-- late response, chunk, failure or timer it may be.
pub stopped-IsFrozen :
    (platform : Platform) {m n : Manager}
    → Reach platform m
    → m.stopped_by_client ≡ true
    → Step platform m n
    → ((token : String) × (n ≡ connect token m)) ⊎ IsFrozen m n
stopped-IsFrozen platform {m} r s st =
    Step-IsFrozen st (Reach-AtMostOneStream platform m r) (Reach-IsQuiet platform m r s) s
