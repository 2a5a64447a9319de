-- ===== src/Manager/Token.antt =====
-- The token and the flag `stoppedByClient` change by the calls of the public methods alone.
use Prim.Native.String.{String}
use text.Mathlib.Text.{◌==◌ as str_eq}
use text.Mathlib.TextEquality.{eq_iff}
use trading_monitoring_dashb.Base.{
  ℕ, Bool, true, false, ◌&&◌, Option, none, some, ◌≡◌, refl, sym, ap, ◌∙◌, ◌⊎◌, arith, inl, inr,
  Bool-cases,
}
use trading_monitoring_dashb.Batch.{ServingSseBatch}
use trading_monitoring_dashb.Stream.{Platform}
use trading_monitoring_dashb.Manager.{
  Manager, StreamError, insecure_transport, http_status, stream_error, fired, finishing, is_some,
  same_text, connect, start, launch, resume, reconnect, clear_reconnect_timer, on_response,
  on_error, on_failure, settle, merge_into_pending_batch, flush_pending_batch,
}
use trading_monitoring_dashb.Manager.Steps.{
  Step, connects, disconnects, reconnects, resumes, responds, reads, rejects, returns, settles,
  flushes, is_call, drop_waiter, move_task,
}
use trading_monitoring_dashb.Manager.Quiet.{IsQuiet}

pub record SameClient (m n : Manager) : Type 0 where
  pub token : n.token ≡ m.token
  pub stopped : n.stopped_by_client ≡ m.stopped_by_client

start-SameClient : (m : Manager) → SameClient m (start m)
unfolding start launch
start-SameClient m = record { token = ground arith; stopped = ground arith }

resume-SameClient : (q : ℕ) (m : Manager) → SameClient m (resume q m)
unfolding resume launch
resume-SameClient q m = record { token = ground arith; stopped = ground arith }

pub merge-SameClient :
    (b : ServingSseBatch) (m : Manager) → SameClient m (merge_into_pending_batch b m)
unfolding merge_into_pending_batch
merge-SameClient b m = record { token = ground arith; stopped = ground arith }

pub on_error-SameClient : (a : Bool) (e : StreamError) (m : Manager) → SameClient m (on_error a e m)
unfolding on_error on_failure
on_error-SameClient a insecure_transport m = record { token = ground arith; stopped = ground arith }
on_error-SameClient a (http_status s) m = record { token = ground arith; stopped = ground arith }
on_error-SameClient a stream_error m = record { token = ground arith; stopped = ground arith }

pub event-SameClient :
    {platform : Platform} {m n : Manager} (st : Step platform m n)
    → is_call st ≡ false
    → SameClient m n
unfolding reconnect on_response settle flush_pending_batch
event-SameClient (connects token) c = absurd (clash c)
  where
    clash : true ≡ false → ⊥
    clash e = cc
event-SameClient disconnects c = absurd (clash c)
  where
    clash : true ≡ false → ⊥
    clash e = cc
event-SameClient {m = m} (reconnects delay e) c =
    let h = start-SameClient (record m { reconnect_timer = fired }) in
    record { token = h.token; stopped = h.stopped }
event-SameClient {m = m} (resumes w e f) c =
    let h = resume-SameClient w.sequence (drop_waiter w.sequence m) in
    record { token = h.token; stopped = h.stopped }
event-SameClient (responds t e f g) c = record { token = refl; stopped = refl }
event-SameClient {m = m} (reads t b e f g) c = merge-SameClient b m
event-SameClient {m = m} (rejects t x e f) c =
    let h = on_error-SameClient t.aborted x (move_task t.id finishing m) in
    record { token = h.token; stopped = h.stopped }
event-SameClient (returns t e f) c = record { token = refl; stopped = refl }
event-SameClient (settles t e f) c = record { token = refl; stopped = refl }
event-SameClient (flushes fresh e) c = record { token = refl; stopped = refl }

pub same_text_eq : (o : Option String) (t : String) → same_text o t ≡ true → o ≡ some t
same_text_eq none t e = cc
same_text_eq (some s) t e = ap some ((eq_iff s t).0 e)

pub and_parts : (a b : Bool) → (a && b) ≡ true → (a ≡ true) × (b ≡ true)
and_parts true true e = (refl, refl)
and_parts true false e = (refl, e)
and_parts false b e = cc

-- A call of `connect` with a token that is not empty sets it and lets the manager run.
pub connect_runs :
    (t : String) (m : Manager)
    → str_eq t "" ≡ false
    → (m.stopped_by_client ≡ true → IsQuiet m)
    → ((connect t m).token ≡ some t) × ((connect t m).stopped_by_client ≡ false)
unfolding connect clear_reconnect_timer
connect_runs t m n q = elim (Bool-cases (same_text m.token t && is_some m.abort_controller)) [
  | inl e ↦
      let (same, current) = and_parts (same_text m.token t) (is_some m.abort_controller) e in
      rw (n, e) (same_text_eq m.token t same, running current (Bool-cases m.stopped_by_client))
  | inr e ↦
      let h =
        start-SameClient
          (clear_reconnect_timer (record m { token = some t; stopped_by_client = false })) in
      rw (n, e) (h.token, h.stopped)
]
  where
    clash : false ≡ true → ⊥
    clash e = cc

    running :
        is_some m.abort_controller ≡ true
        → (m.stopped_by_client ≡ true) ⊎ (m.stopped_by_client ≡ false)
        → m.stopped_by_client ≡ false
    running current (inl s) = absurd (clash (ap is_some (sym (q s).no_controller) ∙ current))
    running current (inr s) = s
