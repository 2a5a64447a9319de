-- ===== src/Manager/Streams.antt =====
-- The unsettled tasks of the manager, with the promise and the controller that name them.
use trading_monitoring_dashb.Base.{
  ℕ, true, Option, none, some, List, [], ◌∷◌, ◌==◌, ◌≡◌, refl, arith, Bool-cases, ◌⊎◌, inl, inr,
  if◌then◌else◌,
}
use trading_monitoring_dashb.Manager.{Task, Phase, same_id, abort_task, abort_current, remove_task}
use trading_monitoring_dashb.Manager.Steps.{find_task, set_phase}

-- The fields that say which stream is open: its task, its promise and its controller.
pub data Open : List Task → Option ℕ → Option ℕ → Type 0 where
  none_open : Open [] none none
  one_open : (t : Task) → Open (t ∷ []) (some t.id) (some t.id)
  one_closing : (t : Task) → t.aborted ≡ true → Open (t ∷ []) (some t.id) none

pub same_refl : (n : ℕ) → (n == n) ≡ true
same_refl n = ground arith

abort_task_self : (t : Task) → abort_task t.id (t ∷ []) ≡ record t { aborted = true } ∷ []
unfolding abort_task
abort_task_self t = rw (same_refl t.id)

-- Aborting the current controller leaves one task where there was one.
pub abort-Open :
    {tasks : List Task} {stream controller : Option ℕ}
    → Open tasks stream controller
    → Open (abort_current controller tasks) stream none
      × Open (abort_current controller tasks) stream controller
abort-Open none_open = (none_open, none_open)
abort-Open (one_open t) =
    rw (abort_task_self t)
      (one_closing (record t { aborted = true }) refl, one_open (record t { aborted = true }))
abort-Open (one_closing t e) = (one_closing t e, one_closing t e)

pub Open-nil :
    {tasks : List Task} {stream controller : Option ℕ}
    → Open tasks stream controller
    → stream ≡ none
    → abort_current controller tasks ≡ []
unfolding abort_task
Open-nil none_open e = refl
Open-nil (one_open t) e = cc
Open-nil (one_closing t h) e = cc

pub set_phase-Open :
    (id : ℕ) (phase : Phase) {tasks : List Task} {stream controller : Option ℕ}
    → Open tasks stream controller
    → Open (set_phase id phase tasks) stream controller
unfolding set_phase
set_phase-Open id phase none_open = none_open
set_phase-Open id phase (one_open t) = elim (Bool-cases (t.id == id)) [
  | inl e ↦ rw e (one_open (record t { phase = phase }))
  | inr e ↦ rw e (one_open t)
]
set_phase-Open id phase (one_closing t h) = elim (Bool-cases (t.id == id)) [
  | inl e ↦ rw e (one_closing (record t { phase = phase }) h)
  | inr e ↦ rw e (one_closing t h)
]

unfoldable pub clear_id : Option ℕ → ℕ → Option ℕ
clear_id o id = if same_id o id then none else o

-- When the open stream settles, none is open.
pub settle-Open :
    (id : ℕ) {tasks : List Task} {stream controller : Option ℕ} {t : Task}
    → Open tasks stream controller
    → find_task id tasks ≡ some t
    → Open (remove_task id tasks) (clear_id stream id) (clear_id controller id)
unfolding find_task remove_task clear_id
settle-Open id none_open f = cc
settle-Open id (one_open u) f = elim (Bool-cases (u.id == id)) [
  | inl e ↦ rw e none_open
  | inr e ↦ ground arith
]
settle-Open id (one_closing u h) f = elim (Bool-cases (u.id == id)) [
  | inl e ↦ rw e none_open
  | inr e ↦ ground arith
]

pub Open-settled :
    (id : ℕ) {tasks : List Task} {stream controller : Option ℕ} {t : Task}
    → Open tasks stream controller
    → find_task id tasks ≡ some t
    → (if same_id stream id then none else stream) ≡ none
unfolding find_task
Open-settled id none_open f = refl
Open-settled id (one_open u) f = ground arith
Open-settled id (one_closing u h) f = ground arith

-- A task that is not found is not the open one.
pub gone-none :
    (id : ℕ) {tasks : List Task} {stream controller : Option ℕ}
    → Open tasks stream controller
    → find_task id tasks ≡ none
    → (stream ≡ none) ⊎ (stream ≡ some id)
    → stream ≡ none
unfolding find_task
gone-none id none_open f h = refl
gone-none id (one_open u) f h = ground arith
gone-none id (one_closing u k) f h = ground arith

pub Open-empty :
    {tasks : List Task} {stream controller : Option ℕ}
    → Open tasks stream controller
    → stream ≡ none
    → tasks ≡ []
Open-empty none_open e = refl
Open-empty (one_open t) e = cc
Open-empty (one_closing t h) e = cc
