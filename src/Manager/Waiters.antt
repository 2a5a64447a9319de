-- ===== src/Manager/Waiters.antt =====
-- The starts that wait for the stream before them, newest first.
use trading_monitoring_dashb.Base.{
  ℕ, ◌+◌, ◌≤◌, ◌<◌, Option, none, some, List, [], ◌∷◌, ◌==◌, ◌≡◌, refl, arith, Bool-cases, ◌⊎◌, inl,
  inr, All,
}
use trading_monitoring_dashb.Manager.{Waiter}
use trading_monitoring_dashb.Manager.Steps.{find_waiter, remove_waiter}

-- The starts that wait: each has a number below the one before it, and the one whose number is
-- current waits for the open stream, if one is open.
abbrev pub Descends : ℕ → List Waiter → Type 0
Descends n [] = Unit
Descends n (w ∷ ws) = (w.sequence < n) × Descends w.sequence ws

abbrev pub AwaitsOpen : Option ℕ → ℕ → Waiter → Type 0
AwaitsOpen stream sequence w = w.sequence ≡ sequence → (stream ≡ none) ⊎ (stream ≡ some w.task)

pub Descends-mono : (k n : ℕ) (ws : List Waiter) → k ≤ n → Descends k ws → Descends n ws
Descends-mono k n [] h d = tt
Descends-mono k n (w ∷ ws) h d = (omega arith, d.1)

Descends-below : (n : ℕ) (ws : List Waiter) → Descends n ws → All (λ w. w.sequence < n) ws
Descends-below n [] d = tt
Descends-below n (w ∷ ws) d =
    (d.0, Descends-below n ws (Descends-mono w.sequence n ws (omega arith) d.1))

pub remove_waiter-Descends :
    (q n : ℕ) (ws : List Waiter) → Descends n ws → Descends n (remove_waiter q ws)
unfolding remove_waiter
remove_waiter-Descends q n [] d = tt
remove_waiter-Descends q n (w ∷ ws) d = elim (Bool-cases (w.sequence == q)) [
  | inl e ↦ rw e (Descends-mono w.sequence n ws (omega arith) d.1)
  | inr e ↦ rw e (d.0, remove_waiter-Descends q w.sequence ws d.1)
]

-- Once the current start has been taken out, the others are older.
pub remove_current-Descends :
    (q : ℕ) (ws : List Waiter) → Descends (q + 1) ws → Descends q (remove_waiter q ws)
unfolding remove_waiter
remove_current-Descends q [] d = tt
remove_current-Descends q (w ∷ ws) d = elim (Bool-cases (w.sequence == q)) [
  | inl e ↦ rw e (Descends-mono w.sequence q ws (ground arith) d.1)
  | inr e ↦ rw e (ground arith, remove_waiter-Descends q w.sequence ws d.1)
]

pub remove_waiter-All {κ} :
    (P : Waiter → Type κ) (q : ℕ) (ws : List Waiter) → All P ws → All P (remove_waiter q ws)
unfolding remove_waiter
remove_waiter-All P q [] a = tt
remove_waiter-All P q (w ∷ ws) a = elim (Bool-cases (w.sequence == q)) [
  | inl e ↦ rw e a.1
  | inr e ↦ rw e (a.0, remove_waiter-All P q ws a.1)
]

-- A start with an older number waits for nothing that matters.
pub old-AwaitsOpen :
    (stream : Option ℕ) (q : ℕ) (ws : List Waiter) → Descends q ws → All (AwaitsOpen stream q) ws
old-AwaitsOpen stream q [] d = tt
old-AwaitsOpen stream q (w ∷ ws) d = (
  λ e. absurd (omega arith),
  old-AwaitsOpen stream q ws (Descends-mono w.sequence q ws (omega arith) d.1),
)

pub none-AwaitsOpen : (q : ℕ) (ws : List Waiter) → All (AwaitsOpen none q) ws
none-AwaitsOpen q [] = tt
none-AwaitsOpen q (w ∷ ws) = (λ e. inl refl, none-AwaitsOpen q ws)

-- The start that was found awaits the open stream.
pub found-AwaitsOpen :
    (stream : Option ℕ) (q p : ℕ) (ws : List Waiter) {w : Waiter}
    → All (AwaitsOpen stream p) ws
    → find_waiter q ws ≡ some w
    → AwaitsOpen stream p w
unfolding find_waiter
found-AwaitsOpen stream q p [] a f = cc
found-AwaitsOpen stream q p (v ∷ ws) a f = elim (Bool-cases (v.sequence == q)) [
  | inl e ↦ rw (some_eq (rw e at f)) at a.0
  | inr e ↦ found-AwaitsOpen stream q p ws a.1 (rw e at f)
]
  where
    some_eq : {a c : Waiter} → some a ≡ some c → a ≡ c
    some_eq f = cc
