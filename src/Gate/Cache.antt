-- ===== src/Gate/Cache.antt =====
-- The cache of the session's bounds is transparent: the gate decides as one that computes the
-- bounds anew for each event.
use Prim.Native.String.{String}
use text.Mathlib.TextEquality.{eq_iff}
use mathlib.Core.Path.{subst₂}
use trading_monitoring_dashb.Base.{
  Bool, true, false, Option, none, some, if◌then◌else◌, ◌≡◌, refl, arith, Option-cases, Bool-cases,
  inl, inr, ap, sym,
}
use trading_monitoring_dashb.Base.Int.{ℤ}
use trading_monitoring_dashb.Js.{Js, is_object}
use trading_monitoring_dashb.Events.{
  ServingSseEventName, index_contrib_ranking, index_contrib_sector, heartbeat,
}
use trading_monitoring_dashb.Gate.{
  Calendar, Bounds, SessionCache, in_bounds, session_bounds, cached, resolve_session_bounds,
  event_time, check_time, should_apply_dashboard_sse_event,
}

-- The three kinds of event that carry no time of the session.
abbrev pub exempt : ServingSseEventName → Bool
exempt heartbeat = true
exempt index_contrib_ranking = true
exempt index_contrib_sector = true
exempt _ = false

module _ (calendar : Calendar) where
  -- What the cache holds are the bounds of its date.
  abbrev pub IsFaithful : SessionCache → Type 0
  IsFaithful c =
      (date : String) (b : Bounds)
      → c.date_part ≡ some date
      → c.bounds ≡ some b
      → b ≡ session_bounds calendar date

  -- The decision without a cache: `none` where the formatter throws.
  abbrev pub session_accepts_at : Option ℤ → Option Bool
  session_accepts_at none = some false
  session_accepts_at (some ts) = elim (calendar.format ts) [
    | none ↦ none
    | some date ↦ some (in_bounds (session_bounds calendar date) ts)
  ]

  unfoldable pub session_accepts : ServingSseEventName → Js → Option Bool
  session_accepts event p =
      if exempt event
      then some true
      else if is_object p
      then session_accepts_at (event_time calendar event p)
      else some false

  -- The same outcome, and a faithful cache behind it.
  abbrev pub Agrees : Option (Bool × SessionCache) → Option Bool → Type 0
  Agrees none none = Unit
  Agrees none (some b) = ⊥
  Agrees (some (a, c)) none = ⊥
  Agrees (some (a, c)) (some b) = (a ≡ b) × IsFaithful c

  cached_hit :
      (c : SessionCache) (date : String) (b : Bounds)
      → cached calendar c date ≡ some b
      → (c.date_part ≡ some date) × (c.bounds ≡ some b)
  unfolding cached
  cached_hit c date b h = elim (Option-cases c.date_part) [
    | inl e ↦ ground arith
    | inr (d, e) ↦ ground (arith, eq_iff d date)
  ]

  store_fresh :
      (date : String)
      → IsFaithful (record { date_part = some date; bounds = some (session_bounds calendar date) })
  store_fresh date d b e f = cc

  module _ (c : SessionCache) (ts : ℤ) where
    abbrev fresh : String → SessionCache
    fresh date = record { date_part = some date; bounds = some (session_bounds calendar date) }

    check_throws : calendar.format ts ≡ none → check_time calendar c (some ts) ≡ none
    unfolding resolve_session_bounds
    check_throws e = ground arith

    check_miss :
        (date : String)
        → calendar.format ts ≡ some date
        → cached calendar c date ≡ none
        → check_time calendar c (some ts)
          ≡ some (in_bounds (session_bounds calendar date) ts, fresh date)
    unfolding resolve_session_bounds
    check_miss date e m = ground arith

    check_hit :
        (date : String) (b : Bounds)
        → calendar.format ts ≡ some date
        → cached calendar c date ≡ some b
        → check_time calendar c (some ts) ≡ some (in_bounds b ts, c)
    unfolding resolve_session_bounds
    check_hit date b e m = ground arith

    accepts_throws : calendar.format ts ≡ none → session_accepts_at (some ts) ≡ none
    accepts_throws e = ground arith

    accepts_date :
        (date : String)
        → calendar.format ts ≡ some date
        → session_accepts_at (some ts) ≡ some (in_bounds (session_bounds calendar date) ts)
    accepts_date date e = ground arith

  check_time-Agrees :
      (c : SessionCache) (t : Option ℤ)
      → IsFaithful c
      → Agrees (check_time calendar c t) (session_accepts_at t)
  check_time-Agrees c none h = (refl, h)
  check_time-Agrees c (some ts) h = elim (Option-cases (calendar.format ts)) [
    | inl e ↦ subst₂ Agrees (sym (check_throws c ts e)) (sym (accepts_throws c ts e)) tt
    | inr (date, e) ↦ elim (Option-cases (cached calendar c date)) [
      | inl m ↦
          subst₂ Agrees (sym (check_miss c ts date e m)) (sym (accepts_date c ts date e))
            (refl, store_fresh date)
      | inr (b, m) ↦
          let (k, l) = cached_hit c date b m in
          subst₂ Agrees (sym (check_hit c ts date b e m)) (sym (accepts_date c ts date e))
            (ap (λ x. in_bounds x ts) (h date b k l), h)
    ]
  ]

  -- For every event and payload, and a cache that holds the bounds of its date: the gate applies the
  -- event exactly when its kind is exempt, or the payload is an object whose time lies in the
  -- session of its day, computed without the cache; it throws exactly when the formatter does for
  -- that time; and the cache it leaves holds the bounds of its date.
  pub should_apply-Agrees :
      (c : SessionCache) (event : ServingSseEventName) (p : Js)
      → IsFaithful c
      → Agrees (should_apply_dashboard_sse_event calendar c event p) (session_accepts event p)
  unfolding should_apply_dashboard_sse_event session_accepts
  should_apply-Agrees c heartbeat p h = (refl, h)
  should_apply-Agrees c index_contrib_ranking p h = (refl, h)
  should_apply-Agrees c index_contrib_sector p h = (refl, h)
  should_apply-Agrees c event p h = elim (Bool-cases (is_object p)) [
    | inl e ↦ rw e (check_time-Agrees c (event_time calendar event p) h)
    | inr e ↦ rw e (refl, h)
  ]
