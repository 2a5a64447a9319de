-- ===== src/Guard/Toasts.antt =====
-- How often a guarded route shows its toasts.
use Prim.Native.String.{String}
use text.Mathlib.TextPositions.{eq_refl}
use trading_monitoring_dashb.Base.{
  ℕ, ◌+◌, ◌≤◌, suc, not, ◌&&◌, Option, List, [], ◌∷◌, ◌++◌, ◌≡◌, arith, inl, inr, Bool-cases, ltb,
  if◌then◌else◌,
}
use trading_monitoring_dashb.Session.{AuthStore}
use trading_monitoring_dashb.Guard.{
  GuardedRouteProps, Toast, login, subscription, ToastRefs, Rendered, role_rank, is_active,
  is_admin, is_at, render_login, render_subscription, guarded_route,
}

module _ (g : GuardedRouteProps) (path : String) where
  -- The toasts of a sequence of renderings at one path.
  unfoldable pub all_toasts : List AuthStore → ToastRefs → List Toast
  all_toasts [] refs = []
  all_toasts (s ∷ ss) refs = let r = guarded_route g path s refs in r.toasts ++ all_toasts ss r.refs

  abbrev pub logins : List Toast → ℕ
  logins [] = 0
  logins (login ∷ ts) = suc (logins ts)
  logins (subscription ∷ ts) = logins ts

  abbrev pub subscriptions : List Toast → ℕ
  subscriptions [] = 0
  subscriptions (login ∷ ts) = subscriptions ts
  subscriptions (subscription ∷ ts) = suc (subscriptions ts)

  -- How many toasts of a kind the references still allow.
  abbrev allowed : Option String → ℕ
  allowed o = if is_at o path then 0 else 1

  -- What one rendering shows is what it takes off the allowance.
  record Spends (refs : ToastRefs) (r : Rendered) : Type 0 where
    login_spent : logins r.toasts + allowed r.refs.login_toast_path ≡ allowed refs.login_toast_path
    subscription_spent :
        subscriptions r.toasts + allowed r.refs.subscription_toast_path
        ≡ allowed refs.subscription_toast_path

  render_login-Spends : (refs : ToastRefs) → Spends refs (render_login path refs)
  unfolding render_login
  render_login-Spends refs = elim (Bool-cases (is_at refs.login_toast_path path)) [
    | inl e ↦ rw e (record { login_spent = omega arith; subscription_spent = omega arith })
    | inr e ↦ rw e (record {
      login_spent = rw (eq_refl path, e) (omega arith);
      subscription_spent = omega arith;
    })
  ]

  render_subscription-Spends : (refs : ToastRefs) → Spends refs (render_subscription path refs)
  unfolding render_subscription
  render_subscription-Spends refs = elim (Bool-cases (is_at refs.subscription_toast_path path)) [
    | inl e ↦ rw e (record { login_spent = omega arith; subscription_spent = omega arith })
    | inr e ↦ rw e (record {
      login_spent = omega arith;
      subscription_spent = rw (eq_refl path, e) (omega arith);
    })
  ]

  guarded_route-Spends :
      (s : AuthStore) (refs : ToastRefs) → Spends refs (guarded_route g path s refs)
  unfolding guarded_route
  guarded_route-Spends s refs = elim (Bool-cases s.resolved) [
    | inr e ↦ rw e (record { login_spent = omega arith; subscription_spent = omega arith })
    | inl e ↦ elim (Bool-cases (ltb (role_rank s.role) (role_rank g.required_role))) [
      | inl f ↦ rw (e, f) (render_login-Spends refs)
      | inr f ↦
          elim (Bool-cases (
            g.require_active_entitlement
            && not (is_active s.entitlement)
            && not (g.allow_admin_bypass_entitlement && is_admin s.role))) [
              | inl k ↦ rw (e, f, k) (render_subscription-Spends refs)
              | inr k ↦
                  rw (e, f, k)
                    (record { login_spent = omega arith; subscription_spent = omega arith })
            ]
    ]
  ]

  logins-append : (ts us : List Toast) → logins (ts ++ us) ≡ logins ts + logins us
  logins-append [] us = omega arith
  logins-append (login ∷ ts) us = omega (arith, logins-append ts us)
  logins-append (subscription ∷ ts) us = logins-append ts us

  subscriptions-append :
      (ts us : List Toast) → subscriptions (ts ++ us) ≡ subscriptions ts + subscriptions us
  subscriptions-append [] us = omega arith
  subscriptions-append (login ∷ ts) us = subscriptions-append ts us
  subscriptions-append (subscription ∷ ts) us = omega (arith, subscriptions-append ts us)

  all_toasts-allowed :
      (ss : List AuthStore) (refs : ToastRefs)
      → (logins (all_toasts ss refs) ≤ allowed refs.login_toast_path)
        × (subscriptions (all_toasts ss refs) ≤ allowed refs.subscription_toast_path)
  unfolding all_toasts
  all_toasts-allowed [] refs = (omega arith, omega arith)
  all_toasts-allowed (s ∷ ss) refs =
      let r = guarded_route g path s refs in
      let spent = guarded_route-Spends s refs in
      let (l, k) = all_toasts-allowed ss r.refs in
      (
        omega (arith, l, spent.login_spent, logins-append r.toasts (all_toasts ss r.refs)),
        omega (
          arith,
          k,
          spent.subscription_spent,
          subscriptions-append r.toasts (all_toasts ss r.refs),
        ),
      )

  allowed-one : (o : Option String) → allowed o ≤ 1
  allowed-one o = ground arith

  -- While the path stays the same, a guarded route shows at most one toast of each kind, however often
  -- it is rendered and however the session changes.
  pub all_toasts_once :
      (ss : List AuthStore) (refs : ToastRefs)
      → (logins (all_toasts ss refs) ≤ 1) × (subscriptions (all_toasts ss refs) ≤ 1)
  all_toasts_once ss refs =
      let (l, k) = all_toasts-allowed ss refs in
      (
        omega (arith, l, allowed-one refs.login_toast_path),
        omega (arith, k, allowed-one refs.subscription_toast_path),
      )
