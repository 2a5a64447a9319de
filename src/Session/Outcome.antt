-- ===== src/Session/Outcome.antt =====
-- How the effect of `SessionBootstrap` ends.
use Prim.Native.String.{String}
use text.Mathlib.Text.{◌==◌ as str_eq}
use trading_monitoring_dashb.Base.{
  true, false, ◌||◌, Option, none, some, ◌≡◌, refl, arith, ◌⊎◌, inl, inr, Bool-cases, if◌then◌else◌,
}
use trading_monitoring_dashb.Session.{
  UserRole, visitor, EntitlementState, inactive, AuthStore, TokenPlatform, BillingStatusLike, Reply,
  replied, aborted, rejected, Stage, refreshing, billing, settled, Bootstrap, set_resolved,
  set_session, clear_session, is_visitor, has_active_session, payload_role, decode_access_token,
  finish, complete, fail, on_refresh, on_billing, await_billing,
}
use trading_monitoring_dashb.Session.Token.{role_of_token}

-- The store without its flag `resolved`.
pub record SameSession (s t : AuthStore) : Type 0 where
  pub token : t.token ≡ s.token
  pub role : t.role ≡ s.role
  pub entitlement : t.entitlement ≡ s.entitlement

pub record IsSignedOut (t : AuthStore) : Type 0 where
  pub token : t.token ≡ none
  pub role : t.role ≡ visitor
  pub entitlement : t.entitlement ≡ inactive

-- Resolved: with the session as it was, or with none if none was active, or with an active one.
pub record Ended (s t : AuthStore) : Type 0 where
  pub resolved : t.resolved ≡ true
  pub session :
      SameSession s t
      ⊎ (IsSignedOut t × (has_active_session s ≡ false))
      ⊎ (has_active_session t ≡ true)

abbrev pub live : Stage → AuthStore → Bootstrap
live stage s = record { stage = stage; cancelled = false; store = s }

finish_settles : (b : Bootstrap) → (finish b).stage ≡ settled
unfolding finish
finish_settles b = ground arith

fail_settles : (b : Bootstrap) → (fail b).stage ≡ settled
unfolding fail
fail_settles b = finish_settles (
    if b.cancelled || has_active_session b.store
    then b
    else record b { store = clear_session b.store })

finish-Ended : (stage : Stage) (s : AuthStore) → Ended s (finish (live stage s)).store
unfolding finish set_resolved
finish-Ended stage s = record {
  resolved = refl;
  session = inl (record { token = refl; role = refl; entitlement = refl });
}

fail-Ended : (stage : Stage) (s : AuthStore) → Ended s (fail (live stage s)).store
unfolding fail finish set_resolved clear_session
fail-Ended stage s = elim (Bool-cases (has_active_session s)) [
  | inl e ↦ rw e (record {
    resolved = refl;
    session = inl (record { token = refl; role = refl; entitlement = refl });
  })
  | inr e ↦ rw e (record {
    resolved = refl;
    session = inr (inl (record { token = refl; role = refl; entitlement = refl }, e));
  })
]

complete-Ended :
    (token : String) (role : UserRole) (entitlement : EntitlementState) (stage : Stage)
    (s : AuthStore)
    → (str_eq token "" ≡ false) × (is_visitor role ≡ false)
    → Ended s (complete token role entitlement (live stage s)).store
unfolding complete finish set_resolved set_session
complete-Ended token role entitlement stage s h = record {
  resolved = refl;
  session = inr (inr (rw (h.0, h.1) refl));
}

on_billing-Ended :
    (token : String) (role : UserRole) (r : Reply BillingStatusLike) (stage : Stage) (s : AuthStore)
    → (str_eq token "" ≡ false) × (is_visitor role ≡ false)
    → ((on_billing token role r (live stage s)).stage ≡ settled)
      × Ended s (on_billing token role r (live stage s)).store
unfolding on_billing
on_billing-Ended token role (replied status) stage s h =
    (unfold complete finish in refl, complete-Ended token role _ stage s h)
on_billing-Ended token role aborted stage s h = (unfold finish in refl, finish-Ended stage s)
on_billing-Ended token role rejected stage s h =
    (unfold complete finish in refl, complete-Ended token role _ stage s h)

-- At its end; or at its second call, from which each reply leads to the end.
abbrev pub Progress : AuthStore → Reply BillingStatusLike → AuthStore → Bootstrap → Type 0
Progress s r s' b =
    ((b.stage ≡ settled) × Ended s b.store)
    ⊎ ((token : String) × (role : UserRole) × (b ≡ live (billing token role) s)
        × ((on_billing token role r (live (billing token role) s')).stage ≡ settled)
        × Ended s' (on_billing token role r (live (billing token role) s')).store)

await_billing-Progress :
    (token : String) (o : Option UserRole) (s s' : AuthStore) (r : Reply BillingStatusLike)
    → ((role : UserRole) → o ≡ some role → (str_eq token "" ≡ false) × (is_visitor role ≡ false))
    → Progress s r s' (await_billing token o (live refreshing s))
await_billing-Progress token none s s' r h =
    inl (fail_settles (live refreshing s), fail-Ended refreshing s)
await_billing-Progress token (some role) s s' r h =
    let ends = on_billing-Ended token role r (billing token role) s' (h role refl) in
    inr (token, role, refl, ends.0, ends.1)

-- Whatever the two calls of the API reply, and whatever the store has become at each reply: the
-- effect that has not been cancelled ends after one of the two, with the flag `resolved` set. The
-- session is then the one before the reply, or an active one, or there is none, and this only if the
-- one before the reply was not active.
pub bootstrap_session_ends :
    (platform : TokenPlatform) (refresh : Reply String) (status : Reply BillingStatusLike)
    (s s' : AuthStore)
    → Progress s status s' (on_refresh platform refresh (live refreshing s))
unfolding on_refresh
bootstrap_session_ends platform (replied token) status s s' =
    await_billing-Progress token (payload_role (decode_access_token platform token)) s s' status
      (role_of_token platform token)
bootstrap_session_ends platform aborted status s s' =
    inl (unfold finish in refl, finish-Ended refreshing s)
bootstrap_session_ends platform rejected status s s' =
    inl (fail_settles (live refreshing s), fail-Ended refreshing s)

module _ (b : Bootstrap) (c : b.cancelled ≡ true) where
  finish_same : (finish b).store ≡ b.store
  unfolding finish
  finish_same = rw c refl

  fail_same : (fail b).store ≡ b.store
  unfolding fail finish
  fail_same = rw c refl

  complete_same :
      (token : String) (role : UserRole) (e : EntitlementState)
      → (complete token role e b).store ≡ b.store
  unfolding complete finish
  complete_same token role e = rw c refl

  await_same : (t : String) (o : Option UserRole) → (await_billing t o b).store ≡ b.store
  await_same t none = fail_same
  await_same t (some r) = refl

  refresh_same :
      (platform : TokenPlatform) (r : Reply String) → (on_refresh platform r b).store ≡ b.store
  unfolding on_refresh
  refresh_same platform (replied t) = await_same t (payload_role (decode_access_token platform t))
  refresh_same platform aborted = finish_same
  refresh_same platform rejected = fail_same

  billing_same :
      (token : String) (role : UserRole) (r : Reply BillingStatusLike)
      → (on_billing token role r b).store ≡ b.store
  unfolding on_billing
  billing_same token role (replied st) = complete_same token role _
  billing_same token role aborted = finish_same
  billing_same token role rejected = complete_same token role _

-- The replies to an effect that has been cancelled leave the store as it is.
pub cancelled-same_store :
    (platform : TokenPlatform) (refresh : Reply String) (token : String) (role : UserRole)
    (status : Reply BillingStatusLike) (b : Bootstrap)
    → b.cancelled ≡ true
    → ((on_refresh platform refresh b).store ≡ b.store)
      × ((on_billing token role status b).store ≡ b.store)
cancelled-same_store platform refresh token role status b c =
    (refresh_same b c platform refresh, billing_same b c token role status)
