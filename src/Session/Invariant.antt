-- ===== src/Session/Invariant.antt =====
-- The session is whole in every state that the application can reach.
use Prim.Native.String.{String}
use text.Mathlib.Text.{◌==◌ as str_eq}
use mathlib.Core.Path.{subst}
use trading_monitoring_dashb.Base.{
  ℕ, zero, suc, Bool, true, false, ◌||◌, Option, none, some, List, [], ◌∷◌, get_elem?, ◌≡◌, refl,
  sym, inl, inr, Bool-cases, All, if◌then◌else◌,
}
use trading_monitoring_dashb.Session.{
  UserRole, visitor, EntitlementState, inactive, AuthStore, TokenPlatform, BillingStatusLike, Reply,
  replied, aborted, rejected, Stage, refreshing, billing, settled, Bootstrap, set_resolved,
  set_session, clear_session, set_checkout_session_id, written, is_visitor, has_active_session,
  payload_role, decode_access_token, bootstrap_session, cancel, finish, complete, fail, on_refresh,
  on_billing, await_billing, apply_authenticated_session, sign_in, entitlement_of, renew_session,
}
use trading_monitoring_dashb.Session.Token.{role_of_token}
use trading_monitoring_dashb.Session.Steps
use trading_monitoring_dashb.Session.Steps.{
  View, App, new_app, with_store, with_bootstrap, Step, mounts, unmounts, refreshes, bills,
  signs_in, renders, renews, checks_out, signs_out, Reach,
}

-- No token and the role of a visitor, or a token that is not empty and another role.
abbrev pub IsHolder : Option String → UserRole → Type 0
IsHolder none role = role ≡ visitor
IsHolder (some token) role = (str_eq token "" ≡ false) × (is_visitor role ≡ false)

pub record IsSession (s : AuthStore) : Type 0 where
  pub holder : IsHolder s.token s.role
  pub unentitled : s.token ≡ none → s.entitlement ≡ inactive
  pub stored : s.session_storage ≡ written s.checkout_session_id

abbrev IsStage : Stage → Type 0
IsStage refreshing = Unit
IsStage (billing token role) = IsHolder (some token) role
IsStage settled = Unit

record IsBootstrap (b : Bootstrap) : Type 0 where
  at : IsStage b.stage
  session : IsSession b.store

set_resolved-IsSession : (v : Bool) (s : AuthStore) → IsSession s → IsSession (set_resolved v s)
unfolding set_resolved
set_resolved-IsSession v s h = record {
  holder = h.holder;
  unentitled = h.unentitled;
  stored = h.stored;
}

set_session-IsSession :
    (token : String) (role : UserRole) (e : EntitlementState) (s : AuthStore)
    → IsHolder (some token) role
    → IsSession s
    → IsSession (set_session token role e s)
unfolding set_session
set_session-IsSession token role e s k h = record {
  holder = k;
  unentitled = λ x. cc;
  stored = h.stored;
}

clear_session-IsSession : (s : AuthStore) → IsSession (clear_session s)
unfolding clear_session
clear_session-IsSession s = record { holder = refl; unentitled = λ x. refl; stored = refl }

finish-IsBootstrap : (b : Bootstrap) → IsSession b.store → IsBootstrap (finish b)
unfolding finish
finish-IsBootstrap b h = elim (Bool-cases b.cancelled) [
  | inl c ↦ rw c (record { at = tt; session = h })
  | inr c ↦ rw c (record { at = tt; session = set_resolved-IsSession true b.store h })
]

complete-IsBootstrap :
    (token : String) (role : UserRole) (e : EntitlementState) (b : Bootstrap)
    → IsHolder (some token) role
    → IsSession b.store
    → IsBootstrap (complete token role e b)
unfolding complete
complete-IsBootstrap token role e b k h =
    finish-IsBootstrap
      (if b.cancelled then b else record b { store = set_session token role e b.store })
      (elim (Bool-cases b.cancelled) [
        | inl c ↦ rw c h
        | inr c ↦ rw c (set_session-IsSession token role e b.store k h)
      ])

fail-IsBootstrap : (b : Bootstrap) → IsSession b.store → IsBootstrap (fail b)
unfolding fail
fail-IsBootstrap b h =
    finish-IsBootstrap
      (if b.cancelled || has_active_session b.store
        then b
        else record b { store = clear_session b.store })
      (elim (Bool-cases (b.cancelled || has_active_session b.store)) [
        | inl c ↦ rw c h
        | inr c ↦ rw c (clear_session-IsSession b.store)
      ])

await_billing-IsBootstrap :
    (token : String) (o : Option UserRole) (b : Bootstrap)
    → ((role : UserRole) → o ≡ some role → IsHolder (some token) role)
    → IsSession b.store
    → IsBootstrap (await_billing token o b)
await_billing-IsBootstrap token none b k h = fail-IsBootstrap b h
await_billing-IsBootstrap token (some role) b k h = record { at = k role refl; session = h }

on_refresh-IsBootstrap :
    (platform : TokenPlatform) (r : Reply String) (b : Bootstrap)
    → IsSession b.store
    → IsBootstrap (on_refresh platform r b)
unfolding on_refresh
on_refresh-IsBootstrap platform (replied token) b h =
    await_billing-IsBootstrap token (payload_role (decode_access_token platform token)) b
      (role_of_token platform token) h
on_refresh-IsBootstrap platform aborted b h = finish-IsBootstrap b h
on_refresh-IsBootstrap platform rejected b h = fail-IsBootstrap b h

on_billing-IsBootstrap :
    (token : String) (role : UserRole) (r : Reply BillingStatusLike) (b : Bootstrap)
    → IsHolder (some token) role
    → IsSession b.store
    → IsBootstrap (on_billing token role r b)
unfolding on_billing
on_billing-IsBootstrap token role (replied status) b k h = complete-IsBootstrap token role _ b k h
on_billing-IsBootstrap token role aborted b k h = finish-IsBootstrap b h
on_billing-IsBootstrap token role rejected b k h = complete-IsBootstrap token role _ b k h

sign_in-IsSession :
    (token : String) (o : Option UserRole) (r : Reply BillingStatusLike) (s : AuthStore)
    → ((role : UserRole) → o ≡ some role → IsHolder (some token) role)
    → IsSession s
    → IsSession (sign_in token o r s)
sign_in-IsSession token none r s k h = h
sign_in-IsSession token (some role) r s k h =
    set_session-IsSession token role (entitlement_of r) s (k role refl) h

renew_session-IsSession :
    (token : Option String) (role : UserRole) (e : EntitlementState) (s : AuthStore)
    → IsHolder token role
    → IsSession s
    → IsSession (renew_session token role e s)
unfolding renew_session
renew_session-IsSession none role e s k h = h
renew_session-IsSession (some token) role e s k h =
    rw k.0 (set_session-IsSession token role e s k h)

abbrev IsView : View → Type 0
IsView (token, role) = IsHolder token role

abbrev IsViewIfAny : Option View → Type 0
IsViewIfAny none = Unit
IsViewIfAny (some v) = IsView v

get_elem?-IsView :
    (views : List View) (i : ℕ) (v : View)
    → All IsView views
    → get_elem? views i ≡ some v
    → IsView v
get_elem?-IsView [] i v h e = cc
get_elem?-IsView (w ∷ ws) zero v h e = subst IsViewIfAny e h.0
get_elem?-IsView (w ∷ ws) (suc i) v h e = get_elem?-IsView ws i v h.1 e

record IsApp (a : App) : Type 0 where
  boot : IsBootstrap a.bootstrap
  pages : All IsView a.views

Step-IsApp : {platform : TokenPlatform} {a b : App} → Step platform a b → IsApp a → IsApp b
unfolding bootstrap_session cancel apply_authenticated_session set_checkout_session_id
Step-IsApp {a = a} (mounts c) h = record {
  boot = record {
    at = tt;
    session = set_resolved-IsSession false a.bootstrap.store h.boot.session;
  };
  pages = h.pages;
}
Step-IsApp unmounts h = record {
  boot = record { at = h.boot.at; session = h.boot.session };
  pages = h.pages;
}
Step-IsApp {platform = p} {a = a} (refreshes r e) h = record {
  boot = on_refresh-IsBootstrap p r a.bootstrap h.boot.session;
  pages = h.pages;
}
Step-IsApp {a = a} (bills token role r e) h = record {
  boot = on_billing-IsBootstrap token role r a.bootstrap (subst IsStage e h.boot.at) h.boot.session;
  pages = h.pages;
}
Step-IsApp {platform = p} {a = a} (signs_in token r) h = record {
  boot = record {
    at = h.boot.at;
    session =
        sign_in-IsSession token (payload_role (decode_access_token p token)) r a.bootstrap.store
          (role_of_token p token) h.boot.session;
  };
  pages = h.pages;
}
Step-IsApp {a = a} renders h = record { boot = h.boot; pages = (h.boot.session.holder, h.pages) }
Step-IsApp {a = a} (renews i token role x e) h = record {
  boot = record {
    at = h.boot.at;
    session =
        renew_session-IsSession token role x a.bootstrap.store
          (get_elem?-IsView a.views i (token, role) h.pages e) h.boot.session;
  };
  pages = h.pages;
}
Step-IsApp (checks_out id) h = record {
  boot = record {
    at = h.boot.at;
    session = record {
      holder = h.boot.session.holder;
      unentitled = h.boot.session.unentitled;
      stored = refl;
    };
  };
  pages = h.pages;
}
Step-IsApp {a = a} signs_out h = record {
  boot = record { at = h.boot.at; session = clear_session-IsSession a.bootstrap.store };
  pages = h.pages;
}

Reach-IsApp : (platform : TokenPlatform) (a : App) → Reach platform a → IsApp a
Reach-IsApp platform a (Steps.begin item e) = record {
  boot = record {
    at = tt;
    session = record { holder = refl; unentitled = λ x. refl; stored = sym e };
  };
  pages = tt;
}
Reach-IsApp platform a (Steps.next {a = l} r s) = Step-IsApp s (Reach-IsApp platform l r)

-- In every state that the application can reach, if the storage held no empty item at its start: the
-- user is a visitor without a token and without an entitlement, or has a token that is not empty and
-- the role of a member or an administrator; and the storage holds the checkout session of the store.
pub Reach-IsSession :
    (platform : TokenPlatform) (a : App) → Reach platform a → IsSession a.bootstrap.store
Reach-IsSession platform a r = (Reach-IsApp platform a r).boot.session
