-- ===== src/Tests/Sessions.antt =====
-- Examples for the theorems on the session, the guard and the connection that follows the session.
use trading_monitoring_dashb.Base.{true, none, some, List, [], ◌∷◌, ◌≡◌, ◌≢◌, ◌≤◌, ◌↔◌, refl}
use trading_monitoring_dashb.Js.{str, obj, end, field, undefined, get, get_field}
use trading_monitoring_dashb.Session.{
  visitor, member, admin, active, pending, inactive, AuthStore, TokenPlatform, replied, rejected,
  aborted, refreshing, billing, Bootstrap, bootstrap_session, set_resolved, on_refresh, on_billing,
  decode_access_token, split_dots, to_base64, repeat, map_token_role, has_token,
}
use trading_monitoring_dashb.Session.Outcome.{live, Progress, bootstrap_session_ends}
use trading_monitoring_dashb.Session.Steps
use trading_monitoring_dashb.Session.Steps.{
  App, with_bootstrap, new_app, Reach, mounts, refreshes, bills,
}
use trading_monitoring_dashb.Session.Invariant.{IsSession, Reach-IsSession}
use trading_monitoring_dashb.Guard.{GuardedRouteProps, children, ToastRefs, guarded_route}
use trading_monitoring_dashb.Guard.Access.{MaySee, guarded_route-MaySee, guarded_route-HasToken}
use trading_monitoring_dashb.Guard.Toasts.{logins, subscriptions, all_toasts, all_toasts_once}
use trading_monitoring_dashb.Manager.OwnToken.{IsOpening}
use trading_monitoring_dashb.Live
use trading_monitoring_dashb.Live.{Live, new_live, LiveReach, rerun_effect, changes}
use trading_monitoring_dashb.Live.SignedOut.{IsSignedOut, IsEmpty, LiveReach-IsEmpty}
use trading_monitoring_dashb.Live.SignedIn.{
  IsSignedIn, IsFollowing, LiveReach-IsFollowing, rerun_effect-IsOpening,
}
use trading_monitoring_dashb.Tests.{platform}

-- Whatever the text, a payload with the role "user".
abbrev tokens : TokenPlatform
tokens = record {
  atob = λ t. some t;
  json_parse = λ t. some (obj 1 (field "role" (str "user") end));
}

abbrev mounted : App
mounted = with_bootstrap (bootstrap_session (new_app none).bootstrap.store) (new_app none)

abbrev refreshed : App
refreshed = with_bootstrap (on_refresh tokens (replied "a.b-1.c") mounted.bootstrap) mounted

abbrev signed_in : App
signed_in =
    with_bootstrap
      (on_billing "a.b-1.c" member
        (replied (record { status = "active"; entitlement_active = undefined }))
        refreshed.bootstrap)
      refreshed

mounted-Reach : Reach tokens mounted
mounted-Reach = Steps.next (Steps.begin none refl) (mounts refl)

refreshed-Reach : Reach tokens refreshed
refreshed-Reach =
    Steps.next mounted-Reach (refreshes (replied "a.b-1.c") (unfold bootstrap_session in refl))

refreshed_stage : refreshed.bootstrap.stage ≡ billing "a.b-1.c" member
unfolding on_refresh decode_access_token split_dots to_base64 repeat map_token_role get get_field
    bootstrap_session set_resolved
refreshed_stage = refl

signed_in-Reach : Reach tokens signed_in
signed_in-Reach = Steps.next refreshed-Reach (
    bills "a.b-1.c" member (replied (record { status = "active"; entitlement_active = undefined }))
      refreshed_stage)

Reach-IsSession_example : IsSession signed_in.bootstrap.store
Reach-IsSession_example = Reach-IsSession tokens signed_in signed_in-Reach

-- The first reply has a role, the second one fails.
bootstrap_session_ends_example :
    Progress
      (new_app none).bootstrap.store
      rejected
      (new_app none).bootstrap.store
      (on_refresh tokens (replied "a.b-1.c") (live refreshing (new_app none).bootstrap.store))
bootstrap_session_ends_example =
    bootstrap_session_ends tokens (replied "a.b-1.c") rejected (new_app none).bootstrap.store
      (new_app none).bootstrap.store

abbrev member_store : AuthStore
member_store = record {
  token = some "a.b-1.c";
  role = member;
  entitlement = active;
  resolved = true;
  checkout_session_id = none;
  session_storage = none;
}

abbrev members_only : GuardedRouteProps
members_only = record {
  required_role = member;
  require_active_entitlement = true;
  allow_admin_bypass_entitlement = true;
}

abbrev no_refs : ToastRefs
no_refs = record { login_toast_path = none; subscription_toast_path = none }

guarded_route-MaySee_example :
    ((guarded_route members_only "/market-thermometer" member_store no_refs).page ≡ children)
    ↔ MaySee members_only member_store
guarded_route-MaySee_example =
    guarded_route-MaySee members_only "/market-thermometer" member_store no_refs

signed_in-children :
    (guarded_route members_only "/market-thermometer" signed_in.bootstrap.store no_refs).page
    ≡ children
unfolding guarded_route on_billing trading_monitoring_dashb.Session.complete
    trading_monitoring_dashb.Session.finish trading_monitoring_dashb.Session.set_session
    trading_monitoring_dashb.Session.resolve_entitlement_from_billing_status
    trading_monitoring_dashb.Session.map_entitlement on_refresh decode_access_token split_dots
    to_base64 repeat map_token_role get get_field bootstrap_session set_resolved
signed_in-children = refl

member_visitor : member ≢ visitor
member_visitor = λ c. cc

guarded_route-HasToken_example : has_token signed_in.bootstrap.store.token ≡ true
guarded_route-HasToken_example =
    guarded_route-HasToken tokens signed_in members_only "/market-thermometer" no_refs
      signed_in-Reach member_visitor signed_in-children

-- Twice without a session, then with one.
abbrev three_renderings : List AuthStore
three_renderings = signed_out ∷ signed_out ∷ member_store ∷ []
  where
    signed_out : AuthStore
    signed_out = record (new_app none).bootstrap.store { resolved = true }

all_toasts_once_example :
    (logins members_only "/market-thermometer"
        (all_toasts members_only "/market-thermometer" three_renderings no_refs)
      ≤ 1)
    × (subscriptions members_only "/market-thermometer"
          (all_toasts members_only "/market-thermometer" three_renderings no_refs)
        ≤ 1)
all_toasts_once_example =
    all_toasts_once members_only "/market-thermometer" three_renderings no_refs

-- A session with a connection, and its end.
abbrev ended : Live
ended =
    rerun_effect (record (new_app none).bootstrap.store { resolved = true })
      (rerun_effect member_store (new_live none))

ended-LiveReach : LiveReach platform ended
ended-LiveReach =
    Live.next (Live.next (Live.begin none) (changes member_store))
      (changes (record (new_app none).bootstrap.store { resolved = true }))

ended-IsSignedOut : IsSignedOut ended.session
unfolding rerun_effect trading_monitoring_dashb.Live.realtime_effect
ended-IsSignedOut = (refl, refl)

LiveReach-IsEmpty_example : IsEmpty ended.manager
LiveReach-IsEmpty_example = LiveReach-IsEmpty platform ended ended-LiveReach ended-IsSignedOut

-- A second user after the first.
abbrev second_store : AuthStore
second_store = record member_store { token = some "d.e.f"; role = admin }

abbrev switched : Live
switched = rerun_effect second_store (rerun_effect member_store (new_live none))

switched-LiveReach : LiveReach platform switched
switched-LiveReach =
    Live.next (Live.next (Live.begin none) (changes member_store)) (changes second_store)

switched-IsSignedIn : IsSignedIn switched.session
unfolding rerun_effect trading_monitoring_dashb.Live.realtime_effect
switched-IsSignedIn = (refl, refl)

LiveReach-IsFollowing_example : IsFollowing switched.session switched.manager
LiveReach-IsFollowing_example =
    LiveReach-IsFollowing platform switched switched-LiveReach switched-IsSignedIn

first-LiveReach : LiveReach platform (rerun_effect member_store (new_live none))
first-LiveReach = Live.next (Live.begin none) (changes member_store)

second-IsSignedIn : IsSignedIn second_store
second-IsSignedIn = (refl, refl)

rerun_effect-IsOpening_example : IsOpening (some "d.e.f") switched.manager
rerun_effect-IsOpening_example =
    rerun_effect-IsOpening platform (rerun_effect member_store (new_live none)) second_store
      first-LiveReach second-IsSignedIn
