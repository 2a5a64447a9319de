-- ===== src/Session.antt =====
-- apps/frontend/src/lib/store/auth-store.ts, features/auth/lib/token.ts,
-- features/auth/lib/auth-page-shared.ts, features/subscription/lib/entitlement.ts and
-- app/SessionBootstrap.tsx: the session of the user, and the ways in which it is set. `session_storage`
-- is the item of the browser's session storage. `atob` and `JSON.parse` are parameters, `none` where
-- they throw.
use Prim.Native.String.{String}
use text.Mathlib.Text.{◌==◌ as str_eq}
use trading_monitoring_dashb.Base.{
  ℕ, ◌+◌, ◌-◌, ◌*◌, ◌/◌, Bool, true, false, not, ◌&&◌, ◌||◌, Option, none, some, List, [], ◌∷◌,
  ◌++◌, map, length, ◌==◌, if◌then◌else◌, zero, suc,
}
use trading_monitoring_dashb.Base.Text.{Text, codes}
use trading_monitoring_dashb.Js.{Js, undefined, null, bool, str, get}
pub mod Token
pub mod Outcome
pub mod Steps
pub mod Invariant

pub data UserRole : Type 0 where
  visitor member admin : UserRole

-- `inactive` is "none".
pub data EntitlementState : Type 0 where
  inactive pending active : EntitlementState

pub record AuthStore : Type 0 where
  pub token : Option String
  pub role : UserRole
  pub entitlement : EntitlementState
  pub resolved : Bool
  pub checkout_session_id : Option String
  pub session_storage : Option String

-- What `writeCheckoutSessionId` leaves in the storage.
abbrev pub written : Option String → Option String
written none = none
written (some id) = if str_eq id "" then none else some id

-- The store as it is created, over the item that the storage holds.
abbrev pub new_store : Option String → AuthStore
new_store item = record {
  token = none;
  role = visitor;
  entitlement = inactive;
  resolved = false;
  checkout_session_id = item;
  session_storage = item;
}

unfoldable pub set_resolved : Bool → AuthStore → AuthStore
set_resolved resolved s = record s { resolved = resolved }

unfoldable pub set_session : String → UserRole → EntitlementState → AuthStore → AuthStore
set_session token role entitlement s = record s {
  token = some token;
  role = role;
  entitlement = entitlement;
  resolved = true;
}

unfoldable pub set_checkout_session_id : Option String → AuthStore → AuthStore
set_checkout_session_id id s = record s { checkout_session_id = id; session_storage = written id }

unfoldable pub clear_session : AuthStore → AuthStore
clear_session s = record s {
  token = none;
  role = visitor;
  entitlement = inactive;
  resolved = true;
  checkout_session_id = none;
  session_storage = none;
}

-- The functions of the platform on a decoded part of a token.
pub record TokenPlatform : Type 0 where
  pub atob : Text → Option Text
  pub json_parse : Text → Option Js

-- `value.replace(/-/g, "+").replace(/_/g, "/")`
abbrev pub plain_code : ℕ → ℕ
plain_code c = if c == 45 then 43 else if c == 95 then 47 else c

unfoldable pub repeat : ℕ → ℕ → Text
repeat zero c = []
repeat (suc n) c = c ∷ repeat n c

-- `padEnd` with `=`.
abbrev pub pad_end : ℕ → Text → Text
pad_end n cs = cs ++ repeat (n - length cs) 61

-- The argument of `atob` in `decodeBase64Url`.
unfoldable pub to_base64 : Text → Text
to_base64 value =
    let normalized = map plain_code value in pad_end ((length normalized + 3) / 4 * 4) normalized

abbrev pub add_first : ℕ → List Text → List Text
add_first c [] = (c ∷ []) ∷ []
add_first c (part ∷ parts) = (c ∷ part) ∷ parts

-- `token.split(".")`
unfoldable pub split_dots : Text → List Text
split_dots [] = [] ∷ []
split_dots (c ∷ cs) = let rest = split_dots cs in if c == 46 then [] ∷ rest else add_first c rest

abbrev pub parse_with : TokenPlatform → Option Text → Option Js
parse_with platform none = none
parse_with platform (some text) = platform.json_parse text

abbrev pub decode_parts : TokenPlatform → List Text → Option Js
decode_parts platform (header ∷ payload ∷ signature ∷ []) =
    parse_with platform (platform.atob (to_base64 payload))
decode_parts platform parts = none

-- `decodeAccessToken`; `none` where it throws.
unfoldable pub decode_access_token : TokenPlatform → String → Option Js
decode_access_token platform token = decode_parts platform (split_dots (codes token))

-- `mapTokenRole`; `none` where it throws.
unfoldable pub map_token_role : Js → Option UserRole
map_token_role (str s) =
    if str_eq s "admin" then some admin else if str_eq s "user" then some member else none
map_token_role v = none

-- `mapTokenRole(payload.role)`; the property of null or undefined throws.
abbrev pub payload_role : Option Js → Option UserRole
payload_role none = none
payload_role (some undefined) = none
payload_role (some null) = none
payload_role (some payload) = map_token_role (get payload "role")

unfoldable pub map_entitlement : String → EntitlementState
map_entitlement status =
    if str_eq status "active"
    then active
    else if str_eq status "pending"
    then pending
    else if str_eq status "checkout_started"
    then pending
    else inactive

pub record BillingStatusLike : Type 0 where
  pub status : String
  pub entitlement_active : Js

unfoldable pub resolve_entitlement_from_billing_status : BillingStatusLike → EntitlementState
unfolding map_entitlement
resolve_entitlement_from_billing_status s = resolve s.entitlement_active
  where
    resolve : Js → EntitlementState
    resolve (bool b) = if b then active else inactive
    resolve v = map_entitlement s.status

-- How a call of the API ends.
pub data Reply {ℓ} (A : Type ℓ) : Type ℓ where
  replied : A → Reply A
  aborted : Reply A
  rejected : Reply A

-- Where the effect of `SessionBootstrap` stands: at `await refresh()`, at `await getBillingStatus`
-- with the token and its role, or at its end.
pub data Stage : Type 0 where
  refreshing : Stage
  billing : String → UserRole → Stage
  settled : Stage

pub record Bootstrap : Type 0 where
  pub stage : Stage
  pub cancelled : Bool
  pub store : AuthStore

-- The effect up to its first `await`.
unfoldable pub bootstrap_session : AuthStore → Bootstrap
unfolding set_resolved
bootstrap_session s = record { stage = refreshing; cancelled = false; store = set_resolved false s }

-- The block `finally`.
unfoldable pub finish : Bootstrap → Bootstrap
unfolding set_resolved
finish b =
    let e = record b { stage = settled } in
    if b.cancelled then e else record e { store = set_resolved true e.store }

unfoldable pub complete : String → UserRole → EntitlementState → Bootstrap → Bootstrap
unfolding set_session finish
complete token role entitlement b =
    finish
      (if b.cancelled then b else record b { store = set_session token role entitlement b.store })

abbrev pub is_visitor : UserRole → Bool
is_visitor visitor = true
is_visitor role = false

abbrev pub has_token : Option String → Bool
has_token none = false
has_token (some t) = not (str_eq t "")

abbrev pub has_active_session : AuthStore → Bool
has_active_session s = has_token s.token && not (is_visitor s.role)

-- The block `catch` for an error that is no abort, and `finally`.
unfoldable pub fail : Bootstrap → Bootstrap
unfolding clear_session finish
fail b = finish (
    if b.cancelled || has_active_session b.store
    then b
    else record b { store = clear_session b.store })

abbrev pub await_billing : String → Option UserRole → Bootstrap → Bootstrap
await_billing token none b = fail b
await_billing token (some role) b = record b { stage = billing token role }

-- What follows `await refresh()`.
unfoldable pub on_refresh : TokenPlatform → Reply String → Bootstrap → Bootstrap
unfolding decode_access_token
on_refresh platform (replied token) b =
    await_billing token (payload_role (decode_access_token platform token)) b
on_refresh platform aborted b = finish b
on_refresh platform rejected b = fail b

-- What follows `await getBillingStatus(token, signal)`.
unfoldable pub on_billing : String → UserRole → Reply BillingStatusLike → Bootstrap → Bootstrap
unfolding complete finish
on_billing token role (replied status) b =
    complete token role (resolve_entitlement_from_billing_status status) b
on_billing token role aborted b = finish b
on_billing token role rejected b = complete token role (map_entitlement "none") b

-- What the cleanup of the effect does.
unfoldable pub cancel : Bootstrap → Bootstrap
cancel b = record b { cancelled = true }

-- `applyAuthenticatedSession` behind its call of the billing API, which it makes if the token has a
-- role; where it throws the store stays.
abbrev pub entitlement_of : Reply BillingStatusLike → EntitlementState
entitlement_of (replied status) = resolve_entitlement_from_billing_status status
entitlement_of aborted = map_entitlement "none"
entitlement_of rejected = map_entitlement "none"

abbrev pub sign_in : String → Option UserRole → Reply BillingStatusLike → AuthStore → AuthStore
sign_in token none r s = s
sign_in token (some role) r s = set_session token role (entitlement_of r) s

unfoldable pub apply_authenticated_session :
    TokenPlatform → String → Reply BillingStatusLike → AuthStore → AuthStore
apply_authenticated_session platform token r s =
    sign_in token (payload_role (decode_access_token platform token)) r s

-- `if (token) setSession(token, role, entitlement)` of SubscriptionPage.tsx and
-- CheckoutResultPage.tsx, with the token and the role that the page was rendered with.
unfoldable pub renew_session : Option String → UserRole → EntitlementState → AuthStore → AuthStore
renew_session none role entitlement s = s
renew_session (some token) role entitlement s =
    if str_eq token "" then s else set_session token role entitlement s
