-- ===== src/Guard.antt =====
-- apps/frontend/src/lib/guards/GuardedRoute.tsx: the component as a function of its properties, the
-- path, the session and its two references, with the toasts that it shows. The texts of the toasts
-- are left out.
use Prim.Native.String.{String}
use text.Mathlib.Text.{◌==◌ as str_eq}
use trading_monitoring_dashb.Base.{
  ℕ, Bool, true, false, not, ◌&&◌, Option, none, some, List, [], ◌∷◌, ltb, if◌then◌else◌,
}
use trading_monitoring_dashb.Session.{
  UserRole, visitor, member, admin, EntitlementState, inactive, pending, active, AuthStore,
}
pub mod Access
pub mod Toasts

pub record GuardedRouteProps : Type 0 where
  pub required_role : UserRole
  pub require_active_entitlement : Bool
  pub allow_admin_bypass_entitlement : Bool

pub data Page : Type 0 where
  skeleton : Page
  to_login : String → Page
  to_subscription : Page
  children : Page

pub data Toast : Type 0 where
  login subscription : Toast

pub record ToastRefs : Type 0 where
  pub login_toast_path : Option String
  pub subscription_toast_path : Option String

pub record Rendered : Type 0 where
  pub page : Page
  pub refs : ToastRefs
  pub toasts : List Toast

abbrev pub role_rank : UserRole → ℕ
role_rank visitor = 0
role_rank member = 1
role_rank admin = 2

abbrev pub is_active : EntitlementState → Bool
is_active active = true
is_active e = false

abbrev pub is_admin : UserRole → Bool
is_admin admin = true
is_admin role = false

-- `ref.current === path`
abbrev pub is_at : Option String → String → Bool
is_at none path = false
is_at (some p) path = str_eq p path

unfoldable pub render_login : String → ToastRefs → Rendered
render_login path refs =
    if not (is_at refs.login_toast_path path)
    then record {
      page = to_login path;
      refs = record refs { login_toast_path = some path };
      toasts = login ∷ [];
    }
    else record { page = to_login path; refs = refs; toasts = [] }

unfoldable pub render_subscription : String → ToastRefs → Rendered
render_subscription path refs =
    if not (is_at refs.subscription_toast_path path)
    then record {
      page = to_subscription;
      refs = record refs { subscription_toast_path = some path };
      toasts = subscription ∷ [];
    }
    else record { page = to_subscription; refs = refs; toasts = [] }

unfoldable pub guarded_route : GuardedRouteProps → String → AuthStore → ToastRefs → Rendered
guarded_route g path s refs =
    if not s.resolved
    then record { page = skeleton; refs = refs; toasts = [] }
    else if ltb (role_rank s.role) (role_rank g.required_role)
    then render_login path refs
    else if g.require_active_entitlement
        && not (is_active s.entitlement)
        && not (g.allow_admin_bypass_entitlement && is_admin s.role)
    then render_subscription path refs
    else record { page = children; refs = refs; toasts = [] }
