-- ===== src/Guard/Access.antt =====
-- Who sees the children of a guarded route.
use Prim.Native.String.{String}
use trading_monitoring_dashb.Base.{
  Bool, true, false, not, ◌&&◌, Option, none, some, ◌≡◌, ◌≢◌, ◌↔◌, ◌⊎◌, inl, inr, refl, sym, ◌∙◌,
  arith, Bool-cases, ltb,
}
use trading_monitoring_dashb.Session.{
  UserRole, visitor, member, admin, EntitlementState, inactive, pending, active, AuthStore,
  TokenPlatform, has_token,
}
use trading_monitoring_dashb.Session.Steps.{App, Reach}
use trading_monitoring_dashb.Session.Invariant.{IsHolder, Reach-IsSession}
use trading_monitoring_dashb.Guard.{
  GuardedRouteProps, skeleton, to_login, to_subscription, children, ToastRefs, role_rank, is_active,
  is_admin, render_login, render_subscription, guarded_route,
}

-- The roles that a route admits.
abbrev pub Admits : UserRole → UserRole → Type 0
Admits visitor role = Unit
Admits member role = role ≢ visitor
Admits admin role = role ≡ admin

pub record MaySee (g : GuardedRouteProps) (s : AuthStore) : Type 0 where
  pub resolved : s.resolved ≡ true
  pub admitted : Admits g.required_role s.role
  pub entitled :
      g.require_active_entitlement ≡ true
      → (s.entitlement ≡ active) ⊎ ((g.allow_admin_bypass_entitlement ≡ true) × (s.role ≡ admin))

true-false : true ≡ false → ⊥
true-false c = cc

ranks : (r q : UserRole) → ltb (role_rank r) (role_rank q) ≡ false → Admits q r
ranks r visitor e = tt
ranks visitor member e = absurd (true-false e)
ranks member member e = λ c. cc
ranks admin member e = λ c. cc
ranks visitor admin e = cc
ranks member admin e = cc
ranks admin admin e = refl

admitted_ranks : (r q : UserRole) → Admits q r → ltb (role_rank r) (role_rank q) ≡ false
admitted_ranks visitor visitor h = refl
admitted_ranks member visitor h = refl
admitted_ranks admin visitor h = refl
admitted_ranks visitor member h = absurd (h refl)
admitted_ranks member member h = refl
admitted_ranks admin member h = refl
admitted_ranks visitor admin h = cc
admitted_ranks member admin h = cc
admitted_ranks admin admin h = refl

is_active_eq : (e : EntitlementState) → is_active e ≡ true → e ≡ active
is_active_eq active h = refl
is_active_eq inactive h = cc
is_active_eq pending h = cc

is_admin_eq : (r : UserRole) → is_admin r ≡ true → r ≡ admin
is_admin_eq admin h = refl
is_admin_eq visitor h = cc
is_admin_eq member h = cc

-- The test for the page of the subscription.
abbrev lacks : Bool → Bool → EntitlementState → UserRole → Bool
lacks req allow e r = req && not (is_active e) && not (allow && is_admin r)

lacks_iff :
    (req allow : Bool) (e : EntitlementState) (r : UserRole)
    → (lacks req allow e r ≡ false) ↔ (req ≡ true → (e ≡ active) ⊎ ((allow ≡ true) × (r ≡ admin)))
lacks_iff req allow e r = (there req allow e r, back req allow e r)
  where
    there :
        (req allow : Bool) (e : EntitlementState) (r : UserRole)
        → lacks req allow e r ≡ false
        → req ≡ true
        → (e ≡ active) ⊎ ((allow ≡ true) × (r ≡ admin))
    there req allow active r h q = inl refl
    there req true e admin h q = inr (refl, refl)
    there false allow e r h q = absurd (true-false (sym q))
    there true false inactive r h q = absurd (true-false h)
    there true false pending r h q = absurd (true-false h)
    there true true inactive visitor h q = absurd (true-false h)
    there true true inactive member h q = absurd (true-false h)
    there true true pending visitor h q = absurd (true-false h)
    there true true pending member h q = absurd (true-false h)

    no_matter : (e : EntitlementState) → lacks true true e admin ≡ false
    no_matter active = refl
    no_matter inactive = refl
    no_matter pending = refl

    given :
        (allow : Bool) (e : EntitlementState) (r : UserRole)
        → (e ≡ active) ⊎ ((allow ≡ true) × (r ≡ admin))
        → lacks true allow e r ≡ false
    given allow e r (inl a) = rw a refl
    given allow e r (inr (a, b)) = rw (a, b) (no_matter e)

    back :
        (req allow : Bool) (e : EntitlementState) (r : UserRole)
        → (req ≡ true → (e ≡ active) ⊎ ((allow ≡ true) × (r ≡ admin)))
        → lacks req allow e r ≡ false
    back false allow e r h = refl
    back true allow e r h = given allow e r (h refl)

login_page : (path : String) (refs : ToastRefs) → (render_login path refs).page ≡ to_login path
unfolding render_login
login_page path refs = ground arith

subscription_page :
    (path : String) (refs : ToastRefs) → (render_subscription path refs).page ≡ to_subscription
unfolding render_subscription
subscription_page path refs = ground arith

-- The children of a guarded route are shown exactly if the session is resolved, its role is one that
-- the route admits, and, for a route that requires it, its entitlement is active or the user is an
-- administrator whom the route lets pass; the toasts shown before do not matter.
pub guarded_route-MaySee :
    (g : GuardedRouteProps) (path : String) (s : AuthStore) (refs : ToastRefs)
    → ((guarded_route g path s refs).page ≡ children) ↔ MaySee g s
unfolding guarded_route
guarded_route-MaySee g path s refs = elim (Bool-cases s.resolved) [
  | inr e ↦ (rw e (λ p. absurd (no_page p)), λ m. absurd (true-false (sym m.resolved ∙ e)))
  | inl e ↦ elim (Bool-cases (ltb (role_rank s.role) (role_rank g.required_role))) [
    | inl f ↦ (
      rw (e, f) (λ p. absurd (other_page (sym (login_page path refs) ∙ p))),
      λ m. absurd (true-false (sym f ∙ admitted_ranks s.role g.required_role m.admitted)),
    )
    | inr f ↦
        let i =
          lacks_iff g.require_active_entitlement g.allow_admin_bypass_entitlement s.entitlement
            s.role in
        let a = ranks s.role g.required_role f in
        elim (Bool-cases (
          lacks g.require_active_entitlement g.allow_admin_bypass_entitlement s.entitlement
            s.role)) [
              | inl k ↦ (
                rw (e, f, k) (λ p. absurd (other_page' (sym (subscription_page path refs) ∙ p))),
                λ m. absurd (true-false (sym k ∙ i.1 m.entitled)),
              )
              | inr k ↦ (
                λ p. record { resolved = e; admitted = a; entitled = i.0 k },
                λ m. rw (e, f, k) refl,
              )
            ]
  ]
]
  where
    no_page : skeleton ≡ children → ⊥
    no_page c = cc

    other_page : to_login path ≡ children → ⊥
    other_page c = cc

    other_page' : to_subscription ≡ children → ⊥
    other_page' c = cc

admitted_member : (q r : UserRole) → q ≢ visitor → Admits q r → r ≢ visitor
admitted_member visitor r h a = absurd (h refl)
admitted_member member r h a = a
admitted_member admin r h a = λ e. admin_visitor (sym a ∙ e)
  where
    admin_visitor : admin ≡ visitor → ⊥
    admin_visitor c = cc

holder_token : (t : Option String) (r : UserRole) → IsHolder t r → r ≢ visitor → has_token t ≡ true
holder_token none r h k = absurd (k h)
holder_token (some t) r h k = rw h.0 refl

-- In every state that the application can reach, a route for members or administrators shows its
-- children only to a user who has a token that is not empty.
pub guarded_route-HasToken :
    (platform : TokenPlatform) (a : App) (g : GuardedRouteProps) (path : String) (refs : ToastRefs)
    → Reach platform a
    → g.required_role ≢ visitor
    → (guarded_route g path a.bootstrap.store refs).page ≡ children
    → has_token a.bootstrap.store.token ≡ true
guarded_route-HasToken platform a g path refs r h p =
    let s = a.bootstrap.store in
    let m = (guarded_route-MaySee g path s refs).0 p in
    holder_token s.token s.role (Reach-IsSession platform a r).holder
      (admitted_member g.required_role s.role h m.admitted)
