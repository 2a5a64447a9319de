-- ===== src/Session/Steps.antt =====
-- The session over the life of the application: the effect of `SessionBootstrap`, the sign-in, the
-- pages of the subscription and the sign-out, in any order. Only the effect of the last mount is kept
-- in the state, since a cancelled one leaves the store as it is.
use Prim.Native.String.{String}
use trading_monitoring_dashb.Base.{ℕ, true, Option, some, List, [], ◌∷◌, get_elem?, ◌≡◌}
use trading_monitoring_dashb.Session.{
  UserRole, EntitlementState, AuthStore, TokenPlatform, BillingStatusLike, Reply, refreshing,
  billing, settled, Bootstrap, clear_session, set_checkout_session_id, written, new_store,
  bootstrap_session, cancel, on_refresh, on_billing, apply_authenticated_session, renew_session,
}

-- What a page has been rendered with.
abbrev pub View : Type 0
View = Option String × UserRole

pub record App : Type 0 where
  pub bootstrap : Bootstrap
  pub views : List View

-- The application before the first mount.
abbrev pub new_app : Option String → App
new_app item = record {
  bootstrap = record { stage = settled; cancelled = true; store = new_store item };
  views = [];
}

abbrev pub with_store : AuthStore → App → App
with_store s a = record a { bootstrap = record a.bootstrap { store = s } }

abbrev pub with_bootstrap : Bootstrap → App → App
with_bootstrap b a = record a { bootstrap = b }

pub data Step (platform : TokenPlatform) (a : App) : App → Type 0 where
  mounts :
      a.bootstrap.cancelled ≡ true
      → Step platform a (with_bootstrap (bootstrap_session a.bootstrap.store) a)
  unmounts : Step platform a (with_bootstrap (cancel a.bootstrap) a)
  refreshes :
      (r : Reply String)
      → a.bootstrap.stage ≡ refreshing
      → Step platform a (with_bootstrap (on_refresh platform r a.bootstrap) a)
  bills :
      (token : String) (role : UserRole) (r : Reply BillingStatusLike)
      → a.bootstrap.stage ≡ billing token role
      → Step platform a (with_bootstrap (on_billing token role r a.bootstrap) a)
  signs_in :
      (token : String) (r : Reply BillingStatusLike)
      → Step platform a
          (with_store (apply_authenticated_session platform token r a.bootstrap.store) a)
  renders :
      Step platform a
        (record a { views = (a.bootstrap.store.token, a.bootstrap.store.role) ∷ a.views })
  -- The page may have been rendered long before.
  renews :
      (i : ℕ) (token : Option String) (role : UserRole) (e : EntitlementState)
      → get_elem? a.views i ≡ some (token, role)
      → Step platform a (with_store (renew_session token role e a.bootstrap.store) a)
  checks_out :
      (id : Option String)
      → Step platform a (with_store (set_checkout_session_id id a.bootstrap.store) a)
  signs_out : Step platform a (with_store (clear_session a.bootstrap.store) a)

pub data Reach (platform : TokenPlatform) : App → Type 0 where
  begin : (item : Option String) → written item ≡ item → Reach platform (new_app item)
  next : {a b : App} → Reach platform a → Step platform a b → Reach platform b
