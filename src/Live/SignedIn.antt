-- ===== src/Live/SignedIn.antt =====
-- With whose token the manager and its streams work while the user is signed in.
use Prim.Native.String.{String}
use text.Mathlib.Text.{◌==◌ as str_eq}
use mathlib.Core.Path.{subst}
use trading_monitoring_dashb.Base.{
  Bool, true, false, not, ◌&&◌, Option, none, some, ◌≡◌, refl, sym, ◌∙◌, arith, inl, inr,
  Bool-cases, All, if◌then◌else◌,
}
use trading_monitoring_dashb.Stream.{Platform}
use trading_monitoring_dashb.Manager.{Manager, connect, disconnect}
use trading_monitoring_dashb.Manager.OneStream.{IsSingle-AtMostOneStream}
use trading_monitoring_dashb.Manager.Quiet.{IsQuiet, disconnect-IsQuiet, event-IsFrozen}
use trading_monitoring_dashb.Manager.Token.{event-SameClient, connect_runs}
use trading_monitoring_dashb.Session.{AuthStore, has_token, is_visitor}
use trading_monitoring_dashb.Live
use trading_monitoring_dashb.Live.{
  Live, should_connect, reset_store, connect_or_reset, realtime_effect, rerun_effect, LiveStep,
  changes, happens, LiveReach, load_baseline,
}
use trading_monitoring_dashb.Live.SignedOut.{reset-IsEmpty, loaded-IsQuiet, LiveReach-IsLive}
use trading_monitoring_dashb.Live.Distribution.{load_baseline-SameButDistribution}
use trading_monitoring_dashb.Manager.Calls.{IsSingle, disconnect-IsSingle}
use trading_monitoring_dashb.Manager.OwnToken.{
  Uses, HasOwnStreams, IsOpening, disconnect-HasOwnStreams, connect-HasOwnStreams,
  Step-HasOwnStreams, connect-IsOpening,
}

-- A session that is known and has a right to a connection.
abbrev pub IsSignedIn : AuthStore → Type 0
IsSignedIn s = (s.resolved ≡ true) × (should_connect s ≡ true)

-- The manager has the session's token, and each stream that is not aborted is open with it.
pub record IsFollowing (s : AuthStore) (m : Manager) : Type 0 where
  pub token : m.token ≡ s.token
  pub streams : All (Uses s.token) m.tasks
  pub running : m.stopped_by_client ≡ false

record IsFollower (l : Live) : Type 0 where
  quiet : l.manager.stopped_by_client ≡ true → IsQuiet l.manager
  own : HasOwnStreams l.manager
  idle : l.cleanup ≡ false → l.manager.token ≡ none
  follows :
      IsSignedIn l.session
      → (l.manager.token ≡ l.session.token) × (l.manager.stopped_by_client ≡ false)

true-false : true ≡ false → ⊥
true-false c = cc

is_some_text : (t : String) (r : Bool) → (not (str_eq t "") && r) ≡ true → str_eq t "" ≡ false
is_some_text t r e = ground arith

-- A manager on which the effect may run: without a token.
abbrev Ready : Manager → Type 0
Ready m = IsSingle m × HasOwnStreams m × (m.token ≡ none) × (m.stopped_by_client ≡ true → IsQuiet m)

reset-IsFollower :
    (s : AuthStore) (m : Manager)
    → should_connect s ≡ false
    → IsSingle m
    → IsFollower (record { manager = reset_store (disconnect m); session = s; cleanup = false })
reset-IsFollower s m e g = record {
  quiet = λ o. (reset-IsEmpty m).quiet;
  own = disconnect-HasOwnStreams m g;
  idle = λ c. (reset-IsEmpty m).quiet.no_token;
  follows = λ i. absurd (true-false (sym i.1 ∙ e));
}

connect-IsFollower :
    (token : String) (s : AuthStore) (m : Manager)
    → s.token ≡ some token
    → str_eq token "" ≡ false
    → Ready m
    → IsFollower (record { manager = connect token m; session = s; cleanup = true })
connect-IsFollower token s m t n (g, u, z, q) =
    let r = connect_runs token m n q in
    record {
      quiet = λ o. absurd (true-false (sym o ∙ r.1));
      own = connect-HasOwnStreams token m g u;
      idle = λ c. absurd (true-false c);
      follows = λ i. (r.0 ∙ sym t, r.1);
    }

connect_or_reset-IsFollower :
    (should : Bool) (token : Option String) (s : AuthStore) (m : Manager)
    → should_connect s ≡ should
    → s.token ≡ token
    → Ready m
    → IsFollower (connect_or_reset should token s m)
connect_or_reset-IsFollower true (some token) s m e t q =
    connect-IsFollower token s m t
      (is_some_text token (not (is_visitor s.role))
        (subst (λ o. (has_token o && not (is_visitor s.role)) ≡ true) t e))
      q
connect_or_reset-IsFollower true none s m e t q =
    reset-IsFollower s m
      (absurd (true-false (sym (subst (λ o. (has_token o && not (is_visitor s.role)) ≡ true) t e))))
      q.0
connect_or_reset-IsFollower false token s m e t q = reset-IsFollower s m e q.0

realtime_effect-IsFollower :
    (s : AuthStore) (m : Manager) → Ready m → IsFollower (realtime_effect s m)
unfolding realtime_effect
realtime_effect-IsFollower s m q = elim (Bool-cases s.resolved) [
  | inl e ↦
      subst (λ b. IsFollower (chosen b)) (sym e)
        (connect_or_reset-IsFollower (should_connect s) s.token s m refl refl q)
  | inr e ↦
      subst (λ b. IsFollower (chosen b)) (sym e)
        (record {
          quiet = q.3;
          own = q.1;
          idle = λ c. q.2;
          follows = λ i. absurd (true-false (sym i.0 ∙ e));
        })
]
  where
    chosen : Bool → Live
    chosen b =
        if not b
        then record { manager = m; session = s; cleanup = false }
        else connect_or_reset (should_connect s) s.token s m

-- The manager behind the cleanup, if there is one.
cleaned : Live → Manager
cleaned k = if k.cleanup then disconnect k.manager else k.manager

cleaned-Ready : (k : Live) → IsSingle k.manager → IsFollower k → Ready (cleaned k)
unfolding cleaned
cleaned-Ready k g h = elim (Bool-cases k.cleanup) [
  | inl e ↦
      let q = disconnect-IsQuiet k.manager in
      subst (λ b. Ready (if b then disconnect k.manager else k.manager)) (sym e)
        (disconnect-IsSingle k.manager g, disconnect-HasOwnStreams k.manager g, q.no_token, λ o. q)
  | inr e ↦
      subst (λ b. Ready (if b then disconnect k.manager else k.manager)) (sym e)
        (g, h.own, h.idle e, h.quiet)
]

LiveReach-IsFollower : (platform : Platform) (l : Live) → LiveReach platform l → IsFollower l
unfolding rerun_effect cleaned
LiveReach-IsFollower platform l (Live.begin item) = record {
  quiet = λ o. absurd (true-false (sym o));
  own = tt;
  idle = λ c. refl;
  follows = λ i. absurd (true-false (sym i.0));
}
LiveReach-IsFollower platform l (Live.next {k = k} r (changes s)) =
    realtime_effect-IsFollower s (cleaned k)
      (cleaned-Ready k (LiveReach-IsLive platform k r).single (LiveReach-IsFollower platform k r))
LiveReach-IsFollower platform l (Live.next {k = k} r (happens st c)) =
    let h = LiveReach-IsFollower platform k r in
    let g = (LiveReach-IsLive platform k r).single in
    let same = event-SameClient {platform = platform} st c in
    record {
      quiet = λ o.
          let stopped = sym same.stopped ∙ o in
          (event-IsFrozen {platform = platform} st c (IsSingle-AtMostOneStream k.manager g)
            (h.quiet stopped) stopped).quiet;
      own = Step-HasOwnStreams {platform = platform} st g h.own;
      idle = λ z. same.token ∙ h.idle z;
      follows = λ i. let f = h.follows i in (same.token ∙ f.0, same.stopped ∙ f.1);
    }
LiveReach-IsFollower platform l (Live.next {k = k} r (Live.loads fresh d)) =
    let h = LiveReach-IsFollower platform k r in
    record {
      quiet = λ o.
          loaded-IsQuiet k.manager (load_baseline platform fresh d k.manager.store)
            (load_baseline-SameButDistribution platform fresh d k.manager.store) (h.quiet o);
      own = h.own;
      idle = h.idle;
      follows = h.follows;
    }

-- In every state that the session and the connection can reach together: while the session that the
-- effect has seen last is resolved, with a token that is not empty and another role than a visitor's,
-- the manager has just this token and is not stopped, and every stream that is not aborted has been
-- opened with this token, also after a change of the user.
pub LiveReach-IsFollowing :
    (platform : Platform) (l : Live)
    → LiveReach platform l
    → IsSignedIn l.session
    → IsFollowing l.session l.manager
LiveReach-IsFollowing platform l r i =
    let h = LiveReach-IsFollower platform l r in
    let f = h.follows i in
    record {
      token = f.0;
      streams = subst (λ x. All (Uses x) l.manager.tasks) f.0 h.own;
      running = f.1;
    }

connect_or_reset-IsOpening :
    (token : Option String) (s : AuthStore) (m : Manager)
    → s.token ≡ token
    → should_connect s ≡ true
    → m.token ≡ none
    → IsOpening token (connect_or_reset true token s m).manager
connect_or_reset-IsOpening none s m t c z =
    absurd (true-false (sym (subst (λ o. (has_token o && not (is_visitor s.role)) ≡ true) t c)))
connect_or_reset-IsOpening (some token) s m t c z =
    connect-IsOpening token m
      (is_some_text token (not (is_visitor s.role))
        (subst (λ o. (has_token o && not (is_visitor s.role)) ≡ true) t c))
      z

-- From every state that the session and the connection can reach together: the run of the effect for
-- a session that is resolved, with a token that is not empty and another role than a visitor's, opens
-- a stream with the session's token as the current one; or, if a stream has not settled yet, it leaves
-- a current start that waits for it and then launches.
pub rerun_effect-IsOpening :
    (platform : Platform) (l : Live) (s : AuthStore)
    → LiveReach platform l
    → IsSignedIn s
    → IsOpening s.token (rerun_effect s l).manager
unfolding rerun_effect realtime_effect cleaned
rerun_effect-IsOpening platform l s r i =
    let ready =
      cleaned-Ready l (LiveReach-IsLive platform l r).single (LiveReach-IsFollower platform l r) in
    subst (λ b. IsOpening s.token (run b (should_connect s)).manager) (sym i.0)
      (subst (λ b. IsOpening s.token (run true b).manager) (sym i.1)
        (connect_or_reset-IsOpening s.token s (cleaned l) refl i.1 ready.2))
  where
    run : Bool → Bool → Live
    run resolved should =
        if not resolved
        then record { manager = cleaned l; session = s; cleanup = false }
        else connect_or_reset should s.token s (cleaned l)
