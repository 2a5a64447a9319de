-- ===== src/Store/Unchanged.antt =====
-- A batch that is applied a second time changes nothing, and notifies nobody.
use Prim.Native.String.{String}
use text.Mathlib.Text.{◌==◌ as str_eq}
use text.Mathlib.TextEquality.{eq_iff}
use text.Mathlib.TextPositions.{eq_refl}
use trading_monitoring_dashb.Base.{
  ℕ, Bool, true, false, not, ◌&&◌, Option, none, some, [], ◌∷◌, if◌then◌else◌, ◌≡◌, refl, ap, ◌∙◌,
  arith, Bool-cases, inl, inr, All,
}
use trading_monitoring_dashb.Base.Int.{ℤ}
use trading_monitoring_dashb.Base.Dict.{Dict, lookup, insert, IsUnique, lookup-insert}
use trading_monitoring_dashb.Js.{Js, truthy, is_undefined, num, strict_eq, get, shallow_equal}
use trading_monitoring_dashb.Js.Equality.{strict_eq_refl, shallow_equal_refl}
use trading_monitoring_dashb.Batch.{ServingSseBatch, map_entries, HasUniqueCodes}
use trading_monitoring_dashb.Store.{RealtimeStore, property_key}
use trading_monitoring_dashb.Store.Apply.{
  of_serving, Patch, or_undefined, patched, is_stale, apply_entry, apply_entries, changed,
  replace_if_new, heartbeat_patch, kbar_patch, kbar_stale, kbar_entry_patch, series_patch,
  next_state, merge_patch, appended_patch, apply_sse_batch, finish_batch,
}
use trading_monitoring_dashb.Store.Entries.{updated, lookup-apply_entries}
use trading_monitoring_dashb.Store.Lookups.{apply_sse_batch-Applied}

-- Every payload of the batch's maps is an object, or another value that is true.
abbrev pub AllTruthy : Dict Js → Type 0
AllTruthy es = All (λ e. truthy e.1 ≡ true) es

AllTruthy-lookup :
    (es : Dict Js) (code : String) (p : Js)
    → AllTruthy es
    → lookup code es ≡ some p
    → truthy p ≡ true
unfolding lookup
AllTruthy-lookup [] code p t h = cc
AllTruthy-lookup ((k, v) ∷ es) code p t h = elim (Bool-cases (str_eq k code)) [
  | inl e ↦ rw (← head e) t.0
  | inr e ↦ AllTruthy-lookup es code p t.1 (rw e at h)
]
  where
    head : str_eq k code ≡ true → v ≡ p
    head e = ground arith

-- No entry is stale, so the loop sets nothing.
apply_entries_fresh :
    (m es : Dict Js)
    → IsUnique es
    → ((code : String) (p : Js)
        → lookup code es ≡ some p
        → is_stale (or_undefined (lookup code m)) p ≡ false)
    → apply_entries m none es ≡ none
unfolding apply_entries apply_entry lookup
apply_entries_fresh m [] u h = refl
apply_entries_fresh m ((k, v) ∷ es) u h =
    rw (h k v (rw (eq_refl k)))
      (apply_entries_fresh m es u.1 (λ code p e. h code p (later code p e)))
  where
    later : (code : String) (p : Js) → lookup code es ≡ some p → lookup code ((k, v) ∷ es) ≡ some p
    later code p e = ground (arith, eq_iff k code, u.0)

stored_fresh :
    (old : Option Js) (p : Js)
    → truthy p ≡ true
    → is_stale (or_undefined (updated old (some p))) p ≡ false
stored_fresh old p t = elim (Bool-cases (is_stale (or_undefined old) p)) [
  | inl e ↦ rw e (unfold is_stale in rw (t, strict_eq_refl (get p "ts"), shallow_equal_refl p))
  | inr e ↦ rw e e
]

apply_entries_again :
    (m es : Dict Js)
    → IsUnique es
    → AllTruthy es
    → apply_entries (patched (apply_entries m none es) m) none es ≡ none
apply_entries_again m es u t =
    apply_entries_fresh (patched (apply_entries m none es) m) es u (λ code p e.
      rw (lookup-apply_entries m code es u, e)
        (stored_fresh (lookup code m) p (AllTruthy-lookup es code p t e)))

replace_again :
    (b : Bool) (old new : Js) → replace_if_new b (patched (replace_if_new b old new) old) new ≡ none
replace_again false old new = refl
replace_again true old new = elim (Bool-cases (shallow_equal old new)) [
  | inl e ↦ rw (e, e)
  | inr e ↦ rw (e, shallow_equal_refl new)
]

heartbeat_num :
    (old : Js) (n : ℤ) → heartbeat_patch (patched (heartbeat_patch old (num n)) old) (num n) ≡ none
heartbeat_num old n = elim (Bool-cases (strict_eq old (num n))) [
  | inl e ↦ rw (e, e)
  | inr e ↦ rw (e, strict_eq_refl (num n))
]

heartbeat_again :
    (old new : Js) → heartbeat_patch (patched (heartbeat_patch old new) old) new ≡ none
heartbeat_again old (num n) = heartbeat_num old n
heartbeat_again old _ = refl

kbar_itself : (kbar : Js) → (truthy kbar && kbar_stale kbar kbar) ≡ false
unfolding kbar_stale
kbar_itself kbar = ground (arith, strict_eq_refl (get kbar "ts"), strict_eq_refl kbar)

kbar_again :
    (code : String) (m : Dict Js) (kbar : Js)
    → kbar_entry_patch code (patched (kbar_entry_patch code m kbar) m) kbar ≡ none
kbar_again code m kbar =
    elim (Bool-cases (truthy kbar && kbar_stale (or_undefined (lookup code m)) kbar)) [
      | inl e ↦ rw e (
          rw (lookup-insert code code kbar m, eq_refl code)
            (if_not (truthy kbar) (kbar_stale kbar kbar) (kbar_itself kbar)))
      | inr e ↦ rw (e, e)
    ]
  where
    if_not :
        (a b : Bool)
        → (a && b) ≡ false
        → (if a && b then some (insert code kbar (insert code kbar m)) else none) ≡ none
    if_not a b h = rw h

-- A series of the batch is there already; without one nothing has been appended again.
series_again :
    (old new : Js) (a : Option Js)
    → (truthy new ≡ true → a ≡ none)
    → series_patch (patched (series_patch old new a) old) new none ≡ none
series_again old new a h = elim (Bool-cases (truthy new)) [
  | inl t ↦ elim (Bool-cases (shallow_equal old new)) [
    | inl e ↦ rw (t, e, h t, e)
    | inr e ↦ rw (t, e, shallow_equal_refl new)
  ]
  | inr t ↦ rw t
]

latest_again :
    (old latest : Js)
    → (truthy latest
        && not (shallow_equal (patched (replace_if_new (truthy latest) old latest) old) latest))
      ≡ false
latest_again old latest = elim (Bool-cases (truthy latest)) [
  | inl t ↦ elim (Bool-cases (shallow_equal old latest)) [
    | inl e ↦ rw (t, e, e)
    | inr e ↦ rw (t, e, shallow_equal_refl latest)
  ]
  | inr t ↦ rw t
]

-- Whatever was appended, no series stood in the batch.
appended_alone :
    (fresh : ℕ) (s : RealtimeStore) (b : ServingSseBatch) (a : Option Js)
    → appended_patch fresh s b ≡ some a
    → truthy b.spot_market_distribution_series ≡ true
    → a ≡ none
unfolding appended_patch
appended_alone fresh s b a h t = ground arith

not_appended :
    (fresh : ℕ) (s : RealtimeStore) (b : ServingSseBatch)
    → (truthy b.spot_market_distribution_latest
        && not (shallow_equal s.spot_market_distribution_latest b.spot_market_distribution_latest))
      ≡ false
    → appended_patch fresh s b ≡ some none
unfolding appended_patch
not_appended fresh s b h = ground arith

record SetsNothing (p : Patch) : Type 0 where
  kbar : p.kbar_current_by_code ≡ none
  metric : p.metric_latest_by_code ≡ none
  market : p.market_summary_latest_by_code ≡ none
  otc : p.otc_summary_latest_by_code ≡ none
  quote : p.quote_latest_by_code ≡ none
  spot : p.spot_latest_list ≡ none
  latest : p.spot_market_distribution_latest ≡ none
  series : p.spot_market_distribution_series ≡ none
  ranking : p.index_contrib_ranking ≡ none
  sector : p.index_contrib_sector ≡ none
  heartbeat : p.last_heartbeat_ts ≡ none

SetsNothing-changed : (p : Patch) → SetsNothing p → changed p ≡ false
unfolding changed
SetsNothing-changed p h = ground arith

-- The payloads of the four maps are objects, or other values that are true.
pub record HasTruthyPayloads (b : ServingSseBatch) : Type 0 where
  pub metric : AllTruthy (map_entries b.metric_latest_map)
  pub market : AllTruthy (map_entries b.market_summary_map)
  pub otc : AllTruthy (map_entries b.otc_summary_map)
  pub quote : AllTruthy (map_entries b.quote_latest_map)

module _ (to_string : Js → String) (b : ServingSseBatch) (s : RealtimeStore) (fresh : ℕ)
    (u : HasUniqueCodes b) (t : HasTruthyPayloads b) where
  abbrev after : Option Js → RealtimeStore
  after a = merge_patch (next_state to_string s (of_serving b) a) s

  SetsNothing-again :
      (a : Option Js)
      → appended_patch fresh s b ≡ some a
      → SetsNothing (next_state to_string (after a) (of_serving b) none)
  unfolding next_state merge_patch truthy kbar_patch
  SetsNothing-again a e = record {
    kbar =
        kbar_again (property_key to_string (get b.kbar_current "code")) s.kbar_current_by_code
          b.kbar_current;
    metric = apply_entries_again s.metric_latest_by_code _ u.metric t.metric;
    market = apply_entries_again s.market_summary_latest_by_code _ u.market t.market;
    otc = apply_entries_again s.otc_summary_latest_by_code _ u.otc t.otc;
    quote = apply_entries_again s.quote_latest_by_code _ u.quote t.quote;
    spot = replace_again (truthy b.spot_latest_list) s.spot_latest_list b.spot_latest_list;
    latest =
        replace_again (truthy b.spot_market_distribution_latest) s.spot_market_distribution_latest
          b.spot_market_distribution_latest;
    series =
        series_again s.spot_market_distribution_series b.spot_market_distribution_series a
          (appended_alone fresh s b a e);
    ranking =
        replace_again (not (is_undefined b.index_contrib_ranking)) s.index_contrib_ranking
          b.index_contrib_ranking;
    sector =
        replace_again (not (is_undefined b.index_contrib_sector)) s.index_contrib_sector
          b.index_contrib_sector;
    heartbeat = heartbeat_again s.last_heartbeat_ts b.heartbeat_ts;
  }

  after_again :
      (fresh' : ℕ) (a : Option Js)
      → appended_patch fresh s b ≡ some a
      → apply_sse_batch to_string fresh' (of_serving b) (after a) ≡ some (after a)
  unfolding apply_sse_batch
  after_again fresh' a e =
      ap (finish_batch to_string (of_serving b) (after a)) (
        not_appended fresh' (after a) b (
          unfold merge_patch next_state in
          latest_again s.spot_market_distribution_latest b.spot_market_distribution_latest))
      ∙ ap
          (λ (c : Bool). some (
            if c
            then merge_patch (next_state to_string (after a) (of_serving b) none) (after a)
            else after a))
          (SetsNothing-changed _ (SetsNothing-again a e))

  -- For a batch of the manager in whose maps no code stands twice and whose payloads are true: if
  -- it has been applied to the end, applying it again to the state that results, with any new
  -- references, is no change: `set` gets the same state, and no field of the partial state is set.
  pub apply_sse_batch_again :
      (fresh' : ℕ) {s' : RealtimeStore}
      → apply_sse_batch to_string fresh (of_serving b) s ≡ some s'
      → (apply_sse_batch to_string fresh' (of_serving b) s' ≡ some s')
        × (changed (next_state to_string s' (of_serving b) none) ≡ false)
  apply_sse_batch_again fresh' h =
      let r = apply_sse_batch-Applied to_string fresh (of_serving b) s h in
      rw r.result (
        after_again fresh' r.appended r.origin,
        SetsNothing-changed _ (SetsNothing-again r.appended r.origin),
      )
