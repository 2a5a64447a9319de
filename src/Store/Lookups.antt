-- ===== src/Store/Lookups.antt =====
-- The maps of the store after a batch: the batch's payload under each of its codes, up to payloads
-- that are the old ones over again, and all other codes as before.
use Prim.Native.String.{String}
use trading_monitoring_dashb.Base.{
  ℕ, true, false, Option, none, some, if◌then◌else◌, ◌≡◌, refl, ap, sym, ◌∙◌, arith, Bool-cases,
  inl, inr,
}
use trading_monitoring_dashb.Base.Dict.{Dict, lookup, IsUnique}
use trading_monitoring_dashb.Js.{Js, truthy, shallow_equal}
use trading_monitoring_dashb.Js.Equality.{shallow_equal_refl}
use trading_monitoring_dashb.Batch.{ServingSseBatch, map_entries, HasUniqueCodes}
use trading_monitoring_dashb.Store.{RealtimeStore}
use trading_monitoring_dashb.Store.Apply.{
  SseBatch, of_serving, Patch, or_undefined, patched, is_stale, apply_entries, changed, next_state,
  merge_patch, appended_patch, apply_sse_batch, finish_batch,
}
use trading_monitoring_dashb.Store.Entries.{updated, lookup-apply_entries}

-- With no field set, the partial state changes nothing.
merge_patch-unchanged : (p : Patch) (s : RealtimeStore) → changed p ≡ false → merge_patch p s ≡ s
unfolding changed merge_patch
merge_patch-unchanged p s h = ground arith

-- The batch has been applied to the end, and this is what `set` has made of it.
pub record Applied (to_string : Js → String) (o : Option (Option Js)) (sse : SseBatch)
    (s s' : RealtimeStore) : Type 0 where
  pub appended : Option Js
  pub origin : o ≡ some appended
  pub result : s' ≡ merge_patch (next_state to_string s sse appended) s

some_eq {ℓ} : {A : Type ℓ} {a b : A} → some a ≡ some b → a ≡ b
some_eq h = cc

-- With or without a change, the result is the union of the state with the partial state.
pub union_eq :
    (p : Patch) (s : RealtimeStore) → (if changed p then merge_patch p s else s) ≡ merge_patch p s
union_eq p s = elim (Bool-cases (changed p)) [
  | inl c ↦ rw c
  | inr c ↦ rw c (sym (merge_patch-unchanged p s c))
]

finish_batch-Applied :
    (to_string : Js → String) (sse : SseBatch) (s : RealtimeStore) (o : Option (Option Js))
    {s' : RealtimeStore}
    → finish_batch to_string sse s o ≡ some s'
    → Applied to_string o sse s s'
finish_batch-Applied to_string sse s none h = cc
finish_batch-Applied to_string sse s (some a) h = record {
  appended = a;
  origin = refl;
  result = some_eq (sym h) ∙ union_eq (next_state to_string s sse a) s;
}

pub apply_sse_batch-Applied :
    (to_string : Js → String) (fresh : ℕ) (sse : SseBatch) (s : RealtimeStore) {s' : RealtimeStore}
    → apply_sse_batch to_string fresh sse s ≡ some s'
    → Applied to_string (appended_patch fresh s sse.batch) sse s s'
unfolding apply_sse_batch
apply_sse_batch-Applied to_string fresh sse s h =
    finish_batch-Applied to_string sse s (appended_patch fresh s sse.batch) h

-- Under each code of the batch's map stands the batch's payload, or an old payload with the same
-- fields; under any other code stands what stood there.
pub record MapUpdated (old new : Dict Js) (m : Option (Dict Js)) : Type 0 where
  pub holds :
      (code : String) (p : Js)
      → lookup code (map_entries m) ≡ some p
      → (x : Js) × (lookup code new ≡ some x) × (shallow_equal x p ≡ true)
  pub keeps :
      (code : String) → lookup code (map_entries m) ≡ none → lookup code new ≡ lookup code old

-- A payload that is kept has the fields of the new one.
fresh_same :
    (old : Option Js) (p : Js)
    → is_stale (or_undefined old) p ≡ false
    → (x : Js) × (old ≡ some x) × (shallow_equal x p ≡ true)
unfolding is_stale truthy
fresh_same none p h = cc
fresh_same (some x) p h = (x, refl, ground arith)

updated-holds :
    (old : Option Js) (p : Js)
    → (x : Js) × (updated old (some p) ≡ some x) × (shallow_equal x p ≡ true)
updated-holds old p = elim (Bool-cases (is_stale (or_undefined old) p)) [
  | inl e ↦ rw e (p, refl, shallow_equal_refl p)
  | inr e ↦ rw e (fresh_same old p e)
]

-- The loop over the entries of a map does so.
apply_entries-MapUpdated :
    (old : Dict Js) (m : Option (Dict Js))
    → IsUnique (map_entries m)
    → MapUpdated old (patched (apply_entries old none (map_entries m)) old) m
apply_entries-MapUpdated old m u = record {
  holds = λ code p e.
      rw (lookup-apply_entries old code (map_entries m) u, e) (updated-holds (lookup code old) p);
  keeps =
      λ code e. lookup-apply_entries old code (map_entries m) u ∙ ap (updated (lookup code old)) e;
}

-- The four maps of the store after a batch.
pub record MapsUpdated (b : ServingSseBatch) (s s' : RealtimeStore) : Type 0 where
  pub metric : MapUpdated s.metric_latest_by_code s'.metric_latest_by_code b.metric_latest_map
  pub market :
      MapUpdated s.market_summary_latest_by_code s'.market_summary_latest_by_code
        b.market_summary_map
  pub otc : MapUpdated s.otc_summary_latest_by_code s'.otc_summary_latest_by_code b.otc_summary_map
  pub quote : MapUpdated s.quote_latest_by_code s'.quote_latest_by_code b.quote_latest_map

merge_patch-MapsUpdated :
    (to_string : Js → String) (b : ServingSseBatch) (s : RealtimeStore) (a : Option Js)
    → HasUniqueCodes b
    → MapsUpdated b s (merge_patch (next_state to_string s (of_serving b) a) s)
unfolding merge_patch next_state truthy
merge_patch-MapsUpdated to_string b s a u = record {
  metric = apply_entries-MapUpdated s.metric_latest_by_code b.metric_latest_map u.metric;
  market = apply_entries-MapUpdated s.market_summary_latest_by_code b.market_summary_map u.market;
  otc = apply_entries-MapUpdated s.otc_summary_latest_by_code b.otc_summary_map u.otc;
  quote = apply_entries-MapUpdated s.quote_latest_by_code b.quote_latest_map u.quote;
}

-- For a batch of the manager in whose maps no code stands twice, applied to the end: in each of the
-- four maps by code, under each code of the batch there stands a payload with the same fields as
-- the batch's, and under every other code there stands what stood there before.
pub apply_sse_batch-MapsUpdated :
    (to_string : Js → String) (fresh : ℕ) (b : ServingSseBatch) (s : RealtimeStore)
    {s' : RealtimeStore}
    → HasUniqueCodes b
    → apply_sse_batch to_string fresh (of_serving b) s ≡ some s'
    → MapsUpdated b s s'
apply_sse_batch-MapsUpdated to_string fresh b s u h =
    let r = apply_sse_batch-Applied to_string fresh (of_serving b) s h in
    rw r.result (merge_patch-MapsUpdated to_string b s r.appended u)
