-- ===== src/Batch/Merge.antt =====
-- Joining batches: what stands in a joined batch, and that the two emptiness tests agree.
use Prim.Native.String.{String}
use text.Mathlib.Text.{◌==◌}
use trading_monitoring_dashb.Base.{
  Bool, true, false, not, ◌&&◌, ◌||◌, Option, none, some, [], ◌∷◌, ◌≡◌, refl, arith, Bool-cases,
  inl, inr,
}
use trading_monitoring_dashb.Base.Text.{is_nil}
use trading_monitoring_dashb.Base.Dict.{
  Dict, lookup, insert, assign, IsUnique, or_value, lookup-assign, assign-IsUnique,
}
use trading_monitoring_dashb.Js.{Js, truthy, is_undefined, is_number}
use trading_monitoring_dashb.Batch.{
  ServingSseBatch, has_map_entries, map_entries, HasUniqueCodes, should_apply_batch, is_empty,
  merge_map, merge_batch, prefer,
}

-- Under each code: the incoming payload, or else the one that was there.
pub lookup-merge_map :
    (code : String) (t i : Option (Dict Js))
    → IsUnique (map_entries i)
    → lookup code (map_entries (merge_map t i))
      ≡ or_value (lookup code (map_entries i)) (lookup code (map_entries t))
unfolding merge_map lookup
lookup-merge_map code t none u = refl
lookup-merge_map code none (some i) u = or_value_absent (lookup code i)
  where
    or_value_absent : (o : Option Js) → o ≡ or_value o none
    or_value_absent none = refl
    or_value_absent (some v) = refl
lookup-merge_map code (some t) (some i) u = lookup-assign code t i u

merge_map-IsUnique :
    (t i : Option (Dict Js))
    → IsUnique (map_entries t)
    → IsUnique (map_entries i)
    → IsUnique (map_entries (merge_map t i))
unfolding merge_map
merge_map-IsUnique t none u v = u
merge_map-IsUnique none (some i) u v = v
merge_map-IsUnique (some t) (some i) u v = assign-IsUnique t i u

pub merge_batch-HasUniqueCodes :
    (t i : ServingSseBatch) → HasUniqueCodes t → HasUniqueCodes i → HasUniqueCodes (merge_batch t i)
unfolding merge_batch
merge_batch-HasUniqueCodes t i u v = record {
  metric = merge_map-IsUnique t.metric_latest_map i.metric_latest_map u.metric v.metric;
  market = merge_map-IsUnique t.market_summary_map i.market_summary_map u.market v.market;
  otc = merge_map-IsUnique t.otc_summary_map i.otc_summary_map u.otc v.otc;
  quote = merge_map-IsUnique t.quote_latest_map i.quote_latest_map u.quote v.quote;
}

not-or : (a b : Bool) → not (a || b) ≡ (not a && not b)
not-or true b = refl
not-or false b = refl

not-not : (a : Bool) → not (not a) ≡ a
not-not true = refl
not-not false = refl

-- For every batch: the test by which an incoming batch is ignored and the test by which a pending
-- batch is applied are each other's negation.
pub is_empty-should_apply_batch : (b : ServingSseBatch) → is_empty b ≡ not (should_apply_batch b)
unfolding is_empty should_apply_batch
is_empty-should_apply_batch b = simp (not-or, not-not)

insert_entries : (k : String) (v : Js) (m : Dict Js) → is_nil (insert k v m) ≡ false
unfolding insert
insert_entries k v [] = refl
insert_entries k v ((j, w) ∷ m) = elim (Bool-cases (j == k)) [ inl e ↦ rw e | inr e ↦ rw e ]

assign_entries : (t i : Dict Js) → is_nil t ≡ false → is_nil (assign t i) ≡ false
unfolding assign
assign_entries t [] h = h
assign_entries t ((k, v) ∷ i) h = assign_entries (insert k v t) i (insert_entries k v t)

merge_map_entries :
    (t i : Option (Dict Js)) → has_map_entries t ≡ true → has_map_entries (merge_map t i) ≡ true
unfolding merge_map
merge_map_entries none i h = cc
merge_map_entries (some t) none h = h
merge_map_entries (some t) (some i) h = rw (assign_entries t i (not_true (is_nil t) h))
  where
    not_true : (b : Bool) → not b ≡ true → b ≡ false
    not_true b h = ground arith

prefer_number : (i t : Js) → is_number t ≡ true → is_number (prefer (is_number i) i t) ≡ true
prefer_number i t h = ground arith

prefer_defined :
    (i t : Js) → is_undefined t ≡ false → is_undefined (prefer (not (is_undefined i)) i t) ≡ false
prefer_defined i t h = ground arith

prefer-truthy : (i t : Js) → truthy t ≡ true → truthy (prefer (truthy i) i t) ≡ true
prefer-truthy i t h = ground arith

or_mono :
    {a b c d : Bool}
    → (a ≡ true → c ≡ true)
    → (b ≡ true → d ≡ true)
    → (a || b) ≡ true
    → (c || d) ≡ true
or_mono {a = true} f g h = rw (f refl)
or_mono {a = false} {c = c} f g h = rw (g h) (or_true c)
  where
    or_true : (c : Bool) → (c || true) ≡ true
    or_true true = refl
    or_true false = refl

not_mono : {a b : Bool} → (a ≡ false → b ≡ false) → not a ≡ true → not b ≡ true
not_mono {a = true} f h = cc
not_mono {a = false} f h = rw (f refl)

-- For every two batches: what is joined to a batch that would be applied never makes it one that
-- would be dropped.
pub should_apply-merge_batch :
    (t i : ServingSseBatch)
    → should_apply_batch t ≡ true
    → should_apply_batch (merge_batch t i) ≡ true
unfolding should_apply_batch merge_batch
should_apply-merge_batch t i h =
    (or_mono
        (or_mono
          (or_mono
            (or_mono
              (or_mono
                (or_mono
                  (or_mono
                    (or_mono
                      (or_mono
                        (or_mono (prefer-truthy i.kbar_current t.kbar_current)
                          (merge_map_entries t.metric_latest_map i.metric_latest_map))
                        (merge_map_entries t.market_summary_map i.market_summary_map))
                      (merge_map_entries t.otc_summary_map i.otc_summary_map))
                    (merge_map_entries t.quote_latest_map i.quote_latest_map))
                  (prefer-truthy i.spot_latest_list t.spot_latest_list))
                (prefer-truthy i.spot_market_distribution_latest t.spot_market_distribution_latest))
              (prefer-truthy i.spot_market_distribution_series t.spot_market_distribution_series))
            (not_mono (prefer_defined i.index_contrib_ranking t.index_contrib_ranking)))
          (not_mono (prefer_defined i.index_contrib_sector t.index_contrib_sector)))
        (prefer_number i.heartbeat_ts t.heartbeat_ts))
      h
