-- ===== src/Store/Windows.antt =====
-- Joining two batches and applying the result leaves the same maps by code as applying them in
-- turn, up to payloads with the same fields.
use Prim.Native.String.{String}
use trading_monitoring_dashb.Base.{
  ℕ, true, Option, some, ◌≡◌, ap, sym, ◌∙◌, ◌⊎◌, inl, inr, Option-cases,
}
use trading_monitoring_dashb.Base.Dict.{Dict, lookup, IsUnique, or_value}
use trading_monitoring_dashb.Js.{Js, shallow_equal}
use trading_monitoring_dashb.Batch.{
  ServingSseBatch, map_entries, HasUniqueCodes, merge_map, merge_batch,
}
use trading_monitoring_dashb.Batch.Merge.{lookup-merge_map, merge_batch-HasUniqueCodes}
use trading_monitoring_dashb.Store.{RealtimeStore}
use trading_monitoring_dashb.Store.Apply.{of_serving, apply_sse_batch}
use trading_monitoring_dashb.Store.Lookups.{MapUpdated, apply_sse_batch-MapsUpdated}

-- Under each code the same payload stands in both maps, or none in both, or in each a payload with
-- the fields of one payload.
abbrev pub SamePayloads : Dict Js → Dict Js → Type 0
SamePayloads m n =
    (code : String)
    → (lookup code m ≡ lookup code n)
      ⊎ ((p x y : Js) × (lookup code m ≡ some x)
          × (lookup code n ≡ some y)
          × (shallow_equal x p ≡ true)
          × (shallow_equal y p ≡ true))

module _ {old mid last joined : Dict Js} (a b : Option (Dict Js)) (u : IsUnique (map_entries b))
    (first : MapUpdated old mid a) (second : MapUpdated mid last b)
    (both : MapUpdated old joined (merge_map a b)) where
  joined_entry :
      (code : String)
      → lookup code (map_entries (merge_map a b))
        ≡ or_value (lookup code (map_entries b)) (lookup code (map_entries a))
  joined_entry code = lookup-merge_map code a b u

  MapUpdated-SamePayloads : SamePayloads joined last
  MapUpdated-SamePayloads code = elim (Option-cases (lookup code (map_entries b))) [
    | inr (p, e) ↦
        let (x, hx, sx) =
          both.holds code p
            (joined_entry code ∙ ap (λ o. or_value o (lookup code (map_entries a))) e) in
        let (y, hy, sy) = second.holds code p e in inr (p, x, y, hx, hy, sx, sy)
    | inl e ↦ elim (Option-cases (lookup code (map_entries a))) [
      | inr (p, f) ↦
          let (x, hx, sx) =
            both.holds code p
              (joined_entry code ∙ ap (λ o. or_value o (lookup code (map_entries a))) e ∙ f) in
          let (y, hy, sy) = first.holds code p f in
          inr (p, x, y, hx, second.keeps code e ∙ hy, sx, sy)
      | inl f ↦ inl (
          both.keeps code
            (joined_entry code ∙ ap (λ o. or_value o (lookup code (map_entries a))) e ∙ f)
          ∙ sym (first.keeps code f)
          ∙ sym (second.keeps code e))
    ]
  ]

pub record SameMaps (s s' : RealtimeStore) : Type 0 where
  pub metric : SamePayloads s.metric_latest_by_code s'.metric_latest_by_code
  pub market : SamePayloads s.market_summary_latest_by_code s'.market_summary_latest_by_code
  pub otc : SamePayloads s.otc_summary_latest_by_code s'.otc_summary_latest_by_code
  pub quote : SamePayloads s.quote_latest_by_code s'.quote_latest_by_code

module _ (to_string : Js → String) (a b : ServingSseBatch) (s : RealtimeStore) where
  -- For two batches of the manager in whose maps no code stands twice: if the joined batch is
  -- applied to the end, and also the first batch and then the second, the four maps by code of the
  -- two resulting stores have, under each code, the same payload or payloads with the same fields.
  pub merge_batch-SameMaps :
      (f g h : ℕ) {joined mid last : RealtimeStore}
      → HasUniqueCodes a
      → HasUniqueCodes b
      → apply_sse_batch to_string f (of_serving (merge_batch a b)) s ≡ some joined
      → apply_sse_batch to_string g (of_serving a) s ≡ some mid
      → apply_sse_batch to_string h (of_serving b) mid ≡ some last
      → SameMaps joined last
  merge_batch-SameMaps f g h {mid = mid} u v p q r =
      let both =
        apply_sse_batch-MapsUpdated to_string f (merge_batch a b) s
          (merge_batch-HasUniqueCodes a b u v) p in
      let first = apply_sse_batch-MapsUpdated to_string g a s u q in
      let second = apply_sse_batch-MapsUpdated to_string h b mid v r in
      unfold merge_batch in
      record {
        metric =
            MapUpdated-SamePayloads a.metric_latest_map b.metric_latest_map v.metric first.metric
              second.metric both.metric;
        market =
            MapUpdated-SamePayloads a.market_summary_map b.market_summary_map v.market first.market
              second.market both.market;
        otc =
            MapUpdated-SamePayloads a.otc_summary_map b.otc_summary_map v.otc first.otc second.otc
              both.otc;
        quote =
            MapUpdated-SamePayloads a.quote_latest_map b.quote_latest_map v.quote first.quote
              second.quote both.quote;
      }
