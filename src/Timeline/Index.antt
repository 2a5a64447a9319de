-- ===== src/Timeline/Index.antt =====
-- The map from minutes to positions stays true to the series.
use trading_monitoring_dashb.Base.{
  ℕ, zero, suc, ◌+◌, true, false, Option, none, some, List, [], ◌∷◌, ◌≡◌, refl, sym, ap, ◌∙◌, arith,
  inl, inr, Bool-cases, Option-cases, All, get_elem?, set, if◌then◌else◌,
}
use trading_monitoring_dashb.Base.Int.{ℤ, eq_ℤ, eq_ℤ_iff, ◌<ℤ◌}
use trading_monitoring_dashb.Base.NumMap.{NumMap, map_get, map_set, map_get-map_set}
use trading_monitoring_dashb.Base.Sort.{IsAscending}
use trading_monitoring_dashb.Timeline.{
  Row, is_same_point, if_at, indexed_point, rebuild_from, rebuild_index_map, upsert_found,
  upsert_indexed, upsert_point, find_insert_index,
}
use trading_monitoring_dashb.Timeline.Placement.{upsert_point-IsAscending, indexed_point-some}

module _ {ℓ} {T : Type ℓ} (row : Row T) where
  abbrev next_index : Option ℕ → Option ℕ
  next_index none = none
  next_index (some i) = some (suc i)

  -- The position of the first point of a minute.
  unfoldable pub index_of : ℤ → List T → Option ℕ
  index_of k [] = none
  index_of k (p ∷ ps) = if eq_ℤ (row.minute_ts p) k then some 0 else next_index (index_of k ps)

  -- The map holds the positions of the minutes that are in the series, and nothing else.
  abbrev pub IsIndex : List T → NumMap ℕ → Type 0
  IsIndex s m = (k : ℤ) → map_get k m ≡ index_of k s

  -- A position in the rest of a series, or what was known before.
  abbrev shifted : ℕ → Option ℕ → Option ℕ → Option ℕ
  shifted i none o = o
  shifted i (some j) o = some (i + j)

  absent_above :
      (k : ℤ) (ps : List T) (a : ℤ)
      → All (λ q. a <ℤ row.minute_ts q) ps
      → eq_ℤ a k ≡ true
      → index_of k ps ≡ none
  unfolding index_of
  absent_above k [] a h e = refl
  absent_above k (q ∷ qs) a h e =
      let ne : eq_ℤ (row.minute_ts q) k ≡ false = ground (arith, h.0) in
      rw (ne, absent_above k qs a h.1 e)

  shifted-next : (i : ℕ) (o b : Option ℕ) → shifted (i + 1) o b ≡ shifted i (next_index o) b
  shifted-next i none b = refl
  shifted-next i (some j) b = ap some (omega arith)

  rebuild_from-get :
      (i : ℕ) (m : NumMap ℕ) (s : List T) (k : ℤ)
      → IsAscending row.minute_ts s
      → map_get k (rebuild_from row i m s) ≡ shifted i (index_of k s) (map_get k m)
  unfolding rebuild_from index_of
  rebuild_from-get i m [] k h = refl
  rebuild_from-get i m (p ∷ ps) k h =
      rebuild_from-get (i + 1) (map_set (row.minute_ts p) i m) ps k h.1
      ∙ ap (shifted (i + 1) (index_of k ps)) (map_get-map_set (row.minute_ts p) k i m)
      ∙ (elim (Bool-cases (eq_ℤ (row.minute_ts p) k)) [
        | inl e ↦ rw (e, absent_above k ps (row.minute_ts p) h.0 e) (ap some (omega arith))
        | inr e ↦ rw e (shifted-next i (index_of k ps) (map_get k m))
      ])

  shifted-zero : (o : Option ℕ) → shifted 0 o none ≡ o
  shifted-zero none = refl
  shifted-zero (some i) = ap some (omega arith)

  pub rebuild-IsIndex :
      (s : List T) → IsAscending row.minute_ts s → IsIndex s (rebuild_index_map row s)
  unfolding rebuild_index_map map_get
  rebuild-IsIndex s h k = rebuild_from-get 0 [] s k h ∙ shifted-zero (index_of k s)

  -- A write that keeps the minute keeps the positions.
  index_of-set :
      (s : List T) (i : ℕ) (p : T) (k : ℤ) {q : T}
      → get_elem? s i ≡ some q
      → eq_ℤ (row.minute_ts q) (row.minute_ts p) ≡ true
      → index_of k (set s i p) ≡ index_of k s
  unfolding index_of
  index_of-set [] i p k e f = cc
  index_of-set (r ∷ rs) zero p k e f = ground (arith, eq_ℤ_iff (row.minute_ts r) (row.minute_ts p))
  index_of-set (r ∷ rs) (suc i) p k e f = rw (index_of-set rs i p k e f)

  upsert_found-IsIndex :
      (s : List T) (p : T) (i : ℕ) (o : Option T)
      → IsAscending row.minute_ts s
      → IsAscending row.minute_ts (upsert_found row s p i o).next_series
      → IsIndex (upsert_found row s p i o).next_series (upsert_found row s p i o).next_index_map
  upsert_found-IsIndex s p i none h a = rebuild-IsIndex _ a
  upsert_found-IsIndex s p i (some q) h a = elim (Bool-cases (is_same_point row q p)) [
    | inl e ↦ rw e (rebuild-IsIndex s h)
    | inr e ↦ rw e (rebuild-IsIndex (set s i p) (rw e at a))
  ]

  upsert_indexed-IsIndex :
      (s : List T) (m : NumMap ℕ) (p : T) (o : Option ℕ)
      → IsAscending row.minute_ts s
      → IsIndex s m
      → IsAscending row.minute_ts
          (upsert_indexed row s m p (indexed_point row s (row.minute_ts p) o)).next_series
      → IsIndex
          (upsert_indexed row s m p (indexed_point row s (row.minute_ts p) o)).next_series
          (upsert_indexed row s m p (indexed_point row s (row.minute_ts p) o)).next_index_map
  upsert_indexed-IsIndex s m p o h x a =
      elim (Option-cases (indexed_point row s (row.minute_ts p) o)) [
        | inl e ↦ rw e (
            upsert_found-IsIndex s p (find_insert_index row s (row.minute_ts p))
              (if_at row (row.minute_ts p)
                (get_elem? s (find_insert_index row s (row.minute_ts p))))
              h (rw e at a))
        | inr ((i, q), e) ↦
            let (g, f) = indexed_point-some row s (row.minute_ts p) o e in
            elim (Bool-cases (is_same_point row q p)) [
              | inl c ↦ rw (e, c) x
              | inr c ↦ rw (e, c) (λ k. x k ∙ sym (index_of-set s i p k g f))
            ]
      ]

  -- For a series in which the minutes ascend, with a map that holds just the positions of its
  -- minutes: the new map does so for the new series, in which the minutes ascend.
  pub upsert_point-IsIndex :
      (s : List T) (m : NumMap ℕ) (p : T)
      → IsAscending row.minute_ts s
      → IsIndex s m
      → IsAscending row.minute_ts (upsert_point row s m p).next_series
        × IsIndex (upsert_point row s m p).next_series (upsert_point row s m p).next_index_map
  unfolding upsert_point
  upsert_point-IsIndex s m p h x =
      let a = upsert_point-IsAscending row s m p h in
      (a, upsert_indexed-IsIndex s m p (map_get (row.minute_ts p) m) h x a)
