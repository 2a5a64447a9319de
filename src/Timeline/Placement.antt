-- ===== src/Timeline/Placement.antt =====
-- Putting a point into a series, against a definition that walks through the list.
use trading_monitoring_dashb.Base.{
  ℕ, zero, suc, true, false, Option, none, some, List, [], ◌∷◌, ◌++◌, ◌≡◌, refl, ap, ◌∙◌, arith,
  inl, inr, Bool-cases, Option-cases, All, All-map, get_elem?, set, take, drop, if◌then◌else◌,
}
use trading_monitoring_dashb.Base.Int.{ℤ, ltb_ℤ, eq_ℤ, eq_ℤ_iff, ◌≤ℤ◌, ◌<ℤ◌}
use trading_monitoring_dashb.Base.NumMap.{NumMap, map_get}
use trading_monitoring_dashb.Base.Sort.{IsSorted, IsAscending, find_key}
use trading_monitoring_dashb.Timeline.{
  Row, Upsert, is_same_point, if_at, indexed_point, upsert_found, upsert_indexed, upsert_point,
}
use trading_monitoring_dashb.Timeline.Search.{count_before, find_insert_index-eq-count_before}

module _ {ℓ} {T : Type ℓ} (row : Row T) where
  -- The series with `p` in the place of the point of its minute, or else between its neighbours.
  unfoldable pub put_point : T → List T → List T
  put_point p [] = p ∷ []
  put_point p (q ∷ qs) =
      if ltb_ℤ (row.minute_ts q) (row.minute_ts p)
      then q ∷ put_point p qs
      else if eq_ℤ (row.minute_ts q) (row.minute_ts p)
      then p ∷ qs
      else p ∷ q ∷ qs

  pub IsAscending-IsSorted : (s : List T) → IsAscending row.minute_ts s → IsSorted row.minute_ts s
  IsAscending-IsSorted [] h = tt
  IsAscending-IsSorted (p ∷ ps) h = (
    All-map (λ q. row.minute_ts p <ℤ row.minute_ts q) (λ q. row.minute_ts p ≤ℤ row.minute_ts q)
        (λ q k. omega arith) ps h.0,
    IsAscending-IsSorted ps h.1,
  )

  put_point-All {κ} : (P : T → Type κ) (p : T) (s : List T) → P p → All P s → All P (put_point p s)
  unfolding put_point
  put_point-All P p [] h a = (h, tt)
  put_point-All P p (q ∷ qs) h a = elim (Bool-cases (ltb_ℤ (row.minute_ts q) (row.minute_ts p))) [
    | inl e ↦ rw e (a.0, put_point-All P p qs h a.1)
    | inr e ↦ elim (Bool-cases (eq_ℤ (row.minute_ts q) (row.minute_ts p))) [
      | inl f ↦ rw (e, f) (h, a.1)
      | inr f ↦ rw (e, f) (h, a)
    ]
  ]

  pub put_point-IsAscending :
      (p : T) (s : List T) → IsAscending row.minute_ts s → IsAscending row.minute_ts (put_point p s)
  unfolding put_point
  put_point-IsAscending p [] h = (tt, tt)
  put_point-IsAscending p (q ∷ qs) h =
      elim (Bool-cases (ltb_ℤ (row.minute_ts q) (row.minute_ts p))) [
        | inl e ↦ rw e (
          put_point-All (λ r. row.minute_ts q <ℤ row.minute_ts r) p qs (ground arith) h.0,
          put_point-IsAscending p qs h.1,
        )
        | inr e ↦
            let le : row.minute_ts p ≤ℤ row.minute_ts q = ground arith in
            let above : All (λ r. row.minute_ts p <ℤ row.minute_ts r) qs =
              All-map (λ r. row.minute_ts q <ℤ row.minute_ts r)
                (λ r. row.minute_ts p <ℤ row.minute_ts r) (λ r k. omega arith) qs h.0 in
            elim (Bool-cases (eq_ℤ (row.minute_ts q) (row.minute_ts p))) [
              | inl f ↦ rw (e, f) (above, h.1)
              | inr f ↦ rw (e, f) ((ground arith, above), h)
            ]
      ]

  if_at-some :
      (minute : ℤ) (o : Option T) (q : T)
      → if_at row minute o ≡ some q
      → (o ≡ some q) × (eq_ℤ (row.minute_ts q) minute ≡ true)
  if_at-some minute none q h = cc
  if_at-some minute (some p) q h = elim (Bool-cases (eq_ℤ (row.minute_ts p) minute)) [
    | inl e ↦ ground arith
    | inr e ↦ ground arith
  ]

  not_above :
      (s : List T) (i : ℕ) (a k : ℤ) {q : T}
      → All (λ p. a <ℤ row.minute_ts p) s
      → get_elem? s i ≡ some q
      → eq_ℤ (row.minute_ts q) k ≡ true
      → a <ℤ k
  not_above [] i a k h e f = cc
  not_above (p ∷ ps) zero a k h e f = ground (arith, h.0)
  not_above (p ∷ ps) (suc i) a k h e f = not_above ps i a k h.1 e f

  -- At a position that holds the minute of the point, a write puts the point in.
  set-eq-put_point :
      (s : List T) (i : ℕ) (p : T) {q : T}
      → IsAscending row.minute_ts s
      → get_elem? s i ≡ some q
      → eq_ℤ (row.minute_ts q) (row.minute_ts p) ≡ true
      → set s i p ≡ put_point p s
  unfolding put_point
  set-eq-put_point [] i p h e f = cc
  set-eq-put_point (r ∷ rs) zero p h e f = ground arith
  set-eq-put_point (r ∷ rs) (suc i) p h e f =
      let lt : row.minute_ts r <ℤ row.minute_ts p =
        not_above rs i (row.minute_ts r) (row.minute_ts p) h.0 e f in
      let below : ltb_ℤ (row.minute_ts r) (row.minute_ts p) ≡ true = ground arith in
      rw below (ap (λ t. r ∷ t) (set-eq-put_point rs i p h.1 e f))

  find_key-get_elem? :
      (s : List T) (i : ℕ) (k : ℤ) {q : T}
      → IsAscending row.minute_ts s
      → get_elem? s i ≡ some q
      → eq_ℤ (row.minute_ts q) k ≡ true
      → find_key row.minute_ts k s ≡ some q
  unfolding find_key
  find_key-get_elem? [] i k h e f = cc
  find_key-get_elem? (r ∷ rs) zero k h e f = ground arith
  find_key-get_elem? (r ∷ rs) (suc i) k h e f =
      let lt : row.minute_ts r <ℤ k = not_above rs i (row.minute_ts r) k h.0 e f in
      let ne : eq_ℤ (row.minute_ts r) k ≡ false = ground arith in
      rw ne (find_key-get_elem? rs i k h.1 e f)

  -- A point whose minute is not there goes to the position of the search.
  insert-eq-put_point :
      (s : List T) (p : T)
      → if_at row (row.minute_ts p) (get_elem? s (count_before row (row.minute_ts p) s)) ≡ none
      → take (count_before row (row.minute_ts p) s) s
          ++ (p ∷ drop (count_before row (row.minute_ts p) s) s)
        ≡ put_point p s
  unfolding count_before put_point
  insert-eq-put_point [] p e = refl
  insert-eq-put_point (q ∷ qs) p e = elim (Bool-cases (ltb_ℤ (row.minute_ts q) (row.minute_ts p))) [
    | inl f ↦ rw f (ap (λ t. q ∷ t) (insert-eq-put_point qs p (rw f at e)))
    | inr f ↦ elim (Bool-cases (eq_ℤ (row.minute_ts q) (row.minute_ts p))) [
      | inl g ↦ absurd (found q g (rw f at e))
      | inr g ↦ rw (f, g) refl
    ]
  ]
    where
      found :
          (r : T)
          → eq_ℤ (row.minute_ts r) (row.minute_ts p) ≡ true
          → if_at row (row.minute_ts p) (some r) ≡ none
          → ⊥
      found r g e = ground arith

  -- A change puts the point into the series; without one the point of this minute is there already.
  pub record Upserts (s : List T) (p : T) (r : Upsert T) : Type ℓ where
    pub changed : r.did_change ≡ true → r.next_series ≡ put_point p s
    pub unchanged :
        r.did_change ≡ false
        → (r.next_series ≡ s)
          × ((q : T) × (find_key row.minute_ts (row.minute_ts p) s ≡ some q)
              × (is_same_point row q p ≡ true))

  replaced :
      (s : List T) (p q : T) (i : ℕ) (m n : NumMap ℕ)
      → IsAscending row.minute_ts s
      → get_elem? s i ≡ some q
      → eq_ℤ (row.minute_ts q) (row.minute_ts p) ≡ true
      → Upserts s p (
          if is_same_point row q p
          then record { next_series = s; next_index_map = m; did_change = false }
          else record { next_series = set s i p; next_index_map = n; did_change = true })
  replaced s p q i m n h e f = elim (Bool-cases (is_same_point row q p)) [
    | inl g ↦ rw g (record {
      changed = λ c. cc;
      unchanged = λ c. (refl, (q, find_key-get_elem? s i (row.minute_ts p) h e f, g));
    })
    | inr g ↦ rw g (record { changed = λ c. set-eq-put_point s i p h e f; unchanged = λ c. cc })
  ]

  upsert_found-Upserts :
      (s : List T) (p : T) (o : Option T)
      → IsAscending row.minute_ts s
      → if_at row (row.minute_ts p) (get_elem? s (count_before row (row.minute_ts p) s)) ≡ o
      → Upserts s p (upsert_found row s p (count_before row (row.minute_ts p) s) o)
  upsert_found-Upserts s p none h e = record {
    changed = λ c. insert-eq-put_point s p e;
    unchanged = λ c. cc;
  }
  upsert_found-Upserts s p (some q) h e =
      let (g, f) = if_at-some (row.minute_ts p) _ q e in
      replaced s p q (count_before row (row.minute_ts p) s) _ _ h g f

  pub indexed_point-some :
      (s : List T) (k : ℤ) (o : Option ℕ) {i : ℕ} {q : T}
      → indexed_point row s k o ≡ some (i, q)
      → (get_elem? s i ≡ some q) × (eq_ℤ (row.minute_ts q) k ≡ true)
  indexed_point-some s k none h = cc
  indexed_point-some s k (some j) {i} {q} h = elim (Option-cases (if_at row k (get_elem? s j))) [
    | inl e ↦ absurd (no_index e)
    | inr (r, e) ↦ let (g, f) = if_at-some k _ r e in ground (arith, indices r e, g, f)
  ]
    where
      no_index : if_at row k (get_elem? s j) ≡ none → ⊥
      no_index e = ground arith

      indices : (r : T) → if_at row k (get_elem? s j) ≡ some r → (j ≡ i) × (r ≡ q)
      indices r e = ground arith

  upsert_indexed-Upserts :
      (s : List T) (m : NumMap ℕ) (p : T) (o : Option ℕ)
      → IsAscending row.minute_ts s
      → Upserts s p (upsert_indexed row s m p (indexed_point row s (row.minute_ts p) o))
  upsert_indexed-Upserts s m p o h = elim (Option-cases (indexed_point row s (row.minute_ts p) o)) [
    | inl e ↦
        rw (e, find_insert_index-eq-count_before row s (row.minute_ts p) (IsAscending-IsSorted s h))
          (upsert_found-Upserts s p _ h refl)
    | inr ((i, q), e) ↦
        let (g, f) = indexed_point-some s (row.minute_ts p) o e in rw e (replaced s p q i m m h g f)
  ]

  -- For a series in which the minutes ascend, and whatever the index map holds, also one that is out
  -- of date: if a change is reported, the new series is the old one with the point in the place of
  -- the point of its minute, or between its neighbours if its minute was not there; if none is, the
  -- series is the old one, and its point of this minute has the same value under each key.
  pub upsert_point-Upserts :
      (s : List T) (m : NumMap ℕ) (p : T)
      → IsAscending row.minute_ts s
      → Upserts s p (upsert_point row s m p)
  unfolding upsert_point
  upsert_point-Upserts s m p h = upsert_indexed-Upserts s m p (map_get (row.minute_ts p) m) h

  -- The series stays in order.
  pub upsert_point-IsAscending :
      (s : List T) (m : NumMap ℕ) (p : T)
      → IsAscending row.minute_ts s
      → IsAscending row.minute_ts (upsert_point row s m p).next_series
  upsert_point-IsAscending s m p h =
      let u = upsert_point-Upserts s m p h in
      elim (Bool-cases (upsert_point row s m p).did_change) [
        | inl e ↦ rw (u.changed e) (put_point-IsAscending p s h)
        | inr e ↦ rw (u.unchanged e).0 h
      ]

  pub find_key-put_point :
      (k : ℤ) (p : T) (s : List T)
      → IsAscending row.minute_ts s
      → find_key row.minute_ts k (put_point p s)
        ≡ (if eq_ℤ (row.minute_ts p) k then some p else find_key row.minute_ts k s)
  unfolding find_key put_point
  find_key-put_point k p [] h = refl
  find_key-put_point k p (q ∷ qs) h =
      elim (Bool-cases (ltb_ℤ (row.minute_ts q) (row.minute_ts p))) [
        | inl e ↦
            rw (e, find_key-put_point k p qs h.1)
              (elim (Bool-cases (eq_ℤ (row.minute_ts q) k)) [
                | inr f ↦ rw f refl
                | inl f ↦ rw (f, not_same (row.minute_ts q) (row.minute_ts p) e f) refl
              ])
        | inr e ↦ elim (Bool-cases (eq_ℤ (row.minute_ts q) (row.minute_ts p))) [
          | inr f ↦ rw (e, f) refl
          | inl f ↦
              let same : row.minute_ts q ≡ row.minute_ts p =
                (eq_ℤ_iff (row.minute_ts q) (row.minute_ts p)).0 f in
              rw (e, f)
                (elim (Bool-cases (eq_ℤ (row.minute_ts p) k)) [
                  | inl g ↦ rw g refl
                  | inr g ↦ rw (g, (ap (λ t. eq_ℤ t k) same ∙ g)) refl
                ])
        ]
      ]
    where
      not_same : (a b : ℤ) → ltb_ℤ a b ≡ true → eq_ℤ a k ≡ true → eq_ℤ b k ≡ false
      not_same a b e f = ground arith
