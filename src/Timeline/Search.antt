-- ===== src/Timeline/Search.antt =====
-- The binary search finds the position that a scan from the front finds.
use trading_monitoring_dashb.Base.{
  ℕ, zero, suc, ◌+◌, ◌-◌, ◌/◌, ◌≤◌, ◌<◌, true, false, List, [], ◌∷◌, ◌≡◌, arith, inl, inr,
  Bool-cases, All, length, get_elem?, ltb, if◌then◌else◌,
}
use trading_monitoring_dashb.Base.Int.{ℤ, ltb_ℤ, ◌≤ℤ◌}
use trading_monitoring_dashb.Base.Sort.{IsSorted}
use trading_monitoring_dashb.Timeline.{Row, is_before, search_loop, find_insert_index}

module _ {ℓ} {T : Type ℓ} (row : Row T) where
  -- How many points stand before the first one that is not earlier.
  unfoldable pub count_before : ℤ → List T → ℕ
  count_before minute [] = 0
  count_before minute (p ∷ ps) =
      if ltb_ℤ (row.minute_ts p) minute then suc (count_before minute ps) else 0

  pub count_before-le : (minute : ℤ) (s : List T) → count_before minute s ≤ length s
  unfolding count_before
  count_before-le minute [] = omega arith
  count_before-le minute (p ∷ ps) = ground (arith, count_before-le minute ps)

  -- A point that is earlier stands before that position.
  earlier_below :
      (minute : ℤ) (s : List T) (i : ℕ)
      → IsSorted row.minute_ts s
      → is_before row minute (get_elem? s i) ≡ true
      → i < count_before minute s
  unfolding count_before
  earlier_below minute [] i h e = cc
  earlier_below minute (p ∷ ps) zero h e = rw e (omega arith)
  earlier_below minute (p ∷ ps) (suc i) h e = elim (Bool-cases (ltb_ℤ (row.minute_ts p) minute)) [
    | inl f ↦ rw f (omega (arith, earlier_below minute ps i h.1 e))
    | inr f ↦ absurd (not_later ps i h.0 e f)
  ]
    where
      not_later :
          (qs : List T) (j : ℕ)
          → All (λ q. row.minute_ts p ≤ℤ row.minute_ts q) qs
          → is_before row minute (get_elem? qs j) ≡ true
          → ltb_ℤ (row.minute_ts p) minute ≡ false
          → ⊥
      not_later [] j a e f = cc
      not_later (q ∷ qs) zero a e f = ground (arith, a.0)
      not_later (q ∷ qs) (suc j) a e f = not_later qs j a.1 e f

  -- A point that is not stands at it or behind it.
  later_above :
      (minute : ℤ) (s : List T) (i : ℕ)
      → i < length s
      → is_before row minute (get_elem? s i) ≡ false
      → count_before minute s ≤ i
  unfolding count_before
  later_above minute [] i h e = absurd (omega arith)
  later_above minute (p ∷ ps) zero h e = rw e (omega arith)
  later_above minute (p ∷ ps) (suc i) h e = ground (arith, later_above minute ps i)

  search_loop-eq :
      (fuel : ℕ) (s : List T) (minute : ℤ) (low high : ℕ)
      → IsSorted row.minute_ts s
      → high ≤ length s
      → high - low ≤ fuel
      → low ≤ count_before minute s
      → count_before minute s ≤ high
      → search_loop row fuel s minute low high ≡ count_before minute s
  unfolding search_loop
  search_loop-eq zero s minute low high h n f a b = omega arith
  search_loop-eq (suc fuel) s minute low high h n f a b =
      let mid = (low + high) / 2 in
      elim (Bool-cases (ltb low high)) [
        | inr e ↦ rw e (ground arith)
        | inl e ↦
            let lt : low < high = ground arith in
            elim (Bool-cases (is_before row minute (get_elem? s mid))) [
              | inl g ↦
                  rw (e, g)
                    (search_loop-eq fuel s minute (mid + 1) high h n (omega arith)
                      (omega (arith, earlier_below minute s mid h g)) b)
              | inr g ↦
                  rw (e, g)
                    (search_loop-eq fuel s minute low mid h (omega arith) (omega arith) a
                      (later_above minute s mid (omega arith) g))
            ]
      ]

  -- On a series in the order of its minutes the loop ends, and it returns the number of points that
  -- are earlier than the given minute, which is what a scan from the front counts.
  pub find_insert_index-eq-count_before :
      (s : List T) (minute : ℤ)
      → IsSorted row.minute_ts s
      → find_insert_index row s minute ≡ count_before minute s
  unfolding find_insert_index
  find_insert_index-eq-count_before s minute h =
      search_loop-eq (length s) s minute 0 (length s) h (omega arith) (omega arith) (omega arith)
        (count_before-le minute s)
