-- ===== src/EstimatedVolume/Expected.antt =====
-- The baseline of the estimated turnover, described by the rows themselves: the point that a minute
-- is to have, as a record, without the maps and samples of estimated-volume-mapper.ts.
use trading_monitoring_dashb.Base.{
  ℕ, Bool, true, false, Option, none, some, List, [], ◌∷◌, ◌≡◌, refl, ap, ◌∙◌, arith, inl, inr,
  Bool-cases, if◌then◌else◌, ◌+◌, ◌*◌,
}
use trading_monitoring_dashb.Base.Int.{ℤ, pos, negsuc, eq_ℤ, leb_ℤ, ltb_ℤ}
use trading_monitoring_dashb.Base.NumMap.{NumMap, map_get, map_get-map_set}
use trading_monitoring_dashb.OrderFlow.{minute_key}
use trading_monitoring_dashb.EstimatedVolume.{
  VolumePlatform, MarketSummaryPoint, EstimatedVolumeSeriesPoint, to_minute_sample, sample_of,
  collect_yesterday, add_yesterday, with_diff, with_estimated_diff, or_number,
}

abbrev pub positive_part : ℤ → ℤ
positive_part (pos n) = pos n
positive_part (negsuc n) = pos 0

abbrev pub negative_part : ℤ → ℤ
negative_part (pos n) = pos 0
negative_part (negsuc n) = negsuc n

abbrev pub given_else : Option ℤ → ℤ → ℤ
given_else none b = b
given_else (some a) b = a

-- A row is at minute `k` if it has a time in that minute and an estimate.
abbrev pub row_at : ℤ → Option ℤ → Option ℤ → Bool
row_at k (some ts) (some estimated) = eq_ℤ (minute_key ts) k
row_at k _ _ = false

-- The last of the rows at minute `k`, or `o` if there is none.
unfoldable pub last_row :
    ℤ → Option MarketSummaryPoint → List MarketSummaryPoint → Option MarketSummaryPoint
last_row k o [] = o
last_row k o (p ∷ ps) =
    last_row k (if row_at k p.minute_ts p.estimated_turnover then some p else o) ps

-- What is known of a row that `last_row` finds.
abbrev pub IsRowAt : ℤ → Option MarketSummaryPoint → Type 0
IsRowAt k none = Unit
IsRowAt k (some p) = row_at k p.minute_ts p.estimated_turnover ≡ true

pub last_row-IsRowAt :
    (k : ℤ) (o : Option MarketSummaryPoint) (ps : List MarketSummaryPoint)
    → IsRowAt k o
    → IsRowAt k (last_row k o ps)
unfolding last_row
last_row-IsRowAt k o [] h = h
last_row-IsRowAt k o (p ∷ ps) h =
    last_row-IsRowAt k (if row_at k p.minute_ts p.estimated_turnover then some p else o) ps
      (elim (Bool-cases (row_at k p.minute_ts p.estimated_turnover)) [
        | inl e ↦ rw e e
        | inr e ↦ rw e h
      ])

module _ (platform : VolumePlatform) where
  -- The minute of the day that the clock shows.
  abbrev pub clock_minute : ℤ → ℤ
  clock_minute t = pos ((platform.clock t).0 * 60 + (platform.clock t).1)

  -- The estimate of the last row at the minute `d` of the day, or `o` if there is none.
  abbrev pub estimate_or : ℤ → Option ℤ → Option ℤ → Option ℤ → Option ℤ
  estimate_or d o (some ts) (some estimated) =
      if eq_ℤ (clock_minute (minute_key ts)) d then some estimated else o
  estimate_or d o _ _ = o

  unfoldable pub last_estimate : ℤ → Option ℤ → List MarketSummaryPoint → Option ℤ
  last_estimate d o [] = o
  last_estimate d o (p ∷ ps) = last_estimate d (estimate_or d o p.minute_ts p.estimated_turnover) ps

  -- The point of minute `k` with today's estimate, yesterday's, and their difference.
  abbrev pub point_with : ℤ → ℤ → ℤ → ℤ → EstimatedVolumeSeriesPoint
  point_with k today yesterday diff = record {
    minute_ts = k;
    minute_of_day = clock_minute k;
    time = platform.label k;
    yesterday_estimated = yesterday;
    today_estimated = today;
    positive_diff = positive_part diff;
    negative_diff = negative_part diff;
  }

  abbrev pub point_from :
      ℤ → MarketSummaryPoint → Option ℤ → Option ℤ → Option EstimatedVolumeSeriesPoint
  point_from k p none fallback = none
  point_from k p (some today) fallback =
      let yesterday = given_else p.yesterday_estimated_turnover (given_else fallback (pos 0)) in
      some (
        point_with k today yesterday
          (given_else p.estimated_turnover_diff (platform.minus today yesterday)))

  -- The point of minute `k`: from the last row of today at that minute, with yesterday's estimate
  -- that the row gives, else that of yesterday's last row at the same minute of the day, else zero;
  -- and with the difference that the row gives, else that of the two estimates.
  abbrev pub expected_point :
      ℤ → Option MarketSummaryPoint → List MarketSummaryPoint → Option EstimatedVolumeSeriesPoint
  expected_point k none yesterday = none
  expected_point k (some p) yesterday =
      point_from k p p.estimated_turnover (last_estimate (clock_minute k) none yesterday)

  pub or_number-eq : (o : Option ℤ) (b : ℤ) → or_number o b ≡ given_else o b
  or_number-eq none b = refl
  or_number-eq (some a) b = refl

  positive_eq : (d : ℤ) → (if ltb_ℤ (pos 0) d then d else pos 0) ≡ positive_part d
  positive_eq (pos n) = ground arith
  positive_eq (negsuc n) = ground arith

  negative_eq : (d : ℤ) → (if ltb_ℤ d (pos 0) then d else pos 0) ≡ negative_part d
  negative_eq (pos n) = ground arith
  negative_eq (negsuc n) = ground arith

  at_least : (n : ℕ) → leb_ℤ (pos 0) (pos n) ≡ true
  at_least n = ground arith

  below : (n : ℕ) → leb_ℤ (pos 0) (negsuc n) ≡ false
  below n = ground arith

  -- The point of the code, with the difference that is given or computed.
  pub with_diff-eq-point_with :
      (k today yesterday : ℤ) (o : Option ℤ)
      → with_estimated_diff o
          (with_diff platform k (clock_minute k) (platform.label k) yesterday today)
        ≡ point_with k today yesterday (given_else o (platform.minus today yesterday))
  unfolding with_diff
  with_diff-eq-point_with k today yesterday none =
      rw
        (positive_eq (platform.minus today yesterday), negative_eq (platform.minus today yesterday))
        refl
  with_diff-eq-point_with k today yesterday (some (pos n)) = rw (at_least n) refl
  with_diff-eq-point_with k today yesterday (some (negsuc n)) = rw (below n) refl

  add_yesterday-eq :
      (d : ℤ) (m : NumMap ℤ) (p : MarketSummaryPoint) (a b : Option ℤ)
      → map_get d (add_yesterday platform m (sample_of platform p a b))
        ≡ estimate_or d (map_get d m) a b
  add_yesterday-eq d m p none b = refl
  add_yesterday-eq d m p (some ts) none = refl
  add_yesterday-eq d m p (some ts) (some estimated) =
      map_get-map_set (clock_minute (minute_key ts)) d estimated m

  -- The map of yesterday's rows holds at each minute of the day the estimate of the last row.
  pub collect_yesterday-eq-last_estimate :
      (d : ℤ) (m : NumMap ℤ) (ps : List MarketSummaryPoint)
      → map_get d (collect_yesterday platform m ps) ≡ last_estimate d (map_get d m) ps
  unfolding collect_yesterday last_estimate to_minute_sample
  collect_yesterday-eq-last_estimate d m [] = refl
  collect_yesterday-eq-last_estimate d m (p ∷ ps) =
      collect_yesterday-eq-last_estimate d
        (add_yesterday platform m (sample_of platform p p.minute_ts p.estimated_turnover)) ps
      ∙ ap (λ o. last_estimate d o ps) (add_yesterday-eq d m p p.minute_ts p.estimated_turnover)
