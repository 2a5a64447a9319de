-- ===== src/OrderFlow/Metrics.antt =====
-- Of the metrics of a minute the map keeps the latest.
use Prim.Native.String.{String}
use mathlib.Core.Path.{subst}
use trading_monitoring_dashb.Base.{
  true, false, ◌&&◌, Option, none, some, List, [], ◌∷◌, ◌≡◌, ◌≢◌, refl, ap, ◌∙◌, arith, ◌⊎◌, inl,
  inr, Bool-cases, All, if◌then◌else◌,
}
use trading_monitoring_dashb.Base.Int.{ℤ, eq_ℤ, eq_ℤ_iff, ◌≤ℤ◌}
use trading_monitoring_dashb.Base.NumMap.{NumMap, map_get, map_set, map_get-map_set}
use trading_monitoring_dashb.OrderFlow.{
  MetricTodayPoint, MinuteMetricSample, to_minute_metric_sample, replaces, collect_sample,
  latest_metrics,
}

-- The choice for one minute.
abbrev pub pick :
    ℤ → Option MinuteMetricSample → Option MinuteMetricSample → Option MinuteMetricSample
pick k o none = o
pick k o (some s) = if eq_ℤ s.minute_ts k && replaces o s then some s else o

collect_sample-get :
    (k : ℤ) (m : NumMap MinuteMetricSample) (o : Option MinuteMetricSample)
    → map_get k (collect_sample m o) ≡ pick k (map_get k m) o
collect_sample-get k m none = refl
collect_sample-get k m (some s) = elim (Bool-cases (eq_ℤ s.minute_ts k)) [
  | inl e ↦
      let same : s.minute_ts ≡ k = (eq_ℤ_iff s.minute_ts k).0 e in
      rw e (
        ap (λ j. map_get k (if replaces (map_get j m) s then map_set s.minute_ts s m else m)) same
        ∙ chosen e)
  | inr e ↦ rw e (other e)
]
  where
    chosen :
        eq_ℤ s.minute_ts k ≡ true
        → map_get k (if replaces (map_get k m) s then map_set s.minute_ts s m else m)
          ≡ (if replaces (map_get k m) s then some s else map_get k m)
    chosen e = elim (Bool-cases (replaces (map_get k m) s)) [
      | inl f ↦ rw (f, map_get-map_set s.minute_ts k s m, e) refl
      | inr f ↦ rw f refl
    ]

    other :
        eq_ℤ s.minute_ts k ≡ false
        → map_get k (if replaces (map_get s.minute_ts m) s then map_set s.minute_ts s m else m)
          ≡ map_get k m
    other e = elim (Bool-cases (replaces (map_get s.minute_ts m) s)) [
      | inl f ↦ rw (f, map_get-map_set s.minute_ts k s m, e) refl
      | inr f ↦ rw f refl
    ]

module _ (date_parse : String → Option ℤ) where
  abbrev sample : MetricTodayPoint → Option MinuteMetricSample
  sample x = to_minute_metric_sample date_parse x

  -- A sample of one of the metrics, in the minute `k`.
  abbrev pub IsSampleOf : ℤ → List MetricTodayPoint → MinuteMetricSample → Type 0
  IsSampleOf k [] s = ⊥
  IsSampleOf k (x ∷ xs) s =
      ((to_minute_metric_sample date_parse x ≡ some s) × (s.minute_ts ≡ k)) ⊎ IsSampleOf k xs s

  abbrev pub NoneLaterIn : ℤ → ℤ → List MetricTodayPoint → Type 0
  NoneLaterIn k t xs =
      All
        (λ x.
          (r : MinuteMetricSample)
          → to_minute_metric_sample date_parse x ≡ some r
          → r.minute_ts ≡ k
          → r.ts ≤ℤ t)
        xs

  abbrev pub NoneIn : ℤ → List MetricTodayPoint → Type 0
  NoneIn k xs =
      All
        (λ x.
          (r : MinuteMetricSample)
          → to_minute_metric_sample date_parse x ≡ some r
          → r.minute_ts ≢ k)
        xs

  -- A latest sample of the minute, or none if the minute has no sample.
  abbrev pub LatestOf : ℤ → List MetricTodayPoint → Option MinuteMetricSample → Type 0
  LatestOf k xs none = NoneIn k xs
  LatestOf k xs (some s) = IsSampleOf k xs s × NoneLaterIn k s.ts xs

  -- The same, for a choice that starts with `o`.
  abbrev After :
      ℤ → Option MinuteMetricSample → List MetricTodayPoint → Option MinuteMetricSample → Type 0
  After k o xs none = (o ≡ none) × NoneIn k xs
  After k o xs (some s) =
      ((o ≡ some s) ⊎ IsSampleOf k xs s)
      × NoneLaterIn k s.ts xs
      × ((c : MinuteMetricSample) → o ≡ some c → c.ts ≤ℤ s.ts)

  abbrev IsIn : ℤ → Option MinuteMetricSample → Type 0
  IsIn k none = Unit
  IsIn k (some s) = s.minute_ts ≡ k

  picked_none :
      (k : ℤ) (o p : Option MinuteMetricSample)
      → pick k o p ≡ none
      → (o ≡ none) × ((r : MinuteMetricSample) → p ≡ some r → r.minute_ts ≢ k)
  picked_none k o none h = (h, λ r e. cc)
  picked_none k (some c) (some s) h = absurd (ground arith)
  picked_none k none (some s) h =
      (refl, λ r e f. ground (arith, eq_ℤ_iff s.minute_ts k, eq_ℤ_iff r.minute_ts k))

  picked_some :
      (k : ℤ) (o p : Option MinuteMetricSample) {s : MinuteMetricSample}
      → pick k o p ≡ some s
      → ((o ≡ some s) ⊎ ((p ≡ some s) × (s.minute_ts ≡ k)))
        × ((r : MinuteMetricSample) → p ≡ some r → r.minute_ts ≡ k → r.ts ≤ℤ s.ts)
        × ((c : MinuteMetricSample) → o ≡ some c → c.ts ≤ℤ s.ts)
  picked_some k o none h = (inl h, λ r e. cc, λ c e. ground arith)
  picked_some k none (some p) h =
      (ground (arith, eq_ℤ_iff p.minute_ts k), λ r e f. ground arith, λ c e. cc)
  picked_some k (some c) (some p) h = elim (Bool-cases (eq_ℤ p.minute_ts k)) [
    | inl e ↦ (ground (arith, eq_ℤ_iff p.minute_ts k), λ r f g. ground arith, λ d f. ground arith)
    | inr e ↦ (ground arith, λ r f g. ground (arith, eq_ℤ_iff p.minute_ts k), λ d f. ground arith)
  ]

  step_After :
      (k : ℤ) (o : Option MinuteMetricSample) (x : MetricTodayPoint) (xs : List MetricTodayPoint)
      (r : Option MinuteMetricSample)
      → After k (pick k o (sample x)) xs r
      → After k o (x ∷ xs) r
  step_After k o x xs none (e, n) = let p = picked_none k o (sample x) e in (p.0, (p.1, n))
  step_After k o x xs (some s) (inl e, n, b) =
      let p = picked_some k o (sample x) e in (first p.0, (p.1, n), p.2)
    where
      first :
          ((o ≡ some s) ⊎ ((sample x ≡ some s) × (s.minute_ts ≡ k)))
          → (o ≡ some s) ⊎ IsSampleOf k (x ∷ xs) s
      first (inl f) = inl f
      first (inr f) = inr (inl f)
  step_After k o x xs (some s) (inr a, n, b) = (
    inr (inr a),
    (head (pick k o (sample x)) refl b, n),
    λ c f. kept (pick k o (sample x)) refl b c f,
  )
    where
      head :
          (q : Option MinuteMetricSample)
          → pick k o (sample x) ≡ q
          → ((c : MinuteMetricSample) → q ≡ some c → c.ts ≤ℤ s.ts)
          → (r : MinuteMetricSample) → sample x ≡ some r
          → r.minute_ts ≡ k
          → r.ts ≤ℤ s.ts
      head none e b r f g = absurd ((picked_none k o (sample x) e).1 r f g)
      head (some c) e b r f g = omega (arith, (picked_some k o (sample x) e).1 r f g, b c refl)

      kept :
          (q : Option MinuteMetricSample)
          → pick k o (sample x) ≡ q
          → ((c : MinuteMetricSample) → q ≡ some c → c.ts ≤ℤ s.ts)
          → (d : MinuteMetricSample) → o ≡ some d
          → d.ts ≤ℤ s.ts
      kept none e b d f = cc (picked_none k o (sample x) e).0
      kept (some c) e b d f = omega (arith, (picked_some k o (sample x) e).2 d f, b c refl)

  latest_metrics-After :
      (k : ℤ) (xs : List MetricTodayPoint) (m : NumMap MinuteMetricSample)
      → After k (map_get k m) xs (map_get k (latest_metrics date_parse m xs))
  unfolding latest_metrics
  latest_metrics-After k [] m = nothing_left (map_get k m)
    where
      nothing_left : (o : Option MinuteMetricSample) → After k o [] o
      nothing_left none = (refl, tt)
      nothing_left (some s) = (inl refl, tt, λ c e. ground arith)
  latest_metrics-After k (x ∷ xs) m = step_After k (map_get k m) x xs _ (
      subst
        (λ o. After k o xs (map_get k (latest_metrics date_parse (collect_sample m (sample x)) xs)))
        (collect_sample-get k m (sample x))
        (latest_metrics-After k xs (collect_sample m (sample x))))

  -- For each minute: what the map holds is a sample of one of the metrics in this minute, and no
  -- sample in this minute is later; if the map holds nothing, no metric has a sample in it.
  pub latest_metrics-LatestOf :
      (xs : List MetricTodayPoint) (k : ℤ)
      → LatestOf k xs (map_get k (latest_metrics date_parse [] xs))
  unfolding map_get
  latest_metrics-LatestOf xs k = from_nothing _ (latest_metrics-After k xs [])
    where
      from_nothing : (r : Option MinuteMetricSample) → After k none xs r → LatestOf k xs r
      from_nothing none (e, n) = n
      from_nothing (some s) (inl e, n, b) = cc
      from_nothing (some s) (inr a, n, b) = (a, n)
