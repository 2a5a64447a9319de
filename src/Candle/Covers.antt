-- ===== src/Candle/Covers.antt =====
-- The candle of today covers the bars of the day.
use trading_monitoring_dashb.Base.{Option, none, some, List, [], ◌∷◌, arith, All, All-map}
use trading_monitoring_dashb.Base.Int.{ℤ, pos, negsuc, ◌≤ℤ◌}
use trading_monitoring_dashb.Base.Sort.{sort_by, sort_by-All, All-sort_by}
use trading_monitoring_dashb.Candle.{
  CandlePlatform, Kbar, ParticipantCandlePoint, max_ℤ, min_ℤ, normalize_amplitude, highest, lowest,
  last_of, amplitude_of, candle_of, aggregate_today_kbar, patch_realtime_today_candle,
}

-- The opening and the closing price lie between the extremes.
pub record IsBar (k : Kbar) : Type 0 where
  pub open_low : k.low ≤ℤ k.open_price
  pub open_high : k.open_price ≤ℤ k.high
  pub close_low : k.low ≤ℤ k.close
  pub close_high : k.close ≤ℤ k.high

pub record IsCandle (c : ParticipantCandlePoint) : Type 0 where
  pub open_low : c.low ≤ℤ c.open_price
  pub open_high : c.open_price ≤ℤ c.high
  pub close_low : c.low ≤ℤ c.close
  pub close_high : c.close ≤ℤ c.high
  pub amplitude : pos 0 ≤ℤ c.amplitude

-- The extremes of the bar lie between the two prices.
abbrev pub Within : ℤ → ℤ → Kbar → Type 0
Within low high k = (low ≤ℤ k.low) × (k.high ≤ℤ high)

abbrev pub Covers : ParticipantCandlePoint → Kbar → Type 0
Covers c k = Within c.low c.high k

abs-positive : (a : ℤ) → pos 0 ≤ℤ normalize_amplitude a
abs-positive (pos n) = omega arith
abs-positive (negsuc n) = omega arith

highest-above :
    (h : ℤ) (ks : List Kbar) → (h ≤ℤ highest h ks) × All (λ k. k.high ≤ℤ highest h ks) ks
unfolding highest
highest-above h [] = (omega arith, tt)
highest-above h (k ∷ ks) =
    let (a, b) = highest-above (max_ℤ h k.high) ks in
    let left : h ≤ℤ max_ℤ h k.high = ground arith in
    let right : k.high ≤ℤ max_ℤ h k.high = ground arith in (omega arith, (omega arith, b))

lowest-below : (l : ℤ) (ks : List Kbar) → (lowest l ks ≤ℤ l) × All (λ k. lowest l ks ≤ℤ k.low) ks
unfolding lowest
lowest-below l [] = (omega arith, tt)
lowest-below l (k ∷ ks) =
    let (a, b) = lowest-below (min_ℤ l k.low) ks in
    let left : min_ℤ l k.low ≤ℤ l = ground arith in
    let right : min_ℤ l k.low ≤ℤ k.low = ground arith in (omega arith, (omega arith, b))

All-pair : (P Q : Kbar → Type 0) (ks : List Kbar) → All P ks → All Q ks → All (λ k. P k × Q k) ks
All-pair P Q [] h i = tt
All-pair P Q (k ∷ ks) h i = ((h.0, i.0), All-pair P Q ks h.1 i.1)

-- What holds of all bars holds of the last one.
last_of-All : (P : Kbar → Type 0) (k : Kbar) (ks : List Kbar) → P k → All P ks → P (last_of k ks)
unfolding last_of
last_of-All P k [] h i = h
last_of-All P k (j ∷ ks) h i = last_of-All P j ks i.0 i.1

-- No bar, or a candle that covers each of them.
abbrev pub IsDay : List Kbar → Option ParticipantCandlePoint → Type 0
IsDay ks none = All (λ k. ⊥) ks
IsDay ks (some c) = IsCandle c × All (Covers c) ks

module _ (platform : CandlePlatform) where
  amplitude_of-positive : (o : Option ℤ) (high low : ℤ) → pos 0 ≤ℤ amplitude_of platform o high low
  amplitude_of-positive none high low = abs-positive (platform.minus high low)
  amplitude_of-positive (some a) high low = abs-positive a

  candle_of-IsDay : (ks : List Kbar) → All IsBar ks → IsDay ks (candle_of platform ks)
  candle_of-IsDay [] h = tt
  candle_of-IsDay (k ∷ ks) h =
      let (hi, above) = highest-above k.high ks in
      let (lo, below) = lowest-below k.low ks in
      let high = highest k.high ks in
      let low = lowest k.low ks in
      let inside = All-pair (λ b. low ≤ℤ b.low) (λ b. b.high ≤ℤ high) ks below above in
      let last : Within low high (last_of k ks) =
        last_of-All (Within low high) k ks (lo, hi) inside in
      let bar : IsBar (last_of k ks) = last_of-All IsBar k ks h.0 h.1 in
      let first : IsBar k = h.0 in
      let opens_low = first.open_low in
      let opens_high = first.open_high in
      let closes_low = bar.close_low in
      let closes_high = bar.close_high in
      (
        record {
          open_low = omega arith;
          open_high = omega arith;
          close_low = omega (arith, last.0, closes_low);
          close_high = omega (arith, last.1, closes_high);
          amplitude = amplitude_of-positive (last_of k ks).day_amplitude high low;
        },
        ((lo, hi), inside),
      )

  aggregate-IsDay : (ks : List Kbar) → All IsBar ks → IsDay ks (aggregate_today_kbar platform ks)
  unfolding aggregate_today_kbar
  aggregate-IsDay ks h = back (candle_of platform (sort_by (λ (k : Kbar). k.minute_ts) ks)) (
      candle_of-IsDay (sort_by (λ (k : Kbar). k.minute_ts) ks)
        (sort_by-All (λ (k : Kbar). k.minute_ts) IsBar ks h))
    where
      back :
          (o : Option ParticipantCandlePoint)
          → IsDay (sort_by (λ (k : Kbar). k.minute_ts) ks) o
          → IsDay ks o
      back none d = All-sort_by (λ (k : Kbar). k.minute_ts) (λ k. ⊥) ks d
      back (some c) d = (d.0, All-sort_by (λ (k : Kbar). k.minute_ts) (Covers c) ks d.1)

  patch-Covers :
      (ks : List Kbar) (o : Option ParticipantCandlePoint) (k : Kbar)
      → IsDay ks o
      → IsBar k
      → IsCandle (patch_realtime_today_candle platform o k)
        × Covers (patch_realtime_today_candle platform o k) k
        × All (Covers (patch_realtime_today_candle platform o k)) ks
  unfolding patch_realtime_today_candle
  patch-Covers ks none k d b = (
    record {
      open_low = b.open_low;
      open_high = b.open_high;
      close_low = b.close_low;
      close_high = b.close_high;
      amplitude = amplitude_of-positive k.day_amplitude k.high k.low;
    },
    (omega arith, omega arith),
    All-map (λ j. ⊥) (Within k.low k.high) (λ j e. absurd e) ks d,
  )
  patch-Covers ks (some c) k d b =
      let high = max_ℤ c.high k.high in
      let low = min_ℤ c.low k.low in
      let h1 : c.high ≤ℤ high = ground arith in
      let h2 : k.high ≤ℤ high = ground arith in
      let l1 : low ≤ℤ c.low = ground arith in
      let l2 : low ≤ℤ k.low = ground arith in
      let i = d.0 in
      let opens_low = i.open_low in
      let opens_high = i.open_high in
      let closes_low = b.close_low in
      let closes_high = b.close_high in
      (
        record {
          open_low = omega (arith, l1, opens_low);
          open_high = omega (arith, h1, opens_high);
          close_low = omega (arith, l2, closes_low);
          close_high = omega (arith, h2, closes_high);
          amplitude = amplitude_of-positive k.day_amplitude high low;
        },
        (l2, h2),
        All-map (Covers c) (Within low high)
            (λ j w. (omega (arith, w.0, l1), omega (arith, w.1, h1))) ks d.1,
      )

  -- For bars whose prices lie between their extremes, in any order: the candle of today, patched by
  -- the current bar, is such a bar too, with an amplitude that is not negative; it covers the current
  -- bar and each bar of the day.
  pub patched-Covers :
      (kbars : List Kbar) (current : Kbar)
      → All IsBar kbars
      → IsBar current
      → IsCandle
          (patch_realtime_today_candle platform (aggregate_today_kbar platform kbars) current)
        × Covers
            (patch_realtime_today_candle platform (aggregate_today_kbar platform kbars) current)
            current
        × All
            (Covers
              (patch_realtime_today_candle platform (aggregate_today_kbar platform kbars) current))
            kbars
  patched-Covers kbars current h b =
      patch-Covers kbars (aggregate_today_kbar platform kbars) current (aggregate-IsDay kbars h) b
