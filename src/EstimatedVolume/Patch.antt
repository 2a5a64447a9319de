-- ===== src/EstimatedVolume/Patch.antt =====
-- What a realtime patch does to the series.
use mathlib.Core.Path.{subst}
use trading_monitoring_dashb.Base.{
  Option, none, some, List, [], ◌∷◌, ◌++◌, ◌≡◌, refl, ◌∙◌, inl, inr, Bool-cases, Option-cases, set,
  if◌then◌else◌,
}
use trading_monitoring_dashb.Base.Int.{ℤ, pos, leb_ℤ, eq_ℤ, eq_ℤ_iff}
use trading_monitoring_dashb.Base.NumMap.{NumMap, map_get}
use trading_monitoring_dashb.Base.Sort.{
  IsAscending, find_key, find_index, sort_by-find_key, find_key-set, find_key-push, find_index-none,
}
use trading_monitoring_dashb.Base.Keyed.{
  sort_by-IsAscending, IsAscending-IsDistinct, set-IsDistinct, push-IsDistinct,
}
use trading_monitoring_dashb.OrderFlow.{minute_key}
use trading_monitoring_dashb.EstimatedVolume.{
  VolumePlatform, EstimatedVolumeSeriesPoint, EstimatedVolumeRealtimePatch, with_estimated_diff,
  with_diff, patched_point, replace_or_push, apply_estimated_volume_realtime_patch, or_number,
  minute_of_day_from_epoch_ms,
}

abbrev pub minute_of : EstimatedVolumeSeriesPoint → ℤ
minute_of p = p.minute_ts

pub with_estimated_diff-minute :
    (o : Option ℤ) (p : EstimatedVolumeSeriesPoint)
    → (with_estimated_diff o p).minute_ts ≡ p.minute_ts
with_estimated_diff-minute none p = refl
with_estimated_diff-minute (some d) p = elim (Bool-cases (leb_ℤ (pos 0) d)) [
  | inl e ↦ rw e refl
  | inr e ↦ rw e refl
]

-- The minutes ascend, and the minute of `p` has the point `p`, where the others are as they were.
abbrev pub Holds :
    EstimatedVolumeSeriesPoint
    → List EstimatedVolumeSeriesPoint
    → List EstimatedVolumeSeriesPoint
    → Type 0
Holds p s r =
    IsAscending minute_of r
    × ((j : ℤ)
        → find_key minute_of j r ≡ (if eq_ℤ p.minute_ts j then some p else find_key minute_of j s))

replace_or_push-Holds :
    (platform : VolumePlatform) (p : EstimatedVolumeSeriesPoint)
    (s : List EstimatedVolumeSeriesPoint)
    → IsAscending minute_of s
    → Holds p s (replace_or_push platform s p (find_index minute_of p.minute_ts s))
replace_or_push-Holds platform p s h =
    let d = IsAscending-IsDistinct minute_of s h in
    elim (Option-cases (find_index minute_of p.minute_ts s)) [
      | inl e ↦ rw e (
        sort_by-IsAscending minute_of (s ++ (p ∷ [])) (push-IsDistinct minute_of s p e d),
        λ j.
            sort_by-find_key minute_of j (s ++ (p ∷ []))
            ∙ find_key-push minute_of j s p (find_index-none minute_of p.minute_ts s e),
      )
      | inr (i, e) ↦ rw e (
        sort_by-IsAscending minute_of (set s i p) (set-IsDistinct minute_of s i p e d),
        λ j.
            sort_by-find_key minute_of j (set s i p)
            ∙ find_key-set minute_of p.minute_ts s i p j e
                ((eq_ℤ_iff p.minute_ts p.minute_ts).1 refl),
      )
    ]

module _ (platform : VolumePlatform) (patch : EstimatedVolumeRealtimePatch)
    (yesterday : NumMap ℤ) where
  patched_point-minute :
      (patched_point platform patch yesterday).minute_ts ≡ minute_key patch.minute_ts
  unfolding patched_point with_diff
  patched_point-minute =
      let minute = minute_key patch.minute_ts in
      let day = minute_of_day_from_epoch_ms platform minute in
      with_estimated_diff-minute patch.estimated_diff (
        with_diff platform minute day (platform.label minute)
          (or_number patch.yesterday_estimated (or_number (map_get day yesterday) (pos 0)))
          patch.today_estimated)

  -- For a series in which the minutes ascend: so do they behind a patch, whose minute has the point
  -- that the patch makes, while each other minute has the point it had.
  pub apply_estimated_volume_realtime_patch-Holds :
      (s : List EstimatedVolumeSeriesPoint)
      → IsAscending minute_of s
      → Holds
          (patched_point platform patch yesterday)
          s
          (apply_estimated_volume_realtime_patch platform s patch yesterday)
        × ((patched_point platform patch yesterday).minute_ts ≡ minute_key patch.minute_ts)
  unfolding apply_estimated_volume_realtime_patch
  apply_estimated_volume_realtime_patch-Holds s h =
      let p = patched_point platform patch yesterday in
      (
        subst (λ k. Holds p s (replace_or_push platform s p (find_index minute_of k s)))
            patched_point-minute (replace_or_push-Holds platform p s h),
        patched_point-minute,
      )
