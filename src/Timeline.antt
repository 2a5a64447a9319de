-- ===== src/Timeline.antt =====
-- apps/frontend/src/features/dashboard/lib/timeline-helpers.ts: a series of points in the order of
-- their minutes, into which a point is put by its minute, with a map from minutes to positions.
use trading_monitoring_dashb.Base.{
  ℕ, zero, suc, ◌+◌, ◌/◌, Bool, true, false, ◌&&◌, Option, none, some, List, [], ◌∷◌, ◌++◌, length,
  take, drop, get_elem?, set, ltb, if◌then◌else◌,
}
use trading_monitoring_dashb.Base.Int.{ℤ, ltb_ℤ, eq_ℤ}
use trading_monitoring_dashb.Base.NumMap.{NumMap, map_get, map_set}
use trading_monitoring_dashb.Js.{Js, Key, strict_eq, lookup_key}
pub mod Search
pub mod Placement
pub mod Index

-- What the code reads of a point: its minute, and its own keys with their values. A minute is a
-- finite number.
pub record Row {ℓ} (T : Type ℓ) : Type ℓ where
  pub minute_ts : T → ℤ
  pub fields : T → List (Key × Js)

pub record Upsert {ℓ} (T : Type ℓ) : Type ℓ where
  pub next_series : List T
  pub next_index_map : NumMap ℕ
  pub did_change : Bool

module _ {ℓ} {T : Type ℓ} (row : Row T) where
  -- `series[mid].minuteTs < minuteTs`
  abbrev pub is_before : ℤ → Option T → Bool
  is_before minute none = false
  is_before minute (some p) = ltb_ℤ (row.minute_ts p) minute

  -- The `while` loop; each round makes the range shorter, so its length is enough fuel.
  unfoldable pub search_loop : ℕ → List T → ℤ → ℕ → ℕ → ℕ
  search_loop zero series minute low high = low
  search_loop (suc fuel) series minute low high =
      let mid = (low + high) / 2 in
      let above = search_loop fuel series minute (mid + 1) high in
      let below = search_loop fuel series minute low mid in
      let next = if is_before minute (get_elem? series mid) then above else below in
      if ltb low high then next else low

  unfoldable pub find_insert_index : List T → ℤ → ℕ
  unfolding search_loop
  find_insert_index series minute = search_loop (length series) series minute 0 (length series)

  unfoldable pub rebuild_from : ℕ → NumMap ℕ → List T → NumMap ℕ
  rebuild_from i m [] = m
  rebuild_from i m (p ∷ rows) = rebuild_from (i + 1) (map_set (row.minute_ts p) i m) rows

  unfoldable pub rebuild_index_map : List T → NumMap ℕ
  unfolding rebuild_from
  rebuild_index_map rows = rebuild_from 0 [] rows

  all_fields_same : List (Key × Js) → List (Key × Js) → Bool
  all_fields_same [] as_fields = true
  all_fields_same ((k, v) ∷ fs) as_fields =
      strict_eq (lookup_key k as_fields) v && all_fields_same fs as_fields

  unfoldable pub is_same_point : T → T → Bool
  unfolding all_fields_same
  is_same_point a b = all_fields_same (row.fields b) (row.fields a)

  -- `series[i]?.minuteTs === minuteTs`, with the point.
  abbrev pub if_at : ℤ → Option T → Option T
  if_at minute none = none
  if_at minute (some p) = if eq_ℤ (row.minute_ts p) minute then some p else none

  abbrev pub with_index : ℕ → Option T → Option (ℕ × T)
  with_index i none = none
  with_index i (some p) = some (i, p)

  abbrev pub indexed_point : List T → ℤ → Option ℕ → Option (ℕ × T)
  indexed_point series minute none = none
  indexed_point series minute (some i) = with_index i (if_at minute (get_elem? series i))

  -- The end of the function, for a point that has no valid index.
  abbrev pub upsert_found : List T → T → ℕ → Option T → Upsert T
  upsert_found series point i none =
      let next = take i series ++ (point ∷ drop i series) in
      record { next_series = next; next_index_map = rebuild_index_map next; did_change = true }
  upsert_found series point i (some existing) =
      let next = set series i point in
      if is_same_point existing point
      then record {
        next_series = series;
        next_index_map = rebuild_index_map series;
        did_change = false;
      }
      else record { next_series = next; next_index_map = rebuild_index_map next; did_change = true }

  abbrev pub upsert_indexed : List T → NumMap ℕ → T → Option (ℕ × T) → Upsert T
  upsert_indexed series m point none =
      let i = find_insert_index series (row.minute_ts point) in
      upsert_found series point i (if_at (row.minute_ts point) (get_elem? series i))
  upsert_indexed series m point (some (i, existing)) =
      if is_same_point existing point
      then record { next_series = series; next_index_map = m; did_change = false }
      else record { next_series = set series i point; next_index_map = m; did_change = true }

  unfoldable pub upsert_point : List T → NumMap ℕ → T → Upsert T
  upsert_point series m point =
      upsert_indexed series m point
        (indexed_point series (row.minute_ts point) (map_get (row.minute_ts point) m))
