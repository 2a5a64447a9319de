-- ===== src/Store/Series.antt =====
-- apps/frontend/src/features/realtime/store/realtime.store.ts: `toSpotMarketDistributionSeriesItem`
-- and `appendSpotMarketDistributionSeries`. The source writes into the array of the old series and
-- wraps it anew; the old wrapper is not kept, so the new contents stand in the new value alone.
-- `fresh` is the first of the references that allocation gives to new objects.
use trading_monitoring_dashb.Base.{
  ℕ, ◌+◌, ◌-◌, Bool, not, ◌&&◌, List, [], ◌∷◌, ◌++◌, length, drop, ltb, if◌then◌else◌,
}
use trading_monitoring_dashb.Js.{
  Js, arr, obj, field, end, to_list, of_list, last_or_undefined, strict_eq, truthy, get,
}

-- `SPOT_MARKET_DISTRIBUTION_SERIES_CAP`
abbrev pub series_cap : ℕ
series_cap = 600

unfoldable pub to_series_item : ℕ → Js → Js
to_series_item fresh payload = obj fresh (
    field "ts" (get payload "ts") (
      field "up_count" (get payload "up_count") (
        field "down_count" (get payload "down_count") (
          field "flat_count" (get payload "flat_count") (
            field "total_count" (get payload "total_count")
              (field "trend_index" (get payload "trend_index") end))))))

pub data Appended : Type 0 where
  -- a TypeError: `items` is no array
  throws : Appended
  -- `current` itself
  same : Appended
  grown : Js → Appended

unfoldable pub same_item : Js → Js → Bool
same_item last next =
    strict_eq (get last "ts") (get next "ts")
    && strict_eq (get last "up_count") (get next "up_count")
    && strict_eq (get last "down_count") (get next "down_count")
    && strict_eq (get last "flat_count") (get next "flat_count")
    && strict_eq (get last "total_count") (get next "total_count")
    && strict_eq (get last "trend_index") (get next "trend_index")

-- `items[items.length - 1] = next`, in a list that is not empty.
abbrev pub set_last : List Js → Js → List Js
set_last [] next = []
set_last (x ∷ []) next = next ∷ []
set_last (x ∷ y ∷ xs) next = x ∷ set_last (y ∷ xs) next

-- `items.splice(0, items.length - CAP)` if the list is longer than that.
abbrev pub trim_oldest : List Js → List Js
trim_oldest items =
    if ltb series_cap (length items) then drop (length items - series_cap) items else items

-- What becomes of the items, where the new one is not the last one over again.
unfoldable pub add_item : List Js → Js → List Js
add_item items next =
    let last = last_or_undefined items in
    if truthy last && strict_eq (get last "ts") (get next "ts")
    then set_last items next
    else trim_oldest (items ++ (next ∷ []))

abbrev pub series_of : ℕ → ℕ → List Js → Js
series_of wrapper items_ref items = obj wrapper (field "items" (arr items_ref (of_list items)) end)

abbrev pub append_items : ℕ → Js → Js → Appended
append_items fresh (arr r xs) next =
    let items = to_list xs in
    if truthy (last_or_undefined items) && same_item (last_or_undefined items) next
    then same
    else grown (series_of fresh r (add_item items next))
append_items fresh _ next = throws

unfoldable pub append_series : ℕ → Js → Js → Appended
append_series fresh current next =
    if not (truthy current)
    then grown (series_of fresh (fresh + 1) (next ∷ []))
    else append_items fresh (get current "items") next
