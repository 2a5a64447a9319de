-- ===== src/Store/SeriesLaws.antt =====
-- The series of the market's distribution stays within its cap and ends in the latest item.
use trading_monitoring_dashb.Base.{
  ℕ, zero, suc, ◌+◌, ◌-◌, ◌≤◌, ◌<◌, Bool, true, false, ◌&&◌, ◌⊎◌, some, List, [], ◌∷◌, ◌++◌, length,
  drop, last?, ltb, ◌≡◌, refl, ap, ◌∙◌, arith, Bool-cases, inl, inr, length-append, length-drop,
}
use trading_monitoring_dashb.Js.{
  Js, Items, undefined, null, bool, num, infinite, str, arr, obj, strict_eq, truthy, get,
  last_or_undefined, items_or_empty, to_list, of_list,
}
use trading_monitoring_dashb.Store.Series.{
  series_cap, set_last, trim_oldest, add_item, same_item, Appended, throws, same, grown,
  append_series, append_items, series_of,
}

length-set_last : (xs : List Js) (v : Js) → length (set_last xs v) ≡ length xs
length-set_last [] v = refl
length-set_last (x ∷ []) v = refl
length-set_last (x ∷ y ∷ xs) v = ap suc (length-set_last (y ∷ xs) v)

last-set_last : (x : Js) (xs : List Js) (v : Js) → last? (set_last (x ∷ xs) v) ≡ some v
last-set_last x [] v = refl
last-set_last x (y ∷ []) v = refl
last-set_last x (y ∷ z ∷ xs) v = last-set_last y (z ∷ xs) v

last-append_one : (xs : List Js) (v : Js) → last? (xs ++ (v ∷ [])) ≡ some v
last-append_one [] v = refl
last-append_one (x ∷ []) v = refl
last-append_one (x ∷ y ∷ xs) v = last-append_one (y ∷ xs) v

last-drop : (n : ℕ) (xs : List Js) → n < length xs → last? (drop n xs) ≡ last? xs
last-drop zero xs h = refl
last-drop (suc n) [] h = absurd (omega arith)
last-drop (suc n) (x ∷ []) h = absurd (omega arith)
last-drop (suc n) (x ∷ y ∷ xs) h = last-drop n (y ∷ xs) (omega arith)

length-trim_oldest : (xs : List Js) → length (trim_oldest xs) ≤ series_cap
length-trim_oldest xs = elim (Bool-cases (ltb series_cap (length xs))) [
  | inl e ↦ rw e (rw (length-drop (length xs - series_cap) xs) (ground arith))
  | inr e ↦ rw e (ground arith)
]

last-trim_oldest : (xs : List Js) → last? (trim_oldest xs) ≡ last? xs
last-trim_oldest xs = elim (Bool-cases (ltb series_cap (length xs))) [
  | inl e ↦ rw e (last-drop (length xs - series_cap) xs (ground arith))
  | inr e ↦ rw e
]

to_list-of_list : (xs : List Js) → to_list (of_list xs) ≡ xs
to_list-of_list [] = refl
to_list-of_list (x ∷ xs) = ap (λ t. x ∷ t) (to_list-of_list xs)

-- The items of a series.
abbrev pub series_items : Js → List Js
series_items s = items_or_empty (get s "items")

-- No series yet, or one with an array of items within the cap.
pub data IsSeries (s : Js) : Type 0 where
  absent : truthy s ≡ false → IsSeries s
  present :
      (r : ℕ) (xs : Items)
      → truthy s ≡ true
      → get s "items" ≡ arr r xs
      → length (to_list xs) ≤ series_cap
      → IsSeries s

-- `ys` are the items `xs` with `v` added: `v` stands last, in the place of the last item or behind
-- it, and only oldest items are gone, so many that the cap is kept.
pub record AddsItem (xs : List Js) (v : Js) (ys : List Js) : Type 0 where
  pub within_cap : length ys ≤ series_cap
  pub ends_in : last? ys ≡ some v
  pub contents :
      ((ys ≡ set_last xs v) × (strict_eq (get (last_or_undefined xs) "ts") (get v "ts") ≡ true))
      ⊎ (ys ≡ drop (length xs + 1 - series_cap) (xs ++ (v ∷ [])))

-- What `appendSpotMarketDistributionSeries` may return for a series `s` and an item `v`.
abbrev pub AppendsTo : Js → Js → Appended → Type 0
AppendsTo s v throws = ⊥
AppendsTo s v same = same_item (last_or_undefined (series_items s)) v ≡ true
AppendsTo s v (grown t) = IsSeries t × AddsItem (series_items s) v (series_items t)

trim_oldest-drop :
    (xs : List Js) (v : Js)
    → length xs ≤ series_cap
    → trim_oldest (xs ++ (v ∷ [])) ≡ drop (length xs + 1 - series_cap) (xs ++ (v ∷ []))
trim_oldest-drop xs v h = elim (Bool-cases (ltb series_cap (length (xs ++ (v ∷ []))))) [
  | inl e ↦ rw e (ap (λ n. drop n (xs ++ (v ∷ []))) (omega (arith, length-append xs (v ∷ []))))
  | inr e ↦ rw e (
      ap (λ n. drop n (xs ++ (v ∷ [])))
        (no_excess (length (xs ++ (v ∷ []))) e (length-append xs (v ∷ []))))
]
  where
    no_excess :
        (n : ℕ) → ltb series_cap n ≡ false → n ≡ length xs + 1 → 0 ≡ length xs + 1 - series_cap
    no_excess n e k = ground arith

pushed-AddsItem :
    (xs : List Js) (v : Js) → length xs ≤ series_cap → AddsItem xs v (trim_oldest (xs ++ (v ∷ [])))
pushed-AddsItem xs v h = record {
  within_cap = length-trim_oldest (xs ++ (v ∷ []));
  ends_in = last-trim_oldest (xs ++ (v ∷ [])) ∙ last-append_one xs v;
  contents = inr (trim_oldest-drop xs v h);
}

replaced-AddsItem :
    (x : Js) (xs : List Js) (v : Js)
    → length (x ∷ xs) ≤ series_cap
    → strict_eq (get (last_or_undefined (x ∷ xs)) "ts") (get v "ts") ≡ true
    → AddsItem (x ∷ xs) v (set_last (x ∷ xs) v)
replaced-AddsItem x xs v h e = record {
  within_cap = omega (arith, length-set_last (x ∷ xs) v);
  ends_in = last-set_last x xs v;
  contents = inl (refl, e);
}

and_right : (a b : Bool) → (a && b) ≡ true → b ≡ true
and_right a b h = ground arith

add_item-AddsItem : (xs : List Js) (v : Js) → length xs ≤ series_cap → AddsItem xs v (add_item xs v)
unfolding add_item
add_item-AddsItem [] v h = unfold truthy in pushed-AddsItem [] v h
add_item-AddsItem (x ∷ xs) v h =
    elim (Bool-cases (
      truthy (last_or_undefined (x ∷ xs))
      && strict_eq (get (last_or_undefined (x ∷ xs)) "ts") (get v "ts"))) [
        | inl e ↦ rw e (replaced-AddsItem x xs v h (and_right _ _ e))
        | inr e ↦ rw e (pushed-AddsItem (x ∷ xs) v h)
      ]

-- A wrapper around a list of items is a series.
series_of_items : (w r : ℕ) (ys : List Js) → series_items (series_of w r ys) ≡ ys
unfolding get items_or_empty
series_of_items w r ys = to_list-of_list ys

series_of-IsSeries : (w r : ℕ) (ys : List Js) → length ys ≤ series_cap → IsSeries (series_of w r ys)
unfolding get truthy
series_of-IsSeries w r ys h = present r (of_list ys) refl refl (rw (to_list-of_list ys) h)

grown-AppendsTo :
    (s v : Js) (w r : ℕ) (ys : List Js)
    → AddsItem (series_items s) v ys
    → AppendsTo s v (grown (series_of w r ys))
grown-AppendsTo s v w r ys a =
    (series_of-IsSeries w r ys a.within_cap, rw (series_of_items w r ys) a)

append_items-AppendsTo :
    (fresh r : ℕ) (s : Js) (xs : Items) (v : Js)
    → series_items s ≡ to_list xs
    → length (to_list xs) ≤ series_cap
    → AppendsTo s v (append_items fresh (arr r xs) v)
append_items-AppendsTo fresh r s xs v e h =
    elim (Bool-cases
      (truthy (last_or_undefined (to_list xs)) && same_item (last_or_undefined (to_list xs)) v)) [
        | inl k ↦ rw k (rw e (and_right _ _ k))
        | inr k ↦ rw k (grown-AppendsTo s v fresh r _ (rw e (add_item-AddsItem (to_list xs) v h)))
      ]

no_items : (s : Js) → truthy s ≡ false → series_items s ≡ []
unfolding truthy get items_or_empty
no_items (obj r fs) e = cc
no_items (arr r xs) e = refl
no_items undefined e = refl
no_items null e = refl
no_items (bool b) e = refl
no_items (num n) e = refl
no_items (infinite b) e = refl
no_items (str t) e = refl

-- For a series that is absent, or has an array of at most 600 items, and any item: appending the
-- item does not throw. It returns the series itself only if the last item has the values of the
-- new one. Otherwise the new series has at most 600 items and ends in the new item, which replaces
-- a last item of the same time or stands behind the old items, less the oldest ones at the cap.
pub append_series-AppendsTo :
    (fresh : ℕ) (s v : Js) → IsSeries s → AppendsTo s v (append_series fresh s v)
unfolding append_series
append_series-AppendsTo fresh s v (absent e) = rw e (
    grown-AppendsTo s v fresh (fresh + 1) (v ∷ [])
      (rw (no_items s e) (pushed-AddsItem [] v (omega arith))))
append_series-AppendsTo fresh s v (present r xs t e h) =
    rw t (
      rw e (append_items-AppendsTo fresh r s xs v (unfold items_or_empty in ap items_or_empty e) h))
