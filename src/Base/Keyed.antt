-- ===== src/Base/Keyed.antt =====
-- A list with distinct keys, after one element is replaced or pushed and the list is sorted, and the
-- values of a map that knows its keys.
use Prim.Native.Nat.{ℕ, zero, suc}
use mathlib.Core.Path.{◌≡◌, refl, sym, ◌∙◌}
use mathlib.Core.Bool.{false}
use mathlib.Core.Logic.{◌≢◌, inl, inr}
use mathlib.Core.Option.{none, some}
use mathlib.Core.List.{List, [], ◌∷◌, ◌++◌}
use native.Mathlib.Omega.{arith}
use trading_monitoring_dashb.Base.Tests.{Bool-cases, Option-cases}
use trading_monitoring_dashb.Base.Lists.{All, All-map, set}
use trading_monitoring_dashb.Base.Int.{ℤ, eq_ℤ, eq_ℤ_iff, ◌<ℤ◌}
use trading_monitoring_dashb.Base.Sort.{
  IsAscending, IsDistinct, sort_by, sort_by-IsSorted, sort_by-IsDistinct, sorted-IsAscending,
  find_key, find_index,
}
use trading_monitoring_dashb.Base.NumMap.{
  NumMap, map_get, map_set, map_set-All, values, HasDistinctKeys,
}

module _ {ℓ} {A : Type ℓ} (key : A → ℤ) where
  pub sort_by-IsAscending : (xs : List A) → IsDistinct key xs → IsAscending key (sort_by key xs)
  sort_by-IsAscending xs d =
      sorted-IsAscending key (sort_by key xs) (sort_by-IsSorted key xs)
        (sort_by-IsDistinct key xs d)

  pub IsAscending-IsDistinct : (xs : List A) → IsAscending key xs → IsDistinct key xs
  IsAscending-IsDistinct [] h = tt
  IsAscending-IsDistinct (x ∷ xs) h = (
    All-map (λ y. key x <ℤ key y) (λ y. key x ≢ key y) (λ y k. ne_of_lt (key x) (key y) k) xs h.0,
    IsAscending-IsDistinct xs h.1,
  )
    where
      ne_of_lt : (a b : ℤ) → a <ℤ b → a ≢ b
      ne_of_lt a b h e = ground (arith, h, e)

  pub All-set {κ} :
      (P : A → Type κ) (xs : List A) (i : ℕ) (v : A) → P v → All P xs → All P (set xs i v)
  All-set P [] i v p h = tt
  All-set P (x ∷ xs) zero v p h = (p, h.1)
  All-set P (x ∷ xs) (suc i) v p h = (h.0, All-set P xs i v p h.1)

  pub All-push {κ} :
      (P : A → Type κ) (xs : List A) (v : A) → P v → All P xs → All P (xs ++ (v ∷ []))
  All-push P [] v p h = (p, tt)
  All-push P (x ∷ xs) v p h = (h.0, All-push P xs v p h.1)

  found_ne :
      (xs : List A) (i : ℕ) (k a : ℤ)
      → find_index key k xs ≡ some i
      → All (λ y. a ≢ key y) xs
      → a ≢ k
  unfolding find_index
  found_ne [] i k a h n = cc
  found_ne (x ∷ xs) i k a h n = elim (Bool-cases (eq_ℤ (key x) k)) [
    | inl e ↦ λ f. n.0 (f ∙ sym ((eq_ℤ_iff (key x) k).0 e))
    | inr e ↦ elim (Option-cases (find_index key k xs)) [
      | inl g ↦ absurd (ground arith)
      | inr (j, g) ↦ found_ne xs j k a g n.1
    ]
  ]

  pub set-IsDistinct :
      (xs : List A) (i : ℕ) (v : A)
      → find_index key (key v) xs ≡ some i
      → IsDistinct key xs
      → IsDistinct key (set xs i v)
  unfolding find_index
  set-IsDistinct [] i v h d = tt
  set-IsDistinct (x ∷ xs) i v h d = elim (Bool-cases (eq_ℤ (key x) (key v))) [
    | inl e ↦
        let first : i ≡ 0 = ground arith in
        let same : key x ≡ key v = (eq_ℤ_iff (key x) (key v)).0 e in
        rw first
          (All-map (λ y. key x ≢ key y) (λ y. key v ≢ key y) (λ y n f. n (same ∙ f)) xs d.0, d.1)
    | inr e ↦ elim (Option-cases (find_index key (key v) xs)) [
      | inl g ↦ absurd (ground arith)
      | inr (j, g) ↦
          let next : i ≡ suc j = ground arith in
          rw next (
            All-set (λ y. key x ≢ key y) xs j v (found_ne xs j (key v) (key x) g d.0) d.0,
            set-IsDistinct xs j v g d.1,
          )
    ]
  ]

  pub push-IsDistinct :
      (xs : List A) (v : A)
      → find_index key (key v) xs ≡ none
      → IsDistinct key xs
      → IsDistinct key (xs ++ (v ∷ []))
  unfolding find_index
  push-IsDistinct [] v h d = (tt, tt)
  push-IsDistinct (x ∷ xs) v h d = elim (Bool-cases (eq_ℤ (key x) (key v))) [
    | inl e ↦ absurd (ground arith)
    | inr e ↦ elim (Option-cases (find_index key (key v) xs)) [
      | inr (j, g) ↦ absurd (ground arith)
      | inl g ↦ (
        All-push (λ y. key x ≢ key y) xs v (ne_key (key x) (key v) e) d.0,
        push-IsDistinct xs v g d.1,
      )
    ]
  ]
    where
      ne_key : (a b : ℤ) → eq_ℤ a b ≡ false → a ≢ b
      ne_key a b e = ground (arith, eq_ℤ_iff a b)

  -- Each value has its key in the map as its own.
  abbrev pub IsKeyed : NumMap A → Type 0
  IsKeyed m = All (λ e. key e.1 ≡ e.0) m

  pub map_set-IsKeyed : (v : A) (m : NumMap A) → IsKeyed m → IsKeyed (map_set (key v) v m)
  map_set-IsKeyed v m h =
      map_set-All (λ e. key e.1 ≡ e.0) (key v) v m (λ j e. sym ((eq_ℤ_iff j (key v)).0 e)) refl h

  pub values-find_key : (k : ℤ) (m : NumMap A) → IsKeyed m → find_key key k (values m) ≡ map_get k m
  unfolding find_key map_get
  values-find_key k [] h = refl
  values-find_key k ((j, v) ∷ m) h = rw (h.0, values-find_key k m h.1) refl

  values_ne :
      (k : ℤ) (m : NumMap A) → IsKeyed m → All (λ e. k ≢ e.0) m → All (λ v. k ≢ key v) (values m)
  values_ne k [] h n = tt
  values_ne k ((j, v) ∷ m) h n = (λ e. n.0 (e ∙ h.0), values_ne k m h.1 n.1)

  pub values-IsDistinct : (m : NumMap A) → IsKeyed m → HasDistinctKeys m → IsDistinct key (values m)
  values-IsDistinct [] h d = tt
  values-IsDistinct ((j, v) ∷ m) h d = (
    values_ne (key v) m h.1
        (All-map (λ e. j ≢ e.0) (λ e. key v ≢ e.0) (λ e n f. n (sym h.0 ∙ f)) m d.0),
    values-IsDistinct m h.1 d.1,
  )
