-- ===== src/Base/NumMap.antt =====
-- A JavaScript `Map` with numbers as keys, in the order of insertion.
use mathlib.Core.Path.{◌≡◌, refl}
use mathlib.Core.Bool.{true, false}
use mathlib.Core.Logic.{◌≢◌, inl, inr}
use mathlib.Core.Option.{Option, none, some}
use mathlib.Core.List.{List, [], ◌∷◌}
use native.Mathlib.Omega.{arith}
use trading_monitoring_dashb.Base.Tests.{if◌then◌else◌, Bool-cases}
use trading_monitoring_dashb.Base.Lists.{All}
use trading_monitoring_dashb.Base.Int.{ℤ, eq_ℤ, eq_ℤ_iff}
use trading_monitoring_dashb.Base.Sort.{IsDistinct}

abbrev pub NumMap {ℓ} : Type ℓ → Type ℓ
NumMap V = List (ℤ × V)

module _ {ℓ} {V : Type ℓ} where
  unfoldable pub map_get : ℤ → NumMap V → Option V
  map_get k [] = none
  map_get k ((j, v) ∷ m) = if eq_ℤ j k then some v else map_get k m

  unfoldable pub map_set : ℤ → V → NumMap V → NumMap V
  map_set k v [] = (k, v) ∷ []
  map_set k v ((j, w) ∷ m) = if eq_ℤ j k then (j, v) ∷ m else (j, w) ∷ map_set k v m

  abbrev pub values : NumMap V → List V
  values [] = []
  values ((k, v) ∷ m) = v ∷ values m

  pub map_get-map_set :
      (k j : ℤ) (v : V) (m : NumMap V)
      → map_get j (map_set k v m) ≡ (if eq_ℤ k j then some v else map_get j m)
  unfolding map_get map_set
  map_get-map_set k j v [] = refl
  map_get-map_set k j v ((i, w) ∷ m) =
      ground (arith, eq_ℤ_iff k j, eq_ℤ_iff i k, eq_ℤ_iff i j, map_get-map_set k j v m)

  -- Each entry satisfies `P` at its key.
  pub map_set-All {κ} :
      (P : ℤ × V → Type κ) (k : ℤ) (v : V) (m : NumMap V)
      → ((j : ℤ) → eq_ℤ j k ≡ true → P (j, v))
      → P (k, v)
      → All P m
      → All P (map_set k v m)
  unfolding map_set
  map_set-All P k v [] f p h = (p, tt)
  map_set-All P k v ((j, w) ∷ m) f p h = elim (Bool-cases (eq_ℤ j k)) [
    | inl e ↦ rw e (f j e, h.1)
    | inr e ↦ rw e (h.0, map_set-All P k v m f p h.1)
  ]

  abbrev pub HasDistinctKeys : NumMap V → Type ℓ
  HasDistinctKeys m = IsDistinct (λ e. e.0) m

  pub map_set-HasDistinctKeys :
      (k : ℤ) (v : V) (m : NumMap V) → HasDistinctKeys m → HasDistinctKeys (map_set k v m)
  unfolding map_set
  map_set-HasDistinctKeys k v [] d = (tt, tt)
  map_set-HasDistinctKeys k v ((j, w) ∷ m) d = elim (Bool-cases (eq_ℤ j k)) [
    | inl e ↦ rw e d
    | inr e ↦ rw e (
      map_set-All (λ e. j ≢ e.0) k v m (λ i f. ne_other j i k e f) (ne_key j k e) d.0,
      map_set-HasDistinctKeys k v m d.1,
    )
  ]
    where
      ne_key : (a b : ℤ) → eq_ℤ a b ≡ false → a ≢ b
      ne_key a b e = ground (arith, eq_ℤ_iff a b)

      ne_other : (a i b : ℤ) → eq_ℤ a b ≡ false → eq_ℤ i b ≡ true → a ≢ i
      ne_other a i b e f = ground (arith, eq_ℤ_iff a b, eq_ℤ_iff i b)
