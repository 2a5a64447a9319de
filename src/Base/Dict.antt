-- ===== src/Base/Dict.antt =====
-- A JavaScript object used as a map: an association list in insertion order. (A key that spells an
-- array index, which JavaScript lists first, keeps its place in insertion order here.)
use Prim.Native.String.{String}
use text.Mathlib.Text.{◌==◌}
use text.Mathlib.TextEquality.{eq_iff}
use mathlib.Core.Path.{◌≡◌, refl}
use mathlib.Core.Option.{Option, none, some}
use mathlib.Core.List.{List, [], ◌∷◌}
use native.Mathlib.Omega.{arith}
use mathlib.Core.Bool.{false}
use mathlib.Core.Logic.{inl, inr}
use trading_monitoring_dashb.Base.Tests.{if◌then◌else◌, Bool-cases}

abbrev pub Dict {ℓ} : Type ℓ → Type ℓ
Dict V = List (String × V)

module _ {ℓ} {V : Type ℓ} where
  unfoldable pub lookup : String → Dict V → Option V
  lookup k [] = none
  lookup k ((j, v) ∷ m) = if j == k then some v else lookup k m

  unfoldable pub insert : String → V → Dict V → Dict V
  insert k v [] = (k, v) ∷ []
  insert k v ((j, w) ∷ m) = if j == k then (j, v) ∷ m else (j, w) ∷ insert k v m

  -- `Object.assign(target, incoming)`.
  unfoldable pub assign : Dict V → Dict V → Dict V
  assign m [] = m
  assign m ((k, v) ∷ r) = assign (insert k v m) r

  pub lookup-insert :
      (key read : String) (value : V) (dict : Dict V)
      → lookup read (insert key value dict) ≡ (if key == read then some value else lookup read dict)
  unfolding insert lookup
  lookup-insert key read value [] = refl
  lookup-insert key read value ((first, old) ∷ dict) = ground (
    eq_iff first key,
    eq_iff first read,
    eq_iff key read,
    arith,
    lookup-insert key read value dict,
  )

  -- No key stands twice, as in every JavaScript object.
  abbrev pub IsUnique : Dict V → Type ℓ
  IsUnique [] = Unit
  IsUnique ((k, v) ∷ m) = (lookup k m ≡ none) × IsUnique m

  lookup-insert-none :
      (k j : String) (v : V) (m : Dict V)
      → lookup j m ≡ none
      → (j == k) ≡ false
      → lookup j (insert k v m) ≡ none
  lookup-insert-none k j v m h e =
      rw (lookup-insert k j v m) (ground (arith, eq_iff k j, eq_iff j k))

  insert-IsUnique : (k : String) (v : V) (m : Dict V) → IsUnique m → IsUnique (insert k v m)
  unfolding insert lookup
  insert-IsUnique k v [] u = (refl, tt)
  insert-IsUnique k v ((j, w) ∷ m) u = elim (Bool-cases (j == k)) [
    | inl e ↦ rw e u
    | inr e ↦ rw e (lookup-insert-none k j v m u.0 e, insert-IsUnique k v m u.1)
  ]

  pub assign-IsUnique : (m r : Dict V) → IsUnique m → IsUnique (assign m r)
  unfolding assign
  assign-IsUnique m [] u = u
  assign-IsUnique m ((k, v) ∷ r) u = assign-IsUnique (insert k v m) r (insert-IsUnique k v m u)

  -- What `Object.assign` leaves under a key.
  abbrev pub or_value : Option V → Option V → Option V
  or_value (some v) o = some v
  or_value none o = o

  pub lookup-assign :
      (j : String) (m r : Dict V)
      → IsUnique r
      → lookup j (assign m r) ≡ or_value (lookup j r) (lookup j m)
  unfolding assign lookup
  lookup-assign j m [] u = refl
  lookup-assign j m ((k, v) ∷ r) u =
      ground (arith, lookup-assign j (insert k v m) r u.1, lookup-insert k j v m, eq_iff k j, u.0)
