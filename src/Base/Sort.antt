-- ===== src/Base/Sort.antt =====
-- `Array.prototype.sort` with a comparison of numbers, which is stable, and lists in the order of
-- their keys.
use mathlib.Core.List.{Perm}
use mathlib.Core.List.Perm
use mathlib.Core.Path.{subst, ◌≡◌, refl, sym, ap, ◌∙◌}
use mathlib.Core.Logic.{◌≢◌, inl, inr}
use Prim.Native.Nat.{ℕ, suc}
use mathlib.Core.Option.{Option, none, some}
use mathlib.Core.Option
use mathlib.Core.List.{List, [], ◌∷◌, ◌++◌}
use mathlib.Core.Bool.{true, false}
use native.Mathlib.Omega.{arith}
use trading_monitoring_dashb.Base.Tests.{if◌then◌else◌, Bool-cases, Option-cases}
use trading_monitoring_dashb.Base.Lists.{All, All-map, get_elem?, set}
use trading_monitoring_dashb.Base.Int.{ℤ, leb_ℤ, eq_ℤ, eq_ℤ_iff, ◌≤ℤ◌, ◌<ℤ◌}

module _ {ℓ} {A : Type ℓ} (key : A → ℤ) where
  insert_ordered : A → List A → List A
  insert_ordered x [] = x ∷ []
  insert_ordered x (y ∷ ys) = if leb_ℤ (key x) (key y) then x ∷ y ∷ ys else y ∷ insert_ordered x ys

  unfoldable pub sort_by : List A → List A
  unfolding insert_ordered
  sort_by [] = []
  sort_by (x ∷ xs) = insert_ordered x (sort_by xs)

  -- Each key is at most, or below, the keys behind it.
  abbrev pub IsSorted : List A → Type ℓ
  IsSorted [] = Unit
  IsSorted (x ∷ xs) = All (λ y. key x ≤ℤ key y) xs × IsSorted xs

  abbrev pub IsAscending : List A → Type ℓ
  IsAscending [] = Unit
  IsAscending (x ∷ xs) = All (λ y. key x <ℤ key y) xs × IsAscending xs

  abbrev pub IsDistinct : List A → Type ℓ
  IsDistinct [] = Unit
  IsDistinct (x ∷ xs) = All (λ y. key x ≢ key y) xs × IsDistinct xs

  insert_ordered-All {κ} :
      (P : A → Type κ) (x : A) (xs : List A) → P x → All P xs → All P (insert_ordered x xs)
  unfolding insert_ordered
  insert_ordered-All P x [] p h = (p, tt)
  insert_ordered-All P x (y ∷ ys) p h = elim (Bool-cases (leb_ℤ (key x) (key y))) [
    | inl e ↦ rw e (p, h)
    | inr e ↦ rw e (h.0, insert_ordered-All P x ys p h.1)
  ]

  pub sort_by-All {κ} : (P : A → Type κ) (xs : List A) → All P xs → All P (sort_by xs)
  unfolding sort_by
  sort_by-All P [] h = tt
  sort_by-All P (x ∷ xs) h = insert_ordered-All P x (sort_by xs) h.0 (sort_by-All P xs h.1)

  All-insert_ordered {κ} :
      (P : A → Type κ) (x : A) (xs : List A) → All P (insert_ordered x xs) → P x × All P xs
  unfolding insert_ordered
  All-insert_ordered P x [] h = (h.0, tt)
  All-insert_ordered P x (y ∷ ys) h = elim (Bool-cases (leb_ℤ (key x) (key y))) [
    | inl e ↦ subst (λ b. All P (if b then x ∷ y ∷ ys else y ∷ insert_ordered x ys)) e h
    | inr e ↦
        let k = subst (λ b. All P (if b then x ∷ y ∷ ys else y ∷ insert_ordered x ys)) e h in
        let r = All-insert_ordered P x ys k.1 in (r.0, (k.0, r.1))
  ]

  -- What holds of all elements of the sorted list holds of all.
  pub All-sort_by {κ} : (P : A → Type κ) (xs : List A) → All P (sort_by xs) → All P xs
  unfolding sort_by
  All-sort_by P [] h = tt
  All-sort_by P (x ∷ xs) h =
      let r = All-insert_ordered P x (sort_by xs) h in (r.0, All-sort_by P xs r.1)

  insert_ordered-IsSorted : (x : A) (xs : List A) → IsSorted xs → IsSorted (insert_ordered x xs)
  unfolding insert_ordered
  insert_ordered-IsSorted x [] h = (tt, tt)
  insert_ordered-IsSorted x (y ∷ ys) h = elim (Bool-cases (leb_ℤ (key x) (key y))) [
    | inl e ↦
        let le : key x ≤ℤ key y = ground arith in
        rw e
          ((le, All-map (λ z. key y ≤ℤ key z) (λ z. key x ≤ℤ key z) (λ z k. omega arith) ys h.0), h)
    | inr e ↦ rw e (
      insert_ordered-All (λ z. key y ≤ℤ key z) x ys (ground arith) h.0,
      insert_ordered-IsSorted x ys h.1,
    )
  ]

  pub sort_by-IsSorted : (xs : List A) → IsSorted (sort_by xs)
  unfolding sort_by
  sort_by-IsSorted [] = tt
  sort_by-IsSorted (x ∷ xs) = insert_ordered-IsSorted x (sort_by xs) (sort_by-IsSorted xs)

  insert_ordered-perm : (x : A) (xs : List A) → Perm (insert_ordered x xs) (x ∷ xs)
  unfolding insert_ordered
  insert_ordered-perm x [] = Perm.rfl
  insert_ordered-perm x (y ∷ ys) = elim (Bool-cases (leb_ℤ (key x) (key y))) [
    | inl e ↦ rw e Perm.rfl
    | inr e ↦ rw e (Perm.trans (Perm.cons y (insert_ordered-perm x ys)) (Perm.swap x y ys))
  ]

  pub sort_by-perm : (xs : List A) → Perm (sort_by xs) xs
  unfolding sort_by
  sort_by-perm [] = Perm.rfl
  sort_by-perm (x ∷ xs) =
      Perm.trans (insert_ordered-perm x (sort_by xs)) (Perm.cons x (sort_by-perm xs))

  insert_ordered-IsDistinct :
      (x : A) (xs : List A)
      → All (λ y. key x ≢ key y) xs
      → IsDistinct xs
      → IsDistinct (insert_ordered x xs)
  unfolding insert_ordered
  insert_ordered-IsDistinct x [] n d = (tt, tt)
  insert_ordered-IsDistinct x (y ∷ ys) n d = elim (Bool-cases (leb_ℤ (key x) (key y))) [
    | inl e ↦ rw e (n, d)
    | inr e ↦ rw e (
      insert_ordered-All (λ z. key y ≢ key z) x ys (λ k. n.0 (sym k)) d.0,
      insert_ordered-IsDistinct x ys n.1 d.1,
    )
  ]

  pub sort_by-IsDistinct : (xs : List A) → IsDistinct xs → IsDistinct (sort_by xs)
  unfolding sort_by
  sort_by-IsDistinct [] d = tt
  sort_by-IsDistinct (x ∷ xs) d =
      insert_ordered-IsDistinct x (sort_by xs) (sort_by-All (λ y. key x ≢ key y) xs d.0)
        (sort_by-IsDistinct xs d.1)

  strictly_above :
      (k : ℤ) (xs : List A)
      → All (λ y. k ≤ℤ key y) xs
      → All (λ y. k ≢ key y) xs
      → All (λ y. k <ℤ key y) xs
  strictly_above k [] h d = tt
  strictly_above k (x ∷ xs) h d = (lt_of_ne k (key x) h.0 d.0, strictly_above k xs h.1 d.1)
    where
      lt_of_ne : (a b : ℤ) → a ≤ℤ b → a ≢ b → a <ℤ b
      lt_of_ne a b h n = ground arith

  pub sorted-IsAscending : (xs : List A) → IsSorted xs → IsDistinct xs → IsAscending xs
  sorted-IsAscending [] s d = tt
  sorted-IsAscending (x ∷ xs) s d =
      (strictly_above (key x) xs s.0 d.0, sorted-IsAscending xs s.1 d.1)

  -- Sorting leaves a list that is in order as it is.
  pub sort_by-sorted : (xs : List A) → IsSorted xs → sort_by xs ≡ xs
  unfolding sort_by
  sort_by-sorted [] s = refl
  sort_by-sorted (x ∷ xs) s = rw (sort_by-sorted xs s.1) (insert_first xs s.0)
    where
      insert_first : (ys : List A) → All (λ y. key x ≤ℤ key y) ys → insert_ordered x ys ≡ x ∷ ys
      insert_first [] h = refl
      insert_first (y ∷ ys) h = let e : leb_ℤ (key x) (key y) ≡ true = ground (arith, h.0) in rw e

  -- The first element with a key.
  unfoldable pub find_key : ℤ → List A → Option A
  find_key k [] = none
  find_key k (x ∷ xs) = if eq_ℤ (key x) k then some x else find_key k xs

  insert_ordered-find_key :
      (k : ℤ) (x : A) (xs : List A) → find_key k (insert_ordered x xs) ≡ find_key k (x ∷ xs)
  unfolding find_key insert_ordered
  insert_ordered-find_key k x [] = refl
  insert_ordered-find_key k x (y ∷ ys) = elim (Bool-cases (leb_ℤ (key x) (key y))) [
    | inl e ↦ rw e
    | inr e ↦
        rw (e, insert_ordered-find_key k x ys)
          (elim (Bool-cases (eq_ℤ (key y) k)) [
            | inr f ↦ rw f refl
            | inl f ↦ elim (Bool-cases (eq_ℤ (key x) k)) [
              | inl g ↦ absurd (equal_keys (key x) (key y) e f g)
              | inr g ↦ rw (f, g) refl
            ]
          ])
  ]
    where
      equal_keys : (a b : ℤ) → leb_ℤ a b ≡ false → eq_ℤ b k ≡ true → eq_ℤ a k ≡ true → ⊥
      equal_keys a b e f g = ground arith

  -- Sorting does not change which element is the first with its key.
  pub sort_by-find_key : (k : ℤ) (xs : List A) → find_key k (sort_by xs) ≡ find_key k xs
  unfolding find_key sort_by
  sort_by-find_key k [] = refl
  sort_by-find_key k (x ∷ xs) =
      insert_ordered-find_key k x (sort_by xs)
      ∙ ap (λ t. if eq_ℤ (key x) k then some x else t) (sort_by-find_key k xs)

  unfoldable pub find_index : ℤ → List A → Option ℕ
  find_index k [] = none
  find_index k (x ∷ xs) = if eq_ℤ (key x) k then some 0 else Option.map suc (find_index k xs)

  -- `xs[xs.findIndex(…)] = v`, where there is such an index.
  pub find_key-set :
      (k : ℤ) (xs : List A) (i : ℕ) (v : A) (j : ℤ)
      → find_index k xs ≡ some i
      → eq_ℤ (key v) k ≡ true
      → find_key j (set xs i v) ≡ (if eq_ℤ k j then some v else find_key j xs)
  unfolding find_key find_index
  find_key-set k [] i v j h e = cc
  find_key-set k (x ∷ xs) i v j h e = elim (Bool-cases (eq_ℤ (key x) k)) [
    | inl f ↦
        let first : i ≡ 0 = ground arith in
        rw first (ground (arith, eq_ℤ_iff k j, eq_ℤ_iff (key v) k, eq_ℤ_iff (key x) k))
    | inr f ↦ elim (Option-cases (find_index k xs)) [
      | inl g ↦ absurd (ground arith)
      | inr (m, g) ↦
          let next : i ≡ suc m = ground arith in
          rw (next, find_key-set k xs m v j g e)
            (ground (arith, eq_ℤ_iff k j, eq_ℤ_iff (key x) j, eq_ℤ_iff (key x) k))
    ]
  ]

  pub find_index-none : (k : ℤ) (xs : List A) → find_index k xs ≡ none → find_key k xs ≡ none
  unfolding find_key find_index
  find_index-none k [] h = refl
  find_index-none k (x ∷ xs) h = ground (arith, find_index-none k xs)

  pub find_key-push :
      (k : ℤ) (xs : List A) (v : A)
      → find_key (key v) xs ≡ none
      → find_key k (xs ++ (v ∷ [])) ≡ (if eq_ℤ (key v) k then some v else find_key k xs)
  unfolding find_key
  find_key-push k [] v h = refl
  find_key-push k (x ∷ xs) v h = elim (Bool-cases (eq_ℤ (key x) (key v))) [
    | inl e ↦ absurd (ground arith)
    | inr e ↦
        rw (find_key-push k xs v (rw e at h))
          (ground (arith, eq_ℤ_iff (key x) k, eq_ℤ_iff (key v) k, eq_ℤ_iff (key x) (key v)))
  ]

  -- `find` and `findIndex` find the same element.
  pub find_index-found :
      (k : ℤ) (xs : List A) (i : ℕ)
      → find_index k xs ≡ some i
      → (v : A) × (get_elem? xs i ≡ some v) × (find_key k xs ≡ some v) × (key v ≡ k)
  unfolding find_key find_index
  find_index-found k [] i h = absurd (cc)
  find_index-found k (x ∷ xs) i h = elim (Bool-cases (eq_ℤ (key x) k)) [
    | inl e ↦
        let first : i ≡ 0 = ground arith in rw (first, e) (x, refl, refl, (eq_ℤ_iff (key x) k).0 e)
    | inr e ↦ elim (Option-cases (find_index k xs)) [
      | inl g ↦ absurd (ground arith)
      | inr (m, g) ↦ let next : i ≡ suc m = ground arith in rw (next, e) (find_index-found k xs m g)
    ]
  ]
