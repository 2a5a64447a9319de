-- ===== src/Collect/Fallback.antt =====
-- The code that stands in for a missing one is that of the newest bar.
use Prim.Native.String.{String}
use trading_monitoring_dashb.Base.{
  true, false, [], ◌∷◌, ◌≡◌, refl, arith, All, ◌⊎◌, inl, inr, Bool-cases,
}
use trading_monitoring_dashb.Base.Int.{ℤ, leb_ℤ, ltb_ℤ}
use trading_monitoring_dashb.Base.Dict.{Dict}
use trading_monitoring_dashb.Js.{Js, num, is_number}
use trading_monitoring_dashb.Collect.{number_lt, bar_time, latest_code, fallback_code}

-- The entry stands in the map.
pub data Has (k : String) (v : Js) : Dict Js → Type 0 where
  here : {m : Dict Js} → Has k v ((k, v) ∷ m)
  there : {j : String} {w : Js} {m : Dict Js} → Has k v m → Has k v ((j, w) ∷ m)

-- Every bar has a finite time.
abbrev pub AllTimed : Dict Js → Type 0
AllTimed kbars = All (λ e. (t : ℤ) × (bar_time e.1 ≡ num t)) kbars

-- No bar is later than `t`.
abbrev pub NoneLater : ℤ → Dict Js → Type 0
NoneLater t kbars = All (λ e. (u : ℤ) × (bar_time e.1 ≡ num u) × (leb_ℤ u t ≡ true)) kbars

-- `k` is the code of a bar than which none is later.
pub record IsNewest (kbars : Dict Js) (k : String) : Type 0 where
  pub bar : Js
  pub time : ℤ
  pub member : Has k bar kbars
  pub has_time : bar_time bar ≡ num time
  pub none_later : NoneLater time kbars

-- What the loop has found, started with the code `k₀` of the time `t₀`.
record Found (t₀ : ℤ) (k₀ : String) (kbars : Dict Js) (k : String) : Type 0 where
  time : ℤ
  no_earlier : leb_ℤ t₀ time ≡ true
  none_later : NoneLater time kbars
  origin : ((k ≡ k₀) × (time ≡ t₀)) ⊎ ((bar : Js) × Has k bar kbars × (bar_time bar ≡ num time))

le_refl_ℤ : (a : ℤ) → leb_ℤ a a ≡ true
le_refl_ℤ a = ground arith

le_of_lt : (a b c : ℤ) → ltb_ℤ a b ≡ true → leb_ℤ b c ≡ true → leb_ℤ a c ≡ true
le_of_lt a b c h k = ground arith

le_of_not_lt : (a b c : ℤ) → ltb_ℤ a b ≡ false → leb_ℤ a c ≡ true → leb_ℤ b c ≡ true
le_of_not_lt a b c h k = ground arith

latest_code_step :
    (t₀ t : ℤ) (k₀ k : String) (v : Js) (kbars : Dict Js)
    → bar_time v ≡ num t
    → ltb_ℤ t₀ t ≡ true
    → latest_code (num t₀) k₀ ((k, v) ∷ kbars) ≡ latest_code (num t) k kbars
unfolding latest_code number_lt is_number
latest_code_step t₀ t k₀ k v kbars e h = rw (e, h)

latest_code_skip :
    (t₀ t : ℤ) (k₀ k : String) (v : Js) (kbars : Dict Js)
    → bar_time v ≡ num t
    → ltb_ℤ t₀ t ≡ false
    → latest_code (num t₀) k₀ ((k, v) ∷ kbars) ≡ latest_code (num t₀) k₀ kbars
unfolding latest_code number_lt is_number
latest_code_skip t₀ t k₀ k v kbars e h = rw (e, h)

step_origin :
    (k₀ k c : String) (v : Js) (t time : ℤ) (kbars : Dict Js)
    → bar_time v ≡ num t
    → ((c ≡ k) × (time ≡ t)) ⊎ ((bar : Js) × Has c bar kbars × (bar_time bar ≡ num time))
    → (bar : Js) × Has c bar ((k, v) ∷ kbars) × (bar_time bar ≡ num time)
step_origin k₀ k c v t time kbars e (inl (p, q)) = (v, rw p here, rw q e)
step_origin k₀ k c v t time kbars e (inr (bar, m, h)) = (bar, there m, h)

latest_code-Found :
    (t₀ : ℤ) (k₀ : String) (kbars : Dict Js)
    → AllTimed kbars
    → Found t₀ k₀ kbars (latest_code (num t₀) k₀ kbars)
latest_code-Found t₀ k₀ [] h =
    unfold latest_code in
    record { time = t₀; no_earlier = le_refl_ℤ t₀; none_later = tt; origin = inl (refl, refl) }
latest_code-Found t₀ k₀ ((k, v) ∷ kbars) ((t, e), h) = elim (Bool-cases (ltb_ℤ t₀ t)) [
  | inl lt ↦
      let r : Found t k kbars (latest_code (num t) k kbars) = latest_code-Found t k kbars h in
      rw (latest_code_step t₀ t k₀ k v kbars e lt) (record {
        time = r.time;
        no_earlier = le_of_lt t₀ t r.time lt r.no_earlier;
        none_later = ((t, e, r.no_earlier), r.none_later);
        origin = inr (step_origin k₀ k _ v t r.time kbars e r.origin);
      })
  | inr ge ↦
      let r : Found t₀ k₀ kbars (latest_code (num t₀) k₀ kbars) = latest_code-Found t₀ k₀ kbars h in
      rw (latest_code_skip t₀ t k₀ k v kbars e ge) (record {
        time = r.time;
        no_earlier = r.no_earlier;
        none_later = ((t, e, le_of_not_lt t₀ t r.time ge r.no_earlier), r.none_later);
        origin = skip_origin r.origin;
      })
]
  where
    skip_origin :
        {c : String} {time : ℤ}
        → ((c ≡ k₀) × (time ≡ t₀)) ⊎ ((bar : Js) × Has c bar kbars × (bar_time bar ≡ num time))
        → ((c ≡ k₀) × (time ≡ t₀))
          ⊎ ((bar : Js) × Has c bar ((k, v) ∷ kbars) × (bar_time bar ≡ num time))
    skip_origin (inl p) = inl p
    skip_origin (inr (bar, m, q)) = inr (bar, there m, q)

-- For a store with at least one bar, in which every bar has a finite time: the code that stands in
-- for a missing one is the code of a bar than which no bar is later.
pub fallback_code-IsNewest :
    (code k : String) (v : Js) (kbars : Dict Js)
    → AllTimed ((k, v) ∷ kbars)
    → IsNewest ((k, v) ∷ kbars) (fallback_code code ((k, v) ∷ kbars))
fallback_code-IsNewest code k v kbars ((t, e), h) =
    let r : Found t k kbars (latest_code (num t) k kbars) = latest_code-Found t k kbars h in
    let (bar, m, q) = step_origin k k _ v t r.time kbars e r.origin in
    rw (first_bar code k v kbars t e) (record {
      bar = bar;
      time = r.time;
      member = m;
      has_time = q;
      none_later = ((t, e, r.no_earlier), r.none_later);
    })
  where
    first_bar :
        (code k : String) (v : Js) (kbars : Dict Js) (t : ℤ)
        → bar_time v ≡ num t
        → fallback_code code ((k, v) ∷ kbars) ≡ latest_code (num t) k kbars
    first_bar code k v kbars t e = unfold fallback_code latest_code number_lt is_number in rw e
