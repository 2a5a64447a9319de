-- ===== src/OrderFlow/Patch.antt =====
-- What a realtime patch does to the series.
use Prim.Native.String.{String}
use trading_monitoring_dashb.Base.{
  ℕ, true, Option, none, some, List, [], ◌∷◌, ◌++◌, ◌≡◌, refl, sym, ap, ◌∙◌, inl, inr, Bool-cases,
  Option-cases, get_elem?, set, if◌then◌else◌,
}
use trading_monitoring_dashb.Base.Int.{ℤ, pos, eq_ℤ, eq_ℤ_iff}
use trading_monitoring_dashb.Base.Sort.{
  IsAscending, find_key, find_index, sort_by-find_key, find_key-set, find_key-push, find_index-none,
  find_index-found,
}
use trading_monitoring_dashb.Base.Keyed.{
  sort_by-IsAscending, IsAscending-IsDistinct, set-IsDistinct, push-IsDistinct,
}
use trading_monitoring_dashb.Js.{Js, undefined, null, bool, num, infinite, str, arr, obj, is_number}
use trading_monitoring_dashb.Collect.{nullish}
use trading_monitoring_dashb.OrderFlow.{
  minute_key, OrderFlowSeriesPoint, OrderFlowRealtimePatch, zero_number, flow_point, patched_point,
  patch_at, patch_or_push, apply_realtime_patch,
}
use trading_monitoring_dashb.OrderFlow.Series.{minute_of}

-- What a patch gives, or what was there before.
unfoldable pub taken : Js → Js → Js
taken undefined old = old
taken null old = old
taken new old = new

nullish-taken : (new old : Js) → nullish new old ≡ taken new old
unfolding taken
nullish-taken undefined old = refl
nullish-taken null old = refl
nullish-taken (bool a) old = refl
nullish-taken (num a) old = refl
nullish-taken (infinite a) old = refl
nullish-taken (str a) old = refl
nullish-taken (arr r a) old = refl
nullish-taken (obj r a) old = refl

module _ (label : ℤ → String) (patch : OrderFlowRealtimePatch) where
  -- The point of the patch's minute behind the patch, from the one before it.
  abbrev pub patched_at : ℤ → Option OrderFlowSeriesPoint → Option OrderFlowSeriesPoint
  patched_at minute (some p) = some (record {
    minute_ts = p.minute_ts;
    time = p.time;
    index_price = taken patch.index_price p.index_price;
    chip_delta = taken patch.chip_delta p.chip_delta;
  })
  patched_at minute none =
      if is_number patch.index_price
      then some (record {
        minute_ts = minute;
        time = label minute;
        index_price = patch.index_price;
        chip_delta = taken patch.chip_delta (num (pos 0));
      })
      else none

  patched_eq :
      (minute : ℤ) (p : OrderFlowSeriesPoint)
      → some (patched_point patch p) ≡ patched_at minute (some p)
  patched_eq minute p =
      rw
        (nullish-taken patch.index_price p.index_price, nullish-taken patch.chip_delta p.chip_delta)
        refl

  -- The minutes ascend, and only the point of the minute `k` is another.
  abbrev pub Patched : ℤ → List OrderFlowSeriesPoint → List OrderFlowSeriesPoint → Type 0
  Patched k s r =
      IsAscending minute_of r
      × ((j : ℤ)
          → find_key minute_of j r
            ≡ (if eq_ℤ k j then patched_at k (find_key minute_of k s) else find_key minute_of j s))

  patch_found :
      (s : List OrderFlowSeriesPoint) (k : ℤ) (i : ℕ) {p : OrderFlowSeriesPoint}
      → IsAscending minute_of s
      → find_index minute_of k s ≡ some i
      → get_elem? s i ≡ some p
      → find_key minute_of k s ≡ some p
      → p.minute_ts ≡ k
      → Patched k s (patch_at s patch i (get_elem? s i))
  patch_found s k i {p} h e g f m =
      let new = patched_point patch p in
      let self : eq_ℤ new.minute_ts k ≡ true = (eq_ℤ_iff p.minute_ts k).1 m in
      rw g (
        sort_by-IsAscending minute_of (set s i new) (
            set-IsDistinct minute_of s i new (ap (λ t. find_index minute_of t s) m ∙ e)
              (IsAscending-IsDistinct minute_of s h)),
        λ j.
            sort_by-find_key minute_of j (set s i new)
            ∙ find_key-set minute_of k s i new j e self
            ∙ ap (λ o. if eq_ℤ k j then o else find_key minute_of j s) (patched_eq k p)
            ∙ ap (λ o. if eq_ℤ k j then patched_at k o else find_key minute_of j s) (sym f),
      )

  patch_missing :
      (s : List OrderFlowSeriesPoint) (k : ℤ)
      → IsAscending minute_of s
      → find_index minute_of k s ≡ none
      → Patched k s (patch_or_push label s patch k none)
  patch_missing s k h e =
      let f = find_index-none minute_of k s e in
      let new = flow_point label k patch.index_price (nullish patch.chip_delta zero_number) in
      elim (Bool-cases (is_number patch.index_price)) [
        | inr n ↦ rw n (h, λ j. rw (f, n) (unchanged j f))
        | inl n ↦ rw n (
          sort_by-IsAscending minute_of (s ++ (new ∷ []))
              (push-IsDistinct minute_of s new e (IsAscending-IsDistinct minute_of s h)),
          λ j.
              sort_by-find_key minute_of j (s ++ (new ∷ []))
              ∙ find_key-push minute_of j s new f
              ∙ rw f (rw (n, nullish-taken patch.chip_delta zero_number) refl),
        )
      ]
    where
      unchanged :
          (j : ℤ)
          → find_key minute_of k s ≡ none
          → find_key minute_of j s ≡ (if eq_ℤ k j then none else find_key minute_of j s)
      unchanged j f = elim (Bool-cases (eq_ℤ k j)) [
        | inl c ↦ rw c (ap (λ t. find_key minute_of t s) (sym ((eq_ℤ_iff k j).0 c)) ∙ f)
        | inr c ↦ rw c refl
      ]

  patch_or_push-Patched :
      (s : List OrderFlowSeriesPoint) (k : ℤ)
      → IsAscending minute_of s
      → Patched k s (patch_or_push label s patch k (find_index minute_of k s))
  patch_or_push-Patched s k h = elim (Option-cases (find_index minute_of k s)) [
    | inl e ↦ rw e (patch_missing s k h e)
    | inr (i, e) ↦
        let (p, g, f, m) = find_index-found minute_of k s i e in rw e (patch_found s k i h e g f m)
  ]

  -- For a series in which the minutes ascend: so do they behind a patch, and each minute but the
  -- patch's has the point it had. A point of the patch's minute keeps its label, and takes from
  -- the patch the price and the difference that are not undefined or null; if there is none, the
  -- patch makes one exactly if its price is a number, with the difference zero if it gives none.
  pub apply_realtime_patch-Patched :
      (s : List OrderFlowSeriesPoint)
      → IsAscending minute_of s
      → Patched (minute_key patch.minute_ts) s (apply_realtime_patch label s patch)
  unfolding apply_realtime_patch
  apply_realtime_patch-Patched s h = patch_or_push-Patched s (minute_key patch.minute_ts) h
