-- ===== src/Minutes/Record.antt =====
-- What a series and its index map are for: a map from minutes to values.
use trading_monitoring_dashb.Base.{
  Bool, true, false, ◌&&◌, Option, none, some, List, [], ◌∷◌, ◌≡◌, refl, sym, ap, ◌∙◌, arith, inl,
  inr, Bool-cases, All, if◌then◌else◌,
}
use trading_monitoring_dashb.Base.Int.{ℤ, eq_ℤ, eq_ℤ_iff, ◌<ℤ◌}
use trading_monitoring_dashb.Base.NumMap.{NumMap, map_get, map_set, map_get-map_set}
use trading_monitoring_dashb.Base.Sort.{IsAscending, find_key}
use trading_monitoring_dashb.Js.{
  Js, undefined, null, bool, num, infinite, str, arr, obj, strict_eq, is_number, lookup_key,
}
use trading_monitoring_dashb.Timeline.{is_same_point, upsert_point}
use trading_monitoring_dashb.Timeline.Placement.{upsert_point-Upserts, find_key-put_point}
use trading_monitoring_dashb.Timeline.Index.{IsIndex, upsert_point-IsIndex, rebuild-IsIndex}
use trading_monitoring_dashb.Minutes.{
  MinutePoint, minute_of, minute_row, TimelineState, reset_baseline, put_latest, fill_record,
  to_record,
}

abbrev pub value_of : Option MinutePoint → Option Js
value_of none = none
value_of (some p) = some p.value

abbrev or_before : Option MinutePoint → Option Js → Option Js
or_before none o = o
or_before (some p) o = some p.value

absent_above :
    (k : ℤ) (ps : List MinutePoint) (a : ℤ)
    → All (λ q. a <ℤ minute_of q) ps
    → eq_ℤ a k ≡ true
    → find_key minute_of k ps ≡ none
unfolding find_key
absent_above k [] a h e = refl
absent_above k (q ∷ qs) a h e =
    let ne : eq_ℤ q.minute_ts k ≡ false = ground (arith, h.0) in rw (ne, absent_above k qs a h.1 e)

fill_record-get :
    (k : ℤ) (out : NumMap Js) (s : List MinutePoint)
    → IsAscending minute_of s
    → map_get k (fill_record out s) ≡ or_before (find_key minute_of k s) (map_get k out)
unfolding fill_record find_key
fill_record-get k out [] h = refl
fill_record-get k out (p ∷ ps) h =
    fill_record-get k (map_set p.minute_ts p.value out) ps h.1
    ∙ ap (or_before (find_key minute_of k ps)) (map_get-map_set p.minute_ts k p.value out)
    ∙ (elim (Bool-cases (eq_ℤ p.minute_ts k)) [
      | inl e ↦ rw (e, absent_above k ps p.minute_ts h.0 e) refl
      | inr e ↦ rw e refl
    ])

or_before-none : (o : Option MinutePoint) → or_before o none ≡ value_of o
or_before-none none = refl
or_before-none (some p) = refl

pub to_record-get :
    (k : ℤ) (s : List MinutePoint)
    → IsAscending minute_of s
    → map_get k (to_record s) ≡ value_of (find_key minute_of k s)
unfolding to_record map_get
to_record-get k s h = fill_record-get k [] s h ∙ or_before-none (find_key minute_of k s)

number_eq : (u v : Js) → strict_eq u v ≡ true → is_number v ≡ true → u ≡ v
unfolding strict_eq is_number
number_eq (num a) (num b) e h = ap num ((eq_ℤ_iff a b).0 e)
number_eq (infinite true) (infinite true) e h = refl
number_eq (infinite false) (infinite false) e h = refl
number_eq undefined (num b) e h = cc
number_eq null (num b) e h = cc
number_eq (bool a) (num b) e h = cc
number_eq (infinite a) (num b) e h = cc
number_eq (str a) (num b) e h = cc
number_eq (arr r a) (num b) e h = cc
number_eq (obj r a) (num b) e h = cc
number_eq undefined (infinite b) e h = cc
number_eq null (infinite b) e h = cc
number_eq (bool a) (infinite b) e h = cc
number_eq (num a) (infinite b) e h = cc
number_eq (str a) (infinite b) e h = cc
number_eq (arr r a) (infinite b) e h = cc
number_eq (obj r a) (infinite b) e h = cc
number_eq (infinite true) (infinite false) e h = cc
number_eq (infinite false) (infinite true) e h = cc
number_eq u undefined e h = cc
number_eq u null e h = cc
number_eq u (bool b) e h = cc
number_eq u (str b) e h = cc
number_eq u (arr r b) e h = cc
number_eq u (obj r b) e h = cc

same_value :
    (q p : MinutePoint)
    → is_same_point minute_row q p ≡ true
    → is_number p.value ≡ true
    → q.value ≡ p.value
unfolding is_same_point lookup_key
same_value q p e h =
    number_eq q.value p.value (second (strict_eq (num q.minute_ts) (num p.minute_ts)) _ e) h
  where
    second : (a b : Bool) → (a && (b && true)) ≡ true → b ≡ true
    second a b e = ground arith

-- The minutes of the series ascend, and the index map holds just their positions.
abbrev pub IsTimeline : TimelineState → Type 0
IsTimeline st = IsAscending minute_of st.series × IsIndex minute_row st.series st.index_map

pub reset_baseline-IsTimeline :
    (s : List MinutePoint) → IsAscending minute_of s → IsTimeline (reset_baseline s)
unfolding reset_baseline
reset_baseline-IsTimeline s h = (h, rebuild-IsIndex minute_row s h)

put_latest-IsTimeline :
    (p : MinutePoint) (st : TimelineState) → IsTimeline st → IsTimeline (put_latest p st)
unfolding put_latest
put_latest-IsTimeline p st h =
    let u = upsert_point minute_row st.series st.index_map p in
    elim (Bool-cases u.did_change) [
      | inl e ↦ rw e (upsert_point-IsIndex minute_row st.series st.index_map p h.0 h.1)
      | inr e ↦ rw e h
    ]

put_latest-find_key :
    (p : MinutePoint) (st : TimelineState) (k : ℤ)
    → IsAscending minute_of st.series
    → is_number p.value ≡ true
    → value_of (find_key minute_of k (put_latest p st).series)
      ≡ (if eq_ℤ p.minute_ts k then some p.value else value_of (find_key minute_of k st.series))
unfolding put_latest
put_latest-find_key p st k h n =
    let r = upsert_point minute_row st.series st.index_map p in
    let u = upsert_point-Upserts minute_row st.series st.index_map p h in
    elim (Bool-cases r.did_change) [
      | inl e ↦
          rw (e, u.changed e, find_key-put_point minute_row k p st.series h)
            (elim (Bool-cases (eq_ℤ p.minute_ts k)) [ inl f ↦ rw f refl | inr f ↦ rw f refl ])
      | inr e ↦
          let (q, found, same) = (u.unchanged e).1 in
          rw e (elim (Bool-cases (eq_ℤ p.minute_ts k)) [
            | inr f ↦ rw f refl
            | inl f ↦
                let minute : p.minute_ts ≡ k = (eq_ℤ_iff p.minute_ts k).0 f in
                rw f (
                  ap (λ t. value_of (find_key minute_of t st.series)) (sym minute)
                  ∙ ap value_of found
                  ∙ ap some (same_value q p same n))
          ])
    ]

-- For a timeline and a point with a number as its value: the hook's callback leaves a timeline, in
-- whose record the point's minute has the point's value and each other minute has what it had.
pub put_latest-record :
    (p : MinutePoint) (st : TimelineState)
    → IsTimeline st
    → is_number p.value ≡ true
    → IsTimeline (put_latest p st)
      × ((k : ℤ)
          → map_get k (to_record (put_latest p st).series)
            ≡ (if eq_ℤ p.minute_ts k then some p.value else map_get k (to_record st.series)))
put_latest-record p st h n =
    let t = put_latest-IsTimeline p st h in
    (
      t,
      λ k.
          to_record-get k (put_latest p st).series t.0
          ∙ put_latest-find_key p st k h.0 n
          ∙ ap (λ o. if eq_ℤ p.minute_ts k then some p.value else o)
              (sym (to_record-get k st.series h.0)),
    )
