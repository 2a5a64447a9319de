-- ===== src/Store/Entries.antt =====
-- The loops over the entries of a map of payloads: which payload stands under a code at the end.
use Prim.Native.String.{String}
use text.Mathlib.Text.{◌==◌ as str_eq}
use text.Mathlib.TextEquality.{eq_iff}
use text.Mathlib.TextPositions.{eq_refl}
use mathlib.Core.Path.{subst}
use trading_monitoring_dashb.Base.{
  false, Option, none, some, [], ◌∷◌, if◌then◌else◌, ◌≡◌, refl, sym, ◌∙◌, arith, Bool-cases, inl,
  inr,
}
use trading_monitoring_dashb.Base.Dict.{Dict, lookup, lookup-insert, IsUnique}
use trading_monitoring_dashb.Js.{Js}
use trading_monitoring_dashb.Store.Apply.{
  or_undefined, patched, is_stale, apply_entry, apply_entries,
}

-- The payload under a code after a loop: the batch's, if there is one that is not the old one over
-- again, and the old one otherwise.
abbrev pub updated : Option Js → Option Js → Option Js
updated old none = old
updated old (some payload) = if is_stale (or_undefined old) payload then some payload else old

module _ (state : Dict Js) (code : String) where
  apply_entry_other :
      (next : Option (Dict Js)) (k : String) (v : Js)
      → str_eq k code ≡ false
      → lookup code (patched (apply_entry state next k v) state) ≡ lookup code (patched next state)
  unfolding apply_entry
  apply_entry_other next k v h = elim (Bool-cases (is_stale (or_undefined (lookup k state)) v)) [
    | inl e ↦ rw e (lookup-insert k code v (patched next state) ∙ rw h)
    | inr e ↦ rw e
  ]

  apply_entry_self :
      (next : Option (Dict Js)) (v : Js)
      → lookup code (patched next state) ≡ lookup code state
      → lookup code (patched (apply_entry state next code v) state)
        ≡ updated (lookup code state) (some v)
  unfolding apply_entry
  apply_entry_self next v h = elim (Bool-cases (is_stale (or_undefined (lookup code state)) v)) [
    | inl e ↦ rw e (lookup-insert code code v (patched next state) ∙ rw (eq_refl code))
    | inr e ↦ rw e h
  ]

  apply_entries_absent :
      (next : Option (Dict Js)) (es : Dict Js)
      → lookup code es ≡ none
      → lookup code (patched (apply_entries state next es) state) ≡ lookup code (patched next state)
  unfolding apply_entries lookup
  apply_entries_absent next [] h = refl
  apply_entries_absent next ((k, v) ∷ es) h = elim (Bool-cases (str_eq k code)) [
    | inl e ↦ ground arith
    | inr e ↦
        apply_entries_absent (apply_entry state next k v) es (rw e at h)
        ∙ apply_entry_other next k v e
  ]

  first_entry :
      (next : Option (Dict Js)) (v : Js) (es : Dict Js)
      → lookup code es ≡ none
      → lookup code (patched next state) ≡ lookup code state
      → lookup code (patched (apply_entries state next ((code, v) ∷ es)) state)
        ≡ updated (lookup code state) (lookup code ((code, v) ∷ es))
  unfolding apply_entries lookup
  first_entry next v es u h =
      rw (eq_refl code)
        (apply_entries_absent (apply_entry state next code v) es u ∙ apply_entry_self next v h)

  pub lookup-apply_entries_from :
      (next : Option (Dict Js)) (es : Dict Js)
      → IsUnique es
      → lookup code (patched next state) ≡ lookup code state
      → lookup code (patched (apply_entries state next es) state)
        ≡ updated (lookup code state) (lookup code es)
  unfolding apply_entries lookup
  lookup-apply_entries_from next [] u h = h
  lookup-apply_entries_from next ((k, v) ∷ es) u h = elim (Bool-cases (str_eq k code)) [
    | inl e ↦
        subst
          (λ j.
            (lookup j es ≡ none)
            → lookup code (patched (apply_entries state next ((j, v) ∷ es)) state)
              ≡ updated (lookup code state) (lookup code ((j, v) ∷ es)))
          (sym ((eq_iff k code).0 e)) (λ n. first_entry next v es n h) u.0
    | inr e ↦ rw e (
        lookup-apply_entries_from (apply_entry state next k v) es u.1
          (apply_entry_other next k v e ∙ h))
  ]

  -- For a map of payloads in which no code stands twice.
  pub lookup-apply_entries :
      (es : Dict Js)
      → IsUnique es
      → lookup code (patched (apply_entries state none es) state)
        ≡ updated (lookup code state) (lookup code es)
  lookup-apply_entries es u = lookup-apply_entries_from none es u refl
