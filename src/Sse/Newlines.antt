-- ===== src/Sse/Newlines.antt =====
-- Line ends: `normalize` turns CRLF into LF, and may be repeated on a text where no two CR are
-- neighbours.
use trading_monitoring_dashb.Base.{
  ℕ, Bool, true, false, not, ◌&&◌, [], ◌∷◌, ◌++◌, ◌==◌, ◌≡◌, refl, ap, sym, ◌∙◌, arith, Bool-cases,
  inl, inr,
}
use trading_monitoring_dashb.Base.Text.{Text, lf, cr}
use trading_monitoring_dashb.Sse.{starts_lf, normalize}

abbrev pub starts_cr : Text → Bool
starts_cr [] = false
starts_cr (c ∷ cs) = c == cr

-- No two neighbouring CR.
unfoldable pub single_cr : Text → Bool
single_cr [] = true
single_cr (c ∷ cs) = not (c == cr && starts_cr cs) && single_cr cs

-- No CRLF: `normalize` would change nothing.
unfoldable pub no_crlf : Text → Bool
no_crlf [] = true
no_crlf (c ∷ cs) = not (c == cr && starts_lf cs) && no_crlf cs

pub single_cr-tail : (c : ℕ) (cs : Text) → single_cr (c ∷ cs) ≡ true → single_cr cs ≡ true
unfolding single_cr
single_cr-tail c cs h = ground arith

pub single_cr-prefix : (a b : Text) → single_cr (a ++ b) ≡ true → single_cr a ≡ true
unfolding single_cr
single_cr-prefix [] b h = refl
single_cr-prefix (c ∷ []) b h = ground arith
single_cr-prefix (c ∷ d ∷ a) b h = ground (arith, single_cr-prefix (d ∷ a) b)

pub no_crlf-tail : (c : ℕ) (cs : Text) → no_crlf (c ∷ cs) ≡ true → no_crlf cs ≡ true
unfolding no_crlf
no_crlf-tail c cs h = ground arith

-- The first character stays unless it is the CR of a CRLF.
pub normalize_keep :
    (c : ℕ) (cs : Text) → (c == cr && starts_lf cs) ≡ false → normalize (c ∷ cs) ≡ c ∷ normalize cs
unfolding normalize
normalize_keep c cs h = rw h

drop_cr : (c : ℕ) (cs : Text) → (c == cr && starts_lf cs) ≡ true → normalize (c ∷ cs) ≡ normalize cs
unfolding normalize
drop_cr c cs h = rw h

-- An LF in front stays in front.
pub starts_lf-normalize :
    (c : ℕ) (cs : Text) → (c == cr) ≡ false → starts_lf (normalize (c ∷ cs)) ≡ (c == lf)
unfolding normalize
starts_lf-normalize c cs h = rw h

-- The first character of a normalized text, with a text behind it.
starts_lf-normalize-append :
    (d : ℕ) (a b : Text) → (d == cr) ≡ false → starts_lf (normalize (d ∷ a) ++ b) ≡ (d == lf)
unfolding normalize
starts_lf-normalize-append d a b h = rw h

starts_cr-normalize-append :
    (d : ℕ) (a b : Text) → (d == cr) ≡ false → starts_cr (normalize (d ∷ a) ++ b) ≡ false
unfolding normalize
starts_cr-normalize-append d a b h = rw (h, h)

-- A character in front of the rest, as the three functions see it.
normalized_test :
    (c d : ℕ) (a b : Text)
    → (c == cr && d == lf) ≡ false
    → single_cr (c ∷ d ∷ (a ++ b)) ≡ true
    → (c == cr && starts_lf (normalize (d ∷ a) ++ b)) ≡ false
unfolding single_cr
normalized_test c d a b e h = ground (arith, starts_lf-normalize-append d a b)

no_crlf-cons :
    (c : ℕ) (t : Text)
    → (c == cr && starts_lf t) ≡ false
    → no_crlf t ≡ true
    → no_crlf (c ∷ t) ≡ true
unfolding no_crlf
no_crlf-cons c t e h = ground arith

single_cr-cons :
    (c d : ℕ) (a b : Text)
    → single_cr (c ∷ d ∷ (a ++ b)) ≡ true
    → single_cr (normalize (d ∷ a) ++ b) ≡ true
    → single_cr (c ∷ (normalize (d ∷ a) ++ b)) ≡ true
unfolding single_cr
single_cr-cons c d a b h k = ground (arith, starts_cr-normalize-append d a b)

-- Normalizing the first part of a text early makes no difference.
pub normalize-append :
    (a b : Text) → single_cr (a ++ b) ≡ true → normalize (normalize a ++ b) ≡ normalize (a ++ b)
normalize-append [] b h = unfold normalize in refl
normalize-append (c ∷ []) b h = unfold normalize in ground arith
normalize-append (c ∷ d ∷ a) b h = elim (Bool-cases (c == cr && d == lf)) [
  | inl e ↦
      ap (λ t. normalize (t ++ b)) (drop_cr c (d ∷ a) e)
      ∙ normalize-append (d ∷ a) b (single_cr-tail c (d ∷ (a ++ b)) h)
      ∙ sym (drop_cr c (d ∷ (a ++ b)) e)
  | inr e ↦
      ap (λ t. normalize (t ++ b)) (normalize_keep c (d ∷ a) e)
      ∙ normalize_keep c (normalize (d ∷ a) ++ b) (normalized_test c d a b e h)
      ∙ ap (λ t. c ∷ t) (normalize-append (d ∷ a) b (single_cr-tail c (d ∷ (a ++ b)) h))
      ∙ sym (normalize_keep c (d ∷ (a ++ b)) e)
]

-- Normalizing makes no two CR neighbours.
pub single_cr-normalize :
    (a b : Text) → single_cr (a ++ b) ≡ true → single_cr (normalize a ++ b) ≡ true
single_cr-normalize [] b h = unfold normalize in h
single_cr-normalize (c ∷ []) b h = unfold normalize single_cr in ground (arith, h)
single_cr-normalize (c ∷ d ∷ a) b h = elim (Bool-cases (c == cr && d == lf)) [
  | inl e ↦
      rw (drop_cr c (d ∷ a) e) (single_cr-normalize (d ∷ a) b (single_cr-tail c (d ∷ (a ++ b)) h))
  | inr e ↦
      rw (normalize_keep c (d ∷ a) e) (
        single_cr-cons c d a b h
          (single_cr-normalize (d ∷ a) b (single_cr-tail c (d ∷ (a ++ b)) h)))
]

-- A normalized text has no CRLF.
pub no_crlf-normalize : (a : Text) → single_cr a ≡ true → no_crlf (normalize a) ≡ true
no_crlf-normalize [] h = unfold no_crlf normalize in refl
no_crlf-normalize (c ∷ []) h = unfold no_crlf normalize in ground arith
no_crlf-normalize (c ∷ d ∷ a) h = elim (Bool-cases (c == cr && d == lf)) [
  | inl e ↦ rw (drop_cr c (d ∷ a) e) (no_crlf-normalize (d ∷ a) (single_cr-tail c (d ∷ a) h))
  | inr e ↦ rw (normalize_keep c (d ∷ a) e) (
      no_crlf-cons c (normalize (d ∷ a)) (front c d a e h)
        (no_crlf-normalize (d ∷ a) (single_cr-tail c (d ∷ a) h)))
]
  where
    front :
        (c d : ℕ) (a : Text)
        → (c == cr && d == lf) ≡ false
        → single_cr (c ∷ d ∷ a) ≡ true
        → (c == cr && starts_lf (normalize (d ∷ a))) ≡ false
    front c d a e h = unfold single_cr in ground (arith, starts_lf-normalize d a)
