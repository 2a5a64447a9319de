-- ===== src/Sse/Chunks.antt =====
-- How the stream is cut into chunks does not matter.
use native.Mathlib.Nat.{le_refl}
use trading_monitoring_dashb.Base.{
  ℕ, zero, suc, ◌≤◌, true, false, ◌&&◌, Option, some, [], ◌∷◌, ◌++◌, length, ◌==◌, ◌≡◌, refl, ap,
  sym, ◌∙◌, arith, Bool-cases, Option-cases, inl, inr,
}
use trading_monitoring_dashb.Base.Text.{Text, lf, cr}
use trading_monitoring_dashb.Sse.{
  starts_lf, normalize, cut, cons_fst, Split, split_loop, split_sse_buffer,
}
use trading_monitoring_dashb.Sse.Cut.{
  cut-length, cut_here, cut_later, cons_fst-eq-some, split_loop-none, extend_split, split_loop-some,
  split_loop_fuel,
}
use trading_monitoring_dashb.Sse.Newlines.{
  single_cr, single_cr-tail, single_cr-prefix, no_crlf-tail, no_crlf, normalize-append,
  single_cr-normalize, no_crlf-normalize, normalize_keep,
}

-- The first blank line of a text without CRLF stays where it is when more text follows; `q` is what
-- stood behind it.
pub record CutsFirst (b t p q : Text) : Type 0 where
  pub found : cut (normalize (t ++ b)) ≡ some (p, normalize (q ++ b))
  pub clean : no_crlf q ≡ true
  pub single : single_cr (t ++ b) ≡ true → single_cr (q ++ b) ≡ true

-- The first character of a text with a blank line in it survives normalizing.
first_kept :
    (d : ℕ) (t b p q : Text)
    → no_crlf (d ∷ t) ≡ true
    → cut (d ∷ t) ≡ some (p, q)
    → (d == cr && starts_lf (t ++ b)) ≡ false
unfolding no_crlf
first_kept d [] b p q n e = unfold cut in ground arith
first_kept d (e ∷ t) b p q n h = ground arith

-- The blank line stands in front.
cut-normalize_here :
    (c d : ℕ) (t b : Text)
    → no_crlf (c ∷ d ∷ t) ≡ true
    → (c == lf && d == lf) ≡ true
    → CutsFirst b (c ∷ d ∷ t) [] t
unfolding no_crlf normalize cut single_cr
cut-normalize_here c d t b n e = record {
  found = ground arith;
  clean = ground arith;
  single = λ h. ground arith;
}

-- The blank line stands further on.
cut-normalize_later :
    (c d : ℕ) (t b p q : Text)
    → no_crlf (c ∷ d ∷ t) ≡ true
    → (c == lf && d == lf) ≡ false
    → (d == cr && starts_lf (t ++ b)) ≡ false
    → CutsFirst b (d ∷ t) p q
    → CutsFirst b (c ∷ d ∷ t) (c ∷ p) q
unfolding no_crlf
cut-normalize_later c d t b p q n e k r = record {
  found =
      ap cut (normalize_keep c (d ∷ (t ++ b)) (ground arith))
      ∙ cut_later c (normalize (d ∷ (t ++ b))) (rw (normalize_keep d (t ++ b) k) e)
      ∙ ap (cons_fst c) r.found;
  clean = r.clean;
  single = λ h. r.single (single_cr-tail c (d ∷ (t ++ b)) h);
}

pub cut-normalize : (t b p q : Text) → no_crlf t ≡ true → cut t ≡ some (p, q) → CutsFirst b t p q
cut-normalize [] b p q n e = unfold cut in cc
cut-normalize (c ∷ []) b p q n e = unfold cut in ground arith
cut-normalize (c ∷ d ∷ t) b p q n e = elim (Bool-cases (c == lf && d == lf)) [
  | inl h ↦
      let g : ◌≡◌ {A = Option (Text × Text)} (some ([], t)) (some (p, q)) =
        sym (cut_here c (d ∷ t) h) ∙ e in
      rw (← p_eq g, ← q_eq g) (cut-normalize_here c d t b n h)
  | inr h ↦
      let (p', f, w) = cons_fst-eq-some c (cut (d ∷ t)) (sym (cut_later c (d ∷ t) h) ∙ e) in
      rw w (
        cut-normalize_later c d t b p' q n h (first_kept d t b p' q (no_crlf-tail c (d ∷ t) n) f)
          (cut-normalize (d ∷ t) b p' q (no_crlf-tail c (d ∷ t) n) f))
]
  where
    p_eq :
        {p q p' q' : Text} → ◌≡◌ {A = Option (Text × Text)} (some (p, q)) (some (p', q')) → p ≡ p'
    p_eq h = cc

    q_eq :
        {p q p' q' : Text} → ◌≡◌ {A = Option (Text × Text)} (some (p, q)) (some (p', q')) → q ≡ q'
    q_eq h = cc

abbrev pub append_split : Split → Split → Split
append_split s r = record { frames = s.frames ++ r.frames; rest = r.rest }

extend_append :
    (p : Text) (s r : Split) → extend_split p (append_split s r) ≡ append_split (extend_split p s) r
extend_append p s r = ground arith

-- Any fuel from the length on will do.
pub split_sse_buffer_fuel :
    (f : ℕ) (t : Text) → length (normalize t) ≤ f → split_sse_buffer t ≡ split_loop f (normalize t)
split_sse_buffer_fuel f t h =
    unfold split_sse_buffer in split_loop_fuel (length (normalize t)) f (normalize t) (le_refl _) h

-- A blank line in the normalized text: the frame before it, and the split of what follows.
pub split_sse_buffer-some :
    (t q p : Text)
    → cut (normalize t) ≡ some (p, normalize q)
    → split_sse_buffer t ≡ extend_split p (split_sse_buffer q)
split_sse_buffer-some t q p e =
    split_sse_buffer_fuel (suc (length (normalize t))) t (omega arith)
    ∙ split_loop-some (length (normalize t)) (normalize t) p (normalize q) e
    ∙ ap (extend_split p) (
        sym (
          split_sse_buffer_fuel (length (normalize t)) q
            (omega (arith, cut-length (normalize t) p (normalize q) e))))

-- Splitting what is there, and then what is left over with the rest of the stream.
split_loop-append :
    (f : ℕ) (t b : Text)
    → length t ≤ f
    → no_crlf t ≡ true
    → single_cr (t ++ b) ≡ true
    → split_sse_buffer (t ++ b)
      ≡ append_split (split_loop f t) (split_sse_buffer ((split_loop f t).rest ++ b))
split_loop-append zero [] b hf n s = unfold split_loop in refl
split_loop-append zero (c ∷ t) b hf n s = absurd (omega arith)
split_loop-append (suc f) t b hf n s = elim (Option-cases (cut t)) [
  | inl e ↦ rw (split_loop-none (suc f) t e) refl
  | inr ((p, q), e) ↦
      let c : CutsFirst b t p q = cut-normalize t b p q n e in
      split_sse_buffer-some (t ++ b) (q ++ b) p c.found
      ∙ ap (extend_split p)
          (split_loop-append f q b (omega (arith, cut-length t p q e)) c.clean (c.single s))
      ∙ rw (split_loop-some f t p q e)
          (extend_append p (split_loop f q) (split_sse_buffer ((split_loop f q).rest ++ b)))
]

-- Two chunks give the frames, and leave the rest, that the two together give.
pub split_sse_buffer-append :
    (a b : Text)
    → single_cr (a ++ b) ≡ true
    → split_sse_buffer (a ++ b)
      ≡ append_split (split_sse_buffer a) (split_sse_buffer ((split_sse_buffer a).rest ++ b))
split_sse_buffer-append a b s =
    same_split (a ++ b) (normalize a ++ b) (sym (normalize-append a b s))
    ∙ rw (split_sse_buffer_fuel (length (normalize a)) a (le_refl _)) (
        split_loop-append (length (normalize a)) (normalize a) b (le_refl _)
          (no_crlf-normalize a (single_cr-prefix a b s)) (single_cr-normalize a b s))
  where
    same_split : (x y : Text) → normalize x ≡ normalize y → split_sse_buffer x ≡ split_sse_buffer y
    same_split x y e = unfold split_sse_buffer in ap (λ t. split_loop (length t) t) e
