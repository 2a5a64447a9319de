-- ===== src/Sse/Cut.antt =====
-- The first blank line of a text (`cut`), and the loop of `splitSseBuffer` over it.
use trading_monitoring_dashb.Base.{
  ℕ, zero, suc, ◌+◌, ◌≤◌, true, false, ◌&&◌, Option, none, some, [], ◌∷◌, length, drop, ◌==◌, ◌≡◌,
  refl, ap, sym, ◌∙◌, arith, Option-cases, inl, inr,
}
use trading_monitoring_dashb.Base.Text.{Text, lf, trim}
use trading_monitoring_dashb.Sse.{starts_lf, cut, cons_fst, Split, split_loop, push_frame}

-- What follows the blank line is shorter than the text by two at least.
pub cut-length : (t p q : Text) → cut t ≡ some (p, q) → length q + 2 ≤ length t
unfolding cut
cut-length [] p q h = cc
cut-length (c ∷ []) p q h = ground arith
cut-length (c ∷ d ∷ cs) p q h = elim (Option-cases (cut (d ∷ cs))) [
  | inl e ↦ ground arith
  | inr ((a, b), e) ↦ ground (arith, cut-length (d ∷ cs) a b e)
]

-- The two branches of `cut`.
pub cut_here :
    (c : ℕ) (cs : Text) → (c == lf && starts_lf cs) ≡ true → cut (c ∷ cs) ≡ some ([], drop 1 cs)
unfolding cut
cut_here c cs h = rw h

pub cut_later :
    (c : ℕ) (cs : Text) → (c == lf && starts_lf cs) ≡ false → cut (c ∷ cs) ≡ cons_fst c (cut cs)
unfolding cut
cut_later c cs h = rw h

pub cons_fst-eq-some :
    (c : ℕ) (o : Option (Text × Text)) {p q : Text}
    → cons_fst c o ≡ some (p, q)
    → (p' : Text) × (o ≡ some (p', q)) × (p ≡ c ∷ p')
cons_fst-eq-some c none h = cc
cons_fst-eq-some c (some (p', q')) h = (p', cc, cc)

-- One round of the loop, on its two branches.
pub split_loop-none :
    (f : ℕ) (t : Text) → cut t ≡ none → split_loop f t ≡ record { frames = []; rest = t }
unfolding split_loop
split_loop-none zero t e = refl
split_loop-none (suc f) t e = rw (e, split_loop)

abbrev pub extend_split : Text → Split → Split
extend_split p s = record { frames = push_frame (trim p) s.frames; rest = s.rest }

pub split_loop-some :
    (f : ℕ) (t p q : Text)
    → cut t ≡ some (p, q)
    → split_loop (suc f) t ≡ extend_split p (split_loop f q)
unfolding split_loop
split_loop-some f t p q e = rw (e, split_loop)

-- Fuel above the length changes nothing.
pub split_loop_fuel :
    (f g : ℕ) (t : Text) → length t ≤ f → length t ≤ g → split_loop f t ≡ split_loop g t
split_loop_fuel zero zero t hf hg = refl
split_loop_fuel zero (suc g) [] hf hg = unfold split_loop cut in refl
split_loop_fuel zero (suc g) (c ∷ t) hf hg = absurd (omega arith)
split_loop_fuel (suc f) zero [] hf hg = unfold split_loop cut in refl
split_loop_fuel (suc f) zero (c ∷ t) hf hg = absurd (omega arith)
split_loop_fuel (suc f) (suc g) t hf hg = elim (Option-cases (cut t)) [
  | inl e ↦ split_loop-none (suc f) t e ∙ sym (split_loop-none (suc g) t e)
  | inr ((p, q), e) ↦
      split_loop-some f t p q e
      ∙ ap (extend_split p) (
          split_loop_fuel f g q (omega (arith, cut-length t p q e))
            (omega (arith, cut-length t p q e)))
      ∙ sym (split_loop-some g t p q e)
]
