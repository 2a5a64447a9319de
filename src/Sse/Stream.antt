-- ===== src/Sse/Stream.antt =====
-- The read loop: however the stream is cut into chunks, the frames are those of the whole stream.
use mathlib.Core.List.{append_assoc, append-nil}
use native.Mathlib.Nat.{le_refl}
use trading_monitoring_dashb.Base.{
  ℕ, zero, suc, ◌≤◌, true, List, [], ◌∷◌, ◌++◌, length, ◌≡◌, refl, ap, sym, ◌∙◌, arith,
  Option-cases, inl, inr, flatten,
}
use trading_monitoring_dashb.Base.Text.{Text}
use trading_monitoring_dashb.Sse.{normalize, cut, Split, split_loop, split_sse_buffer, feed}
use trading_monitoring_dashb.Sse.Cut.{cut-length, split_loop-none, split_loop-some}
use trading_monitoring_dashb.Sse.Chunks.{
  CutsFirst, cut-normalize, append_split, split_sse_buffer_fuel, split_sse_buffer-append,
}
use trading_monitoring_dashb.Sse.Newlines.{
  single_cr, single_cr-prefix, no_crlf, single_cr-normalize, no_crlf-normalize,
}

-- What is left over joins no CR to another.
split_loop_rest :
    (f : ℕ) (t b : Text)
    → length t ≤ f
    → no_crlf t ≡ true
    → single_cr (t ++ b) ≡ true
    → single_cr ((split_loop f t).rest ++ b) ≡ true
split_loop_rest zero t b hf n s = unfold split_loop in s
split_loop_rest (suc f) t b hf n s = elim (Option-cases (cut t)) [
  | inl e ↦ rw (split_loop-none (suc f) t e) s
  | inr ((p, q), e) ↦
      let c : CutsFirst b t p q = cut-normalize t b p q n e in
      rw (split_loop-some f t p q e)
        (split_loop_rest f q b (omega (arith, cut-length t p q e)) c.clean (c.single s))
]

split_sse_buffer_rest :
    (a b : Text) → single_cr (a ++ b) ≡ true → single_cr ((split_sse_buffer a).rest ++ b) ≡ true
split_sse_buffer_rest a b s = rw (split_sse_buffer_fuel (length (normalize a)) a (le_refl _)) (
    split_loop_rest (length (normalize a)) (normalize a) b (le_refl _)
      (no_crlf-normalize a (single_cr-prefix a b s)) (single_cr-normalize a b s))

feed_from :
    (r chunk : Text) (chunks : List Text)
    → single_cr ((r ++ chunk) ++ flatten chunks) ≡ true
    → feed r (chunk ∷ chunks) ≡ split_sse_buffer ((r ++ chunk) ++ flatten chunks)
unfolding feed mathlib.Core.List.flatten
feed_from r chunk [] s =
    last_chunk (split_sse_buffer (r ++ chunk)) ∙ ap split_sse_buffer (sym (append-nil (r ++ chunk)))
  where
    last_chunk : (x : Split) → append_split x (record { frames = []; rest = x.rest }) ≡ x
    last_chunk x = λ i. record { frames = append-nil x.frames i; rest = x.rest }
feed_from r chunk (next ∷ chunks) s =
    let x : Split = split_sse_buffer (r ++ chunk) in
    ap (append_split x) (
      feed_from x.rest next chunks (
        rw (append_assoc x.rest next (flatten chunks))
          (split_sse_buffer_rest (r ++ chunk) (next ++ flatten chunks) s))
      ∙ ap split_sse_buffer (append_assoc x.rest next (flatten chunks)))
    ∙ sym (split_sse_buffer-append (r ++ chunk) (next ++ flatten chunks) s)

-- For a stream in which no two CR are neighbours: reading it chunk by chunk, wherever the chunks
-- end (also inside a CRLF or a blank line), gives the frames in order, and leaves the rest, that
-- splitting the whole stream at once gives.
pub feed-eq-split_sse_buffer :
    (chunks : List Text)
    → single_cr (flatten chunks) ≡ true
    → feed [] chunks ≡ split_sse_buffer (flatten chunks)
unfolding mathlib.Core.List.flatten
feed-eq-split_sse_buffer [] s = unfold feed split_sse_buffer in refl
feed-eq-split_sse_buffer (chunk ∷ chunks) s = feed_from [] chunk chunks s
