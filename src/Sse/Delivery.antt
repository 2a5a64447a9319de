-- ===== src/Sse/Delivery.antt =====
-- A stream of whole frames, as the server writes it, and what the reader makes of it.
use trading_monitoring_dashb.Base.{
  Bool, true, false, not, ◌&&◌, ◌||◌, some, List, [], ◌∷◌, ◌++◌, ◌==◌, ◌≡◌, refl, ap, ◌∙◌, arith,
  All, flatten,
}
use trading_monitoring_dashb.Base.Text.{Text, lf, cr, is_nil, trim}
use trading_monitoring_dashb.Sse.{starts_lf, normalize, cut, split_sse_buffer, feed, push_frame}
use trading_monitoring_dashb.Sse.Cut.{extend_split}
use trading_monitoring_dashb.Sse.Chunks.{split_sse_buffer-some}
use trading_monitoring_dashb.Sse.Newlines.{single_cr}
use trading_monitoring_dashb.Sse.Stream.{feed-eq-split_sse_buffer}

-- No blank line inside, no LF at the end, and no CR.
unfoldable pub one_block : Text → Bool
one_block [] = true
one_block (c ∷ cs) = not (c == lf && (starts_lf cs || is_nil cs)) && not (c == cr) && one_block cs

pub record IsFrame (f : Text) : Type 0 where
  pub block : one_block f ≡ true
  pub trimmed : trim f ≡ f
  pub nonempty : is_nil f ≡ false

-- The frames, each closed by a blank line.
unfoldable pub stream_of : List Text → Text
stream_of [] = []
stream_of (f ∷ fs) = f ++ (lf ∷ lf ∷ stream_of fs)

normalize-block :
    (f t : Text) → one_block f ≡ true → normalize (f ++ (lf ∷ t)) ≡ f ++ normalize (lf ∷ t)
unfolding one_block normalize
normalize-block [] t h = refl
normalize-block (c ∷ f) t h = ground (arith, normalize-block f t)

cut-block : (f t : Text) → one_block f ≡ true → cut (f ++ (lf ∷ lf ∷ t)) ≡ some (f, t)
unfolding one_block cut
cut-block [] t h = refl
cut-block (c ∷ []) t h = ground arith
cut-block (c ∷ d ∷ f) t h = ground (arith, cut-block (d ∷ f) t)

normalize_blank : (t : Text) → normalize (lf ∷ lf ∷ t) ≡ lf ∷ lf ∷ normalize t
unfolding normalize
normalize_blank t = refl

push_frame-IsFrame : (f : Text) (fs : List Text) → IsFrame f → push_frame (trim f) fs ≡ f ∷ fs
push_frame-IsFrame f fs h = rw (h.trimmed, h.nonempty)

-- The frames of a stream, and nothing left over.
pub split_sse_buffer-stream_of :
    (fs : List Text)
    → All IsFrame fs
    → split_sse_buffer (stream_of fs) ≡ record { frames = fs; rest = [] }
unfolding stream_of
split_sse_buffer-stream_of [] h = unfold split_sse_buffer in refl
split_sse_buffer-stream_of (f ∷ fs) h =
    split_sse_buffer-some (f ++ (lf ∷ lf ∷ stream_of fs)) (stream_of fs) f (
      ap cut
        (normalize-block f (lf ∷ stream_of fs) h.0.block ∙ ap (λ t. f ++ t) (normalize_blank _))
      ∙ cut-block f (normalize (stream_of fs)) h.0.block)
    ∙ ap (extend_split f) (split_sse_buffer-stream_of fs h.1)
    ∙ ap (λ t. record { frames = t; rest = [] }) (push_frame-IsFrame f fs h.0)

single_cr-block :
    (f t : Text) → one_block f ≡ true → single_cr t ≡ true → single_cr (f ++ (lf ∷ lf ∷ t)) ≡ true
unfolding one_block single_cr
single_cr-block [] t h k = k
single_cr-block (c ∷ f) t h k = ground (arith, single_cr-block f t)

single_cr-stream_of : (fs : List Text) → All IsFrame fs → single_cr (stream_of fs) ≡ true
unfolding stream_of
single_cr-stream_of [] h = unfold single_cr in refl
single_cr-stream_of (f ∷ fs) h =
    single_cr-block f (stream_of fs) h.0.block (single_cr-stream_of fs h.1)

-- For frames that have no CR, no blank line inside and no white space at their ends, and are not
-- empty: the stream of these frames, each closed by a blank line, may reach the reader in any
-- chunks; it reads exactly these frames, in order, and no text is left over.
pub feed-stream_of :
    (fs chunks : List Text)
    → All IsFrame fs
    → flatten chunks ≡ stream_of fs
    → feed [] chunks ≡ record { frames = fs; rest = [] }
feed-stream_of fs chunks h e =
    feed-eq-split_sse_buffer chunks (rw e (single_cr-stream_of fs h))
    ∙ ap split_sse_buffer e
    ∙ split_sse_buffer-stream_of fs h
