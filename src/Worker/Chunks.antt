-- ===== src/Worker/Chunks.antt =====
-- The worker does not depend on where the network cuts the stream.
use mathlib.Core.List.{append_assoc}
use trading_monitoring_dashb.Base.{
  true, false, List, [], ◌∷◌, ◌++◌, ◌≡◌, refl, sym, ap, ◌∙◌, if◌then◌else◌, inl, inr, Bool-cases,
}
use trading_monitoring_dashb.Base.Text.{Text}
use trading_monitoring_dashb.Sse.{Split, split_sse_buffer}
use trading_monitoring_dashb.Sse.Newlines.{single_cr}
use trading_monitoring_dashb.Sse.Chunks.{append_split, split_sse_buffer-append}
use trading_monitoring_dashb.Stream.{Platform}
use trading_monitoring_dashb.Worker.{
  Progress, worker_frame, worker_frames, Worker, end_of_chunk, progress, handle_chunk,
  schedule_flush,
}

pub worker_frames_thrown :
    (platform : Platform) (fs : List Text) (c : Progress)
    → c.thrown ≡ true
    → worker_frames platform fs c ≡ c
unfolding worker_frames
worker_frames_thrown platform [] c e = refl
worker_frames_thrown platform (f ∷ fs) c e = rw e refl

pub worker_frames_running :
    (platform : Platform) (f : Text) (fs : List Text) (c : Progress)
    → c.thrown ≡ false
    → worker_frames platform (f ∷ fs) c ≡ worker_frames platform fs (worker_frame platform f c)
unfolding worker_frames
worker_frames_running platform f fs c e =
    ap (λ t. if t then c else worker_frames platform fs (worker_frame platform f c)) e

worker_frames-append :
    (platform : Platform) (fs gs : List Text) (c : Progress)
    → worker_frames platform (fs ++ gs) c ≡ worker_frames platform gs (worker_frames platform fs c)
worker_frames-append platform [] gs c = unfold worker_frames in refl
worker_frames-append platform (f ∷ fs) gs c = elim (Bool-cases c.thrown) [
  | inl e ↦
      worker_frames_thrown platform (f ∷ (fs ++ gs)) c e
      ∙ sym (worker_frames_thrown platform gs c e)
      ∙ ap (worker_frames platform gs) (sym (worker_frames_thrown platform (f ∷ fs) c e))
  | inr e ↦
      worker_frames_running platform f (fs ++ gs) c e
      ∙ worker_frames-append platform fs gs (worker_frame platform f c)
      ∙ ap (worker_frames platform gs) (sym (worker_frames_running platform f fs c e))
]

-- The progress behind the first chunk is where the second one starts.
progress-end_of_chunk :
    (rest : Text) (w : Worker) (c : Progress)
    → c.thrown ≡ false
    → progress (end_of_chunk rest w c) ≡ c
progress-end_of_chunk rest w c e =
    let x : Worker = record w { buffer = rest; pending_batch = c.batch; cache = c.cache } in
    ap (λ t. progress (if t then x else schedule_flush x)) e
    ∙ ap (λ t. record c { thrown = t }) (sym e)

buffer-end_of_chunk :
    (rest : Text) (w : Worker) (c : Progress) → (end_of_chunk rest w c).buffer ≡ rest
buffer-end_of_chunk rest w c = elim (Bool-cases c.thrown) [ inl e ↦ rw e refl | inr e ↦ rw e refl ]

end_of_chunk-end_of_chunk :
    (r q : Text) (w : Worker) (c d : Progress)
    → c.thrown ≡ false
    → d.thrown ≡ false
    → end_of_chunk r (end_of_chunk q w c) d ≡ end_of_chunk r w d
end_of_chunk-end_of_chunk r q w c d e f = rw (e, f) refl

-- The loop over the frames of this chunk meets no exception of the date formatter.
abbrev pub Completes : Platform → Text → Worker → Type 0
Completes platform chunk w =
    (worker_frames platform (split_sse_buffer (w.buffer ++ chunk)).frames (progress w)).thrown
    ≡ false

module _ (platform : Platform) where
  abbrev finish : Text → Worker → Split → Progress → Worker
  finish rest w s c = end_of_chunk s.rest w (worker_frames platform s.frames c)

  handle_chunk_from :
      (b q : Text) (x : Worker) (c : Progress)
      → x.buffer ≡ q
      → progress x ≡ c
      → handle_chunk platform b x ≡ finish q x (split_sse_buffer (q ++ b)) c
  unfolding handle_chunk
  handle_chunk_from b q x c e f =
      ap (λ t. finish t x (split_sse_buffer (t ++ b)) (progress x)) e
      ∙ ap (finish q x (split_sse_buffer (q ++ b))) f

  first_completes :
      (gs : List Text) (c : Progress)
      → (worker_frames platform gs c).thrown ≡ false
      → c.thrown ≡ false
  first_completes gs c h = elim (Bool-cases c.thrown) [
    | inl e ↦ sym (ap (λ x. x.thrown) (worker_frames_thrown platform gs c e)) ∙ h
    | inr e ↦ e
  ]

  -- Two chunks, one after the other, leave the worker as the two in one would, if their text, with
  -- what is left over from before, has no two carriage returns in a row, and none of its events
  -- makes the date formatter throw.
  pub handle_chunk-append :
      (a b : Text) (w : Worker)
      → single_cr (w.buffer ++ (a ++ b)) ≡ true
      → Completes platform (a ++ b) w
      → handle_chunk platform b (handle_chunk platform a w) ≡ handle_chunk platform (a ++ b) w
  unfolding handle_chunk
  handle_chunk-append a b w h k =
      let s = split_sse_buffer (w.buffer ++ a) in
      let c = worker_frames platform s.frames (progress w) in
      let t = split_sse_buffer (s.rest ++ b) in
      let d = worker_frames platform t.frames c in
      let same : split_sse_buffer (w.buffer ++ (a ++ b)) ≡ append_split s t =
        ap split_sse_buffer (sym (append_assoc w.buffer a b))
        ∙ split_sse_buffer-append (w.buffer ++ a) b
            (ap single_cr (append_assoc w.buffer a b) ∙ h) in
      let through : worker_frames platform (split_sse_buffer (w.buffer ++ (a ++ b))).frames
            (progress w)
          ≡ d =
        ap (λ x. worker_frames platform x.frames (progress w)) same
        ∙ worker_frames-append platform s.frames t.frames (progress w) in
      let ok : d.thrown ≡ false = sym (ap (λ x. x.thrown) through) ∙ k in
      let first : c.thrown ≡ false = first_completes t.frames c ok in
      handle_chunk_from b s.rest (end_of_chunk s.rest w c) c (buffer-end_of_chunk s.rest w c)
        (progress-end_of_chunk s.rest w c first)
      ∙ end_of_chunk-end_of_chunk t.rest s.rest w c d first ok
      ∙ sym (
          ap (λ x. end_of_chunk x.rest w (worker_frames platform x.frames (progress w))) same
          ∙ ap (end_of_chunk t.rest w)
              (worker_frames-append platform s.frames t.frames (progress w)))
