-- ===== src/Worker/Posted.antt =====
-- The batches that the worker posts are such as the manager and the store take in.
use mathlib.Core.Path.{subst}
use trading_monitoring_dashb.Base.{
  ap, ◌∙◌, if◌then◌else◌, Bool, true, false, refl, Option, none, some, List, [], ◌∷◌, ◌++◌, ◌≡◌,
  sym, All, inl, inr, Bool-cases,
}
use trading_monitoring_dashb.Base.Text.{Text}
use trading_monitoring_dashb.Js.{Js, truthy, is_object, is_undefined, is_number}
use trading_monitoring_dashb.Events.{ServingSseEventName, event_name}
use trading_monitoring_dashb.Batch.{ServingSseBatch, empty_batch, is_empty}
use trading_monitoring_dashb.Sse.{parse_sse_frame, split_sse_buffer}
use trading_monitoring_dashb.Gate.{SessionCache, worker_should_apply}
use trading_monitoring_dashb.Stream.{Platform, event_and_data}
use trading_monitoring_dashb.Store.Unchanged.{HasTruthyPayloads}
use trading_monitoring_dashb.Worker.Chunks.{worker_frames_thrown, worker_frames_running}
use trading_monitoring_dashb.Worker.{
  Progress, collect_object, collect_accepted, collect_json, collect_parts, worker_frame,
  worker_frames, Worker, has_no_keys, emit_batch_now, flush_and_reset_timer, end_of_chunk, progress,
  handle_chunk, teardown, Event, chunk, flush, tear_down, unknown, timer, on_event, posted, Reply,
  add_posted, new_worker,
}
use trading_monitoring_dashb.Worker.Kept.{IsSound, kept-is_empty, collect_event-IsSound}

-- The manager merges the batch instead of dropping it, and the payloads in its maps are true.
abbrev pub IsPosted : ServingSseBatch → Type 0
IsPosted b = (is_empty b ≡ false) × HasTruthyPayloads b

collect_object-IsSound :
    (event : ServingSseEventName) (p : Js) (c : Progress)
    → IsSound c.batch
    → IsSound (collect_object event p c).batch
collect_object-IsSound event p c s = elim (Bool-cases (truthy p)) [
  | inl t ↦ elim (Bool-cases (is_object p)) [
    | inl o ↦ rw (t, o) (collect_event-IsSound event p c.batch t s)
    | inr o ↦ rw (t, o) s
  ]
  | inr t ↦ rw t s
]

collect_accepted-IsSound :
    (event : ServingSseEventName) (p : Js) (c : Progress) (o : Option (Bool × SessionCache))
    → IsSound c.batch
    → IsSound (collect_accepted event p c o).batch
collect_accepted-IsSound event p c none s = s
collect_accepted-IsSound event p c (some (false, cache)) s = s
collect_accepted-IsSound event p c (some (true, cache)) s =
    collect_object-IsSound event p (record c { cache = cache }) s

collect_json-IsSound :
    (platform : Platform) (event : ServingSseEventName) (o : Option Js) (c : Progress)
    → IsSound c.batch
    → IsSound (collect_json platform event o c).batch
collect_json-IsSound platform event none c s = s
collect_json-IsSound platform event (some p) c s =
    collect_accepted-IsSound event p c (worker_should_apply platform.calendar c.cache event p) s

collect_parts-IsSound :
    (platform : Platform) (o : Option (Text × Text)) (c : Progress)
    → IsSound c.batch
    → IsSound (collect_parts platform o c).batch
collect_parts-IsSound platform none c s = s
collect_parts-IsSound platform (some (e, d)) c s =
    collect_json-IsSound platform (event_name e) (platform.json_parse d) c s

worker_frames-IsSound :
    (platform : Platform) (fs : List Text) (c : Progress)
    → IsSound c.batch
    → IsSound (worker_frames platform fs c).batch
worker_frames-IsSound platform [] c s = unfold worker_frames in s
worker_frames-IsSound platform (f ∷ fs) c s = elim (Bool-cases c.thrown) [
  | inl e ↦ subst (λ x. IsSound x.batch) (sym (worker_frames_thrown platform (f ∷ fs) c e)) s
  | inr e ↦
      subst (λ x. IsSound x.batch) (sym (worker_frames_running platform f fs c e))
        (worker_frames-IsSound platform fs (worker_frame platform f c) (
          unfold worker_frame in
          collect_parts-IsSound platform (event_and_data (parse_sse_frame f)) c s))
]

-- The worker's own batch is sound, and so is one that it posts.
abbrev IsSoundReply : Reply → Type 0
IsSoundReply (w, none) = IsSound w.pending_batch
IsSoundReply (w, some b) = IsSound w.pending_batch × IsPosted b

empty_IsSound : IsSound empty_batch
empty_IsSound = (
  record {
    kbar = unfold truthy is_undefined in refl;
    spot = unfold truthy is_undefined in refl;
    latest = unfold truthy is_undefined in refl;
    series = unfold truthy is_undefined in refl;
    metric = refl;
    market = refl;
    otc = refl;
    quote = refl;
    heartbeat = unfold is_number is_undefined in refl;
  },
  record { metric = tt; market = tt; otc = tt; quote = tt },
)

end_of_chunk-IsSound :
    (rest : Text) (w : Worker) (c : Progress)
    → IsSound c.batch
    → IsSound (end_of_chunk rest w c).pending_batch
end_of_chunk-IsSound rest w c s = elim (Bool-cases c.thrown) [ inl e ↦ rw e s | inr e ↦ rw e s ]

flush-IsSoundReply : (w : Worker) → IsSound w.pending_batch → IsSoundReply (flush_and_reset_timer w)
unfolding flush_and_reset_timer emit_batch_now
flush-IsSoundReply w s = elim (Bool-cases (has_no_keys w.pending_batch)) [
  | inl e ↦ rw e s
  | inr e ↦ rw e (empty_IsSound, (kept-is_empty w.pending_batch s.0 ∙ e, s.1))
]

on_event-IsSoundReply :
    (platform : Platform) (e : Event) (w : Worker)
    → IsSound w.pending_batch
    → IsSoundReply (on_event platform e w)
unfolding on_event handle_chunk teardown
on_event-IsSoundReply platform (chunk text) w s =
    let r = split_sse_buffer (w.buffer ++ text) in
    end_of_chunk-IsSound r.rest w (worker_frames platform r.frames (progress w))
      (worker_frames-IsSound platform r.frames (progress w) s)
on_event-IsSoundReply platform flush w s = flush-IsSoundReply w s
on_event-IsSoundReply platform tear_down w s = empty_IsSound
on_event-IsSoundReply platform unknown w s = s
on_event-IsSoundReply platform timer w s = elim (Bool-cases w.flush_timer) [
  | inl e ↦ rw e (flush-IsSoundReply w s)
  | inr e ↦ rw e s
]

add_posted-IsPosted :
    (r : Reply) (bs : List ServingSseBatch)
    → IsSoundReply r
    → (IsSound r.0.pending_batch → All IsPosted bs)
    → All IsPosted (add_posted r.1 bs)
add_posted-IsPosted (w, none) bs s h = h s
add_posted-IsPosted (w, some b) bs s h = (s.1, h s.0)

sound-All :
    (platform : Platform) (es : List Event) (w : Worker)
    → IsSound w.pending_batch
    → All IsPosted (posted platform es w)
unfolding posted
sound-All platform [] w s = tt
sound-All platform (e ∷ es) w s =
    let r = on_event platform e w in
    add_posted-IsPosted r (posted platform es r.0) (on_event-IsSoundReply platform e w s)
      (λ t. sound-All platform es r.0 t)

-- The worker behind a sequence of events.
abbrev pub after : Platform → List Event → Worker → Worker
after platform [] w = w
after platform (e ∷ es) w = after platform es (on_event platform e w).0

-- What a flush of the batch is to post: the batch, unless the manager takes it for empty.
abbrev pub waiting : ServingSseBatch → List ServingSseBatch
waiting b = if is_empty b then [] else b ∷ []

add_posted-append :
    (o : Option ServingSseBatch) (bs cs : List ServingSseBatch)
    → add_posted o (bs ++ cs) ≡ add_posted o bs ++ cs
add_posted-append none bs cs = refl
add_posted-append (some b) bs cs = refl

reply-IsSound : (r : Reply) → IsSoundReply r → IsSound r.0.pending_batch
reply-IsSound (w, none) s = s
reply-IsSound (w, some b) s = s.0

flush-waiting :
    (w : Worker)
    → IsSound w.pending_batch
    → add_posted (flush_and_reset_timer w).1 [] ≡ waiting w.pending_batch
unfolding flush_and_reset_timer emit_batch_now
flush-waiting w s =
    rw (kept-is_empty w.pending_batch s.0)
      (elim (Bool-cases (has_no_keys w.pending_batch)) [ inl e ↦ rw e refl | inr e ↦ rw e refl ])

posted-flush :
    (platform : Platform) (es : List Event) (w : Worker)
    → IsSound w.pending_batch
    → posted platform (es ++ (flush ∷ [])) w
      ≡ posted platform es w ++ waiting (after platform es w).pending_batch
unfolding posted on_event
posted-flush platform [] w s = flush-waiting w s
posted-flush platform (e ∷ es) w s =
    let r = on_event platform e w in
    ap (add_posted r.1)
      (posted-flush platform es r.0 (reply-IsSound r (on_event-IsSoundReply platform e w s)))
    ∙ add_posted-append r.1 (posted platform es r.0) (waiting (after platform es r.0).pending_batch)

-- Whatever messages a new worker gets and however its timer runs: no batch that it posts is one that
-- the manager drops as empty when it merges it, and in the four maps by code of such a batch there are
-- only payloads that are true as values, objects for one, as the store expects them; and a flush
-- message behind them posts the batch that the worker then holds, unless it is such an empty one, and
-- nothing else.
pub posted-IsPosted :
    (platform : Platform) (es : List Event)
    → All IsPosted (posted platform es new_worker)
      × (posted platform (es ++ (flush ∷ [])) new_worker
          ≡ posted platform es new_worker ++ waiting (after platform es new_worker).pending_batch)
posted-IsPosted platform es = (
  sound-All platform es new_worker empty_IsSound,
  posted-flush platform es new_worker empty_IsSound,
)
