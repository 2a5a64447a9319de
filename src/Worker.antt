-- ===== src/Worker.antt =====
-- apps/frontend/src/features/realtime/sse-worker.ts: the worker that parses the stream off the main
-- thread and posts a batch at most once in a tenth of a second. Its text functions are those of
-- Sse, word for word, and its gate is in Gate.
use trading_monitoring_dashb.Base.{
  Bool, true, false, ◌&&◌, Option, none, some, List, [], ◌∷◌, ◌++◌, if◌then◌else◌,
}
use trading_monitoring_dashb.Base.Text.{Text}
use trading_monitoring_dashb.Js.{Js, num, get, truthy, is_object, is_undefined}
use trading_monitoring_dashb.Events.{
  ServingSseEventName, event_name, kbar_current, metric_latest, index_contrib_ranking,
  index_contrib_sector, market_summary_latest, otc_summary_latest, quote_latest, spot_latest_list,
  spot_market_distribution_latest, spot_market_distribution_series, heartbeat, other,
}
use trading_monitoring_dashb.Sse.{Split, ParsedFrame, parse_sse_frame, split_sse_buffer}
use trading_monitoring_dashb.Gate.{SessionCache, worker_should_apply}
use trading_monitoring_dashb.Batch.{ServingSseBatch, empty_batch}
use trading_monitoring_dashb.Collect.{put, trimmed_code_or, default_stream_code, default_otc_code}
use trading_monitoring_dashb.Stream.{Platform, event_and_data}
pub mod Kept
pub mod Posted
pub mod Chunks

-- A batch of the worker has the fields of the manager's.
abbrev pub WorkerBatch : Type 0
WorkerBatch = ServingSseBatch

-- `splitSseBuffer` and `parseSseFrame` of the worker: the code of the manager's functions again.
abbrev pub worker_split_sse_buffer : Text → Split
worker_split_sse_buffer buf = split_sse_buffer buf

abbrev pub worker_parse_sse_frame : Text → ParsedFrame
worker_parse_sse_frame frame = parse_sse_frame frame

-- `if (typeof payload.ts === "number" && Number.isFinite(payload.ts)) …`
abbrev pub finite_or : Js → Js → Js
finite_or (num n) old = num n
finite_or _ old = old

-- `collectEvent`
unfoldable pub collect_event : ServingSseEventName → Js → WorkerBatch → WorkerBatch
collect_event kbar_current p b = record b { kbar_current = p }
collect_event metric_latest p b = record b {
  metric_latest_map =
      put b.metric_latest_map (trimmed_code_or (get p "code") default_stream_code) p;
}
collect_event market_summary_latest p b = record b {
  market_summary_map =
      put b.market_summary_map
        (trimmed_code_or (get p "code") (trimmed_code_or (get p "market_code") default_stream_code))
        p;
}
collect_event otc_summary_latest p b = record b {
  otc_summary_map = put b.otc_summary_map (trimmed_code_or (get p "code") default_otc_code) p;
}
collect_event quote_latest p b = record b {
  quote_latest_map = put b.quote_latest_map (trimmed_code_or (get p "code") default_stream_code) p;
}
collect_event spot_latest_list p b = record b { spot_latest_list = p }
collect_event spot_market_distribution_latest p b = record b { spot_market_distribution_latest = p }
collect_event spot_market_distribution_series p b = record b { spot_market_distribution_series = p }
collect_event index_contrib_ranking p b = record b { index_contrib_ranking = p }
collect_event index_contrib_sector p b = record b {
  index_contrib_sector = p;
  heartbeat_ts = finite_or (get p "ts") b.heartbeat_ts;
}
collect_event heartbeat p b = record b { heartbeat_ts = finite_or (get p "ts") b.heartbeat_ts }
collect_event other p b = b

-- `pendingBatch` and the cache, as the loop over the frames leaves them; after an exception of the
-- date formatter the loop is at its end, and what it has collected stays.
pub record Progress : Type 0 where
  pub batch : WorkerBatch
  pub cache : SessionCache
  pub thrown : Bool

abbrev pub collect_object : ServingSseEventName → Js → Progress → Progress
collect_object event payload c =
    if truthy payload && is_object payload
    then record c { batch = collect_event event payload c.batch }
    else c

abbrev pub collect_accepted :
    ServingSseEventName → Js → Progress → Option (Bool × SessionCache) → Progress
collect_accepted event payload c none = record c { thrown = true }
collect_accepted event payload c (some (false, cache)) = record c { cache = cache }
collect_accepted event payload c (some (true, cache)) =
    collect_object event payload (record c { cache = cache })

module _ (platform : Platform) where
  abbrev pub collect_json : ServingSseEventName → Option Js → Progress → Progress
  collect_json event none c = c
  collect_json event (some payload) c =
      collect_accepted event payload c (worker_should_apply platform.calendar c.cache event payload)

  abbrev pub collect_parts : Option (Text × Text) → Progress → Progress
  collect_parts none c = c
  collect_parts (some (e, d)) c = collect_json (event_name e) (platform.json_parse d) c

  -- One round of the loop in `onmessage`.
  unfoldable pub worker_frame : Text → Progress → Progress
  worker_frame frame c = collect_parts (event_and_data (worker_parse_sse_frame frame)) c

  unfoldable pub worker_frames : List Text → Progress → Progress
  worker_frames [] c = c
  worker_frames (frame ∷ frames) c =
      let rest = worker_frames frames (worker_frame frame c) in if c.thrown then c else rest

-- The variables of the worker.
pub record Worker : Type 0 where
  pub buffer : Text
  pub pending_batch : WorkerBatch
  pub flush_timer : Bool
  pub cache : SessionCache

-- As the module starts.
abbrev pub new_worker : Worker
new_worker = record {
  buffer = [];
  pending_batch = empty_batch;
  flush_timer = false;
  cache = record { date_part = none; bounds = none };
}

-- A worker and the batch that it posts, if it posts one.
abbrev pub Reply : Type 0
Reply = Worker × Option ServingSseBatch

abbrev pub is_unset {ℓ} : {A : Type ℓ} → Option A → Bool
is_unset none = true
is_unset (some a) = false

-- `Object.keys(pendingBatch).length === 0`
unfoldable pub has_no_keys : ServingSseBatch → Bool
has_no_keys b =
    is_undefined b.kbar_current
    && is_unset b.metric_latest_map
    && is_unset b.market_summary_map
    && is_unset b.otc_summary_map
    && is_unset b.quote_latest_map
    && is_undefined b.spot_latest_list
    && is_undefined b.spot_market_distribution_latest
    && is_undefined b.spot_market_distribution_series
    && is_undefined b.index_contrib_ranking
    && is_undefined b.index_contrib_sector
    && is_undefined b.heartbeat_ts

-- `emitBatchNow`
unfoldable pub emit_batch_now : Worker → Reply
emit_batch_now w =
    if has_no_keys w.pending_batch
    then (w, none)
    else (record w { pending_batch = empty_batch }, some w.pending_batch)

-- `flushAndResetTimer`, and the callback of the timer.
unfoldable pub flush_and_reset_timer : Worker → Reply
unfolding emit_batch_now
flush_and_reset_timer w = emit_batch_now (record w { flush_timer = false })

abbrev pub schedule_flush : Worker → Worker
schedule_flush w = record w { flush_timer = true }

abbrev pub end_of_chunk : Text → Worker → Progress → Worker
end_of_chunk rest w c =
    let x : Worker = record w { buffer = rest; pending_batch = c.batch; cache = c.cache } in
    if c.thrown then x else schedule_flush x

abbrev pub progress : Worker → Progress
progress w = record { batch = w.pending_batch; cache = w.cache; thrown = false }

unfoldable pub handle_chunk : Platform → Text → Worker → Worker
handle_chunk platform chunk w =
    let s = worker_split_sse_buffer (w.buffer ++ chunk) in
    end_of_chunk s.rest w (worker_frames platform s.frames (progress w))

unfoldable pub teardown : Worker → Worker
teardown w = record w { flush_timer = false; buffer = []; pending_batch = empty_batch }

-- What the worker receives; `unknown` is a message that it ignores, and `timer` its own timer.
pub data Event : Type 0 where
  chunk : Text → Event
  flush tear_down unknown timer : Event

-- `onmessage`, and the timer.
unfoldable pub on_event : Platform → Event → Worker → Reply
unfolding handle_chunk flush_and_reset_timer teardown
on_event platform (chunk text) w = (handle_chunk platform text w, none)
on_event platform flush w = flush_and_reset_timer w
on_event platform tear_down w = (teardown w, none)
on_event platform unknown w = (w, none)
on_event platform timer w = if w.flush_timer then flush_and_reset_timer w else (w, none)

abbrev pub add_posted : Option ServingSseBatch → List ServingSseBatch → List ServingSseBatch
add_posted none bs = bs
add_posted (some b) bs = b ∷ bs

-- The batches that a worker posts on a sequence of events.
unfoldable pub posted : Platform → List Event → Worker → List ServingSseBatch
unfolding on_event
posted platform [] w = []
posted platform (e ∷ es) w =
    let r = on_event platform e w in add_posted r.1 (posted platform es r.0)
