-- ===== src/Stream.antt =====
-- apps/frontend/src/features/realtime/services/realtime-manager.ts: the loop over the frames of a
-- chunk, which stands four times in `stream`, and `applyServingSseEvent`.
use Prim.Native.String.{String}
use trading_monitoring_dashb.Base.{
  ℕ, Bool, true, false, not, Option, none, some, List, [], ◌∷◌, if◌then◌else◌,
}
use trading_monitoring_dashb.Base.Text.{Text, is_nil}
use trading_monitoring_dashb.Base.Dict.{Dict}
use trading_monitoring_dashb.Js.{Js}
use trading_monitoring_dashb.Events.{ServingSseEventName, event_name}
use trading_monitoring_dashb.Sse.{ParsedFrame, parse_sse_frame}
use trading_monitoring_dashb.Gate.{Calendar, SessionCache, should_apply_dashboard_sse_event}
use trading_monitoring_dashb.Batch.{ServingSseBatch, empty_batch}
use trading_monitoring_dashb.Collect.{SafeParse, collect_serving_sse_event}
use trading_monitoring_dashb.Store.{RealtimeStore}
use trading_monitoring_dashb.Store.Apply.{of_serving, apply_sse_batch}
pub mod Chunks

-- What the code takes from the platform and its libraries. `json_parse` is `JSON.parse`, `none`
-- where it throws; `to_string` is the conversion of a property key that is no string.
pub record Platform : Type 0 where
  pub calendar : Calendar
  pub safe_parse : SafeParse
  pub json_parse : Text → Option Js
  pub to_string : Js → String

-- The variables of the loop, and the cache of the session's bounds.
pub record Collected : Type 0 where
  pub batch : ServingSseBatch
  pub cache : SessionCache
  pub processed_any : Bool

-- The two values of a frame that are not `null` and not empty.
abbrev pub event_and_data : ParsedFrame → Option (Text × Text)
event_and_data f = elim f.event [
  | none ↦ none
  | some e ↦ elim f.payload [
    | none ↦ none
    | some d ↦ if is_nil e then none else if is_nil d then none else some (e, d)
  ]
]

module _ (platform : Platform) (kbars : Dict Js) where
  abbrev pub collect_checked :
      ServingSseEventName → Js → Collected → Option (Bool × SessionCache) → Option Collected
  collect_checked event payload c none = none
  collect_checked event payload c (some (false, cache)) = some (record c { cache = cache })
  collect_checked event payload c (some (true, cache)) = some (record {
    batch = collect_serving_sse_event platform.safe_parse kbars event payload c.batch;
    cache = cache;
    processed_any = true;
  })

  abbrev pub collect_payload : ServingSseEventName → Option Js → Collected → Option Collected
  collect_payload event none c = some c
  collect_payload event (some payload) c =
      collect_checked event payload c
        (should_apply_dashboard_sse_event platform.calendar c.cache event payload)

  abbrev pub collect_event_and_data : Option (Text × Text) → Collected → Option Collected
  collect_event_and_data none c = some c
  collect_event_and_data (some (e, d)) c = collect_payload (event_name e) (platform.json_parse d) c

  -- One round of the loop; `none` is the exception of the date formatter.
  unfoldable pub collect_frame : Text → Collected → Option Collected
  collect_frame frame c = collect_event_and_data (event_and_data (parse_sse_frame frame)) c

  abbrev pub and_then : Option Collected → (Collected → Option Collected) → Option Collected
  and_then none f = none
  and_then (some c) f = f c

  unfoldable pub collect_frames : List Text → Collected → Option Collected
  collect_frames [] c = some c
  collect_frames (frame ∷ frames) c = and_then (collect_frame frame c) (collect_frames frames)

abbrev pub apply_collected : Platform → ℕ → RealtimeStore → Option Collected → Option RealtimeStore
apply_collected platform fresh s none = none
apply_collected platform fresh s (some c) =
    if c.processed_any
    then apply_sse_batch platform.to_string fresh (of_serving c.batch) s
    else some s

-- `applyServingSseEvent`; `none` is an exception, which leaves the store as it was.
unfoldable pub apply_serving_sse_event :
    Platform → ℕ → SessionCache → ServingSseEventName → Js → RealtimeStore → Option RealtimeStore
apply_serving_sse_event platform fresh cache event payload s = apply_collected platform fresh s (
    collect_checked platform s.kbar_current_by_code event payload
      (record { batch = empty_batch; cache = cache; processed_any = false })
      (should_apply_dashboard_sse_event platform.calendar cache event payload))
