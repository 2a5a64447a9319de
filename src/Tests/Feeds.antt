-- ===== src/Tests/Feeds.antt =====
-- Examples for the theorems on the text of the stream, on frames and on the gate.
use trading_monitoring_dashb.Base.{true, some, List, [], ◌∷◌, ◌≡◌, refl, flatten}
use trading_monitoring_dashb.Base.Int.{pos}
use trading_monitoring_dashb.Base.Text.{Text, codes, trim, join_lines}
use trading_monitoring_dashb.Js.{get}
use trading_monitoring_dashb.Events.{metric_latest, quote_latest}
use trading_monitoring_dashb.Sse.{feed, split_sse_buffer, parse_sse_frame}
use trading_monitoring_dashb.Sse.Newlines.{single_cr}
use trading_monitoring_dashb.Sse.Stream.{feed-eq-split_sse_buffer}
use trading_monitoring_dashb.Sse.Frame.{IsField, render, one_line, parse_sse_frame-render}
use trading_monitoring_dashb.Sse.Delivery.{IsFrame, one_block, stream_of, feed-stream_of}
use trading_monitoring_dashb.Gate.{should_apply_dashboard_sse_event, worker_should_apply}
use trading_monitoring_dashb.Gate.Cache.{Agrees, session_accepts, should_apply-Agrees}
use trading_monitoring_dashb.Gate.Copies.{worker_should_apply-eq}
use trading_monitoring_dashb.Collect.{fallback_code, bar_time}
use trading_monitoring_dashb.Collect.Fallback.{AllTimed, IsNewest, fallback_code-IsNewest}
use trading_monitoring_dashb.Tests.{calendar, no_cache, metric, quote, bar, newer_bar, metric_frame}

abbrev chunks : List Text
chunks = codes "data: 1\n" ∷ codes "\ndata: 2\n\nda" ∷ codes "ta: 3" ∷ []

chunks_single : single_cr (flatten chunks) ≡ true
unfolding mathlib.Core.List.flatten single_cr
chunks_single = refl

feed-eq-split_sse_buffer_example : feed [] chunks ≡ split_sse_buffer (flatten chunks)
feed-eq-split_sse_buffer_example = feed-eq-split_sse_buffer chunks chunks_single

event_IsField : IsField (codes "heartbeat")
event_IsField = record { single_line = unfold one_line in refl; trimmed = unfold trim in refl }

part_IsField : IsField (codes "{1}")
part_IsField = record { single_line = unfold one_line in refl; trimmed = unfold trim in refl }

parse_sse_frame-render_example :
    parse_sse_frame (render (codes "heartbeat") (codes "{1}" ∷ codes "{1}" ∷ [])) ≡ record {
      event = some (codes "heartbeat");
      payload = some (join_lines (codes "{1}" ∷ codes "{1}" ∷ []));
    }
parse_sse_frame-render_example =
    parse_sse_frame-render (codes "heartbeat") (codes "{1}" ∷ codes "{1}" ∷ []) event_IsField
      (part_IsField, (part_IsField, tt))

metric_IsFrame : IsFrame metric_frame
metric_IsFrame = record {
  block = unfold one_block in refl;
  trimmed = unfold trim in refl;
  nonempty = refl;
}

-- The frame comes in three chunks.
abbrev frame_chunks : List Text
frame_chunks = codes "event: metric_" ∷ codes "latest\ndata: {}\n" ∷ codes "\n" ∷ []

frame_text : flatten frame_chunks ≡ stream_of (metric_frame ∷ [])
unfolding mathlib.Core.List.flatten stream_of
frame_text = refl

feed-stream_of_example : feed [] frame_chunks ≡ record { frames = metric_frame ∷ []; rest = [] }
feed-stream_of_example =
    feed-stream_of (metric_frame ∷ []) frame_chunks (metric_IsFrame, tt) frame_text

should_apply-Agrees_example :
    Agrees calendar
      (should_apply_dashboard_sse_event calendar no_cache metric_latest metric)
      (session_accepts calendar metric_latest metric)
should_apply-Agrees_example =
    should_apply-Agrees calendar no_cache metric_latest metric (λ date b e f. cc)

worker_should_apply-eq_example :
    worker_should_apply calendar no_cache quote_latest quote
    ≡ should_apply_dashboard_sse_event calendar no_cache quote_latest quote
worker_should_apply-eq_example = worker_should_apply-eq calendar no_cache quote_latest quote

bars_timed : AllTimed (("TXFE6", bar) ∷ ("MXFE6", newer_bar) ∷ [])
unfolding bar_time get
bars_timed = ((pos 52, refl), ((pos 58, refl), tt))

fallback_code-IsNewest_example :
    IsNewest
      (("TXFE6", bar) ∷ ("MXFE6", newer_bar) ∷ [])
      (fallback_code "TXFE6" (("TXFE6", bar) ∷ ("MXFE6", newer_bar) ∷ []))
fallback_code-IsNewest_example =
    fallback_code-IsNewest "TXFE6" "TXFE6" bar (("MXFE6", newer_bar) ∷ []) bars_timed
