-- ===== src/Tests/Workers.antt =====
-- Examples for the theorems on the worker.
use trading_monitoring_dashb.Base.{true, List, [], ◌∷◌, ◌++◌, ◌≡◌, refl, All}
use trading_monitoring_dashb.Base.Text.{
  Text, codes, trim, split_lines, starts_with, join_lines, text_eq,
}
use trading_monitoring_dashb.Sse.Newlines.{single_cr}
use trading_monitoring_dashb.Sse.{split_sse_buffer, parse_sse_frame}
use trading_monitoring_dashb.Gate.{worker_should_apply}
use trading_monitoring_dashb.Events.{event_name}
use trading_monitoring_dashb.Js.{truthy, is_object}
use trading_monitoring_dashb.Worker.{
  worker_frames, worker_frame, collect_event, handle_chunk, new_worker, posted, Event, chunk, flush,
  timer,
}
use trading_monitoring_dashb.Worker.Posted.{IsPosted, after, waiting, posted-IsPosted}
use trading_monitoring_dashb.Worker.Chunks.{Completes, handle_chunk-append}
use trading_monitoring_dashb.Tests.{platform}

-- A frame, cut in the middle of a line.
abbrev first_chunk : Text
first_chunk = codes "event: heartbeat\nda"

abbrev second_chunk : Text
second_chunk = codes "ta: {}\n\n"

chunks_single : single_cr ([] ++ (first_chunk ++ second_chunk)) ≡ true
unfolding single_cr
chunks_single = refl

chunks_Completes : Completes platform (first_chunk ++ second_chunk) new_worker
unfolding worker_frames worker_frame collect_event split_sse_buffer parse_sse_frame
    worker_should_apply trim split_lines starts_with join_lines text_eq event_name truthy is_object
chunks_Completes = refl

handle_chunk-append_example :
    handle_chunk platform second_chunk (handle_chunk platform first_chunk new_worker)
    ≡ handle_chunk platform (first_chunk ++ second_chunk) new_worker
handle_chunk-append_example =
    handle_chunk-append platform first_chunk second_chunk new_worker chunks_single chunks_Completes

abbrev two_chunks : List Event
two_chunks = chunk first_chunk ∷ timer ∷ chunk second_chunk ∷ []

posted-IsPosted_example :
    All IsPosted (posted platform two_chunks new_worker)
    × (posted platform (two_chunks ++ (flush ∷ [])) new_worker
        ≡ posted platform two_chunks new_worker
          ++ waiting (after platform two_chunks new_worker).pending_batch)
posted-IsPosted_example = posted-IsPosted platform two_chunks
