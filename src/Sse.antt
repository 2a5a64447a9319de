-- ===== src/Sse.antt =====
-- apps/frontend/src/features/realtime/services/realtime-manager.ts, `splitSseBuffer` and
-- `parseSseFrame`, which apps/frontend/src/features/realtime/sse-worker.ts repeats word for word,
-- and the part of the read loop that carries the buffer from one chunk to the next.
use trading_monitoring_dashb.Base.{
  ℕ, zero, suc, Bool, true, false, not, ◌&&◌, Option, none, some, List, [], ◌∷◌, ◌++◌, length, drop,
  ◌==◌, if◌then◌else◌,
}
use trading_monitoring_dashb.Base.Text.{
  Text, codes, lf, cr, is_nil, trim, starts_with, join_lines, split_lines,
}
pub mod Cut
pub mod Newlines
pub mod Chunks
pub mod Stream
pub mod Frame
pub mod Delivery

abbrev pub starts_lf : Text → Bool
starts_lf [] = false
starts_lf (c ∷ cs) = c == lf

-- `buffer.replace(/\r\n/g, "\n")`
unfoldable pub normalize : Text → Text
normalize [] = []
normalize (c ∷ cs) = let rest = normalize cs in if c == cr && starts_lf cs then rest else c ∷ rest

abbrev pub cons_fst : ℕ → Option (Text × Text) → Option (Text × Text)
cons_fst c none = none
cons_fst c (some (p, q)) = some (c ∷ p, q)

-- `indexOf("\n\n", cursor)` on the text behind the cursor: what stands before the first blank line
-- and what stands after it.
unfoldable pub cut : Text → Option (Text × Text)
cut [] = none
cut (c ∷ cs) =
    let rest = cut cs in if c == lf && starts_lf cs then some ([], drop 1 cs) else cons_fst c rest

pub record Split : Type 0 where
  pub frames : List Text
  pub rest : Text

-- `if (frame) frames.push(frame)`
abbrev pub push_frame : Text → List Text → List Text
push_frame frame frames = if is_nil frame then frames else frame ∷ frames

-- The `while (true)` loop; each round moves the cursor forward, so the length of the text is
-- enough fuel.
unfoldable pub split_loop : ℕ → Text → Split
split_loop zero t = record { frames = []; rest = t }
split_loop (suc fuel) t = elim (cut t) [
  | none ↦ record { frames = []; rest = t }
  | some (p, q) ↦ record {
    frames = push_frame (trim p) (split_loop fuel q).frames;
    rest = (split_loop fuel q).rest;
  }
]

unfoldable pub split_sse_buffer : Text → Split
unfolding split_loop normalize cut
split_sse_buffer buffer = split_loop (length (normalize buffer)) (normalize buffer)

-- `buffer += chunk; ({ frames, rest } = splitSseBuffer(buffer)); buffer = rest` for each chunk.
unfoldable pub feed : Text → List Text → Split
feed buffer [] = record { frames = []; rest = buffer }
feed buffer (chunk ∷ chunks) =
    let s = split_sse_buffer (buffer ++ chunk) in
    record { frames = s.frames ++ (feed s.rest chunks).frames; rest = (feed s.rest chunks).rest }

pub record ParsedFrame : Type 0 where
  pub event : Option Text
  pub payload : Option Text

-- The variables of the loop over the lines of a frame.
pub record FrameScan : Type 0 where
  pub event : Option Text
  pub data_parts : List Text

-- one line of a frame
unfoldable pub scan_line : FrameScan → Text → FrameScan
scan_line s line =
    if is_nil line
    then s
    else if starts_with (codes ":") line
    then s
    else if starts_with (codes "event:") line
    then record s { event = some (trim (drop 6 line)) }
    else if starts_with (codes "data:") line
    then record s { data_parts = s.data_parts ++ (trim (drop 5 line) ∷ []) }
    else s

unfoldable pub scan_lines : FrameScan → List Text → FrameScan
unfolding scan_line
scan_lines s [] = s
scan_lines s (line ∷ lines) = scan_lines (scan_line s line) lines

unfoldable pub parse_sse_frame : Text → ParsedFrame
unfolding scan_lines
parse_sse_frame frame =
    let s = scan_lines (record { event = none; data_parts = [] }) (split_lines frame) in
    record {
      event = s.event;
      payload = if is_nil s.data_parts then none else some (join_lines s.data_parts);
    }
