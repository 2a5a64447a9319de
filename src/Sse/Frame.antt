-- ===== src/Sse/Frame.antt =====
-- What the server writes for an event, and that `parseSseFrame` reads it back.
use mathlib.Core.List.{append-nil, append_assoc}
use trading_monitoring_dashb.Base.{
  Bool, true, not, ◌&&◌, none, some, List, [], ◌∷◌, ◌++◌, ◌==◌, if◌then◌else◌, ◌≡◌, refl, ap, sym,
  ◌∙◌, arith, All,
}
use trading_monitoring_dashb.Base.Text.{
  Text, codes, lf, is_nil, trim, starts_with, join_lines, split_lines,
}
use trading_monitoring_dashb.Sse.{ParsedFrame, FrameScan, scan_line, scan_lines, parse_sse_frame}

-- A text on one line, and with no white space at its ends.
unfoldable pub one_line : Text → Bool
one_line [] = true
one_line (c ∷ cs) = not (c == lf) && one_line cs

pub record IsField (t : Text) : Type 0 where
  pub single_line : one_line t ≡ true
  pub trimmed : trim t ≡ t

unfoldable pub data_lines : List Text → List Text
data_lines [] = []
data_lines (d ∷ ds) = (codes "data: " ++ d) ∷ data_lines ds

-- The frame of an event, one line for its name and one for each part of its data.
unfoldable pub render : Text → List Text → Text
unfolding data_lines
render event parts = join_lines ((codes "event: " ++ event) ∷ data_lines parts)

split_lines_one : (l : Text) → one_line l ≡ true → split_lines l ≡ l ∷ []
unfolding split_lines one_line
split_lines_one [] h = refl
split_lines_one (c ∷ l) h = ground (arith, split_lines_one l)

split_lines_more :
    (l t : Text) → one_line l ≡ true → split_lines (l ++ (lf ∷ t)) ≡ l ∷ split_lines t
unfolding split_lines one_line
split_lines_more [] t h = refl
split_lines_more (c ∷ l) t h = ground (arith, split_lines_more l t)

-- Lines that are joined are split again.
pub split_lines-join_lines :
    (l : Text) (ls : List Text)
    → All (λ t. one_line t ≡ true) (l ∷ ls)
    → split_lines (join_lines (l ∷ ls)) ≡ l ∷ ls
unfolding join_lines
split_lines-join_lines l [] h = split_lines_one l h.0
split_lines-join_lines l (m ∷ ls) h =
    split_lines_more l (join_lines (m ∷ ls)) h.0 ∙ ap (λ t. l ∷ t) (split_lines-join_lines m ls h.1)

data_lines_single : (ds : List Text) → All IsField ds → All (λ t. one_line t ≡ true) (data_lines ds)
unfolding data_lines one_line
data_lines_single [] h = tt
data_lines_single (d ∷ ds) h = (h.0.single_line, data_lines_single ds h.1)

-- The blank behind the colon is trimmed.
trim_blank : (t : Text) → trim (32 ∷ t) ≡ trim t
unfolding trim
trim_blank t = refl

scan_line-data :
    (s : FrameScan) (d : Text)
    → trim d ≡ d
    → scan_line s (codes "data: " ++ d) ≡ record s { data_parts = s.data_parts ++ (d ∷ []) }
unfolding scan_line starts_with
scan_line-data s d h = rw (trim_blank d, h)

scan_line-event :
    (s : FrameScan) (e : Text)
    → trim e ≡ e
    → scan_line s (codes "event: " ++ e) ≡ record s { event = some e }
unfolding scan_line starts_with
scan_line-event s e h = rw (trim_blank e, h)

scan_lines-data :
    (s : FrameScan) (ds : List Text)
    → All IsField ds
    → scan_lines s (data_lines ds) ≡ record s { data_parts = s.data_parts ++ ds }
unfolding scan_lines data_lines
scan_lines-data s [] h = ap (λ t. record s { data_parts = t }) (sym (append-nil s.data_parts))
scan_lines-data s (d ∷ ds) h =
    ap (λ t. scan_lines t (data_lines ds)) (scan_line-data s d h.0.trimmed)
    ∙ scan_lines-data (record s { data_parts = s.data_parts ++ (d ∷ []) }) ds h.1
    ∙ ap (λ t. record s { data_parts = t }) (append_assoc s.data_parts (d ∷ []) ds)

abbrev nothing_read : FrameScan
nothing_read = record { event = none; data_parts = [] }

abbrev frame_of : FrameScan → ParsedFrame
frame_of s = record {
  event = s.event;
  payload = if is_nil s.data_parts then none else some (join_lines s.data_parts);
}

single_event : (e : Text) → one_line e ≡ true → one_line (codes "event: " ++ e) ≡ true
unfolding one_line
single_event e h = h

-- For an event name and data parts that are single trimmed lines: the frame that is written for
-- them is read back as that name, with the parts joined by LF as its data, and with no data if
-- there are no parts.
pub parse_sse_frame-render :
    (event : Text) (parts : List Text)
    → IsField event
    → All IsField parts
    → parse_sse_frame (render event parts) ≡ record {
      event = some event;
      payload = if is_nil parts then none else some (join_lines parts);
    }
unfolding parse_sse_frame render
parse_sse_frame-render event parts he hp =
    rw
      (split_lines-join_lines (codes "event: " ++ event) (data_lines parts)
        (single_event event he.single_line, data_lines_single parts hp))
      (ap frame_of (
        ap (λ t. scan_lines t (data_lines parts)) (scan_line-event nothing_read event he.trimmed)
        ∙ scan_lines-data (record nothing_read { event = some event }) parts hp))
