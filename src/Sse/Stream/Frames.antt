-- ===== src/Sse/Stream/Frames.antt =====
-- The format of server-sent events, and what a stream of them comes to for
-- internal/shared/sse/client.go.
use opencode_reviewer.Prelude.{
  Bool, true, false, List, [], ◌∷◌, ◌++◌, map, none, err, ◌≡◌, ◌⊎◌, inl, inr,
}
use opencode_reviewer.GoText.{Bytes, codes, has_suffix, trim_space}
use opencode_reviewer.Sse.CodeErrors.{stream_ended}
use opencode_reviewer.Sse.Stream.Reads.{Slice, buffer_full, whole_line, Reader}
use opencode_reviewer.Sse.Stream.Events.{Wait, State}
use opencode_reviewer.Sse.Stream.Loop.{Exit, reset, flush}

-- A field of an event: a part of its data, its name, or a comment.
pub data Field : Type 0 where
  data_field : Bytes → Field
  event_field : Bytes → Field
  comment_field : Bytes → Field

abbrev pub field_text : Field → Bytes
field_text (data_field d) = codes "data:" ++ d
field_text (event_field name) = codes "event:" ++ name
field_text (comment_field c) = codes ":" ++ c

-- The data of an event, and whether it has any.
abbrev pub payload : List Field → Bytes
payload [] = []
payload (data_field d ∷ fields) = trim_space d ++ payload fields
payload (event_field name ∷ fields) = payload fields
payload (comment_field c ∷ fields) = payload fields

abbrev pub has_payload : List Field → Bool
has_payload [] = false
has_payload (data_field d ∷ fields) = true
has_payload (event_field name ∷ fields) = has_payload fields
has_payload (comment_field c ∷ fields) = has_payload fields

-- A line with its end, which is that of the whole stream.
abbrev pub line_of : Bool → Bytes → Bytes
line_of true text = (text ++ codes "\r") ++ codes "\n"
line_of false text = text ++ codes "\n"

-- The lines of the events: the fields of each, then an empty line.
abbrev pub event_lines : Bool → List (List Field) → List Bytes
event_lines crlf [] = []
event_lines crlf ([] ∷ events) = line_of crlf [] ∷ event_lines crlf events
event_lines crlf ((f ∷ fields) ∷ events) =
    line_of crlf (field_text f) ∷ event_lines crlf (fields ∷ events)

-- A text that does not end with the byte that is taken off a line.
abbrev pub IsPlain : Field → Type 0
IsPlain f = has_suffix (field_text f) (codes "\r") ≡ false

abbrev pub joined : List Bytes → Bytes
joined [] = []
joined (fragment ∷ fragments) = fragment ++ joined fragments

-- A line as the buffered reader hands it out: fragments that fill the buffer, and the rest of the
-- line with its end.
abbrev pub CutLine : Type 0
CutLine = List Bytes × Bytes

abbrev pub whole_text : CutLine → Bytes
whole_text (fragments, rest) = joined fragments ++ rest

abbrev pub slices_of : List CutLine → List Slice
slices_of [] = []
slices_of ((fragments, rest) ∷ cuts) =
    map buffer_full fragments ++ (whole_line rest ∷ slices_of cuts)

-- The reader of a stream of lines, each cut in some way.
abbrev pub reader_of : List CutLine → Reader
reader_of cuts = record { slices = slices_of cuts; tail = []; failure = none }

-- A line in one piece.
abbrev pub uncut : Bytes → CutLine
uncut line = ([], line)

module _ (w : Wait) where
  -- The specification: the events are handled one after the other, each with its whole data, until
  -- one ends the wait; an event without data counts for nothing.
  abbrev pub continue : (State → Exit × State) → State ⊎ (Exit × State) → Exit × State
  continue later (inl s) = later (reset w s)
  continue later (inr exit) = exit

  unfoldable pub run_events : List (List Field) → State → Exit × State
  unfolding flush
  run_events [] s = (err (stream_ended w.tool_name w.session_id), s)
  run_events (fields ∷ events) s =
      continue (run_events events)
        (flush w (record s { buffer = payload fields; has_data = has_payload fields }))
