-- ===== src/Sse/Stream/Loop.antt =====
-- internal/shared/sse/client.go: the loop over the lines, and the request.
use opencode_reviewer.Prelude.{
  ℕ, suc, ◌+◌, Bool, true, false, not, List, [], ◌∷◌, ◌++◌, Option, none, some, if◌then◌else◌,
  length, ltb, ◌==◌, Result, ok, err, ◌⊎◌, inl, inr,
}
use opencode_reviewer.GoText.{
  Bytes, codes, has_prefix, trim_prefix, trim_suffix, trim_space, is_empty,
}
use opencode_reviewer.Sse.CodeErrors.{
  Cause, SseErr, build_request, connect, unexpected_status, code_error, event_too_large, read_error,
  stream_ended, is_http_code_error, new_code_error,
}
use opencode_reviewer.Sse.Stream.Reads.{
  Slice, buffer_full, whole_line, Reader, Reads, next, eof, over_limit, broken, reads_of,
}
use opencode_reviewer.Sse.Stream.Events.{
  Wait, State, Handled, tool_args, failed, passed, handle_data,
}

abbrev pub max_sse_event_bytes : ℕ
max_sse_event_bytes = 268_435_456

-- How the loop is left.
abbrev pub Exit : Type 0
Exit = Result SseErr Bytes

-- A line without its line end.
unfoldable pub bare_line : Bytes → Bytes
unfolding trim_suffix
bare_line line = trim_suffix (trim_suffix line (codes "\n")) (codes "\r")

-- The part of a `data:` line that is kept.
unfoldable pub data_of : Bytes → Bytes
unfolding trim_prefix trim_space
data_of line = trim_space (trim_prefix line (codes "data:"))

abbrev pub after_event : Handled × State → State ⊎ (Exit × State)
after_event (tool_args args, s) = inr (ok args, s)
after_event (failed e, s) = inr (err e, s)
after_event (passed, s) = inl (record s { event_count = suc s.event_count })

module _ (w : Wait) where
  -- The buffer is handled as one event, when it has data.
  unfoldable pub flush : State → State ⊎ (Exit × State)
  unfolding handle_data
  flush s = if s.has_data then after_event (handle_data w s) else inl s

  abbrev pub reset : State → State
  reset s = record s { buffer = []; has_data = false }

  abbrev pub reset_after : State ⊎ (Exit × State) → State ⊎ (Exit × State)
  reset_after (inl s) = inl (reset s)
  reset_after (inr exit) = inr exit

  -- The `switch` on a line.
  unfoldable pub on_line : ℕ → Bytes → State → State ⊎ (Exit × State)
  unfolding has_prefix data_of flush
  on_line max_bytes line s =
      if has_prefix line (codes "event:")
      then inl s
      else if has_prefix line (codes "data:")
      then if ltb max_bytes (length s.buffer + length (data_of line))
        then inr (err (event_too_large max_bytes), s)
        else inl (record s { buffer = s.buffer ++ data_of line; has_data = true })
      else if is_empty line
      then reset_after (flush s)
      else inl s

  abbrev pub at_end : State ⊎ (Exit × State) → Exit × State
  at_end (inl s) = (err (stream_ended w.tool_name w.session_id), s)
  at_end (inr exit) = exit

  -- The flush behind the last line.
  abbrev pub finish : State ⊎ (Exit × State) → Exit × State
  finish (inl s) = at_end (flush s)
  finish (inr exit) = exit

  -- The loop. The state at its exit is returned too.
  unfoldable pub parse_reads : ℕ → Reads → State → Exit × State
  unfolding on_line bare_line
  parse_reads max_bytes (next line reads) s = elim (on_line max_bytes (bare_line line) s) [
    | inl s' ↦ parse_reads max_bytes reads s'
    | inr exit ↦ exit
  ]
  parse_reads max_bytes (eof line) s = finish (on_line max_bytes (bare_line line) s)
  parse_reads max_bytes over_limit s = (err (event_too_large max_bytes), s)
  parse_reads max_bytes (broken cause) s = (err (read_error cause), s)

  abbrev pub start : State
  start = record {
    buffer = [];
    has_data = false;
    known = w.session_id ∷ [];
    event_count = 0;
    offered = [];
  }

  unfoldable pub parse_stream_with_limit : ℕ → Reader → Exit × State
  unfolding parse_reads reads_of
  parse_stream_with_limit max_bytes reader = parse_reads max_bytes (reads_of max_bytes reader) start

  unfoldable pub parse_stream : Reader → Exit × State
  unfolding parse_stream_with_limit
  parse_stream = parse_stream_with_limit max_sse_event_bytes

-- `io.ReadAll`, whose error is dropped.
unfoldable pub read_all : List Slice → Bytes → Bytes
read_all [] tail = tail
read_all (buffer_full fragment ∷ slices) tail = fragment ++ read_all slices tail
read_all (whole_line fragment ∷ slices) tail = fragment ++ read_all slices tail

pub record Response : Type 0 where
  pub status_code : ℕ
  pub body : Reader

-- The HTTP client: the error of the request that is built, or the response to it, and whether the
-- context has ended after a failure.
pub record Http : Type 0 where
  pub build : Option Cause
  pub do_request : Result Cause Response
  pub context_ended : Bool

abbrev pub status_error : ℕ → Bytes → SseErr
status_error status body =
    if is_http_code_error status
    then code_error (new_code_error status (codes "GET /event") body)
    else unexpected_status status body

-- The response to the request, or its error.
abbrev pub on_response : Wait → Bool → Result Cause Response → Exit
on_response w context_ended (err cause) = err (connect cause (not context_ended))
on_response w context_ended (ok response) =
    if response.status_code == 200
    then (parse_stream w response.body).0
    else err (status_error response.status_code (read_all response.body.slices response.body.tail))

abbrev pub on_request : Wait → Http → Option Cause → Exit
on_request w http (some cause) = err (build_request cause)
on_request w http none = on_response w http.context_ended http.do_request

unfoldable pub wait_for_tool_result : Wait → Http → Exit
unfolding parse_stream read_all is_http_code_error new_code_error
wait_for_tool_result w http = on_request w http http.build
