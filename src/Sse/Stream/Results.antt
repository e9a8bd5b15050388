-- ===== src/Sse/Stream/Results.antt =====
-- internal/shared/sse/client.go: which event a result comes from.
use mathlib.Core.Path.{subst}
use opencode_reviewer.Prelude.{Option, none, some, Result, ok, err, ◌≡◌, refl, arith}
use opencode_reviewer.GoText.{Bytes}
use opencode_reviewer.Sse.CodeErrors.{Cause}
use opencode_reviewer.Sse.Stream.Reads.{reads_of}
use opencode_reviewer.Sse.Stream.Lines.{lines_of, IsEvent}
use opencode_reviewer.Sse.Stream.Events.{Wait, State}
use opencode_reviewer.Sse.Stream.Loop.{
  Exit, parse_stream_with_limit, parse_stream, Response, Http, max_sse_event_bytes, on_response,
  on_request, wait_for_tool_result,
}
use opencode_reviewer.Sse.Stream.Calls.{IsOfRaw}
use opencode_reviewer.Sse.Stream.Blocks.{Exits, parse_stream-Exits}

-- The payload is that of an event of the response of the server.
abbrev pub WasRead : Http → Bytes → Type 0
WasRead http raw =
    (response : Response) × (http.do_request ≡ ok response)
    × IsEvent (lines_of (reads_of max_sse_event_bytes response.body)) raw

abbrev pub IsOfEvent : Wait → Http → Bytes → Type 0
IsOfEvent w http args = (raw : Bytes) × WasRead http raw × IsOfRaw w max_sse_event_bytes raw args

module _ (w : Wait) where
  parse_stream-IsOfEvent :
      (http : Http) (response : Response) (exit : Exit × State) (args : Bytes)
      → http.do_request ≡ ok response
      → Exits w max_sse_event_bytes (lines_of (reads_of max_sse_event_bytes response.body)) exit
      → exit.0 ≡ ok args
      → IsOfEvent w http args
  parse_stream-IsOfEvent http response (err x, s) args got h e = absurd cc
  parse_stream-IsOfEvent http response (ok found, s) args got (raw, event, of_raw) e = (
    raw,
    (response, got, event),
    subst (λ a. IsOfRaw w max_sse_event_bytes raw a) (ground arith) of_raw,
  )

  on_response-IsOfEvent :
      (http : Http) (r : Result Cause Response) (args : Bytes)
      → http.do_request ≡ r
      → on_response w http.context_ended r ≡ ok args
      → IsOfEvent w http args
  unfolding parse_stream
  on_response-IsOfEvent http (err cause) args got e = absurd cc
  on_response-IsOfEvent http (ok response) args got e =
      parse_stream-IsOfEvent http response
        (parse_stream_with_limit w max_sse_event_bytes response.body) args got
        (parse_stream-Exits w max_sse_event_bytes response.body) (ground arith)

  on_request-IsOfEvent :
      (http : Http) (build : Option Cause) (args : Bytes)
      → on_request w http build ≡ ok args
      → IsOfEvent w http args
  on_request-IsOfEvent http (some cause) args e = absurd cc
  on_request-IsOfEvent http none args e = on_response-IsOfEvent http http.do_request args refl e

  -- A wait that returns arguments returns the input of an event of the response that it read: the
  -- event is a block of lines between empty ones, and its data, of at most 256 MiB, holds no code
  -- error of a session and decodes to the completed call of the named tool in the named session. In
  -- particular no call of a child session ends the wait.
  pub wait_for_tool_result-IsOfEvent :
      (http : Http) (args : Bytes) → wait_for_tool_result w http ≡ ok args → IsOfEvent w http args
  unfolding wait_for_tool_result
  wait_for_tool_result-IsOfEvent http args e = on_request-IsOfEvent http http.build args e
