-- ===== src/Sse/Tests.antt =====
-- Streams of a server read to their end, and the theorems at concrete inputs.
use opencode_reviewer.Prelude.{
  map, drop, true, false, List, [], ◌∷◌, none, some, ok, err, ◌≡◌, refl, All, arith, if◌then◌else◌,
}
use opencode_reviewer.GoText.{Bytes, codes, bytes_eq, has_prefix, has_suffix, trim_space}
use opencode_reviewer.GoInt.{negsuc}
use opencode_reviewer.Sse.{code_error}
use opencode_reviewer.GoInt.Number.{atoi}
use opencode_reviewer.Sse.Events.{ToolCallPart, Decoder, Fields, end, field, text, object, lookup}
use opencode_reviewer.Sse.Stream.{
  Wait, Http, wait_for_tool_result, parse_stream, parse_stream_with_limit, start,
}
use opencode_reviewer.Sse.Stream.Frames.{
  Field, data_field, event_field, comment_field, event_lines, reader_of, run_events, CutLine, uncut,
}
use opencode_reviewer.Sse.Stream.Framing.{parse_stream-run_events}
use opencode_reviewer.Sse.Stream.Forwarded.{IsOfKin, offered-IsOfKin}

test_atoi : atoi (codes "-503") ≡ some (negsuc 502)
unfolding atoi
test_atoi = refl

abbrev part : Bytes → Bytes → ToolCallPart
part session status = record {
  session_id = session;
  kind = codes "tool";
  tool = codes "submit_review";
  status = status;
  input = some (codes "{}");
}

abbrev overload : Fields
overload =
    field (codes "error")
      (object (
        field (codes "statusCode") (text (codes "503"))
          (field (codes "message") (text (codes "a\nb")) end)))
      end

abbrev decoder : Decoder
decoder = record {
  session_event =
      λ raw. if bytes_eq raw (codes "down") then some (codes "session.error", overload) else none;
  tool_event = λ raw.
      if bytes_eq raw (codes "done")
      then some (part (codes "root") (codes "completed"))
      else if bytes_eq raw (codes "childdone")
      then some (part (codes "child") (codes "completed"))
      else none;
  marshal = λ fields. [];
}

abbrev wait : Wait
wait = record {
  session_id = codes "root";
  tool_name = codes "submit_review";
  children = λ n sid. bytes_eq sid (codes "child");
  forwards = true;
  decoder = decoder;
}

-- A comment, a call of the child in two lines, an event that does not decode, and the result.
abbrev events : List (List Field)
events =
    (comment_field (codes "ping") ∷ [])
    ∷ (event_field (codes "message") ∷ data_field (codes " child") ∷ data_field (codes "done") ∷ [])
    ∷ (data_field (codes "?") ∷ [])
    ∷ (data_field (codes " done") ∷ [])
    ∷ []

abbrev http : Http
http = record {
  build = none;
  do_request =
      ok (record { status_code = 200; body = reader_of (map uncut (event_lines true events)) });
  context_ended = false;
}

wait_returns : wait_for_tool_result wait http ≡ ok (codes "{}")
unfolding wait_for_tool_result has_prefix bytes_eq has_suffix lookup
wait_returns = refl

session_down :
    (parse_stream wait (reader_of (uncut (codes "data: down\n") ∷ uncut (codes "\n") ∷ []))).0
    ≡ err (
        code_error
          (record { status_code = 503; source = codes "session.error"; snippet = codes "a b" }))
unfolding parse_stream has_prefix bytes_eq has_suffix lookup
session_down = refl

-- The same lines, the second one cut into three pieces.
abbrev cuts : List CutLine
cuts =
    uncut (codes ":ping\r\n")
    ∷ uncut (codes "\r\n")
    ∷ (codes "event:" ∷ codes "mess" ∷ [], codes "age\r\n")
    ∷ map uncut (drop 3 (event_lines true events))

parse_stream-run_events_example :
    parse_stream_with_limit wait 40 (reader_of cuts) ≡ run_events wait events (start wait)
unfolding has_suffix has_prefix trim_space
parse_stream-run_events_example =
    parse_stream-run_events wait 40 true events cuts refl (omega arith)
      ((refl, tt), ((refl, (refl, (refl, tt))), ((refl, tt), ((refl, tt), tt)))) (omega arith)

offered-IsOfKin_example :
    All
      (IsOfKin wait)
      (parse_stream_with_limit wait 40 (reader_of (map uncut (event_lines true events)))).1.offered
offered-IsOfKin_example = offered-IsOfKin wait 40 (reader_of (map uncut (event_lines true events)))
