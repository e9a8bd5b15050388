-- ===== src/Runner/Send/Tests.antt =====
-- A run against a server that fails once, and the theorem at it.
use opencode_reviewer.Prelude.{
  true, false, [], ◌∷◌, none, some, ok, ◌≡◌, refl, length, ◌==◌, if◌then◌else◌,
}
use opencode_reviewer.GoText.{codes, bytes_eq, has_prefix, has_suffix, index}
use opencode_reviewer.Sse.{is_http_code_error}
use opencode_reviewer.Sse.Events.{Decoder, lookup}
use opencode_reviewer.Sse.Stream.{Http, wait_for_tool_result}
use opencode_reviewer.Sse.Stream.Frames.{reader_of, uncut}
use opencode_reviewer.Runner.Models.{append_unique_models, member}
use opencode_reviewer.Runner.Session.{
  RunRequest, final, execute, rounds, round, send_message, on_error, on_data, invalid,
  model_chain_of, emit,
}
use opencode_reviewer.Runner.Send.{
  MessageResponse, responded, stream_done, Server, send_and_await_tool, agent_of,
  sanitize_log_value, precheck, message_failed,
}
use opencode_reviewer.Runner.Send.Events.{IsCalled, execute-IsCalled}

test_sanitize : sanitize_log_value (codes "a\nbc") 3 ≡ codes "a b"
unfolding sanitize_log_value
test_sanitize = refl

abbrev decoder : Decoder
decoder = record {
  session_event = λ raw. none;
  tool_event = λ raw. some (record {
    session_id = codes "s";
    kind = codes "tool";
    tool = codes "submit_review";
    status = codes "completed";
    input = some raw;
  });
  marshal = λ fields. [];
}

abbrev http : Http
http = record {
  build = none;
  do_request = ok (record {
    status_code = 200;
    body = reader_of (uncut (codes "data: {}\n") ∷ uncut (codes "\n") ∷ []);
  });
  context_ended = false;
}

abbrev response : MessageResponse
response = record {
  provider_id = codes "p";
  model_id = codes "m";
  model = none;
  parts = [];
  was_charged = true;
}

test_precheck : precheck (ok (codes "s")) (λ sid. ok response) ≡ (none, codes "s" ∷ [])
unfolding precheck
test_precheck = refl

-- The first message is answered with a code error, the later ones with a call of the tool.
abbrev server : Server
server = record {
  decode = λ body. ok response;
  error_text = λ e. [];
  context_message = codes "context canceled";
  delivery =
      λ sent message. if length sent == 0 then responded 503 (codes "down") else responded 200 [];
  context_ended = λ sent. false;
  events = λ sent. http;
  event_decoder = decoder;
  children = λ sent n sid. false;
  signal = λ sent. stream_done;
}

abbrev request : RunRequest
request = record {
  prompt = codes "Review.";
  tool_name = codes "submit_review";
  prompt_path = codes "message-0";
  agent_name = codes "reviewer";
  model = [];
  model_chain = [];
  configured_model_chain = [];
  validate_func = none;
  schema_hint = [];
}

run_returns :
    execute request (codes "p/m") (agent_of server (codes "p/m") (codes "s") request)
    ≡ some (final (some (codes "{}")) [])
unfolding execute rounds round send_message on_error on_data invalid model_chain_of emit
    append_unique_models member send_and_await_tool message_failed is_http_code_error bytes_eq index
    wait_for_tool_result has_prefix has_suffix lookup
run_returns = refl

execute-IsCalled_example : IsCalled server (codes "p/m") (codes "s") request (codes "{}")
execute-IsCalled_example =
    execute-IsCalled server (codes "p/m") (codes "s") request (final (some (codes "{}")) [])
      run_returns
