-- ===== src/Runner/Send.antt =====
-- internal/shared/runner: a message to the server and the wait for the tool that it should call:
-- sendMessage of runner.go, sendAndAwaitTool of run_session.go and the errors of code_error.go. They
-- make an agent for the loop of a run out of a server.
pub mod Events
mod Tests
use opencode_reviewer.Prelude.{
  ℕ, Bool, true, false, not, ◌&&◌, ◌||◌, List, [], ◌∷◌, ◌++◌, Option, none, some, if◌then◌else◌,
  take, length, ltb, ◌==◌, Result, ok, err, ◌>>=◌, wrap_err,
}
use opencode_reviewer.GoText.{Bytes, codes, bytes_eq, is_empty, replace_byte, show_nat}
use opencode_reviewer.Sse.{
  Cause, SseErr, build_request, connect, unexpected_status, code_error, event_too_large, read_error,
  tool_error_state, stream_ended, is_code_error, is_retryable, code_error_text, new_code_error,
  is_http_code_error,
}
use opencode_reviewer.Sse.Events.{Decoder}
use opencode_reviewer.Sse.Stream.{Wait, Http, wait_for_tool_result}
use opencode_reviewer.Runner.Models.{MessageModel, model_string, parse_model}
use opencode_reviewer.Runner.Session.{Agent, Answer, SendErr, RunRequest, tool_not_called}
use opencode_reviewer.Runner.Session.Types as Run

pub record MessagePart : Type 0 where
  pub kind : Bytes
  pub text : Bytes

-- A response. `was_charged` tells whether its cost or its output tokens are above 0.
pub record MessageResponse : Type 0 where
  pub provider_id : Bytes
  pub model_id : Bytes
  pub model : Option MessageModel
  pub parts : List MessagePart
  pub was_charged : Bool

pub record MessageRequest : Type 0 where
  pub parts : List MessagePart
  pub agent : Bytes
  pub model : Option MessageModel

-- The request that `sendMessage` posts, for the model of the run or the one of the configuration.
unfoldable pub message_request : Bytes → Bytes → Bytes → Bytes → MessageRequest
unfolding parse_model
message_request default_model prompt agent_name model = record {
  parts = record { kind = codes "text"; text = prompt } ∷ [];
  agent = agent_name;
  model = parse_model (if is_empty model then default_model else model);
}

-- What comes of the request of a message: the request cannot be built, the exchange fails, with the
-- context ended or not, or there is a status with a body.
pub data Delivery : Type 0 where
  not_built : Cause → Delivery
  not_sent : Cause → Bool → Delivery
  responded : ℕ → Bytes → Delivery

-- The errors of `sendMessage`. The flag tells whether the error is marked as retryable.
pub data MessageErr : Type 0 where
  request_failed : Cause → Bool → MessageErr
  message_code : ℕ → Bytes → MessageErr
  message_status : ℕ → Bytes → MessageErr
  decode_response : Bytes → MessageErr

-- `extractText`
unfoldable pub extract_text : List MessagePart → Bytes
unfolding bytes_eq
extract_text [] = []
extract_text (p ∷ ps) = (if bytes_eq p.kind (codes "text") then p.text else []) ++ extract_text ps

-- `sanitizeLogValue`: cut, and without line ends.
unfoldable pub sanitize_log_value : Bytes → ℕ → Bytes
unfolding replace_byte
sanitize_log_value s max_len =
    let cut = if ltb max_len (length s) then take max_len s else s in
    replace_byte b'\r' (codes " ") (replace_byte b'\n' (codes " ") cut)

-- `encoding/json` on the body of a response.
abbrev pub ResponseDecoder : Type 0
ResponseDecoder = Bytes → Result Bytes MessageResponse

unfoldable pub send_message : ResponseDecoder → Delivery → Result MessageErr MessageResponse
unfolding is_http_code_error
send_message decode (not_built cause) = err (request_failed cause false)
send_message decode (not_sent cause context_ended) = err (request_failed cause (not context_ended))
send_message decode (responded status body) =
    if not (status == 200)
    then if is_http_code_error status
      then err (message_code status body)
      else err (message_status status body)
    else wrap_err decode_response (decode body)

unfoldable pub message_text : MessageErr → Bytes
unfolding code_error_text new_code_error show_nat
message_text (request_failed cause retryable) = cause.message
message_text (message_code status body) =
    code_error_text (new_code_error status (codes "POST /session/{id}/message") body)
message_text (message_status status body) =
    codes "unexpected status " ++ (show_nat status ++ (codes ": " ++ body))
message_text (decode_response e) = codes "decode message response: " ++ e

-- The tests of `execute`, in their order: `isCodeError`, then `isRetryableError`.
unfoldable pub message_failed : MessageErr → SendErr
unfolding message_text
message_failed (message_code status body) =
    Run.code_error (codes "send message: " ++ message_text (message_code status body))
message_failed (request_failed cause retryable) =
    if not cause.from_context && retryable
    then Run.retryable_error (codes "send message: " ++ cause.message)
    else Run.other_error (codes "send message: " ++ cause.message)
message_failed e = Run.other_error (codes "send message: " ++ message_text e)

-- How the wait behind a message ends: the stream is done, three seconds are over, or the context is.
pub data Signal : Type 0 where
  stream_done timed_out context_done : Signal

-- An error of the stream, by what `execute` makes of it. `text` is `Error` of the error.
unfoldable pub stream_failed : (SseErr → Bytes) → SseErr → SendErr
unfolding is_code_error is_retryable
stream_failed text e =
    if is_code_error e
    then Run.code_error (text e)
    else if is_retryable e
    then Run.retryable_error (text e)
    else tool_not_called

abbrev stage_timeout : Bytes → SendErr
stage_timeout message = Run.other_error (codes "stage timeout: " ++ message)

-- What the server does with a message, which may depend on all messages sent before.
pub record Server : Type 0 where
  pub decode : ResponseDecoder
  pub error_text : SseErr → Bytes
  pub context_message : Bytes
  pub delivery : List (Bytes × Bytes) → MessageRequest → Delivery
  -- Whether the context has ended when a message has failed.
  pub context_ended : List (Bytes × Bytes) → Bool
  -- The connection to the stream of events, the child sessions that are known while it is read, and
  -- how the wait for it ends.
  pub events : List (Bytes × Bytes) → Http
  pub event_decoder : Decoder
  pub children : List (Bytes × Bytes) → ℕ → Bytes → Bool
  pub signal : List (Bytes × Bytes) → Signal

-- The `select` behind a message that was answered.
unfoldable pub await_tool : Server → Signal → Result SseErr Bytes → Result SendErr Bytes
unfolding stream_failed
await_tool server stream_done (ok args) = ok args
await_tool server stream_done (err e) = err (stream_failed server.error_text e)
await_tool server timed_out result = err tool_not_called
await_tool server context_done result = err (stage_timeout server.context_message)

module _ (server : Server) (default_model session_id : Bytes) (req : RunRequest) where
  abbrev pub wait_for : List (Bytes × Bytes) → Wait
  wait_for sent = record {
    session_id = session_id;
    tool_name = req.tool_name;
    children = server.children sent;
    forwards = true;
    decoder = server.event_decoder;
  }

  abbrev pub deliver : List (Bytes × Bytes) → Bytes → Bytes → Result MessageErr MessageResponse
  deliver sent prompt model =
      send_message server.decode
        (server.delivery sent (message_request default_model prompt req.agent_name model))

  abbrev pub answered : List (Bytes × Bytes) → Result MessageErr MessageResponse → Answer
  answered sent (err e) = record {
    responded = none;
    outcome = err (
        if server.context_ended sent
        then stage_timeout server.context_message
        else message_failed e);
  }
  answered sent (ok resp) = record {
    responded = some (model_string resp.provider_id resp.model_id resp.model);
    outcome =
        await_tool server (server.signal sent)
          (wait_for_tool_result (wait_for sent) (server.events sent));
  }

  unfoldable pub send_and_await_tool : List (Bytes × Bytes) → Bytes → Bytes → Answer
  unfolding send_message message_request message_failed await_tool model_string wait_for_tool_result
  send_and_await_tool sent prompt model = answered sent (deliver sent prompt model)

  abbrev text_and_model : MessageResponse → Bytes × Bytes
  text_and_model resp =
      (extract_text resp.parts, model_string resp.provider_id resp.model_id resp.model)

  -- The message of the fallback, which waits for no tool.
  unfoldable pub ask : List (Bytes × Bytes) → Bytes → Bytes → Result Bytes (Bytes × Bytes)
  unfolding send_message message_request message_text extract_text model_string
  ask sent prompt model =
      wrap_err message_text (deliver sent prompt model) >>= λ resp. ok (text_and_model resp)

  abbrev pub agent_of : Agent
  agent_of = record { send = send_and_await_tool; ask = ask }

pub data PrecheckErr : Type 0 where
  create_session_failed : Bytes → PrecheckErr
  message_not_sent : Bytes → PrecheckErr
  empty_response : PrecheckErr

abbrev answer_of : MessageResponse → Option PrecheckErr
answer_of resp =
    if not (is_empty (extract_text resp.parts))
    then none
    else if resp.was_charged
    then none
    else some empty_response

abbrev pub checked : Result MessageErr MessageResponse → Option PrecheckErr
checked (err e) = some (message_not_sent (message_text e))
checked (ok resp) = answer_of resp

-- `Precheck`: its error, and the session that is cleaned up behind it. `exchange` is the message in
-- a session.
unfoldable pub precheck :
    Result Bytes Bytes
    → (Bytes → Result MessageErr MessageResponse)
    → Option PrecheckErr × List Bytes
unfolding message_text extract_text
precheck (err e) exchange = (some (create_session_failed e), [])
precheck (ok session_id) exchange = (checked (exchange session_id), session_id ∷ [])
