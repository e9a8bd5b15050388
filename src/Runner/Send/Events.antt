-- ===== src/Runner/Send/Events.antt =====
-- internal/shared/runner: the arguments that a run against a server returns.

use opencode_reviewer.Prelude.{List, Result, ok, err, some, ◌≡◌, ap, arith}
use opencode_reviewer.GoText.{Bytes}
use opencode_reviewer.Sse.{SseErr}
use opencode_reviewer.Sse.Stream.Results.{IsOfEvent, wait_for_tool_result-IsOfEvent}
use opencode_reviewer.Runner.Session.{RunRequest, RunEvent, execute}
use opencode_reviewer.Runner.Session.Returned.{OfFinal, IsBeforeLast, execute-OfFinal}
use opencode_reviewer.Runner.Send.{
  MessageErr, MessageResponse, Signal, stream_done, timed_out, context_done, Server, wait_for,
  await_tool, deliver, answered, agent_of, send_and_await_tool,
}

-- The result of the wait under the arguments of an answer.
await_tool-ok :
    (server : Server) (signal : Signal) (r : Result SseErr Bytes) (args : Bytes)
    → await_tool server signal r ≡ ok args
    → r ≡ ok args
unfolding await_tool
await_tool-ok server stream_done (ok x) args e = ap (λ y. ok y) (ground arith)
await_tool-ok server stream_done (err x) args e = absurd cc
await_tool-ok server timed_out r args e = absurd cc
await_tool-ok server context_done r args e = absurd cc

module _ (server : Server) (default_model session_id : Bytes) (req : RunRequest) where
  -- The input of an event that the wait behind these messages read.
  abbrev pub IsRead : List (Bytes × Bytes) → Bytes → Type 0
  IsRead sent args =
      IsOfEvent (wait_for server default_model session_id req sent) (server.events sent) args

  -- The input of an event that the run's last wait read.
  abbrev pub IsCalled : Bytes → Type 0
  IsCalled args =
      (sent : List (Bytes × Bytes)) × IsBeforeLast req default_model
        (agent_of server default_model session_id req) sent
      × IsRead sent args

  answered-IsRead :
      (sent : List (Bytes × Bytes)) (r : Result MessageErr MessageResponse) (args : Bytes)
      → (answered server default_model session_id req sent r).outcome ≡ ok args
      → IsRead sent args
  answered-IsRead sent (err x) args e = absurd cc
  answered-IsRead sent (ok resp) args e =
      wait_for_tool_result-IsOfEvent (wait_for server default_model session_id req sent)
        (server.events sent) args (await_tool-ok server (server.signal sent) _ args e)

  sent-IsRead :
      (sent : List (Bytes × Bytes)) (prompt model args : Bytes)
      → (send_and_await_tool server default_model session_id req sent prompt model).outcome
        ≡ ok args
      → IsRead sent args
  unfolding send_and_await_tool
  sent-IsRead sent prompt model args e =
      answered-IsRead sent (deliver server default_model session_id req sent prompt model) args e

  -- The arguments that a run returns, valid or not, are the input of an event in the response that
  -- the wait behind its last message read: a block of lines between empty ones, whose data, of at
  -- most 256 MiB, holds no code error of a session and decodes to the completed call of the
  -- request's tool in the run's own session. No call of a child session, no text of the model and
  -- nothing of an earlier message becomes the arguments.
  pub execute-IsCalled :
      (event : RunEvent)
      → execute req default_model (agent_of server default_model session_id req) ≡ some event
      → OfFinal IsCalled event
  execute-IsCalled event e =
      execute-OfFinal IsRead req default_model (agent_of server default_model session_id req)
        sent-IsRead event e
