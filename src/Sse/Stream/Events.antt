-- ===== src/Sse/Stream/Events.antt =====
-- internal/shared/sse/client.go: an event of the stream, `handleSSEEvent` and what it calls.
use opencode_reviewer.Prelude.{
  ℕ, Bool, false, not, ◌&&◌, ◌||◌, List, [], ◌∷◌, Option, none, some, if◌then◌else◌,
}
use opencode_reviewer.GoText.{Bytes, codes, bytes_eq, is_empty}
use opencode_reviewer.Sse.CodeErrors.{SseErr, code_error, tool_error_state}
use opencode_reviewer.Sse.Events.{ToolCall, ToolCallPart, Decoder, extract_session_code_error}

-- What a wait is for, and what it runs in. `children n` are the child sessions that the shared map
-- holds when `n` events were handled; it holds none where the map is nil.
pub record Wait : Type 0 where
  pub session_id : Bytes
  pub tool_name : Bytes
  pub children : ℕ → Bytes → Bool
  -- Whether there is a channel for the tool calls.
  pub forwards : Bool
  pub decoder : Decoder

-- The variables of the loop. `offered` are the sends to the channel, the last one first; the channel
-- drops a call when it is full.
pub record State : Type 0 where
  pub buffer : Bytes
  pub has_data : Bool
  pub known : List Bytes
  pub event_count : ℕ
  pub offered : List ToolCall

-- `knownSessions[sid]`
unfoldable pub is_known : Bytes → List Bytes → Bool
is_known sid [] = false
is_known sid (k ∷ ks) = bytes_eq k sid || is_known sid ks

-- What an event comes to: the arguments of the tool, an error, or neither.
pub data Handled : Type 0 where
  tool_args : Bytes → Handled
  failed : SseErr → Handled
  passed : Handled

abbrev pub call_of : ToolCallPart → ToolCall
call_of part = record { tool = part.tool; session_id = part.session_id; input = part.input }

abbrev pub completed_call : ToolCallPart → Bool
completed_call part = bytes_eq part.kind (codes "tool") && bytes_eq part.status (codes "completed")

unfoldable pub try_send_tool_call : ToolCallPart → Bool → State → State
try_send_tool_call part forwards s =
    if forwards && (completed_call part && is_known part.session_id s.known)
    then record s { offered = call_of part ∷ s.offered }
    else s

module _ (w : Wait) where
  -- A session that is new to the loop becomes known when the shared map has it.
  unfoldable pub discover : ToolCallPart → State → State
  unfolding is_known
  discover part s =
      if not (is_empty part.session_id)
        && (not (is_known part.session_id s.known) && w.children s.event_count part.session_id)
      then record s { known = part.session_id ∷ s.known }
      else s

  -- The event is one of the tool in the session.
  abbrev pub of_tool : ToolCallPart → Bool
  of_tool part =
      bytes_eq part.kind (codes "tool")
      && (bytes_eq part.tool w.tool_name && bytes_eq part.session_id w.session_id)

  unfoldable pub extract_tool_error : ToolCallPart → Option SseErr
  extract_tool_error part =
      if not (of_tool part)
      then none
      else if not (bytes_eq part.status (codes "error"))
      then none
      else some (tool_error_state w.tool_name w.session_id)

  -- The input, and `none` also where it is nil.
  unfoldable pub extract_tool_args : ToolCallPart → Option Bytes
  extract_tool_args part =
      if not (bytes_eq part.kind (codes "tool"))
      then none
      else if not (bytes_eq part.tool w.tool_name)
      then none
      else if not (bytes_eq part.session_id w.session_id)
      then none
      else if not (bytes_eq part.status (codes "completed"))
      then none
      else part.input

  unfoldable pub outcome_of : ToolCallPart → Handled
  unfolding extract_tool_error extract_tool_args bytes_eq
  outcome_of part = elim (extract_tool_error part) [
    | some e ↦ failed e
    | none ↦ elim (extract_tool_args part) [ some args ↦ tool_args args | none ↦ passed ]
  ]

  -- An event is handled: `handleSSEEvent` on the buffer, which the state holds.
  unfoldable pub handle_data : State → Handled × State
  unfolding extract_session_code_error discover try_send_tool_call outcome_of
  handle_data s = elim (extract_session_code_error w.decoder s.buffer) [
    | some e ↦ (failed (code_error e), s)
    | none ↦ elim (w.decoder.tool_event s.buffer) [
      | none ↦ (passed, s)
      | some part ↦ (outcome_of part, try_send_tool_call part w.forwards (discover part s))
    ]
  ]
