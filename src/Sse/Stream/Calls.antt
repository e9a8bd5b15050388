-- ===== src/Sse/Stream/Calls.antt =====
-- internal/shared/sse/client.go: what the handling of a buffer says of the arguments it gives.

use opencode_reviewer.Prelude.{
  ℕ, ◌≤◌, none, some, length, ok, err, ◌⊎◌, inl, inr, choice, ◌≡◌, refl, arith,
}
use opencode_reviewer.GoText.{Bytes, codes, bytes_eq_iff}
use opencode_reviewer.Sse.Events.{ToolCallPart, extract_session_code_error}
use opencode_reviewer.Sse.Stream.Events.{
  Wait, State, Handled, tool_args, failed, passed, outcome_of, extract_tool_args,
}
use opencode_reviewer.Sse.Stream.Loop.{Exit, after_event, flush}
use opencode_reviewer.Sse.Stream.Handled.{seen, handle_data-cases}

-- The part is the completed call of the tool in the session, with that input.
pub record IsCall (w : Wait) (args : Bytes) (part : ToolCallPart) : Type 0 where
  pub kind_eq : part.kind ≡ codes "tool"
  pub tool_eq : part.tool ≡ w.tool_name
  pub session_eq : part.session_id ≡ w.session_id
  pub status_eq : part.status ≡ codes "completed"
  pub input_eq : part.input ≡ some args

-- The payload is within the limit, is no error of a session and decodes to such a call.
abbrev pub IsOfRaw : Wait → ℕ → Bytes → Bytes → Type 0
IsOfRaw w max_bytes raw args =
    (part : ToolCallPart) × (length raw ≤ max_bytes)
    × (extract_session_code_error w.decoder raw ≡ none)
    × (w.decoder.tool_event raw ≡ some part)
    × IsCall w args part

module _ (w : Wait) where
  extract_tool_args-IsCall :
      (part : ToolCallPart) (args : Bytes)
      → extract_tool_args w part ≡ some args
      → IsCall w args part
  unfolding extract_tool_args
  extract_tool_args-IsCall part args h = record {
    kind_eq = (bytes_eq_iff part.kind (codes "tool")).0 (ground arith);
    tool_eq = (bytes_eq_iff part.tool w.tool_name).0 (ground arith);
    session_eq = (bytes_eq_iff part.session_id w.session_id).0 (ground arith);
    status_eq = (bytes_eq_iff part.status (codes "completed")).0 (ground arith);
    input_eq = ground arith;
  }

  outcome_of-args :
      (part : ToolCallPart) (args : Bytes)
      → outcome_of w part ≡ tool_args args
      → extract_tool_args w part ≡ some args
  unfolding outcome_of
  outcome_of-args part args h = ground arith

module _ (w : Wait) (max_bytes : ℕ) where
  -- What the handling of a buffer establishes.
  abbrev pub Flushed : Bytes → State ⊎ (Exit × State) → Type 0
  Flushed raw (inl t) = Unit
  Flushed raw (inr (ok args, t)) = IsOfRaw w max_bytes raw args
  Flushed raw (inr (err e, t)) = Unit

  after-Flushed :
      (s : State) (part : ToolCallPart) (t : State) (h : Handled)
      → length s.buffer ≤ max_bytes
      → extract_session_code_error w.decoder s.buffer ≡ none
      → w.decoder.tool_event s.buffer ≡ some part
      → outcome_of w part ≡ h
      → Flushed s.buffer (after_event (h, t))
  after-Flushed s part t (tool_args args) f clean decoded e = (
    part,
    f,
    clean,
    decoded,
    extract_tool_args-IsCall w part args (outcome_of-args w part args e),
  )
  after-Flushed s part t (failed x) f clean decoded e = tt
  after-Flushed s part t passed f clean decoded e = tt

  pub flush-Flushed : (s : State) → length s.buffer ≤ max_bytes → Flushed s.buffer (flush w s)
  unfolding flush
  flush-Flushed s f =
      choice s.has_data _ (inl s) (Flushed s.buffer)
        (λ some_data.
          handle_data-cases w s (λ r. Flushed s.buffer (after_event r)) (λ e. tt) tt
            (λ part clean decoded.
              after-Flushed s part (seen w part s) (outcome_of w part) f clean decoded refl))
        (λ no_data. tt)
