-- ===== src/Sse/Stream/Handled.antt =====
-- internal/shared/sse/client.go: the ways through `handleSSEEvent`.
use mathlib.Core.Path.{subst}
use opencode_reviewer.Prelude.{none, some, ◌≡◌, refl, sym, arith, Option-cases, inl, inr}
use opencode_reviewer.Sse.CodeErrors.{CodeError, code_error}
use opencode_reviewer.Sse.Events.{ToolCallPart, extract_session_code_error}
use opencode_reviewer.Sse.Stream.Events.{
  Wait, State, Handled, failed, passed, outcome_of, handle_data, discover, try_send_tool_call,
}

-- The state behind a decoded event.
abbrev pub seen : Wait → ToolCallPart → State → State
seen w part s = try_send_tool_call part w.forwards (discover w part s)

module _ (w : Wait) (part : ToolCallPart) (s : State) where
  pub buffer-seen : (seen w part s).buffer ≡ s.buffer
  unfolding discover try_send_tool_call
  buffer-seen = ground arith

module _ (w : Wait) (s : State) where
  handle_data-code_error :
      (e : CodeError)
      → extract_session_code_error w.decoder s.buffer ≡ some e
      → handle_data w s ≡ (failed (code_error e), s)
  unfolding handle_data
  handle_data-code_error e h = rw (h, handle_data) refl

  handle_data-undecoded :
      extract_session_code_error w.decoder s.buffer ≡ none
      → w.decoder.tool_event s.buffer ≡ none
      → handle_data w s ≡ (passed, s)
  unfolding handle_data
  handle_data-undecoded h d = rw (h, handle_data) (rw (d, handle_data) refl)

  handle_data-decoded :
      (part : ToolCallPart)
      → extract_session_code_error w.decoder s.buffer ≡ none
      → w.decoder.tool_event s.buffer ≡ some part
      → handle_data w s ≡ (outcome_of w part, seen w part s)
  unfolding handle_data
  handle_data-decoded part h d = rw (h, handle_data) (rw (d, handle_data) refl)

  -- A statement about `handleSSEEvent` is proved on its three ways.
  pub handle_data-cases :
      (P : Handled × State → Type 0)
      → ((e : CodeError) → P (failed (code_error e), s))
      → P (passed, s)
      → ((part : ToolCallPart)
          → extract_session_code_error w.decoder s.buffer ≡ none
          → w.decoder.tool_event s.buffer ≡ some part
          → P (outcome_of w part, seen w part s))
      → P (handle_data w s)
  handle_data-cases P on_error on_nothing on_part =
      elim (Option-cases (extract_session_code_error w.decoder s.buffer)) [
        | inr (x, e) ↦ subst P (sym (handle_data-code_error x e)) (on_error x)
        | inl e ↦ elim (Option-cases (w.decoder.tool_event s.buffer)) [
          | inl d ↦ subst P (sym (handle_data-undecoded e d)) on_nothing
          | inr (part, d) ↦ subst P (sym (handle_data-decoded part e d)) (on_part part e d)
        ]
      ]
