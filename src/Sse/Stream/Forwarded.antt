-- ===== src/Sse/Stream/Forwarded.antt =====
-- internal/shared/sse/client.go: which tool calls are sent to the channel.
use mathlib.Core.Path.{subst}
use opencode_reviewer.Prelude.{
  ℕ, Bool, true, false, not, ◌&&◌, List, [], ◌∷◌, if◌then◌else◌, ◌≡◌, ◌⊎◌, refl, arith, Bool-cases,
  inl, inr, All,
}
use opencode_reviewer.GoText.{Bytes, bytes_eq, bytes_eq_iff, is_empty}
use opencode_reviewer.Sse.Events.{ToolCall, ToolCallPart}
use opencode_reviewer.Sse.Stream.Reads.{Reader, reads_of}
use opencode_reviewer.Sse.Stream.Events.{
  Wait, State, Handled, tool_args, failed, passed, outcome_of, handle_data, is_known, discover,
  completed_call, call_of, try_send_tool_call,
}
use opencode_reviewer.Sse.Stream.Loop.{Exit, after_event, start, parse_stream_with_limit}
use opencode_reviewer.Sse.Stream.Handled.{seen, handle_data-cases}
use opencode_reviewer.Sse.Stream.Rule.{Holds, parse_reads-Holds}

module _ (w : Wait) where
  -- The session of the wait, or one that the shared map held as a child after some event.
  abbrev pub IsKin : Bytes → Type 0
  IsKin sid = (w.session_id ≡ sid) ⊎ ((n : ℕ) × (w.children n sid ≡ true))

  abbrev pub IsOfKin : ToolCall → Type 0
  IsOfKin call = IsKin call.session_id

  -- All known sessions are of the kind, and so are those of the calls that were sent.
  abbrev Kind : State → Type 0
  Kind s = All IsKin s.known × All IsOfKin s.offered

  is_known-IsKin :
      (sid : Bytes) (known : List Bytes) → All IsKin known → is_known sid known ≡ true → IsKin sid
  unfolding is_known
  is_known-IsKin sid [] h e = absurd (cc)
  is_known-IsKin sid (k ∷ ks) (hk, h) e = elim (Bool-cases (bytes_eq k sid)) [
    | inl same ↦ subst IsKin ((bytes_eq_iff k sid).0 same) hk
    | inr other ↦ is_known-IsKin sid ks h (ground arith)
  ]

  Kind-if : (b : Bool) (x y : State) → (b ≡ true → Kind x) → Kind y → Kind (if b then x else y)
  Kind-if true x y hx hy = hx refl
  Kind-if false x y hx hy = hy

  discover-Kind : (part : ToolCallPart) (s : State) → Kind s → Kind (discover w part s)
  unfolding discover
  discover-Kind part s (k, o) =
      Kind-if
        (not (is_empty part.session_id)
          && (not (is_known part.session_id s.known) && w.children s.event_count part.session_id))
        (record s { known = part.session_id ∷ s.known }) s
        (λ e. ((inr (s.event_count, ground arith), k), o)) (k, o)

  try_send-Kind :
      (part : ToolCallPart) (s : State) → Kind s → Kind (try_send_tool_call part w.forwards s)
  unfolding try_send_tool_call
  try_send-Kind part s (k, o) =
      Kind-if (w.forwards && (completed_call part && is_known part.session_id s.known))
        (record s { offered = call_of part ∷ s.offered }) s
        (λ e. (k, (is_known-IsKin part.session_id s.known k (ground arith), o))) (k, o)

  abbrev Sent : Exit × State → Type 0
  Sent (exit, s) = Kind s

  after-Kind : (h : Handled) (s : State) → Kind s → Holds Kind Sent (after_event (h, s))
  after-Kind (tool_args args) s k = k
  after-Kind (failed e) s k = k
  after-Kind passed s k = k

  handle_data-Kind : (s : State) → Kind s → Holds Kind Sent (after_event (handle_data w s))
  handle_data-Kind s k =
      handle_data-cases w s (λ r. Holds Kind Sent (after_event r)) (λ e. k) k
        (λ part clean decoded.
          after-Kind (outcome_of w part) (seen w part s)
            (try_send-Kind part (discover w part s) (discover-Kind part s k)))

  -- Whatever the server sends and however the wait ends, every tool call that is sent to the channel
  -- is of the session of the wait, or of a session that the shared map held as its child at an event
  -- of the stream.
  pub offered-IsOfKin :
      (max_bytes : ℕ) (reader : Reader)
      → All IsOfKin (parse_stream_with_limit w max_bytes reader).1.offered
  unfolding parse_stream_with_limit
  offered-IsOfKin max_bytes reader =
      (parse_reads-Holds w max_bytes Kind Sent (λ e s k. k) (λ s k. k) (λ s d k fits. k)
        handle_data-Kind (reads_of max_bytes reader) (start w) ((inl refl, tt), tt)).1
