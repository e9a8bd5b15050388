-- ===== src/Sse/CodeErrors.antt =====
-- internal/shared/sse/code_error.go, and the errors of client.go.
use opencode_reviewer.Prelude.{
  ℕ, Bool, true, false, not, ◌&&◌, if◌then◌else◌, length, take, ltb, leb, ◌++◌,
}
use opencode_reviewer.GoText.{Bytes, codes, replace_byte, is_empty, show_nat}

-- An error of a library: its text, and whether `errors.Is` finds `context.Canceled` or
-- `context.DeadlineExceeded` in it.
pub record Cause : Type 0 where
  pub message : Bytes
  pub from_context : Bool

pub record CodeError : Type 0 where
  pub status_code : ℕ
  pub source : Bytes
  pub snippet : Bytes

-- The errors of `WaitForToolResult`.
pub data SseErr : Type 0 where
  build_request : Cause → SseErr
  -- The flag tells whether the error is marked as retryable.
  connect : Cause → Bool → SseErr
  unexpected_status : ℕ → Bytes → SseErr
  code_error : CodeError → SseErr
  event_too_large : ℕ → SseErr
  read_error : Cause → SseErr
  tool_error_state : Bytes → Bytes → SseErr
  stream_ended : Bytes → Bytes → SseErr

unfoldable pub sanitize_snippet : Bytes → ℕ → Bytes
unfolding replace_byte
sanitize_snippet value max_len =
    let flat = replace_byte b'\r' (codes " ") (replace_byte b'\n' (codes " ") value) in
    if ltb max_len (length flat) then take max_len flat else flat

unfoldable pub is_http_code_error : ℕ → Bool
is_http_code_error status = leb 400 status && leb status 599

unfoldable pub new_code_error : ℕ → Bytes → Bytes → CodeError
unfolding sanitize_snippet
new_code_error status source snippet = record {
  status_code = status;
  source = source;
  snippet = sanitize_snippet snippet 512;
}

-- `Error` of a code error.
unfoldable pub code_error_text : CodeError → Bytes
unfolding show_nat
code_error_text e =
    let head = e.source ++ codes " returned status " ++ show_nat e.status_code in
    if is_empty e.snippet then head else head ++ codes ": " ++ e.snippet

unfoldable pub is_code_error : SseErr → Bool
is_code_error (code_error e) = true
is_code_error _ = false

-- Whether the error was marked by `markRetryable`, and which library error it wraps.
unfoldable pub marked : SseErr → Bool
marked (connect cause retryable) = retryable
marked (read_error cause) = true
marked (tool_error_state tool session) = true
marked _ = false

unfoldable pub from_context : SseErr → Bool
from_context (build_request cause) = cause.from_context
from_context (connect cause retryable) = cause.from_context
from_context (read_error cause) = cause.from_context
from_context _ = false

unfoldable pub is_retryable : SseErr → Bool
unfolding marked from_context
is_retryable e = not (from_context e) && marked e
