-- ===== src/Runner/Session/Types.antt =====
-- internal/shared/runner/run_session.go: what a run is asked for, what a message comes to, and the
-- variables of the loop of `execute`.
use opencode_reviewer.Prelude.{ℕ, List, Option, Result}
use opencode_reviewer.GoText.{Bytes}

-- How `sendAndAwaitTool` fails, in the order in which the loop tests it: `isCodeError`,
-- `isRetryableError`, `errToolNotCalled`, and any other error.
pub data SendErr : Type 0 where
  code_error : Bytes → SendErr
  retryable_error : Bytes → SendErr
  tool_not_called : SendErr
  other_error : Bytes → SendErr

-- What a sent message comes to: the model that responded, if there was a response, and the
-- arguments of the expected tool or an error.
pub record Answer : Type 0 where
  pub responded : Option Bytes
  pub outcome : Result SendErr Bytes

-- The opencode server and the agent behind it: their answer to a prompt to a model may depend on
-- all messages sent before, the last one first.
pub record Agent : Type 0 where
  pub send : List (Bytes × Bytes) → Bytes → Bytes → Answer
  -- The text of a message outside the loop, with the model that responded.
  pub ask : List (Bytes × Bytes) → Bytes → Bytes → Result Bytes (Bytes × Bytes)

pub record RunRequest : Type 0 where
  pub prompt : Bytes
  pub tool_name : Bytes
  pub prompt_path : Bytes
  pub agent_name : Bytes
  pub model : Bytes
  pub model_chain : List Bytes
  pub configured_model_chain : List Bytes
  -- `none` is a nil function; its value on arguments is their error, if any.
  pub validate_func : Option (Bytes → Option Bytes)
  pub schema_hint : Bytes

-- The errors that a run is ended with.
pub data RunErr : Type 0 where
  code_errors_exhausted : List Bytes → Bytes → Bytes → RunErr
  send_failed : SendErr → RunErr
  json_fallback_message : Bytes → RunErr

-- The loop's variables.
pub record Loop : Type 0 where
  pub last_invalid : Option Bytes
  pub model_index : ℕ
  pub current_model : Bytes
  pub prompt : Bytes
  pub attempt : ℕ
  pub tool_misses : ℕ
  pub schema_retries : ℕ
  pub code_errors : ℕ
  pub retryable_errors : ℕ
  pub used_models : List Bytes
  pub sent : List (Bytes × Bytes)

-- How the loop is left.
pub data Exit : Type 0 where
  tool_result : Bytes → ℕ → Exit
  failed : RunErr → Exit
  json_fallback : Option Bytes → Bytes → Exit

abbrev pub max_retries : ℕ
max_retries = 3
