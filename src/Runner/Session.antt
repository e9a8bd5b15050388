-- ===== src/Runner/Session.antt =====
-- internal/shared/runner/run_session.go: the loop of `execute` over the attempts of a run.
pub mod Rule
pub mod Returned
pub mod Ends
pub mod Valid
pub mod Sent
pub mod Types
pub use Types.*
use opencode_reviewer.Prelude.{
  ℕ, zero, suc, ◌+◌, ◌-◌, ◌*◌, Bool, true, false, not, ◌&&◌, ◌||◌, List, [], ◌∷◌, ◌++◌, Option,
  none, some, if◌then◌else◌, length, get_or, leb, ltb, Result, ok, err, ◌⊎◌, inl, inr,
}
use opencode_reviewer.GoText.{Bytes, codes, is_empty}
use opencode_reviewer.Runner.Models.{append_unique_models}
use opencode_reviewer.Runner.Prompts.{
  schema_retry_prompt_for, retry_prompt_for, json_fallback_prompt_for, continuation_prompt,
}

unfoldable pub model_chain_of : Bytes → RunRequest → List Bytes
model_chain_of default_model req =
    if not (is_empty req.model_chain)
    then req.model_chain
    else if not (is_empty req.model)
    then req.model ∷ []
    else default_model ∷ []

unfoldable pub run_model_label : Bytes → Bytes
run_model_label model = if is_empty model then codes "<default>" else model

module _ (req : RunRequest) (chain : List Bytes) where
  -- The message of a round is sent: the models used, with the one that responded.
  unfoldable pub send_message : Agent → Loop → Loop
  unfolding append_unique_models
  send_message agent s =
      let used = append_unique_models s.used_models (s.current_model ∷ []) in
      record s {
        used_models = elim (agent.send s.sent s.prompt s.current_model).responded [
          | some m ↦ append_unique_models used (m ∷ [])
          | none ↦ used
        ];
        sent = (s.prompt, s.current_model) ∷ s.sent;
      }

  abbrev pub next_code_error : Loop → Loop
  next_code_error s = record s {
    attempt = suc s.attempt;
    code_errors = suc s.code_errors;
    prompt = continuation_prompt;
  }

  abbrev pub next_model : Loop → Loop
  next_model s = record s {
    attempt = suc s.attempt;
    model_index = suc s.model_index;
    current_model = get_or chain (suc s.model_index) [];
    code_errors = 0;
    prompt = continuation_prompt;
  }

  unfoldable pub on_error : Loop → SendErr → Loop ⊎ Exit
  unfolding run_model_label retry_prompt_for
  on_error s (code_error e) =
      if leb max_retries (suc s.code_errors)
      then if leb (length chain) (suc s.model_index)
        then inr (failed (code_errors_exhausted chain (run_model_label s.current_model) e))
        else inl (next_model s)
      else inl (next_code_error s)
  on_error s (retryable_error e) =
      if leb max_retries (suc s.retryable_errors)
      then inr (failed (send_failed (retryable_error e)))
      else inl (record s {
        attempt = suc s.attempt;
        retryable_errors = suc s.retryable_errors;
        prompt = continuation_prompt;
      })
  on_error s tool_not_called =
      if leb max_retries (suc s.tool_misses)
      then inr (json_fallback none s.current_model)
      else inl (record s {
        attempt = suc s.attempt;
        tool_misses = suc s.tool_misses;
        prompt = retry_prompt_for req.tool_name;
      })
  on_error s (other_error e) = inr (failed (send_failed (other_error e)))

  unfoldable pub on_invalid : Loop → Bytes → Bytes → Loop ⊎ Exit
  unfolding schema_retry_prompt_for
  on_invalid s bytes e =
      if leb max_retries (suc s.schema_retries)
      then inr (json_fallback (some bytes) s.current_model)
      else inl (record s {
        attempt = suc s.attempt;
        schema_retries = suc s.schema_retries;
        last_invalid = some bytes;
        prompt = schema_retry_prompt_for req.tool_name e req.schema_hint;
      })

  -- The error of the arguments, if they are validated and have one.
  unfoldable pub invalid : Bytes → Option Bytes
  invalid bytes = elim req.validate_func [ none ↦ none | some f ↦ f bytes ]

  unfoldable pub on_data : Loop → Bytes → Loop ⊎ Exit
  unfolding on_invalid invalid
  on_data s bytes = elim (invalid bytes) [
    | some e ↦ on_invalid s bytes e
    | none ↦ inr (tool_result bytes s.attempt)
  ]

  -- One round of the loop: it goes on, or it is left.
  unfoldable pub round : Agent → Loop → Loop ⊎ Exit
  unfolding send_message on_error on_data
  round agent s = elim (agent.send s.sent s.prompt s.current_model).outcome [
    | err e ↦ on_error (send_message agent s) e
    | ok bytes ↦ on_data (send_message agent s) bytes
  ]

  -- The loop with fuel, with the variables at its exit; `none` when the fuel is spent.
  unfoldable pub rounds : ℕ → Agent → Loop → Option (Loop × Exit)
  unfolding round send_message
  rounds zero agent s = none
  rounds (suc f) agent s = elim (round agent s) [
    | inl next ↦ rounds f agent next
    | inr exit ↦ some (send_message agent s, exit)
  ]

  abbrev pub start : Loop
  start = record {
    last_invalid = none;
    model_index = 0;
    current_model = get_or chain 0 [];
    prompt = req.prompt;
    attempt = 0;
    tool_misses = 0;
    schema_retries = 0;
    code_errors = 0;
    retryable_errors = 0;
    used_models = [];
    sent = [];
  }

-- What a run ends with: the arguments of the tool, or those that were invalid, and the text of the
-- fallback; or an error.
pub data RunEvent : Type 0 where
  final : Option Bytes → Bytes → RunEvent
  run_error : RunErr → RunEvent

-- The messages that a run can send, for a chain of that many models.
abbrev pub round_limit : ℕ → ℕ
round_limit models = 3 * models + 6

-- The response to the last message becomes the result, next to the last invalid arguments.
abbrev pub after_fallback : Option Bytes → Result Bytes (Bytes × Bytes) → RunEvent
after_fallback last (err e) = run_error (json_fallback_message e)
after_fallback last (ok (text, responded)) = final last text

module _ (req : RunRequest) (default_model : Bytes) (agent : Agent) where
  -- The last message, when the loop ends without valid arguments.
  unfoldable pub emit : Loop → Exit → RunEvent
  unfolding json_fallback_prompt_for
  emit s (tool_result bytes n) = final (some bytes) []
  emit s (failed e) = run_error e
  emit s (json_fallback last model) =
      after_fallback last (agent.ask s.sent (json_fallback_prompt_for req.tool_name) model)

  abbrev pub execute_within : ℕ → List Bytes → Option RunEvent
  execute_within fuel chain = elim (rounds req chain fuel agent (start req chain)) [
    | none ↦ none
    | some (s, exit) ↦ some (emit s exit)
  ]

  unfoldable pub execute : Option RunEvent
  unfolding rounds emit model_chain_of
  execute =
      let chain = model_chain_of default_model req in
      execute_within (round_limit (length chain)) chain
