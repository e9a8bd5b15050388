-- ===== src/Runner/Tests.antt =====
-- A run against agents that fail in turn, and the theorems at concrete inputs.
use opencode_reviewer.Prelude.{
  All, arith, ◌≤◌, [], ◌∷◌, none, some, ok, err, ◌≡◌, refl, length, ltb, if◌then◌else◌,
}
use opencode_reviewer.GoText.{codes, bytes_eq, index, has_prefix}
use opencode_reviewer.Runner.Models.{
  parse_model, format_model, member, append_unique_models, with_fallback_models,
}
use opencode_reviewer.Runner.Session.{
  Loop, Exit, start, code_error, Agent, RunRequest, RunEvent, final, execute, rounds, round,
  send_message, on_error, on_data, invalid, model_chain_of, emit,
}
use opencode_reviewer.Runner.Session.Sent.{IsToChain, rounds-IsToChain}
use opencode_reviewer.Runner.Session.Ends.{execute-ends}
use opencode_reviewer.Runner.Session.Valid.{IsResult, execute-IsResult}

test_parse_model : format_model (parse_model (codes "p/m/x")) ≡ codes "p/m/x"
unfolding parse_model format_model index has_prefix
test_parse_model = refl

test_fallbacks :
    with_fallback_models (codes "b" ∷ codes "a" ∷ codes "b" ∷ []) (codes "a" ∷ codes "b" ∷ [])
    ≡ codes "b" ∷ []
unfolding with_fallback_models append_unique_models member bytes_eq
test_fallbacks = refl

abbrev request : RunRequest
request = record {
  prompt = codes "Review.";
  tool_name = codes "submit_review";
  prompt_path = codes "message-0";
  agent_name = codes "reviewer";
  model = [];
  model_chain = codes "a" ∷ codes "b" ∷ [];
  configured_model_chain = [];
  validate_func = none;
  schema_hint = [];
}

-- Three errors of the first model, then the arguments.
abbrev agent : Agent
agent = record {
  send = λ sent prompt model. record {
    responded = none;
    outcome = if ltb (length sent) 3 then err (code_error (codes "500")) else ok model;
  };
  ask = λ sent prompt model. ok ([], model);
}

request_ends : execute request [] agent ≡ some (final (some (codes "b")) [])
unfolding execute rounds round send_message on_error on_data invalid model_chain_of emit
    append_unique_models member bytes_eq
request_ends = refl

execute-ends_example : (event : RunEvent) × (execute request [] agent ≡ some event)
execute-ends_example = execute-ends request [] agent

execute-IsResult_example :
    IsResult request [] agent (model_chain_of [] request) (final (some (codes "b")) [])
execute-IsResult_example =
    execute-IsResult request [] agent (final (some (codes "b")) []) request_ends

rounds-IsToChain_example :
    (end : Loop × Exit) × (rounds request
        (codes "a" ∷ codes "b" ∷ [])
        12
        agent
        (start request (codes "a" ∷ codes "b" ∷ []))
      ≡ some end)
    × All (IsToChain (codes "a" ∷ codes "b" ∷ [])) end.0.sent
    × (length end.0.sent ≤ 12)
rounds-IsToChain_example = rounds-IsToChain request (codes "a" ∷ codes "b" ∷ []) agent (omega arith)
