-- ===== src/Runner/Session/Valid.antt =====
-- internal/shared/runner/run_session.go: the arguments that a run returns were validated, unless it
-- fell back to text.
use mathlib.Core.Path.{subst}
use mathlib.Core.Option.{some-injective}
use opencode_reviewer.Prelude.{
  suc, List, [], Option, none, some, length, leb, Result, ok, err, ◌⊎◌, inl, inr, ◌≡◌, refl,
  Option-cases, Result-cases,
}
use opencode_reviewer.GoText.{Bytes}
use opencode_reviewer.Runner.Prompts.{json_fallback_prompt_for}
use opencode_reviewer.Runner.Session.Rule.{AtRound, AtEnd, at_if, on_error-AtRound, rounds-AtEnd}
use opencode_reviewer.Runner.Session.{
  Agent, RunRequest, Loop, Exit, tool_result, failed, json_fallback, RunEvent, final, run_error,
  send_message, on_invalid, invalid, on_data, round, rounds, start, emit, after_fallback, execute,
  model_chain_of, round_limit,
}

module _ (req : RunRequest) (chain : List Bytes) where
  abbrev IsSound : Exit → Type 0
  IsSound (tool_result bytes n) = invalid req chain bytes ≡ none
  IsSound (json_fallback (some bytes) m) = (e : Bytes) × (invalid req chain bytes ≡ some e)
  IsSound _ = Unit

  on_data-IsSound : (s : Loop) (bytes : Bytes) → AtRound IsSound (on_data req chain s bytes)
  unfolding on_data on_invalid
  on_data-IsSound s bytes = elim (Option-cases (invalid req chain bytes)) [
    | inl e ↦ rw (e, on_data) e
    | inr (x, e) ↦ rw (e, on_data) (at_if IsSound (leb 3 (suc s.schema_retries)) _ _ (x, e) tt)
  ]

  round-IsSound : (agent : Agent) (s : Loop) → AtRound IsSound (round req chain agent s)
  unfolding round
  round-IsSound agent s = elim (Result-cases (agent.send s.sent s.prompt s.current_model).outcome) [
    | inl (bytes, e) ↦ rw (e, round) (on_data-IsSound (send_message req chain agent s) bytes)
    | inr (x, e) ↦
        rw (e, round)
          (on_error-AtRound IsSound req chain (λ x. tt) (λ m. tt) (send_message req chain agent s)
            x)
  ]

module _ (req : RunRequest) (default_model : Bytes) (agent : Agent) where
  -- A text that some model answered to the message of the fallback.
  abbrev pub IsFallback : Bytes → Type 0
  IsFallback text =
      (sent : List (Bytes × Bytes)) × (model : Bytes) × (responded : Bytes) × (agent.ask sent
          (json_fallback_prompt_for req.tool_name) model
        ≡ ok (text, responded))

  -- What a run returns besides an error: arguments that are valid and no text, or the text of the
  -- fallback, with no arguments or with some that are not valid.
  abbrev pub IsResult : List Bytes → RunEvent → Type 0
  IsResult chain (final (some bytes) text) =
      ((invalid req chain bytes ≡ none) × (text ≡ []))
      ⊎ ((e : Bytes) × (invalid req chain bytes ≡ some e) × IsFallback text)
  IsResult chain (final none text) = IsFallback text
  IsResult chain (run_error e) = Unit

  after_fallback-IsResult :
      (chain : List Bytes) (last : Option Bytes) (sent : List (Bytes × Bytes)) (m : Bytes)
      (r : Result Bytes (Bytes × Bytes))
      → agent.ask sent (json_fallback_prompt_for req.tool_name) m ≡ r
      → IsSound req chain (json_fallback last m)
      → IsResult chain (after_fallback last r)
  after_fallback-IsResult chain last sent m (err e) h sound = tt
  after_fallback-IsResult chain none sent m (ok (text, responded)) h sound = (sent, m, responded, h)
  after_fallback-IsResult chain (some bytes) sent m (ok (text, responded)) h (e, refused) =
      inr (e, refused, (sent, m, responded, h))

  emit-IsResult :
      (chain : List Bytes) (s : Loop) (exit : Exit)
      → IsSound req chain exit
      → IsResult chain (emit req default_model agent s exit)
  unfolding emit
  emit-IsResult chain s (tool_result bytes n) sound = inl (sound, refl)
  emit-IsResult chain s (failed e) sound = tt
  emit-IsResult chain s (json_fallback last m) sound =
      after_fallback-IsResult chain last s.sent m
        (agent.ask s.sent (json_fallback_prompt_for req.tool_name) m) refl sound

  execute_within-IsResult :
      (chain : List Bytes) (end : Option (Loop × Exit))
      → AtEnd (λ s. IsSound req chain) end
      → (event : RunEvent)
      → elim end [ none ↦ none | some (s, exit) ↦ some (emit req default_model agent s exit) ]
        ≡ some event
      → IsResult chain event
  execute_within-IsResult chain none sound event e = absurd cc
  execute_within-IsResult chain (some (s, exit)) sound event e =
      subst (IsResult chain) (some-injective _ _ e) (emit-IsResult chain s exit sound)

  -- A run that does not fail returns arguments that passed the validation and no text, or the text
  -- with which a model answered the message of the fallback. With such a text come no arguments or
  -- some that the validation refused.
  pub execute-IsResult :
      (event : RunEvent)
      → execute req default_model agent ≡ some event
      → IsResult (model_chain_of default_model req) event
  unfolding execute
  execute-IsResult event e =
      let chain = model_chain_of default_model req in
      execute_within-IsResult chain
        (rounds req chain (round_limit (length chain)) agent (start req chain))
        (rounds-AtEnd req chain agent (λ s. IsSound req chain) (round-IsSound req chain agent)
          (round_limit (length chain)) (start req chain))
        event e
