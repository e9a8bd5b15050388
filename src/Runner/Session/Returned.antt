-- ===== src/Runner/Session/Returned.antt =====
-- internal/shared/runner/run_session.go: the arguments that a run returns are those of a message.
use mathlib.Core.Path.{subst}
use mathlib.Core.Option.{some-injective}
use opencode_reviewer.Prelude.{
  ◌∷◌, refl, suc, List, Option, none, some, length, leb, Result, ok, err, inl, inr, ◌≡◌,
  Option-cases, Result-cases,
}
use opencode_reviewer.GoText.{Bytes}
use opencode_reviewer.Runner.Prompts.{json_fallback_prompt_for}
use opencode_reviewer.Runner.Session.Rule.{AtRound, AtEnd, at_if, on_error-AtRound, rounds-AtEnd}
use opencode_reviewer.Runner.Session.{
  Agent, RunRequest, Loop, Exit, tool_result, failed, json_fallback, RunEvent, final, run_error,
  send_message, on_invalid, invalid, on_data, round, rounds, start, emit, after_fallback, execute,
  model_chain_of, round_limit,
}

-- The arguments of the event, if it has any, are such.
abbrev pub OfFinal : (Bytes → Type 0) → RunEvent → Type 0
OfFinal P (final (some bytes) text) = P bytes
OfFinal P (final none text) = Unit
OfFinal P (run_error e) = Unit

module _ (P : Bytes → Type 0) where
  abbrev OfExit : Exit → Type 0
  OfExit (tool_result bytes n) = P bytes
  OfExit (json_fallback (some bytes) m) = P bytes
  OfExit (json_fallback none m) = Unit
  OfExit (failed e) = Unit

  on_data-OfExit :
      (req : RunRequest) (chain : List Bytes) (s : Loop) (bytes : Bytes)
      → P bytes
      → AtRound OfExit (on_data req chain s bytes)
  unfolding on_data on_invalid
  on_data-OfExit req chain s bytes p = elim (Option-cases (invalid req chain bytes)) [
    | inl e ↦ rw (e, on_data) p
    | inr (x, e) ↦ rw (e, on_data) (at_if OfExit (leb 3 (suc s.schema_retries)) _ _ p tt)
  ]

  after_fallback-OfFinal :
      (last : Option Bytes) (m : Bytes) (r : Result Bytes (Bytes × Bytes))
      → OfExit (json_fallback last m)
      → OfFinal P (after_fallback last r)
  after_fallback-OfFinal last m (err e) p = tt
  after_fallback-OfFinal none m (ok (text, responded)) p = tt
  after_fallback-OfFinal (some bytes) m (ok (text, responded)) p = p

-- What holds of some arguments holds of them where it implies something else.
OfExit-imp :
    {P R : Bytes → Type 0}
    → ((b : Bytes) → P b → R b)
    → (exit : Exit) → OfExit P exit
    → OfExit R exit
OfExit-imp f (tool_result bytes n) p = f bytes p
OfExit-imp f (json_fallback (some bytes) m) p = f bytes p
OfExit-imp f (json_fallback none m) p = tt
OfExit-imp f (failed e) p = tt

module _ (req : RunRequest) (default_model : Bytes) (agent : Agent) where
  -- The loop of the run.
  abbrev pub loop_end : Option (Loop × Exit)
  loop_end =
      let chain = model_chain_of default_model req in
      rounds req chain (round_limit (length chain)) agent (start req chain)

  -- The loop ended behind a message to which these had been sent before.
  abbrev pub IsBeforeLast : List (Bytes × Bytes) → Type 0
  IsBeforeLast sent =
      (end : Loop) × (exit : Exit) × (last : Bytes × Bytes) × (loop_end ≡ some (end, exit))
      × (end.sent ≡ last ∷ sent)

module _ (P : List (Bytes × Bytes) → Bytes → Type 0) (req : RunRequest) (default_model : Bytes)
    (agent : Agent)
    (sent_rule : (sent : List (Bytes × Bytes)) (prompt model bytes : Bytes)
      → (agent.send sent prompt model).outcome ≡ ok bytes
      → P sent bytes) where
  -- The arguments are those of the last message in the variables.
  abbrev OfLast : Loop → Bytes → Type 0
  OfLast s bytes =
      (last : Bytes × Bytes) × (sent : List (Bytes × Bytes)) × (s.sent ≡ last ∷ sent) × P sent bytes

  abbrev pub OfRun : Bytes → Type 0
  OfRun bytes =
      (sent : List (Bytes × Bytes)) × IsBeforeLast req default_model agent sent × P sent bytes

  round-OfExit :
      (chain : List Bytes) (s : Loop)
      → AtRound (OfExit (OfLast (send_message req chain agent s))) (round req chain agent s)
  unfolding round send_message
  round-OfExit chain s =
      let Q = OfLast (send_message req chain agent s) in
      elim (Result-cases (agent.send s.sent s.prompt s.current_model).outcome) [
        | inl (bytes, e) ↦
            rw (e, round)
              (on_data-OfExit Q req chain (send_message req chain agent s) bytes (
                (s.prompt, s.current_model),
                s.sent,
                refl,
                sent_rule s.sent s.prompt s.current_model bytes e,
              ))
        | inr (x, e) ↦
            rw (e, round)
              (on_error-AtRound (OfExit Q) req chain (λ x. tt) (λ m. tt)
                (send_message req chain agent s) x)
      ]

  emit-OfFinal :
      (s : Loop) (exit : Exit)
      → OfExit OfRun exit
      → OfFinal OfRun (emit req default_model agent s exit)
  unfolding emit
  emit-OfFinal s (tool_result bytes n) p = p
  emit-OfFinal s (failed e) p = tt
  emit-OfFinal s (json_fallback last m) p =
      after_fallback-OfFinal OfRun last m
        (agent.ask s.sent (json_fallback_prompt_for req.tool_name) m) p

  loop_end-OfFinal :
      (end : Option (Loop × Exit))
      → loop_end req default_model agent ≡ end
      → AtEnd (λ s. OfExit (OfLast s)) end
      → (event : RunEvent)
      → elim end [ none ↦ none | some (s, exit) ↦ some (emit req default_model agent s exit) ]
        ≡ some event
      → OfFinal OfRun event
  loop_end-OfFinal none h p event e = absurd cc
  loop_end-OfFinal (some (s, exit)) h p event e = subst (OfFinal OfRun) (some-injective _ _ e) (
      emit-OfFinal s exit (
        OfExit-imp
          (λ b q. let (last, sent, same, holds) = q in (sent, (s, exit, last, h, same), holds)) exit
          p))

  -- What holds of the arguments of every answer holds of the arguments that a run returns, which
  -- are those of the answer to its last message.
  pub execute-OfFinal :
      (event : RunEvent) → execute req default_model agent ≡ some event → OfFinal OfRun event
  unfolding execute
  execute-OfFinal event e =
      let chain = model_chain_of default_model req in
      loop_end-OfFinal (loop_end req default_model agent) refl
        (rounds-AtEnd req chain agent (λ s. OfExit (OfLast s)) (round-OfExit chain)
          (round_limit (length chain)) (start req chain))
        event e
