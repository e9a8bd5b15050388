-- ===== src/Runner/Session/Ends.antt =====
-- internal/shared/runner/run_session.go: the loop ends, after a bounded number of messages, and what
-- it returns was validated.
use opencode_reviewer.Prelude.{
  ℕ, zero, suc, ◌+◌, ◌*◌, ◌≤◌, ◌<◌, Bool, true, false, not, List, [], ◌∷◌, some, if◌then◌else◌,
  length, leb, ◌⊎◌, inl, inr, ◌≡◌, refl, arith, Option-cases, Result-cases,
}
use opencode_reviewer.GoText.{Bytes, is_empty}
use opencode_reviewer.Runner.Session.{
  SendErr, code_error, retryable_error, tool_not_called, other_error, Agent, RunRequest, Loop, Exit,
  send_message, next_model, on_error, on_invalid, invalid, on_data, round, rounds, start, RunEvent,
  emit, execute, execute_within, round_limit, model_chain_of,
}

module _ (req : RunRequest) (chain : List Bytes) where
  -- The rounds that the counters still allow: three code errors for every model that is left, and
  -- three errors of each other kind.
  record InBounds (s : Loop) : Type 0 where
    index_bound : s.model_index < length chain
    code_bound : s.code_errors < 3
    retryable_bound : s.retryable_errors < 3
    miss_bound : s.tool_misses < 3
    schema_bound : s.schema_retries < 3

  abbrev spent : Loop → ℕ
  spent s =
      3 * s.model_index + s.code_errors + s.retryable_errors + s.tool_misses + s.schema_retries

  abbrev Progress : Loop → Loop ⊎ Exit → Type 0
  Progress s (inl next) = InBounds next × (spent next ≡ suc (spent s))
  Progress s (inr exit) = Unit

  Progress-if :
      (s : Loop) (b : Bool) (x y : Loop ⊎ Exit)
      → (b ≡ true → Progress s x)
      → (b ≡ false → Progress s y)
      → Progress s (if b then x else y)
  Progress-if s true x y hx hy = hx refl
  Progress-if s false x y hx hy = hy refl

  on_error-Progress : (s : Loop) (e : SendErr) → InBounds s → Progress s (on_error req chain s e)
  unfolding on_error
  on_error-Progress s (code_error e) b =
      Progress-if s (leb 3 (suc s.code_errors)) _ _
        (λ full.
          Progress-if s (leb (length chain) (suc s.model_index)) _ (inl (next_model req chain s))
            (λ last. tt)
            (λ more. (
              record {
                index_bound = ground arith;
                code_bound = omega arith;
                retryable_bound = b.retryable_bound;
                miss_bound = b.miss_bound;
                schema_bound = b.schema_bound;
              },
              ground arith,
            )))
        (λ left. (
          record {
            index_bound = b.index_bound;
            code_bound = ground arith;
            retryable_bound = b.retryable_bound;
            miss_bound = b.miss_bound;
            schema_bound = b.schema_bound;
          },
          omega arith,
        ))
  on_error-Progress s (retryable_error e) b =
      Progress-if s (leb 3 (suc s.retryable_errors)) _ _ (λ full. tt)
        (λ left. (
          record {
            index_bound = b.index_bound;
            code_bound = b.code_bound;
            retryable_bound = ground arith;
            miss_bound = b.miss_bound;
            schema_bound = b.schema_bound;
          },
          omega arith,
        ))
  on_error-Progress s tool_not_called b =
      Progress-if s (leb 3 (suc s.tool_misses)) _ _ (λ full. tt)
        (λ left. (
          record {
            index_bound = b.index_bound;
            code_bound = b.code_bound;
            retryable_bound = b.retryable_bound;
            miss_bound = ground arith;
            schema_bound = b.schema_bound;
          },
          omega arith,
        ))
  on_error-Progress s (other_error e) b = tt

  on_data-Progress :
      (s : Loop) (bytes : Bytes) → InBounds s → Progress s (on_data req chain s bytes)
  unfolding on_data on_invalid
  on_data-Progress s bytes b = elim (Option-cases (invalid req chain bytes)) [
    | inl e ↦ rw (e, on_data) tt
    | inr (x, e) ↦
        rw (e, on_data)
          (Progress-if s (leb 3 (suc s.schema_retries)) _ _ (λ full. tt)
            (λ left. (
              record {
                index_bound = b.index_bound;
                code_bound = b.code_bound;
                retryable_bound = b.retryable_bound;
                miss_bound = b.miss_bound;
                schema_bound = ground arith;
              },
              omega arith,
            )))
  ]

  send_message-InBounds :
      (agent : Agent) (s : Loop) → InBounds s → InBounds (send_message req chain agent s)
  unfolding send_message
  send_message-InBounds agent s b = record {
    index_bound = b.index_bound;
    code_bound = b.code_bound;
    retryable_bound = b.retryable_bound;
    miss_bound = b.miss_bound;
    schema_bound = b.schema_bound;
  }

  round-Progress : (agent : Agent) (s : Loop) → InBounds s → Progress s (round req chain agent s)
  unfolding round send_message
  round-Progress agent s b =
      let at = send_message req chain agent s in
      let bounds = send_message-InBounds agent s b in
      elim (Result-cases (agent.send s.sent s.prompt s.current_model).outcome) [
        | inl (bytes, e) ↦ rw (e, round) (on_data-Progress at bytes bounds)
        | inr (x, e) ↦ rw (e, round) (on_error-Progress at x bounds)
      ]

  -- The loop is left, with that fuel.
  abbrev Leaves : ℕ → Agent → Loop → Type 0
  Leaves f agent s = (end : Loop × Exit) × (rounds req chain f agent s ≡ some end)

  Leaves-round :
      (f : ℕ) (agent : Agent) (s : Loop) (r : Loop ⊎ Exit)
      → round req chain agent s ≡ r
      → Progress s r
      → ((next : Loop) → InBounds next → spent next ≡ suc (spent s) → Leaves f agent next)
      → Leaves (suc f) agent s
  unfolding rounds
  Leaves-round f agent s (inl next) e (bounds, count) later =
      let (end, found) = later next bounds count in (end, rw (e, rounds) found)
  Leaves-round f agent s (inr exit) e _ later =
      ((send_message req chain agent s, exit), rw (e, rounds) refl)

  -- Enough fuel for the rounds that the counters allow.
  rounds-Leaves :
      (f : ℕ) (agent : Agent) (s : Loop)
      → InBounds s
      → 3 * length chain + 6 ≤ f + spent s
      → Leaves f agent s
  rounds-Leaves zero agent s b le =
      absurd (
        omega (arith, b.index_bound, b.code_bound, b.retryable_bound, b.miss_bound, b.schema_bound))
  rounds-Leaves (suc f) agent s b le =
      Leaves-round f agent s (round req chain agent s) refl (round-Progress agent s b)
        (λ next bounds count. rounds-Leaves f agent next bounds (omega arith))

module _ (req : RunRequest) (chain : List Bytes) (agent : Agent) where
  -- The loop of a run is left within its fuel.
  pub start-Leaves :
      0 < length chain
      → (end : Loop × Exit) × (rounds req chain (round_limit (length chain)) agent (start req chain)
          ≡ some end)
  start-Leaves filled =
      let bounds : InBounds req chain (start req chain) = record {
        index_bound = filled;
        code_bound = omega arith;
        retryable_bound = omega arith;
        miss_bound = omega arith;
        schema_bound = omega arith;
      } in
      rounds-Leaves req chain (3 * length chain + 6) agent (start req chain) bounds (omega arith)

filled-if :
    {A : Type 0} (xs ys : List A)
    → 0 < length ys
    → 0 < length (if not (is_empty xs) then xs else ys)
filled-if [] ys h = h
filled-if (x ∷ xs) ys h = omega arith

one-filled : {A : Type 0} (b : Bool) (x y : A) → 0 < length (if b then x ∷ [] else y ∷ [])
one-filled true x y = omega arith
one-filled false x y = omega arith

module _ (req : RunRequest) (default_model : Bytes) (agent : Agent) where
  model_chain_of-filled : 0 < length (model_chain_of default_model req)
  unfolding model_chain_of
  model_chain_of-filled =
      filled-if req.model_chain _ (one-filled (not (is_empty req.model)) req.model default_model)

  -- Whatever the agent and the server answer, `execute` ends with a result or an error: after at
  -- most `3 * n + 6` messages for a chain of `n` models, and one more for the fallback.
  pub execute-ends : (event : RunEvent) × (execute req default_model agent ≡ some event)
  unfolding execute
  execute-ends =
      let chain = model_chain_of default_model req in
      let ((s, exit), e) = start-Leaves req chain agent model_chain_of-filled in
      (emit req default_model agent s exit, rw (e, execute_within) refl)
