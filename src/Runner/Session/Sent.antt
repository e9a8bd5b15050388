-- ===== src/Runner/Session/Sent.antt =====
-- internal/shared/runner/run_session.go: which models the messages of a run go to, and how many
-- messages there are.
use mathlib.Core.Path.{subst}
use opencode_reviewer.Prelude.{
  ℕ, zero, suc, ◌+◌, ◌*◌, ◌≤◌, ◌<◌, Bool, true, false, List, [], ◌∷◌, Option, none, some, In, All,
  if◌then◌else◌, length, get_or, leb, ◌⊎◌, inl, inr, ◌≡◌, refl, ap, arith, Option-cases,
  Result-cases,
}
use opencode_reviewer.GoText.{Bytes}
use opencode_reviewer.Runner.Session.Ends.{start-Leaves}
use opencode_reviewer.Runner.Session.{
  SendErr, code_error, retryable_error, tool_not_called, other_error, Agent, RunRequest, Loop, Exit,
  send_message, on_error, on_invalid, invalid, on_data, round, rounds, start, round_limit,
}

-- A message to a model of the chain.
abbrev pub IsToChain : List Bytes → Bytes × Bytes → Type 0
IsToChain chain message = In message.1 chain

In-get_or : (i : ℕ) (chain : List Bytes) → i < length chain → In (get_or chain i []) chain
In-get_or i [] h = absurd (omega arith)
In-get_or zero (m ∷ chain) h = inl refl
In-get_or (suc i) (m ∷ chain) h = inr (In-get_or i chain (omega arith))

module _ (req : RunRequest) (chain : List Bytes) where
  -- The current model and the models of the messages so far are those of the chain.
  record IsOnChain (s : Loop) : Type 0 where
    current : In s.current_model chain
    messages : All (IsToChain chain) s.sent

  -- A round that goes on keeps the messages of the loop that it starts from.
  abbrev Keeps : Loop → Loop ⊎ Exit → Type 0
  Keeps s (inl next) = IsOnChain next × (next.sent ≡ s.sent)
  Keeps s (inr exit) = Unit

  Keeps-if :
      (s : Loop) (b : Bool) (x y : Loop ⊎ Exit)
      → (b ≡ true → Keeps s x)
      → (b ≡ false → Keeps s y)
      → Keeps s (if b then x else y)
  Keeps-if s true x y hx hy = hx refl
  Keeps-if s false x y hx hy = hy refl

  on_error-Keeps : (s : Loop) (e : SendErr) → IsOnChain s → Keeps s (on_error req chain s e)
  unfolding on_error
  on_error-Keeps s (code_error e) h =
      Keeps-if s (leb 3 (suc s.code_errors)) _ _
        (λ full.
          Keeps-if s (leb (length chain) (suc s.model_index)) _ _ (λ last. tt)
            (λ more. (
              record {
                current = In-get_or (suc s.model_index) chain (ground (arith, more));
                messages = h.messages;
              },
              refl,
            )))
        (λ left. (record { current = h.current; messages = h.messages }, refl))
  on_error-Keeps s (retryable_error e) h =
      Keeps-if s (leb 3 (suc s.retryable_errors)) _ _ (λ full. tt)
        (λ left. (record { current = h.current; messages = h.messages }, refl))
  on_error-Keeps s tool_not_called h =
      Keeps-if s (leb 3 (suc s.tool_misses)) _ _ (λ full. tt)
        (λ left. (record { current = h.current; messages = h.messages }, refl))
  on_error-Keeps s (other_error e) h = tt

  on_data-Keeps : (s : Loop) (bytes : Bytes) → IsOnChain s → Keeps s (on_data req chain s bytes)
  unfolding on_data on_invalid
  on_data-Keeps s bytes h = elim (Option-cases (invalid req chain bytes)) [
    | inl e ↦ rw (e, on_data) tt
    | inr (x, e) ↦
        rw (e, on_data)
          (Keeps-if s (leb 3 (suc s.schema_retries)) _ _ (λ full. tt)
            (λ left. (record { current = h.current; messages = h.messages }, refl)))
  ]

  send_message-IsOnChain :
      (agent : Agent) (s : Loop) → IsOnChain s → IsOnChain (send_message req chain agent s)
  unfolding send_message
  send_message-IsOnChain agent s h = record {
    current = h.current;
    messages = (h.current, h.messages);
  }

  round-Keeps :
      (agent : Agent) (s : Loop)
      → IsOnChain s
      → Keeps (send_message req chain agent s) (round req chain agent s)
  unfolding round
  round-Keeps agent s h =
      let at = send_message req chain agent s in
      let kept = send_message-IsOnChain agent s h in
      elim (Result-cases (agent.send s.sent s.prompt s.current_model).outcome) [
        | inl (bytes, e) ↦ rw (e, round) (on_data-Keeps at bytes kept)
        | inr (x, e) ↦ rw (e, round) (on_error-Keeps at x kept)
      ]

  length-send_message :
      (agent : Agent) (s : Loop)
      → length (send_message req chain agent s).sent ≡ suc (length s.sent)
  unfolding send_message
  length-send_message agent s = refl

  -- The loop that is left has sent at most as many messages as there was fuel, to the chain.
  abbrev IsSentEnd : ℕ → Option (Loop × Exit) → Type 0
  IsSentEnd n none = Unit
  IsSentEnd n (some (end, exit)) = All (IsToChain chain) end.sent × (length end.sent ≤ n)

  rounds_step :
      (f : ℕ) (agent : Agent) (s : Loop) (r : Loop ⊎ Exit)
      → round req chain agent s ≡ r
      → IsOnChain s
      → Keeps (send_message req chain agent s) r
      → ((next : Loop)
          → IsOnChain next
          → IsSentEnd (length next.sent + f) (rounds req chain f agent next))
      → IsSentEnd (length s.sent + suc f) (rounds req chain (suc f) agent s)
  unfolding rounds
  rounds_step f agent s (inl next) e h (kept, same) later =
      let count : length next.sent + f ≡ length s.sent + suc f =
        omega (arith, ap length same, length-send_message agent s) in
      rw (e, rounds)
        (subst (λ n. IsSentEnd n (rounds req chain f agent next)) count (later next kept))
  rounds_step f agent s (inr exit) e h _ later =
      rw (e, rounds)
        ((send_message-IsOnChain agent s h).messages, omega (arith, length-send_message agent s))

  rounds-IsSentEnd :
      (f : ℕ) (agent : Agent) (s : Loop)
      → IsOnChain s
      → IsSentEnd (length s.sent + f) (rounds req chain f agent s)
  rounds-IsSentEnd zero agent s h = unfold rounds in tt
  rounds-IsSentEnd (suc f) agent s h =
      rounds_step f agent s (round req chain agent s) refl h (round-Keeps agent s h)
        (λ next kept. rounds-IsSentEnd f agent next kept)

-- A run sends its messages to models of its chain only, and at most `3 * n + 6` of them in its loop,
-- for a chain of `n` models that is not empty and whatever is answered.
pub rounds-IsToChain :
    (req : RunRequest) (chain : List Bytes) (agent : Agent)
    → 0 < length chain
    → (end : Loop × Exit) × (rounds req chain (round_limit (length chain)) agent (start req chain)
        ≡ some end)
      × All (IsToChain chain) end.0.sent
      × (length end.0.sent ≤ 3 * length chain + 6)
rounds-IsToChain req chain agent filled =
    let (end, e) = start-Leaves req chain agent filled in
    let first : IsOnChain req chain (start req chain) = record {
      current = In-get_or 0 chain filled;
      messages = tt;
    } in
    let sound =
      rounds-IsSentEnd req chain (round_limit (length chain)) agent (start req chain) first in
    let (to_chain, few) = subst (IsSentEnd req chain (0 + round_limit (length chain))) e sound in
    (end, e, to_chain, omega (arith, few))
