-- ===== src/Runner/Session/Rule.antt =====
-- internal/shared/runner/run_session.go: a rule for the loop of `execute`. What every round that
-- leaves the loop establishes holds of the exit.
use mathlib.Core.Path.{subst}
use opencode_reviewer.Prelude.{
  ℕ, zero, suc, Bool, true, false, List, Option, none, some, if◌then◌else◌, length, leb, ◌⊎◌, inl,
  inr, ◌≡◌, refl, sym,
}
use opencode_reviewer.GoText.{Bytes}
use opencode_reviewer.Runner.Session.{
  SendErr, code_error, retryable_error, tool_not_called, other_error, Agent, RunRequest, RunErr,
  Loop, Exit, failed, json_fallback, send_message, on_error, round, rounds,
}

-- A run that has ended did so as `Q` says of its variables and its exit.
abbrev pub AtEnd : (Loop → Exit → Type 0) → Option (Loop × Exit) → Type 0
AtEnd Q none = Unit
AtEnd Q (some (s, exit)) = Q s exit

module _ (Q : Exit → Type 0) where
  abbrev pub AtRound : Loop ⊎ Exit → Type 0
  AtRound (inl next) = Unit
  AtRound (inr exit) = Q exit

  pub at_if : (b : Bool) (x y : Loop ⊎ Exit) → AtRound x → AtRound y → AtRound (if b then x else y)
  at_if true x y hx hy = hx
  at_if false x y hx hy = hy

  -- An error leaves the loop with an error, or for the text without arguments.
  pub on_error-AtRound :
      (req : RunRequest)
      → (chain : List Bytes) → ((e : RunErr) → Q (failed e))
      → ((m : Bytes) → Q (json_fallback none m))
      → (s : Loop) → (e : SendErr) → AtRound (on_error req chain s e)
  unfolding on_error
  on_error-AtRound req chain fails falls s (code_error e) =
      at_if (leb 3 (suc s.code_errors)) _ _
        (at_if (leb (length chain) (suc s.model_index)) _ _ (fails _) tt) tt
  on_error-AtRound req chain fails falls s (retryable_error e) =
      at_if (leb 3 (suc s.retryable_errors)) _ _ (fails _) tt
  on_error-AtRound req chain fails falls s tool_not_called =
      at_if (leb 3 (suc s.tool_misses)) _ _ (falls _) tt
  on_error-AtRound req chain fails falls s (other_error e) = fails _

module _ (req : RunRequest) (chain : List Bytes) (agent : Agent) where
  -- One round of the fuelled loop, by what the round comes to.
  rounds-inl :
      (f : ℕ) (s next : Loop)
      → round req chain agent s ≡ inl next
      → rounds req chain (suc f) agent s ≡ rounds req chain f agent next
  unfolding rounds
  rounds-inl f s next e = rw (e, rounds) refl

  rounds-inr :
      (f : ℕ) (s : Loop) (exit : Exit)
      → round req chain agent s ≡ inr exit
      → rounds req chain (suc f) agent s ≡ some (send_message req chain agent s, exit)
  unfolding rounds
  rounds-inr f s exit e = rw (e, rounds) refl

module _ (req : RunRequest) (chain : List Bytes) (agent : Agent) (Q : Loop → Exit → Type 0)
    (round_rule : (s : Loop)
      → AtRound (Q (send_message req chain agent s)) (round req chain agent s)) where
  at_step :
      (f : ℕ) (s : Loop) (r : Loop ⊎ Exit)
      → round req chain agent s ≡ r
      → AtRound (Q (send_message req chain agent s)) r
      → ((next : Loop) → AtEnd Q (rounds req chain f agent next))
      → AtEnd Q (rounds req chain (suc f) agent s)
  at_step f s (inl next) e _ later =
      subst (AtEnd Q) (sym (rounds-inl req chain agent f s next e)) (later next)
  at_step f s (inr exit) e holds later =
      subst (AtEnd Q) (sym (rounds-inr req chain agent f s exit e)) holds

  pub rounds-AtEnd : (f : ℕ) (s : Loop) → AtEnd Q (rounds req chain f agent s)
  rounds-AtEnd zero s = unfold rounds in tt
  rounds-AtEnd (suc f) s =
      at_step f s (round req chain agent s) refl (round_rule s) (λ next. rounds-AtEnd f next)
