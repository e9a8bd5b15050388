-- ===== src/Runner/Stats/Tokens.antt =====
-- internal/shared/runner/session_stats.go: the addition of token counts does not depend on its order.
use opencode_reviewer.Prelude.{ℕ, List, [], ◌∷◌, ◌≡◌, refl, sym, ap, ◌∙◌, arith}
use opencode_reviewer.Runner.Stats.{add_int, TokenUsage, add_token_usage, no_tokens, ModelCost}

add_int_comm : (a b : ℕ) → add_int a b ≡ add_int b a
unfolding add_int
add_int_comm a b = omega arith

add_int_assoc : (a b c : ℕ) → add_int (add_int a b) c ≡ add_int a (add_int b c)
unfolding add_int
add_int_assoc a b c = omega arith

add_int_zero : (a b : ℕ) → add_int (add_int a b) 0 ≡ add_int a b
unfolding add_int
add_int_zero a b = omega arith

pub add_token_usage_comm : (a b : TokenUsage) → add_token_usage a b ≡ add_token_usage b a
unfolding add_token_usage
add_token_usage_comm a b = λ i. record {
  input = add_int_comm a.input b.input i;
  output = add_int_comm a.output b.output i;
  reasoning = add_int_comm a.reasoning b.reasoning i;
  cache = record {
    read = add_int_comm a.cache.read b.cache.read i;
    write = add_int_comm a.cache.write b.cache.write i;
  };
}

pub add_token_usage_assoc :
    (a b c : TokenUsage)
    → add_token_usage (add_token_usage a b) c ≡ add_token_usage a (add_token_usage b c)
unfolding add_token_usage
add_token_usage_assoc a b c = λ i. record {
  input = add_int_assoc a.input b.input c.input i;
  output = add_int_assoc a.output b.output c.output i;
  reasoning = add_int_assoc a.reasoning b.reasoning c.reasoning i;
  cache = record {
    read = add_int_assoc a.cache.read b.cache.read c.cache.read i;
    write = add_int_assoc a.cache.write b.cache.write c.cache.write i;
  };
}

-- Nothing is added to a sum, which is below the limit.
add_token_usage_none :
    (a b : TokenUsage) → add_token_usage (add_token_usage a b) no_tokens ≡ add_token_usage a b
unfolding add_token_usage
add_token_usage_none a b = λ i. record {
  input = add_int_zero a.input b.input i;
  output = add_int_zero a.output b.output i;
  reasoning = add_int_zero a.reasoning b.reasoning i;
  cache = record {
    read = add_int_zero a.cache.read b.cache.read i;
    write = add_int_zero a.cache.write b.cache.write i;
  };
}

-- The last two of three counts change places.
pub add_token_usage_right :
    (a b c : TokenUsage)
    → add_token_usage (add_token_usage a b) c ≡ add_token_usage (add_token_usage a c) b
add_token_usage_right a b c =
    add_token_usage_assoc a b c
    ∙ (ap (add_token_usage a) (add_token_usage_comm b c) ∙ sym (add_token_usage_assoc a c b))

module _ (F : Type 0) where
  -- The tokens of a table of costs.
  unfoldable pub sum_tokens : List (ModelCost F) → TokenUsage
  unfolding add_token_usage
  sum_tokens [] = no_tokens
  sum_tokens (x ∷ xs) = add_token_usage x.tokens (sum_tokens xs)

  pub sum_tokens-none :
      (xs : List (ModelCost F)) → add_token_usage (sum_tokens xs) no_tokens ≡ sum_tokens xs
  unfolding sum_tokens
  sum_tokens-none [] = unfold add_token_usage add_int in refl
  sum_tokens-none (x ∷ xs) = add_token_usage_none x.tokens (sum_tokens xs)
