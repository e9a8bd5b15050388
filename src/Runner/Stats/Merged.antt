-- ===== src/Runner/Stats/Merged.antt =====
-- internal/shared/runner/session_stats.go: the table of costs per model, when costs are added to it.
use opencode_reviewer.Prelude.{
  choice, true, false, ◌||◌, List, [], ◌∷◌, All, ◌⊎◌, inl, inr, ◌≡◌, refl, sym, ap, ◌∙◌, Bool-cases,
  arith,
}
use opencode_reviewer.GoText.{Bytes, is_empty, bytes_eq, bytes_eq_iff, bytes_eq_self}
use opencode_reviewer.Runner.Stats.{
  add_token_usage, no_tokens, ModelCost, has_model, add_cost, merge_cost, append_model_costs,
}
use opencode_reviewer.Runner.Stats.Tokens.{
  add_token_usage_comm, add_token_usage_assoc, add_token_usage_right, sum_tokens, sum_tokens-none,
}

module _ (F : Type 0) (zero_cost : F) (plus : F → F → F) where
  abbrev pub IsFilled : ModelCost F → Type 0
  IsFilled c = is_empty c.model ≡ false

  -- No model has two entries.
  abbrev pub IsUnique : List (ModelCost F) → Type 0
  IsUnique [] = Unit
  IsUnique (x ∷ xs) = (has_model F zero_cost plus x.model xs ≡ false) × IsUnique xs

  -- A cost meets the first entry: it is added to a later one or to this one.
  merge_cost-cases :
      (c x : ModelCost F) (xs : List (ModelCost F)) (P : List (ModelCost F) → Type 0)
      → ((has_model F zero_cost plus c.model xs ≡ true) ⊎ (bytes_eq c.model x.model ≡ false)
          → P (x ∷ merge_cost F zero_cost plus c xs))
      → ((has_model F zero_cost plus c.model xs ≡ false)
          → (bytes_eq c.model x.model ≡ true)
          → P (add_cost F zero_cost plus x c ∷ xs))
      → P (merge_cost F zero_cost plus c (x ∷ xs))
  unfolding merge_cost
  merge_cost-cases c x xs P later here =
      choice (has_model F zero_cost plus c.model xs) _ _ P (λ found. later (inl found))
        (λ e. choice (bytes_eq c.model x.model) _ _ P (here e) (λ other. later (inr other)))

  pub sum_tokens-merge_cost :
      (c : ModelCost F) (xs : List (ModelCost F))
      → sum_tokens F (merge_cost F zero_cost plus c xs) ≡ add_token_usage (sum_tokens F xs) c.tokens
  unfolding sum_tokens
  sum_tokens-merge_cost c [] = unfold merge_cost in add_token_usage_comm c.tokens no_tokens
  sum_tokens-merge_cost c (x ∷ xs) =
      merge_cost-cases c x xs
        (λ r.
          sum_tokens F r ≡ add_token_usage (add_token_usage x.tokens (sum_tokens F xs)) c.tokens)
        (λ apart.
          ap (add_token_usage x.tokens) (sum_tokens-merge_cost c xs)
          ∙ sym (add_token_usage_assoc x.tokens (sum_tokens F xs) c.tokens))
        (λ e same. add_token_usage_right x.tokens c.tokens (sum_tokens F xs))

  has_model-merge_cost :
      (m : Bytes) (c : ModelCost F) (xs : List (ModelCost F))
      → has_model F zero_cost plus m (merge_cost F zero_cost plus c xs)
        ≡ (has_model F zero_cost plus m xs || bytes_eq m c.model)
  unfolding has_model
  has_model-merge_cost m c [] = unfold merge_cost in ground arith
  has_model-merge_cost m c (x ∷ xs) =
      merge_cost-cases c x xs
        (λ r.
          has_model F zero_cost plus m r
          ≡ ((bytes_eq m x.model || has_model F zero_cost plus m xs) || bytes_eq m c.model))
        (λ apart. ground (arith, has_model-merge_cost m c xs))
        (λ e same.
          let same_model = (bytes_eq_iff c.model x.model).0 same in rw same_model (ground arith))

  still_fresh :
      (c x : ModelCost F) (xs : List (ModelCost F))
      → has_model F zero_cost plus x.model xs ≡ false
      → (has_model F zero_cost plus c.model xs ≡ true) ⊎ (bytes_eq c.model x.model ≡ false)
      → has_model F zero_cost plus x.model (merge_cost F zero_cost plus c xs) ≡ false
  still_fresh c x xs fresh apart = elim (Bool-cases (bytes_eq x.model c.model)) [
    | inl e ↦
        let same = (bytes_eq_iff x.model c.model).0 e in
        let other = bytes_eq_self c.model in
        elim apart [ inl found ↦ absurd (cc) | inr differ ↦ absurd (cc) ]
    | inr e ↦ has_model-merge_cost x.model c xs ∙ ground arith
  ]

  merge_cost-IsUnique :
      (c : ModelCost F) (xs : List (ModelCost F))
      → IsUnique xs
      → IsUnique (merge_cost F zero_cost plus c xs)
  merge_cost-IsUnique c [] u = unfold merge_cost has_model in (refl, tt)
  merge_cost-IsUnique c (x ∷ xs) (fresh, u) =
      merge_cost-cases c x xs IsUnique
        (λ apart. (still_fresh c x xs fresh apart, merge_cost-IsUnique c xs u))
        (λ e same. (fresh, u))

  -- What holds of the models of the entries.
  abbrev pub OfModels : (Bytes → Type 0) → List (ModelCost F) → Type 0
  OfModels P xs = All (λ c. P c.model) xs

  pub merge_cost-OfModels :
      (P : Bytes → Type 0) (c : ModelCost F) (xs : List (ModelCost F))
      → P c.model
      → OfModels P xs
      → OfModels P (merge_cost F zero_cost plus c xs)
  merge_cost-OfModels P c [] p all = unfold merge_cost in (p, tt)
  merge_cost-OfModels P c (x ∷ xs) p (q, all) =
      merge_cost-cases c x xs (OfModels P) (λ apart. (q, merge_cost-OfModels P c xs p all))
        (λ e same. (q, all))

  pub append_model_costs-OfModels :
      (P : Bytes → Type 0) (cs base : List (ModelCost F))
      → OfModels P base
      → OfModels P cs
      → OfModels P (append_model_costs F zero_cost plus base cs)
  unfolding append_model_costs
  append_model_costs-OfModels P [] base all more = all
  append_model_costs-OfModels P (c ∷ cs) base all (p, more) =
      append_model_costs-OfModels P cs _
        (choice (is_empty c.model) base (merge_cost F zero_cost plus c base) (OfModels P) (λ e. all)
          (λ e. merge_cost-OfModels P c base p all))
        more

  -- A table of costs: every entry names its model, and no model has two.
  pub record IsTable (xs : List (ModelCost F)) : Type 0 where
    pub filled : All IsFilled xs
    pub unique : IsUnique xs

  pub merge_cost-IsTable :
      (c : ModelCost F) (xs : List (ModelCost F))
      → IsFilled c
      → IsTable xs
      → IsTable (merge_cost F zero_cost plus c xs)
  merge_cost-IsTable c xs f t = record {
    filled = merge_cost-OfModels (λ m. is_empty m ≡ false) c xs f t.filled;
    unique = merge_cost-IsUnique c xs t.unique;
  }

  pub append_model_costs-IsTable :
      (base cs : List (ModelCost F))
      → IsTable base
      → All IsFilled cs
      → IsTable (append_model_costs F zero_cost plus base cs)
  unfolding append_model_costs
  append_model_costs-IsTable base [] t all = t
  append_model_costs-IsTable base (c ∷ cs) t (f, all) = rw f (
      append_model_costs-IsTable (merge_cost F zero_cost plus c base) cs
        (merge_cost-IsTable c base f t) all)

  pub sum_tokens-append_model_costs :
      (base cs : List (ModelCost F))
      → All IsFilled cs
      → sum_tokens F (append_model_costs F zero_cost plus base cs)
        ≡ add_token_usage (sum_tokens F base) (sum_tokens F cs)
  unfolding append_model_costs sum_tokens
  sum_tokens-append_model_costs base [] all = sym (sum_tokens-none F base)
  sum_tokens-append_model_costs base (c ∷ cs) (f, all) = rw f (
      sum_tokens-append_model_costs (merge_cost F zero_cost plus c base) cs all
      ∙ (ap (λ u. add_token_usage u (sum_tokens F cs)) (sum_tokens-merge_cost c base)
          ∙ add_token_usage_assoc (sum_tokens F base) c.tokens (sum_tokens F cs)))
