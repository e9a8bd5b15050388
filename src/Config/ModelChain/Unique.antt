-- ===== src/Config/ModelChain/Unique.antt =====
-- internal/shared/config/opencode.go: what a chain of models holds.
use mathlib.Core.Path.{subst}
use opencode_reviewer.Prelude.{
  Bool, true, false, ◌||◌, List, [], ◌∷◌, ◌++◌, if◌then◌else◌, Result, ok, err, ◌≡◌, refl, sym, ap,
  ◌∙◌, append_assoc, append-nil, arith, Bool-cases, inl, inr, ◌⊎◌, All, All-append,
}
use opencode_reviewer.GoText.{Bytes, bytes_eq, bytes_eq_iff, is_empty}
use opencode_reviewer.Runner.Models.{member, member-append}
use opencode_reviewer.Config.ModelChain.{
  ChainErr, fallback_not_full, is_full_model_id, normalize_model_list, primary_model, add_fallbacks,
  chain_from, model_chain,
}

-- No model stands before itself.
abbrev pub Distinct : List Bytes → List Bytes → Type 0
Distinct before [] = Unit {0}
Distinct before (m ∷ ms) = (member m before ≡ false) × Distinct (before ++ (m ∷ [])) ms

abbrev pub IsFull : Bytes → Type 0
IsFull m = is_full_model_id m ≡ true

Distinct-append :
    (before ms : List Bytes) (m : Bytes)
    → Distinct before ms
    → member m (before ++ ms) ≡ false
    → Distinct before (ms ++ (m ∷ []))
Distinct-append before [] m d fresh =
    (subst (λ l. member m l ≡ false) (append-nil before) fresh, tt)
Distinct-append before (x ∷ xs) m (f, d) fresh = (
  f,
  Distinct-append (before ++ (x ∷ [])) xs m d
      (subst (λ l. member m l ≡ false) (sym (append_assoc before (x ∷ []) xs)) fresh),
)

-- A chain without repetitions, of full names.
abbrev Good : List Bytes → Type 0
Good chain = Distinct [] chain × All IsFull chain

-- A chain that goes on from another with models of a list.
abbrev IsGrown : List Bytes → List Bytes → List Bytes → Type 0
IsGrown chain models r =
    Good r
    × ((m : Bytes) → member m r ≡ (member m chain || member m models))
    × ((rest : List Bytes) × (r ≡ chain ++ rest))

or_implied : (a b later : Bool) → (b ≡ true → a ≡ true) → (a || later) ≡ (a || (b || later))
or_implied true b later h = refl
or_implied false false later h = refl
or_implied false true later h = ground (arith, h refl)

added_same : (b c later : Bool) → ((b || (c || false)) || later) ≡ (b || (c || later))
added_same true c later = refl
added_same false true later = refl
added_same false false later = refl

add_fallbacks-nil : (chain : List Bytes) → add_fallbacks chain [] ≡ ok chain
unfolding add_fallbacks
add_fallbacks-nil chain = refl

ok-injective : {E A : Type 0} (a b : A) → ◌≡◌ {A = Result E A} (ok a) (ok b) → a ≡ b
ok-injective a b e = cc

or-false : (b : Bool) → b || false ≡ b
or-false true = refl
or-false false = refl

add_fallbacks-skip :
    (chain models : List Bytes) (model : Bytes)
    → is_full_model_id model ≡ true
    → member model chain ≡ true
    → add_fallbacks chain (model ∷ models) ≡ add_fallbacks chain models
unfolding add_fallbacks
add_fallbacks-skip chain models model full old = rw full (rw old refl)

add_fallbacks-add :
    (chain models : List Bytes) (model : Bytes)
    → is_full_model_id model ≡ true
    → member model chain ≡ false
    → add_fallbacks chain (model ∷ models) ≡ add_fallbacks (chain ++ (model ∷ [])) models
unfolding add_fallbacks
add_fallbacks-add chain models model full old = rw full (rw old refl)

add_fallbacks-refuse :
    (chain models : List Bytes) (model : Bytes)
    → is_full_model_id model ≡ false
    → add_fallbacks chain (model ∷ models) ≡ err (fallback_not_full model)
unfolding add_fallbacks
add_fallbacks-refuse chain models model full = rw full refl

add_fallbacks-IsGrown :
    (chain models r : List Bytes)
    → add_fallbacks chain models ≡ ok r
    → Good chain
    → IsGrown chain models r
unfolding member
add_fallbacks-IsGrown chain [] r h good =
    let e : ◌≡◌ {A = Result ChainErr (List Bytes)} (ok chain) (ok r) =
      sym (add_fallbacks-nil chain) ∙ h in
    subst (IsGrown chain []) (ok-injective chain r e)
      (good, λ m. sym (or-false (member m chain)), ([], sym (append-nil chain)))
add_fallbacks-IsGrown chain (model ∷ models) r h (d, full) =
    elim (Bool-cases (is_full_model_id model)) [
      | inr f ↦ let e = add_fallbacks-refuse chain models model f in absurd (cc)
      | inl f ↦ elim (Bool-cases (member model chain)) [
        | inl old ↦
            let (good, same, rest) =
              add_fallbacks-IsGrown chain models r
                (sym (add_fallbacks-skip chain models model f old) ∙ h) (d, full) in
            (
              good,
              λ m.
                  same m
                  ∙ or_implied (member m chain) (bytes_eq m model) (member m models)
                      (λ e. ap (λ t. member t chain) ((bytes_eq_iff m model).0 e) ∙ old),
              rest,
            )
        | inr new ↦
            let (good, same, (rest, e)) =
              add_fallbacks-IsGrown (chain ++ (model ∷ [])) models r
                (sym (add_fallbacks-add chain models model f new) ∙ h)
                (
                  Distinct-append [] chain model d new,
                  All-append IsFull chain (model ∷ []) full (f, tt),
                ) in
            (
              good,
              λ m.
                  same m
                  ∙ ap (λ b. b || member m models) (member-append m chain (model ∷ []))
                  ∙ added_same (member m chain) (bytes_eq m model) (member m models),
              (model ∷ rest, e ∙ append_assoc chain (model ∷ []) rest),
            )
      ]
    ]

-- The chain of a run with fallback models.
abbrev pub IsChain : Bytes → List Bytes → List Bytes → Type 0
IsChain primary fallbacks chain =
    Distinct [] chain
    × All IsFull chain
    × ((m : Bytes) → member m chain ≡ (bytes_eq m primary || member m fallbacks))
    × ((rest : List Bytes) × (chain ≡ primary ∷ rest))

chain_from-IsChain :
    (primary : Bytes) (fallbacks chain : List Bytes)
    → chain_from primary fallbacks ≡ ok chain
    → IsChain primary fallbacks chain
unfolding member
chain_from-IsChain primary fallbacks chain h =
    let full : IsFull primary = ground arith in
    let e : add_fallbacks (primary ∷ []) fallbacks ≡ ok chain = ground arith in
    let ((d, f), same, starts) =
      add_fallbacks-IsGrown (primary ∷ []) fallbacks chain e ((refl, tt), (full, tt)) in
    (d, f, λ m. same m ∙ ap (λ b. b || member m fallbacks) (or-false (bytes_eq m primary)), starts)

IsChain-cases :
    (fallbacks : List Bytes) (primary : Bytes) (chain : List Bytes)
    → (if is_empty fallbacks then ok [] else chain_from primary fallbacks) ≡ ok chain
    → ((fallbacks ≡ []) × (chain ≡ [])) ⊎ IsChain primary fallbacks chain
IsChain-cases [] primary chain h = inl (refl, sym (ok-injective [] chain h))
IsChain-cases (m ∷ ms) primary chain h = inr (chain_from-IsChain primary (m ∷ ms) chain h)

-- When the models of a configuration are put together without an error, there are no fallback models
-- and no chain, or the chain begins with the primary model, which is the configured one if it is
-- given and that of the provider otherwise; it holds that model and the fallback models, trimmed and
-- without the blank ones, and no other; none of them is repeated, and all are full names.
pub model_chain-IsChain :
    (model : Bytes) (fallback_models : List Bytes) (provider_model : Bytes) (chain : List Bytes)
    → model_chain model fallback_models provider_model ≡ ok chain
    → let fallbacks = normalize_model_list fallback_models in
      ((fallbacks ≡ []) × (chain ≡ []))
      ⊎ IsChain (primary_model model provider_model) fallbacks chain
unfolding model_chain
model_chain-IsChain model fallback_models provider_model chain h =
    IsChain-cases (normalize_model_list fallback_models) (primary_model model provider_model) chain
      h
