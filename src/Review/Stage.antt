-- ===== src/Review/Stage.antt =====
-- internal/review/pipeline: the choice between two results (with IsBetterResult of parse.go), the
-- order of the reviewers' results (review_stage.go), and the models that answer (serve_fallback.go).
pub mod Choice
pub mod Collect
use opencode_reviewer.Prelude.{
  ℕ, zero, suc, Bool, true, false, not, ◌&&◌, ◌||◌, List, [], ◌∷◌, ◌++◌, Option, none, some,
  if◌then◌else◌, length, ltb, Result, ok, err, get_or,
}
use opencode_reviewer.GoText.{Bytes, codes, is_empty}
use opencode_reviewer.Models.{ParseErr, ReviewResult, FinalReview}
use opencode_reviewer.Review.Parse.{Decoder, parse, parse_args, parse_final, parse_final_args}

-- `err == nil`
abbrev pub is_clean : Option ParseErr → Bool
is_clean none = true
is_clean (some e) = false

unfoldable pub is_better_result : ReviewResult → ReviewResult → Bool
is_better_result candidate current =
    if is_clean candidate.parse_err && not (is_clean current.parse_err)
    then true
    else if is_clean candidate.parse_err
    then false
    else if is_clean current.parse_err
    then false
    else if ltb (length current.findings) (length candidate.findings)
    then true
    else not (is_empty candidate.verdict) && is_empty current.verdict

unfoldable pub is_better_final_result : FinalReview → FinalReview → Bool
is_better_final_result candidate current =
    if is_clean candidate.parse_err && not (is_clean current.parse_err)
    then true
    else if is_clean candidate.parse_err
    then false
    else if is_clean current.parse_err
    then false
    else if ltb (length current.findings) (length candidate.findings)
    then true
    else not (is_empty candidate.verdict) && is_empty current.verdict

module _ (decoder : Decoder) where
  -- `parseResult` on the arguments of the tool, if any, and the text of the fallback.
  unfoldable pub parse_result : Option Bytes → Bytes → ReviewResult
  unfolding parse parse_args is_better_result
  parse_result none text = parse decoder text
  parse_result (some tool) text =
      let result = parse_args decoder tool in
      let fallback = parse decoder text in
      if not (is_clean result.parse_err) && not (is_empty text)
      then if is_better_result fallback result then fallback else result
      else result

  -- The same choice in `runFinalizerReview`.
  unfoldable pub choose_final : Option Bytes → Bytes → FinalReview
  unfolding parse_final parse_final_args is_better_final_result
  choose_final none text = parse_final decoder text
  choose_final (some tool) text =
      let result = parse_final_args decoder tool in
      let fallback = parse_final decoder text in
      if not (is_clean result.parse_err) && not (is_empty text)
      then if is_better_final_result fallback result then fallback else result
      else result

-- `slots[i] = r`
abbrev pub set_slot : {R : Type 0} → ℕ → Option R → List (Option R) → List (Option R)
set_slot i r [] = []
set_slot zero r (x ∷ xs) = r ∷ xs
set_slot (suc i) r (x ∷ xs) = x ∷ set_slot i r xs

-- The results arrive in some order of their indices; a session that failed leaves its slot alone.
unfoldable pub receive_all :
    {R : Type 0} → List (Option R) → List ℕ → List (Option R) → List (Option R)
receive_all outcomes [] slots = slots
receive_all outcomes (i ∷ order) slots = elim (get_or outcomes i none) [
  | none ↦ receive_all outcomes order slots
  | some r ↦ receive_all outcomes order (set_slot i (some r) slots)
]

abbrev pub blank_slots : {A R : Type 0} → List A → List (Option R)
blank_slots [] = []
blank_slots (x ∷ xs) = none ∷ blank_slots xs

-- The slots that are filled, in order.
abbrev pub filled : {R : Type 0} → List (Option R) → List R
filled [] = []
filled (none ∷ xs) = filled xs
filled (some r ∷ xs) = r ∷ filled xs

-- `runAllReviews`: the outcomes of the sessions by their index, received in an order.
unfoldable pub run_all_reviews : {R : Type 0} → List (Option R) → List ℕ → List R
unfolding receive_all
run_all_reviews outcomes order = filled (receive_all outcomes order (blank_slots outcomes))

unfoldable pub normalize_model_chain : List Bytes → List Bytes
normalize_model_chain models = if is_empty models then [] ∷ [] else models

-- `precheckModelChain` when the context is not done: the chain from the first model that answers.
unfoldable pub precheck_model_chain :
    (Bytes → Option Bytes) → List Bytes → Result (List Bytes) (List Bytes)
precheck_model_chain precheck [] = err []
precheck_model_chain precheck (m ∷ ms) = elim (precheck m) [
  | none ↦ ok (m ∷ ms)
  | some e ↦ elim (precheck_model_chain precheck ms) [ ok chain ↦ ok chain | err es ↦ err (e ∷ es) ]
]
