-- ===== src/Review/Stage/Choice.antt =====
-- internal/review/pipeline: the choice between the tool's arguments and the fallback's text.
use opencode_reviewer.Prelude.{
  Bool, true, false, not, ◌&&◌, ◌||◌, none, some, if◌then◌else◌, ◌≡◌, refl, ap, ◌∙◌, arith,
}
use opencode_reviewer.GoText.{Bytes, is_empty}
use opencode_reviewer.Models.{ReviewResult, FinalReview}
use opencode_reviewer.Review.Parse.{Decoder, parse, parse_args, parse_final, parse_final_args}
use opencode_reviewer.Review.Stage.{
  is_clean, is_better_result, is_better_final_result, parse_result, choose_final,
}

on_if :
    {A B : Type 0} (f : A → B) (b : Bool) (x y : A)
    → f (if b then x else y) ≡ (if b then f x else f y)
on_if f true x y = refl
on_if f false x y = refl

choice_lem :
    (first fallback given better : Bool)
    → (first ≡ false → fallback ≡ true → better ≡ true)
    → (if not first && given then if better then fallback else first else first)
      ≡ (first || (given && fallback))
choice_lem first fallback given better wins = ground (arith, wins)

-- What the choice comes to, from tests on the first result and on the fallback.
pub chosen_lem :
    {R : Type 0} (clean : R → Bool) (first fallback : R) (given better : Bool)
    → (clean first ≡ false → clean fallback ≡ true → better ≡ true)
    → clean (if not (clean first) && given then if better then fallback else first else first)
      ≡ (clean first || (given && clean fallback))
chosen_lem clean first fallback given better wins =
    on_if clean (not (clean first) && given) (if better then fallback else first) first
    ∙ ap (λ x. if not (clean first) && given then x else clean first)
        (on_if clean better fallback first)
    ∙ choice_lem (clean first) (clean fallback) given better wins

is_better_result-wins :
    (candidate current : ReviewResult)
    → is_clean current.parse_err ≡ false
    → is_clean candidate.parse_err ≡ true
    → is_better_result candidate current ≡ true
unfolding is_better_result
is_better_result-wins candidate current dirty clean = rw (clean, is_better_result) (rw dirty refl)

is_better_final_result-wins :
    (candidate current : FinalReview)
    → is_clean current.parse_err ≡ false
    → is_clean candidate.parse_err ≡ true
    → is_better_final_result candidate current ≡ true
unfolding is_better_final_result
is_better_final_result-wins candidate current dirty clean =
    rw (clean, is_better_final_result) (rw dirty refl)

module _ (decoder : Decoder) where
  parse_result-clean :
      (tool text : Bytes)
      → (is_clean (parse_result decoder (some tool) text).parse_err ≡ (
          is_clean (parse_args decoder tool).parse_err
          || (not (is_empty text) && is_clean (parse decoder text).parse_err)))
        × (is_clean (parse_result decoder none text).parse_err
            ≡ is_clean (parse decoder text).parse_err)
  unfolding parse_result
  parse_result-clean tool text =
      let result = parse_args decoder tool in
      let fallback = parse decoder text in
      (
        chosen_lem (λ (r : ReviewResult). is_clean r.parse_err) result fallback
            (not (is_empty text)) (is_better_result fallback result)
            (is_better_result-wins fallback result),
        refl,
      )

  choose_final-clean :
      (tool text : Bytes)
      → (is_clean (choose_final decoder (some tool) text).parse_err ≡ (
          is_clean (parse_final_args decoder tool).parse_err
          || (not (is_empty text) && is_clean (parse_final decoder text).parse_err)))
        × (is_clean (choose_final decoder none text).parse_err
            ≡ is_clean (parse_final decoder text).parse_err)
  unfolding choose_final
  choose_final-clean tool text =
      let result = parse_final_args decoder tool in
      let fallback = parse_final decoder text in
      (
        chosen_lem (λ (r : FinalReview). is_clean r.parse_err) result fallback (not (is_empty text))
            (is_better_final_result fallback result) (is_better_final_result-wins fallback result),
        refl,
      )

  -- A reviewer's result, and the finalizer's review, is free of errors exactly when the tool's
  -- arguments are, or a fallback text is given that is; without arguments, exactly when the text is.
  pub results-clean :
      (tool text : Bytes)
      → (is_clean (parse_result decoder (some tool) text).parse_err ≡ (
          is_clean (parse_args decoder tool).parse_err
          || (not (is_empty text) && is_clean (parse decoder text).parse_err)))
        × (is_clean (parse_result decoder none text).parse_err
            ≡ is_clean (parse decoder text).parse_err)
        × (is_clean (choose_final decoder (some tool) text).parse_err ≡ (
            is_clean (parse_final_args decoder tool).parse_err
            || (not (is_empty text) && is_clean (parse_final decoder text).parse_err)))
        × (is_clean (choose_final decoder none text).parse_err
            ≡ is_clean (parse_final decoder text).parse_err)
  results-clean tool text =
      let result = parse_result-clean tool text in
      let final = choose_final-clean tool text in (result.0, result.1, final.0, final.1)
