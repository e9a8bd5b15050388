-- ===== src/Review/Tests.antt =====
-- Runs of the parsers and of the stages, and the theorems at concrete inputs.
use opencode_reviewer.Prelude.{
  reverse, ◌++◌, All, In, List, [], arith, err, false, if◌then◌else◌, inl, inr, map, none, not, ok,
  refl, select, some, suc, true, zero, ℕ, ◌&&◌, ◌<◌, ◌||◌, ◌∷◌, ◌≡◌, ◌⊎◌,
}
use opencode_reviewer.GoInt.{pos}
use opencode_reviewer.Models.{ReviewMessageRef, ReviewResult, FinalFinding, FinalReview}
use opencode_reviewer.Diff.Types.{DiffResult}
use opencode_reviewer.Vcs.Marker.{Json}
use opencode_reviewer.Gitlab.Types.{DiffRefs}
use opencode_reviewer.Gitlab.Publish.{
  get_mr_diff_refs, post_mr_note, ref_metadata, fallback_call, inline_call,
}
use opencode_reviewer.Vcs.Types.{DiffFinding}
use opencode_reviewer.Vcs.Format.{review_note_with_metadata}
use opencode_reviewer.Review.Provenance.{
  provenance_of, match_sources, refs_by, seen_ref, same_ref, all_refs,
}
use opencode_reviewer.Review.Provenance.Sources.{IsCovered}
use opencode_reviewer.Review.Provenance.Unique.{IsUnique, IsUntraced, provenance_of-IsUnique}
use opencode_reviewer.Review.Publishing.{Publisher, Visits, publish_review, normalized_review}
use opencode_reviewer.Review.Publishing.Counts.{is_placed, setup_calls, publish_review-posts}
use opencode_reviewer.GoText.{codes, is_empty, index, has_prefix, bytes_eq, join, Bytes}
use opencode_reviewer.Review.Parse.{
  Decoder, strip_code_fence, trim_right, parse, parse_args, parse_final, parse_final_args,
}
use opencode_reviewer.Review.Parse.Fence.{fenced, strip_code_fence-fenced}
use opencode_reviewer.Review.Stage.{
  is_clean, parse_result, choose_final, filled, receive_all, run_all_reviews, precheck_model_chain,
}
use opencode_reviewer.Review.Stage.Choice.{results-clean}
use opencode_reviewer.Review.Stage.Collect.{run_all_reviews-order}

-- A decoder that knows one text.
abbrev decoder : Decoder
decoder = record {
  args = λ b.
      if bytes_eq b (codes "{1}")
      then ok (record {
        reviewer_name = codes "r";
        summary = [];
        verdict = codes "approve";
        findings = some [];
      })
      else err (codes "syntax");
  final_args = λ b.
      if bytes_eq b (codes "{1}")
      then ok (record { summary = []; verdict = codes "approve"; findings = some [] })
      else err (codes "syntax");
  raw = λ b. none;
}

strip_code_fence-fenced_example :
    strip_code_fence (fenced (codes "json") (codes "{1}\n")) ≡ trim_right (codes "{1}\n")
strip_code_fence-fenced_example =
    strip_code_fence-fenced (codes "json") (codes "{1}\n") (unfold index has_prefix in refl)

results-clean_example :
    (is_clean (parse_result decoder (some (codes "{")) (codes "{1}")).parse_err ≡ (
      is_clean (parse_args decoder (codes "{")).parse_err
      || (not (is_empty (codes "{1}")) && is_clean (parse decoder (codes "{1}")).parse_err)))
    × (is_clean (parse_result decoder none (codes "{1}")).parse_err
        ≡ is_clean (parse decoder (codes "{1}")).parse_err)
    × (is_clean (choose_final decoder (some (codes "{")) (codes "{1}")).parse_err ≡ (
        is_clean (parse_final_args decoder (codes "{")).parse_err
        || (not (is_empty (codes "{1}"))
            && is_clean (parse_final decoder (codes "{1}")).parse_err)))
    × (is_clean (choose_final decoder none (codes "{1}")).parse_err
        ≡ is_clean (parse_final decoder (codes "{1}")).parse_err)
results-clean_example = results-clean decoder (codes "{") (codes "{1}")

test_received :
    run_all_reviews {R = ℕ} (some 10 ∷ none ∷ some 12 ∷ []) (2 ∷ 0 ∷ 1 ∷ []) ≡ 10 ∷ 12 ∷ []
unfolding run_all_reviews receive_all
test_received = refl

test_precheck :
    precheck_model_chain
      (λ m. if bytes_eq m (codes "a") then some (codes "down") else none)
      (codes "a" ∷ codes "b" ∷ codes "c" ∷ [])
    ≡ ok (codes "b" ∷ codes "c" ∷ [])
unfolding precheck_model_chain bytes_eq
test_precheck = refl

all_received : (j : ℕ) → j < 3 → In j (2 ∷ 0 ∷ 1 ∷ [])
all_received zero h = inr (inl refl)
all_received (suc zero) h = inr (inr (inl refl))
all_received (suc (suc zero)) h = inl refl
all_received (suc (suc (suc j))) h = absurd (omega arith)

run_all_reviews-order_example :
    run_all_reviews {R = ℕ} (some 10 ∷ none ∷ some 12 ∷ []) (2 ∷ 0 ∷ 1 ∷ [])
    ≡ filled (some 10 ∷ none ∷ some 12 ∷ [])
run_all_reviews-order_example =
    run_all_reviews-order (some 10 ∷ none ∷ some 12 ∷ []) (2 ∷ 0 ∷ 1 ∷ []) all_received

abbrev review_of : Bytes → List Bytes → ReviewResult
review_of name paths = record {
  raw = [];
  findings = [];
  parse_err = none;
  summary = [];
  verdict = codes "approve";
  reviewer_name = name;
  message_ref = record { id = []; path = join [] paths; sha256 = [] };
}

abbrev traced : FinalFinding
traced = record {
  file = codes "a.go";
  start_line = pos 3;
  end_line = pos 3;
  existing_code = [];
  confidence = [];
  issue_content = [];
  recommendation = [];
  sources = codes "r1" ∷ codes "r2" ∷ [];
  source_message_refs = [];
  fallback_message_refs = [];
}

abbrev two_reviews : List ReviewResult
two_reviews =
    review_of (codes "r1") (codes "one.md" ∷ [])
    ∷ review_of (codes "r3") (codes "three.md" ∷ [])
    ∷ []

test_traced :
    map (λ (r : ReviewMessageRef). r.path) (provenance_of two_reviews traced).source_message_refs
    ≡ codes "one.md" ∷ []
unfolding provenance_of match_sources refs_by seen_ref same_ref all_refs bytes_eq join
test_traced = refl

provenance_of-IsUnique_example :
    ((matched : List ReviewMessageRef) × (is_empty matched ≡ false)
      × All (IsUnique two_reviews traced.sources) matched
      × All (IsCovered two_reviews matched) traced.sources
      × (provenance_of two_reviews traced ≡ record traced { source_message_refs = matched }))
    ⊎ (IsUntraced two_reviews traced.sources
        × ((provenance_of two_reviews traced
              ≡ record traced { fallback_message_refs = all_refs two_reviews })
            ⊎ ((provenance_of two_reviews traced ≡ traced) × (all_refs two_reviews ≡ []))))
provenance_of-IsUnique_example = provenance_of-IsUnique two_reviews traced

abbrev refs : DiffRefs
refs = record { base_sha = codes "b"; head_sha = codes "h"; start_sha = codes "s" }

abbrev publisher : Publisher
publisher = record {
  client = record {
    find = λ calls s t. ok (pos 7);
    diff_refs = λ calls iid. ok refs;
    post = λ calls call. none;
  };
  clear_comments = true;
}

abbrev approved : FinalReview
approved = record {
  raw = [];
  summary = codes "Fine.";
  verdict = codes "approve";
  findings = traced ∷ record traced { file = [] } ∷ traced ∷ [];
  parse_err = none;
}

abbrev diff : DiffResult
diff = record {
  files = [];
  diff_stat = [];
  commit_log = [];
  total_added = 0;
  total_deleted = 0;
  filtered_files = [];
  branch = [];
  base_branch = [];
}

abbrev visits : Visits
visits = record { in_normalize = λ i n m. m; in_normalize_diff = λ i n m. m }

abbrev json : Json
json = record { marshal = λ m. none; unmarshal = λ b. none }

publish_review-posts_example :
    let setup = setup_calls visits (λ s. s) json (codes "topic") (codes "main") true (pos 7) in
    (inline : List DiffFinding) × (map (λ (d : DiffFinding). d.source) inline
      ≡ select is_placed approved.findings)
    × (publish_review visits
          (λ s. s)
          json
          (codes "topic")
          (codes "main")
          (some publisher)
          (some approved)
          (some diff)
        ≡ some (record {
          made =
              reverse setup
              ++ (get_mr_diff_refs (pos 7)
                  ∷ post_mr_note (pos 7) (
                      review_note_with_metadata
                        (λ s. s)
                        json
                        (some (
                          normalized_review visits
                            (λ s. s)
                            json
                            (codes "topic")
                            (codes "main")
                            diff
                            approved))
                        (ref_metadata refs))
                  ∷ (map
                        (fallback_call (λ s. s) json (pos 7) refs)
                        (select (λ (d : DiffFinding). not d.in_diff) inline)
                      ++ map
                          (inline_call (λ s. s) json (pos 7) refs)
                          (select (λ (d : DiffFinding). d.in_diff) inline)));
          error = none;
        }))
publish_review-posts_example =
    publish_review-posts visits (λ s. s) json (codes "topic") (codes "main") publisher approved diff
      (pos 7) refs refl refl refl
