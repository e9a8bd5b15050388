-- ===== src/Review/Publishing/Counts.antt =====
-- internal/review/pipeline/pipeline.go: every finding with a place in a file is posted once.
use mathlib.Core.Path.{ap₂}
use mathlib.Core.Option.{some-injective}
use opencode_reviewer.Prelude.{
  ℕ, suc, Bool, true, false, not, ◌||◌, List, [], ◌∷◌, ◌++◌, map, reverse, none, some,
  if◌then◌else◌, select, ok, ◌≡◌, inl, inr, refl, ap, ◌∙◌, arith, Bool-cases, Option-cases, sym,
}
use opencode_reviewer.GoText.{Bytes, is_empty, trim_space}
use opencode_reviewer.GoInt.{ℤ, pos, lt_int}
use opencode_reviewer.Models.{FinalFinding, FinalReview}
use opencode_reviewer.Diff.Types.{DiffResult}
use opencode_reviewer.Vcs.Types.{DiffFinding, DiffLine}
use opencode_reviewer.Vcs.Resolve.{Visit, resolve_file_lines}
use opencode_reviewer.Vcs.Match.{split_code, best_match, code_matches, line_at}
use opencode_reviewer.Vcs.Normalizer.{
  Normalizer, normalize_diff, normalize_diff_finding, place_in, place_at, with_paths,
  verify_diff_at_position, search_and_correct_diff,
}
use opencode_reviewer.Vcs.Marker.{Json}
use opencode_reviewer.Vcs.Format.{map_findings, review_note_with_metadata}
use opencode_reviewer.Gitlab.Types.{DiffRefs}
use opencode_reviewer.Gitlab.Publish.{
  Call, find_merge_request, clear_mr_comments, get_mr_diff_refs, post_mr_note, ref_metadata,
  fallback_call, inline_call,
}
use opencode_reviewer.Gitlab.Publish.Calls.{publish-calls}
use opencode_reviewer.Review.Publishing.{
  Publisher, Visits, inline_findings, normalized_review, publish_review,
}

-- A finding with a file and a line.
abbrev pub is_placed : FinalFinding → Bool
is_placed f = not (is_empty f.file || not (lt_int (pos 0) f.start_line))

sources-if :
    (b : Bool) (f : FinalFinding) (df : DiffFinding) (dfs : List DiffFinding)
    (fs : List FinalFinding)
    → df.source ≡ f
    → map (λ (d : DiffFinding). d.source) dfs ≡ fs
    → map (λ (d : DiffFinding). d.source) (if b then dfs else df ∷ dfs)
      ≡ (if not b then f ∷ fs else fs)
sources-if true f df dfs fs same e = e
sources-if false f df dfs fs same e = ap₂ (λ x xs. x ∷ xs) same e

sources-map_findings :
    (fs : List FinalFinding)
    → map (λ (d : DiffFinding). d.source) (map_findings fs) ≡ select is_placed fs
unfolding map_findings
sources-map_findings [] = refl
sources-map_findings (f ∷ fs) =
    sources-if (is_empty f.file || not (lt_int (pos 0) f.start_line)) f _ (map_findings fs)
      (select is_placed fs) refl (sources-map_findings fs)

source-place_at : (dl : DiffLine) (df : DiffFinding) → (place_at dl df).source ≡ df.source
unfolding place_at
source-place_at dl df = ground arith

source-verify :
    (lines : List DiffLine) (df df' : DiffFinding)
    → verify_diff_at_position lines df ≡ some df'
    → df'.source ≡ df.source
unfolding verify_diff_at_position
source-verify lines df df' h = ground arith

source-search :
    (lines : List DiffLine) (df df' : DiffFinding)
    → search_and_correct_diff lines df ≡ some df'
    → df'.source ≡ df.source
unfolding search_and_correct_diff
source-search lines df df' h =
    let code = split_code df.source.existing_code in
    elim (Bool-cases (is_empty code)) [
      | inl e ↦ absurd (let x = (rw e at h) in cc)
      | inr e ↦ elim (Option-cases (best_match (code_matches df.source.start_line code lines))) [
        | inl none_found ↦ absurd (let x = (rw (e, none_found) at h) in cc)
        | inr (best, found) ↦
            let placed : some (place_at (line_at lines best.idx) df) ≡ some df' =
              (rw (e, found) at h) in
            ap (λ d. d.source) (sym (some-injective _ df' placed))
            ∙ source-place_at (line_at lines best.idx) df
      ]
    ]

source-place_in :
    (lines : List DiffLine) (df : DiffFinding) → (place_in lines df).source ≡ df.source
unfolding place_in
source-place_in lines df = elim (Bool-cases (is_empty (trim_space df.source.existing_code))) [
  | inl e ↦ rw e refl
  | inr e ↦ elim (Option-cases (verify_diff_at_position lines df)) [
    | inr (df', v) ↦ rw (e, v) (source-verify lines df df' v)
    | inl v ↦ elim (Option-cases (search_and_correct_diff lines df)) [
      | inr (df', h) ↦ rw (e, v, h) (source-search lines df df' h)
      | inl h ↦ rw (e, v, h) refl
    ]
  ]
]

source-normalize_diff_finding :
    (visit : Visit) (n : Normalizer) (df : DiffFinding)
    → (normalize_diff_finding visit n df).source ≡ df.source
unfolding normalize_diff_finding with_paths
source-normalize_diff_finding visit n df =
    elim (Option-cases (resolve_file_lines visit n.file_lines df.source.file)) [
      | inl e ↦ rw (e, normalize_diff_finding) refl
      | inr ((key, lines), e) ↦
          rw (e, normalize_diff_finding) (source-place_in lines (with_paths n key df))
    ]

sources-normalize_diff :
    (visits : ℕ → Visit) (n : Normalizer) (i : ℕ) (dfs : List DiffFinding)
    → map (λ (d : DiffFinding). d.source) (normalize_diff visits n i dfs)
      ≡ map (λ (d : DiffFinding). d.source) dfs
unfolding normalize_diff
sources-normalize_diff visits n i [] = refl
sources-normalize_diff visits n i (df ∷ dfs) =
    ap₂ (λ x xs. x ∷ xs) (source-normalize_diff_finding (visits i) n df)
      (sources-normalize_diff visits n (suc i) dfs)

module _ (visits : Visits) (unicode : Bytes → Bytes) (json : Json)
    (branch base_branch : Bytes) where
  sources-inline_findings :
      (diff : DiffResult) (review : FinalReview)
      → map
          (λ (d : DiffFinding). d.source)
          (inline_findings visits unicode json branch base_branch diff review)
        ≡ select is_placed review.findings
  unfolding inline_findings
  sources-inline_findings diff review =
      sources-normalize_diff visits.in_normalize_diff _ 0 (map_findings review.findings)
      ∙ sources-map_findings review.findings

  -- The calls in front of the notes but for the references and the summary.
  abbrev pub setup_calls : Bool → ℤ → List Call
  setup_calls clear iid =
      if clear
      then clear_mr_comments iid ∷ find_merge_request branch base_branch ∷ []
      else find_merge_request branch base_branch ∷ []

  -- When the merge request and its references are found and the summary is posted,
  -- `publishReview` succeeds, with the calls that search, clear, read the references and post the
  -- summary of the corrected review, and then one call for each finding of the review that has a
  -- file and a positive line: these findings, each placed and all in their order, are the list
  -- `inline`, of which those outside the diff are posted as plain notes and then those inside it on
  -- their lines. No finding is lost or doubled on the way through the mapper, the normalizer and the
  -- publisher.
  pub publish_review-posts :
      (p : Publisher) (review : FinalReview) (diff : DiffResult) (iid : ℤ) (refs : DiffRefs)
      → p.client.find [] branch base_branch ≡ ok iid
      → p.client.diff_refs (setup_calls p.clear_comments iid) iid ≡ ok refs
      → p.client.post (get_mr_diff_refs iid ∷ setup_calls p.clear_comments iid) (
          post_mr_note iid (
            review_note_with_metadata unicode json
              (some (normalized_review visits unicode json branch base_branch diff review))
              (ref_metadata refs)))
        ≡ none
      → (inline : List DiffFinding) × (map (λ (d : DiffFinding). d.source) inline
          ≡ select is_placed review.findings)
        × (publish_review visits unicode json branch base_branch (some p) (some review) (some diff)
            ≡ some (record {
              made =
                  reverse (setup_calls p.clear_comments iid)
                  ++ (get_mr_diff_refs iid
                      ∷ post_mr_note iid (
                          review_note_with_metadata unicode json
                            (some (
                              normalized_review visits unicode json branch base_branch diff review))
                            (ref_metadata refs))
                      ∷ (map
                            (fallback_call unicode json iid refs)
                            (select (λ (d : DiffFinding). not d.in_diff) inline)
                          ++ map
                              (inline_call unicode json iid refs)
                              (select (λ (d : DiffFinding). d.in_diff) inline)));
              error = none;
            }))
  unfolding publish_review
  publish_review-posts p review diff iid refs found referred posted =
      let inline = inline_findings visits unicode json branch base_branch diff review in
      (
        inline,
        sources-inline_findings diff review,
        ap some (
            publish-calls unicode json p.client p.clear_comments
              (some (normalized_review visits unicode json branch base_branch diff review)) inline
              branch base_branch iid refs found referred posted),
      )
