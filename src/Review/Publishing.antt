-- ===== src/Review/Publishing.antt =====
-- internal/review/pipeline/pipeline.go: `publishReview`, from the findings to the notes.
pub mod Counts
use opencode_reviewer.Prelude.{ℕ, Bool, List, [], ◌∷◌, Option, none, some}
use opencode_reviewer.GoText.{Bytes}
use opencode_reviewer.Models.{FinalFinding, FinalReview}
use opencode_reviewer.Diff.Types.{DiffResult}
use opencode_reviewer.Vcs.Types.{DiffFinding}
use opencode_reviewer.Vcs.Resolve.{Visit}
use opencode_reviewer.Vcs.Normalizer.{new_normalizer, normalize, normalize_diff}
use opencode_reviewer.Vcs.Marker.{Json}
use opencode_reviewer.Vcs.Format.{map_findings}
use opencode_reviewer.Gitlab.Publish.{Client, Published, publish}

-- The publisher of the pipeline, and whether it clears the old comments.
pub record Publisher : Type 0 where
  pub client : Client
  pub clear_comments : Bool

-- The orders of the maps in `Normalize` and in `NormalizeDiff`, for each finding.
pub record Visits : Type 0 where
  pub in_normalize : ℕ → Visit
  pub in_normalize_diff : ℕ → Visit

module _ (visits : Visits) (unicode : Bytes → Bytes) (json : Json)
    (branch base_branch : Bytes) where
  -- The findings that are posted, placed on the lines of the diff.
  unfoldable pub inline_findings : DiffResult → FinalReview → List DiffFinding
  unfolding new_normalizer normalize_diff map_findings
  inline_findings diff review =
      normalize_diff visits.in_normalize_diff (new_normalizer diff) 0 (map_findings review.findings)

  -- The review with its lines corrected, for the summary.
  unfoldable pub normalized_review : DiffResult → FinalReview → FinalReview
  unfolding new_normalizer normalize
  normalized_review diff review = record review {
    findings = normalize visits.in_normalize (new_normalizer diff) 0 review.findings;
  }

  -- `none` when there is no publisher, no review or no diff: then nothing is called.
  unfoldable pub publish_review :
      Option Publisher → Option FinalReview → Option DiffResult → Option Published
  unfolding inline_findings normalized_review publish
  publish_review (some p) (some review) (some diff) = some (
      publish unicode json p.client p.clear_comments (some (normalized_review diff review))
        (inline_findings diff review) branch base_branch)
  publish_review _ _ _ = none
