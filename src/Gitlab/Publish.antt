-- ===== src/Gitlab/Publish.antt =====
-- internal/shared/vcs/gitlab/publisher.go: `Publish` as the sequence of the calls that it makes.
pub mod Calls
pub mod Stops
use opencode_reviewer.Prelude.{
  ℕ, zero, suc, Bool, true, false, not, List, [], ◌∷◌, ◌++◌, Option, none, some, if◌then◌else◌,
  select, reverse, Result, ok, err,
}
use opencode_reviewer.GoText.{Bytes, is_empty}
use opencode_reviewer.GoInt.{ℤ}
use opencode_reviewer.Models.{FinalFinding, FinalReview}
use opencode_reviewer.Vcs.Types.{DiffFinding}
use opencode_reviewer.Vcs.Marker.{MarkerMetadata, Json}
use opencode_reviewer.Vcs.Format.{
  review_note_with_metadata, finding_note_with_metadata, fallback_note_with_metadata,
}
use opencode_reviewer.Gitlab.Types.{DiffRefs}

-- The calls of the client's methods, with their arguments.
pub data Call : Type 0 where
  find_merge_request : Bytes → Bytes → Call
  clear_mr_comments : ℤ → Call
  get_mr_diff_refs : ℤ → Call
  post_mr_note : ℤ → Bytes → Call
  post_diff_note : ℤ → Bytes → DiffRefs → Bytes → Bytes → ℤ → ℤ → Call

-- What the client answers, which may depend on every call made before: the number of the merge
-- request, the references, and the error of a post, if any. What it answers to
-- `clear_mr_comments` is only logged.
pub record Client : Type 0 where
  pub find : List Call → Bytes → Bytes → Result Bytes ℤ
  pub diff_refs : List Call → ℤ → Result Bytes DiffRefs
  pub post : List Call → Call → Option Bytes

-- The calls made so far, the last one first, and the counts of posted and failed notes of the loop
-- that ran last.
pub record Run : Type 0 where
  pub calls : List Call
  pub posted : ℕ
  pub failed : ℕ

-- What `Publish` leaves behind: its calls in order, and its error, if any.
pub record Published : Type 0 where
  pub made : List Call
  pub error : Option Bytes

abbrev pub ref_metadata : DiffRefs → MarkerMetadata
ref_metadata refs = record {
  id = [];
  base_sha = refs.base_sha;
  head_sha = refs.head_sha;
  start_sha = refs.start_sha;
  file = [];
  start_line = ℤ.pos 0;
  end_line = ℤ.pos 0;
  old_path = [];
  new_path = [];
  old_line = ℤ.pos 0;
  new_line = ℤ.pos 0;
  source_message_refs = [];
  fallback_message_refs = [];
}

module _ (unicode : Bytes → Bytes) (json : Json) where
  -- The call that posts a finding as a plain note, and the one that posts it on its line.
  unfoldable pub fallback_call : ℤ → DiffRefs → DiffFinding → Call
  unfolding fallback_note_with_metadata
  fallback_call iid refs df =
      post_mr_note iid (fallback_note_with_metadata unicode json df (ref_metadata refs))

  unfoldable pub inline_call : ℤ → DiffRefs → DiffFinding → Call
  unfolding finding_note_with_metadata
  inline_call iid refs df =
      post_diff_note iid (finding_note_with_metadata unicode json df.source (ref_metadata refs))
        refs df.old_path df.new_path df.old_line df.new_line

-- One note of a loop: a failure is counted, and the loop goes on.
abbrev pub record_post : Run → Call → Option Bytes → Run
record_post run call none = record {
  calls = call ∷ run.calls;
  posted = suc run.posted;
  failed = run.failed;
}
record_post run call (some e) = record {
  calls = call ∷ run.calls;
  posted = run.posted;
  failed = suc run.failed;
}

module _ (client : Client) where
  abbrev pub post_note : Run → Call → Run
  post_note run call = record_post run call (client.post run.calls call)

  unfoldable pub post_notes : (DiffFinding → Call) → List DiffFinding → Run → Run
  post_notes note [] run = run
  post_notes note (df ∷ dfs) run = post_notes note dfs (post_note run (note df))

-- A loop with no finding makes no call; the counts start anew in front of each loop.
abbrev pub start_loop : List Call → Run
start_loop calls = record { calls = calls; posted = 0; failed = 0 }

abbrev stop : List Call → Bytes → Published
stop calls e = record { made = reverse calls; error = some e }

module _ (unicode : Bytes → Bytes) (json : Json) (client : Client) where
  -- What follows the summary: first the findings outside the hunks, then the others.
  unfoldable pub publish_findings : ℤ → DiffRefs → List DiffFinding → List Call → List Call
  unfolding post_notes fallback_call inline_call
  publish_findings iid refs inline calls =
      let to_post = select (λ df. df.in_diff) inline in
      let fallback = select (λ df. not df.in_diff) inline in
      let first =
        post_notes client (fallback_call unicode json iid refs) fallback (start_loop calls) in
      let second =
        post_notes client (inline_call unicode json iid refs) to_post (start_loop first.calls) in
      if is_empty inline then calls else if is_empty to_post then first.calls else second.calls

  unfoldable pub publish : Bool → Option FinalReview → List DiffFinding → Bytes → Bytes → Published
  unfolding review_note_with_metadata publish_findings
  publish clear_comments review inline source_branch target_branch =
      let found = find_merge_request source_branch target_branch ∷ [] in
      elim (client.find [] source_branch target_branch) [
        | err e ↦ stop found e
        | ok iid ↦
            let cleared = if clear_comments then clear_mr_comments iid ∷ found else found in
            elim (client.diff_refs cleared iid) [
              | err e ↦ stop (get_mr_diff_refs iid ∷ cleared) e
              | ok refs ↦
                  let note = review_note_with_metadata unicode json review (ref_metadata refs) in
                  let summary = post_mr_note iid note in
                  elim (client.post (get_mr_diff_refs iid ∷ cleared) summary) [
                    | some e ↦ stop (summary ∷ get_mr_diff_refs iid ∷ cleared) e
                    | none ↦ record {
                      made = reverse (
                          publish_findings iid refs inline
                            (summary ∷ get_mr_diff_refs iid ∷ cleared));
                      error = none;
                    }
                  ]
            ]
      ]
