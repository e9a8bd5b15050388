-- ===== src/Gitlab/Publish/Calls.antt =====
-- internal/shared/vcs/gitlab/publisher.go: which calls a publication makes, whatever is answered.

use opencode_reviewer.Prelude.{
  suc, ◌+◌, Bool, not, List, [], ◌∷◌, ◌++◌, Option, none, some, if◌then◌else◌, select, map, reverse,
  append_assoc, append-nil, reverse-append, ok, ◌≡◌, refl, sym, ap, ◌∙◌, length, arith,
}
use opencode_reviewer.GoText.{Bytes, is_empty}
use opencode_reviewer.GoInt.{ℤ}
use opencode_reviewer.Models.{FinalReview}
use opencode_reviewer.Vcs.Types.{DiffFinding}
use opencode_reviewer.Vcs.Marker.{Json}
use opencode_reviewer.Vcs.Format.{review_note_with_metadata}
use opencode_reviewer.Gitlab.Types.{DiffRefs}
use opencode_reviewer.Gitlab.Publish.{
  Call, find_merge_request, clear_mr_comments, get_mr_diff_refs, post_mr_note, Client, Run,
  ref_metadata, fallback_call, inline_call, record_post, post_note, post_notes, start_loop, publish,
  publish_findings,
}

calls-record_post :
    (run : Run) (call : Call) (e : Option Bytes) → (record_post run call e).calls ≡ call ∷ run.calls
calls-record_post run call none = refl
calls-record_post run call (some e) = refl

counts-record_post :
    (run : Run) (call : Call) (e : Option Bytes)
    → let done = record_post run call e in done.posted + done.failed ≡ suc (run.posted + run.failed)
counts-record_post run call none = omega arith
counts-record_post run call (some e) = omega arith

module _ (client : Client) where
  -- A loop makes the call of each finding once, in order, whichever of them fail.
  calls-post_notes :
      (note : DiffFinding → Call) (dfs : List DiffFinding) (run : Run)
      → reverse (post_notes client note dfs run).calls ≡ reverse run.calls ++ map note dfs
  unfolding post_notes
  calls-post_notes note [] run = sym (append-nil (reverse run.calls))
  calls-post_notes note (df ∷ dfs) run =
      calls-post_notes note dfs (post_note client run (note df))
      ∙ ap (λ l. reverse l ++ map note dfs)
          (calls-record_post run (note df) (client.post run.calls (note df)))
      ∙ ap (λ l. l ++ map note dfs) (reverse-append (note df ∷ []) run.calls)
      ∙ append_assoc (reverse run.calls) (note df ∷ []) (map note dfs)

  -- A loop counts every finding, as posted or as failed.
  pub counts-post_notes :
      (note : DiffFinding → Call) (dfs : List DiffFinding) (run : Run)
      → let done = post_notes client note dfs run in
        done.posted + done.failed ≡ length dfs + (run.posted + run.failed)
  unfolding post_notes
  counts-post_notes note [] run = omega arith
  counts-post_notes note (df ∷ dfs) run = omega (
    arith,
    counts-post_notes note dfs (post_note client run (note df)),
    counts-record_post run (note df) (client.post run.calls (note df)),
  )

module _ (unicode : Bytes → Bytes) (json : Json) (client : Client) where
  calls-two_loops :
      (n₁ n₂ : DiffFinding → Call) (fallback to_post : List DiffFinding) (calls : List Call)
      → let first = post_notes client n₁ fallback (start_loop calls) in
        let second = post_notes client n₂ to_post (start_loop first.calls) in
        reverse (if is_empty to_post then first.calls else second.calls)
        ≡ reverse calls ++ (map n₁ fallback ++ map n₂ to_post)
  calls-two_loops n₁ n₂ fallback [] calls =
      calls-post_notes client n₁ fallback (start_loop calls)
      ∙ ap (◌++◌ (reverse calls)) (sym (append-nil (map n₁ fallback)))
  calls-two_loops n₁ n₂ fallback (df ∷ dfs) calls =
      let first = post_notes client n₁ fallback (start_loop calls) in
      calls-post_notes client n₂ (df ∷ dfs) (start_loop first.calls)
      ∙ ap (λ l. l ++ map n₂ (df ∷ dfs)) (calls-post_notes client n₁ fallback (start_loop calls))
      ∙ append_assoc (reverse calls) (map n₁ fallback) (map n₂ (df ∷ dfs))

  calls-publish_findings :
      (iid : ℤ) (refs : DiffRefs) (inline : List DiffFinding) (calls : List Call)
      → reverse (publish_findings unicode json client iid refs inline calls)
        ≡ reverse calls
          ++ (map (fallback_call unicode json iid refs) (select (λ df. not df.in_diff) inline)
              ++ map (inline_call unicode json iid refs) (select (λ df. df.in_diff) inline))
  unfolding publish_findings
  calls-publish_findings iid refs [] calls = sym (append-nil (reverse calls))
  calls-publish_findings iid refs (df ∷ dfs) calls =
      calls-two_loops (fallback_call unicode json iid refs) (inline_call unicode json iid refs)
        (select (λ df. not df.in_diff) (df ∷ dfs)) (select (λ df. df.in_diff) (df ∷ dfs)) calls

  -- When the merge request and its references are found and the summary is posted, `Publish`
  -- succeeds, and its calls are, in order: the search, the clearing if it is asked for, the
  -- references, the summary, a plain note for each finding outside the diff, and an inline note for
  -- each finding inside it; every finding is tried exactly once, whatever the notes' posts answer.
  pub publish-calls :
      (clear : Bool) (review : Option FinalReview) (inline : List DiffFinding)
      (source target : Bytes) (iid : ℤ) (refs : DiffRefs)
      → let setup =
          if clear
          then clear_mr_comments iid ∷ find_merge_request source target ∷ []
          else find_merge_request source target ∷ [] in
        let summary =
          post_mr_note iid (review_note_with_metadata unicode json review (ref_metadata refs)) in
        client.find [] source target ≡ ok iid
        → client.diff_refs setup iid ≡ ok refs
        → client.post (get_mr_diff_refs iid ∷ setup) summary ≡ none
        → publish unicode json client clear review inline source target ≡ record {
          made =
              reverse setup
              ++ (get_mr_diff_refs iid
                  ∷ summary
                  ∷ (map
                        (fallback_call unicode json iid refs)
                        (select (λ df. not df.in_diff) inline)
                      ++ map
                          (inline_call unicode json iid refs)
                          (select (λ df. df.in_diff) inline)));
          error = none;
        }
  unfolding publish
  publish-calls clear review inline source target iid refs found referred posted =
      let setup =
        if clear
        then clear_mr_comments iid ∷ find_merge_request source target ∷ []
        else find_merge_request source target ∷ [] in
      let summary =
        post_mr_note iid (review_note_with_metadata unicode json review (ref_metadata refs)) in
      let notes =
        map (fallback_call unicode json iid refs) (select (λ df. not df.in_diff) inline)
        ++ map (inline_call unicode json iid refs) (select (λ df. df.in_diff) inline) in
      rw (found, publish)
        (rw referred (
          rw posted (
            ap (λ l. record { made = l; error = none })
              (calls-publish_findings iid refs inline (summary ∷ get_mr_diff_refs iid ∷ setup)
                ∙ ap (λ l. l ++ notes) (reverse-append (summary ∷ get_mr_diff_refs iid ∷ []) setup)
                ∙ append_assoc (reverse setup) (get_mr_diff_refs iid ∷ summary ∷ []) notes))))
