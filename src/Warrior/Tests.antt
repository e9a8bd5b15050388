-- ===== src/Warrior/Tests.antt =====
-- Runs of the classification and of a decision on small discussions, and the theorems at concrete
-- inputs.
mod Answers
use opencode_reviewer.Prelude.{
  ℕ, Bool, true, false, [], ◌∷◌, none, some, ◌≡◌, refl, ◌⊎◌, ◌↔◌, arith,
}
use opencode_reviewer.GoText.{
  Bytes, codes, index, has_prefix, to_lower, bytes_eq, trim_space, is_empty,
}
use opencode_reviewer.GoInt.{pos}
use opencode_reviewer.Models.{FinalFinding}
use opencode_reviewer.Gitlab.Types.{Note, Discussion}
use opencode_reviewer.Vcs.Types.{DiffFinding}
use opencode_reviewer.Vcs.Marker.{MarkerMetadata, Json}
use opencode_reviewer.Vcs.Marker.RoundTrip.{IsWritable}
use opencode_reviewer.Vcs.Format.{
  format_finding_note, format_fallback_note, finding_note_with_metadata,
  fallback_note_with_metadata, finding_metadata, fallback_metadata, show_int,
}
use opencode_reviewer.Warrior.Classifier.{
  ai_finding, contains_ai_marker, mention_from, free_before, free_at, is_marker_char, mention_in,
  has_unhandled_ai_mention, classify_discussion, should_process_discussion, discussion_resolved,
  discussion_resolved_in,
}
use opencode_reviewer.Warrior.Classifier.Mention.{IsMention, contains_ai_marker-IsMention}
use opencode_reviewer.Warrior.Decision.{
  Decision, validate_decision, apply_decision, noop_action, should_confirm_closure, reply_body,
  metadata_none,
}
use opencode_reviewer.Warrior.Decision.Applied.{with_reply, should_process_discussion-answered}
use opencode_reviewer.Warrior.Decision.Validated.{Acts, apply_decision-validated}
use opencode_reviewer.Warrior.Filter.{PipelineConfig, filter_processable_discussions}
use opencode_reviewer.Warrior.Filter.Chosen.{
  chosen, limit_to, filter_processable_discussions-chosen,
}
use opencode_reviewer.Warrior.Task.{first_ref_path, source_review_prompt_path}
use opencode_reviewer.Warrior.Posted.{
  classify_discussion-finding_note, classify_discussion-fallback_note,
}

test_mention : contains_ai_marker (codes "see #ai, please") ≡ true
unfolding contains_ai_marker mention_from index has_prefix free_before free_at is_marker_char
test_mention = refl

test_tag : contains_ai_marker (codes "##ai #ai2 x#ai") ≡ false
unfolding contains_ai_marker mention_from index has_prefix free_before free_at is_marker_char
test_tag = refl

contains_ai_marker-IsMention_example :
    (contains_ai_marker (codes "x #ai") ≡ true) ↔ ((at : ℕ) × IsMention (codes "x #ai") at)
contains_ai_marker-IsMention_example = contains_ai_marker-IsMention (codes "x #ai")

abbrev pub same : Bytes → Bytes
same s = s

-- A codec that knows one value.
abbrev pub one_json : MarkerMetadata → Json
one_json m = record { marshal = λ x. some (codes "{}"); unmarshal = λ b. some m }

finding-IsWritable : (m : MarkerMetadata) → IsWritable (one_json m) (codes "finding") (codes "{}") m
finding-IsWritable m = record {
  kind_chars = (refl, (refl, (refl, (refl, (refl, (refl, (refl, tt)))))));
  kind_filled = refl;
  marshals = refl;
  unmarshals = refl;
  are_bytes = (omega arith, (omega arith, tt));
  bytes_filled = refl;
}

abbrev pub note_by : ℕ → Bool → Bytes → Note
note_by author resolved body = record {
  id = pos 5;
  body = body;
  system = false;
  resolvable = true;
  resolved = resolved;
  author = record { id = pos author; username = []; name = [] };
  position = none;
}

abbrev leak : FinalFinding
leak = record {
  file = codes "a.go";
  start_line = pos 3;
  end_line = pos 3;
  existing_code = [];
  confidence = codes "low";
  issue_content = codes "A leak.";
  recommendation = [];
  sources = [];
  source_message_refs = record { id = []; path = codes "p.md"; sha256 = [] } ∷ [];
  fallback_message_refs = [];
}

abbrev leak_outside : DiffFinding
leak_outside = record {
  old_path = codes "a.go";
  new_path = codes "a.go";
  old_line = pos 0;
  new_line = pos 3;
  in_diff = false;
  source = leak;
}

abbrev pub leak_json : Json
leak_json = one_json (finding_metadata leak metadata_none)

abbrev leak_note : Note
leak_note = note_by 1 false (finding_note_with_metadata same leak_json leak metadata_none)

abbrev pub leak_discussion : Discussion
leak_discussion = record {
  id = codes "d1";
  individual_note = false;
  notes = leak_note ∷ note_by 2 false (codes "Is it one?") ∷ [];
}

leak_quiet : has_unhandled_ai_mention same leak_discussion (pos 1) ≡ false
unfolding has_unhandled_ai_mention mention_in contains_ai_marker mention_from index has_prefix
    to_lower
leak_quiet = refl

classify_discussion-finding_note_example :
    (classify_discussion same leak_json leak_discussion (pos 1) ≡ ai_finding)
    × (source_review_prompt_path leak_json leak_discussion
        ≡ first_ref_path leak.source_message_refs)
classify_discussion-finding_note_example =
    classify_discussion-finding_note same leak_json (pos 1) leak_discussion leak_note
      (note_by 2 false (codes "Is it one?") ∷ []) leak metadata_none (codes "{}") refl refl
      leak_quiet refl (unfold format_finding_note index has_prefix in refl)
      (unfold finding_metadata in finding-IsWritable _)

abbrev outside_json : Json
outside_json = one_json (fallback_metadata leak_outside metadata_none)

abbrev outside_note : Note
outside_note =
    note_by 1 false (fallback_note_with_metadata same outside_json leak_outside metadata_none)

abbrev pub outside_discussion : Discussion
outside_discussion = record { id = codes "d2"; individual_note = false; notes = outside_note ∷ [] }

outside_quiet : has_unhandled_ai_mention same outside_discussion (pos 1) ≡ false
unfolding has_unhandled_ai_mention mention_in
outside_quiet = refl

classify_discussion-fallback_note_example :
    (classify_discussion same outside_json outside_discussion (pos 1) ≡ ai_finding)
    × (source_review_prompt_path outside_json outside_discussion
        ≡ first_ref_path leak.source_message_refs)
classify_discussion-fallback_note_example =
    classify_discussion-fallback_note same outside_json (pos 1) outside_discussion outside_note []
      leak_outside metadata_none (codes "{}") refl refl outside_quiet refl
      (unfold format_fallback_note format_finding_note show_int index has_prefix in refl)
      (unfold fallback_metadata in finding-IsWritable _)
