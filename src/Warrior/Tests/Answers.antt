-- ===== src/Warrior/Tests/Answers.antt =====
-- Decisions, their answers and the choice of discussions, at concrete inputs.
use opencode_reviewer.Prelude.{true, false, [], ◌∷◌, none, ◌≡◌, refl, ◌⊎◌, arith}
use opencode_reviewer.GoText.{codes, index, has_prefix, bytes_eq, trim_space, is_empty}
use opencode_reviewer.GoInt.{pos}
use opencode_reviewer.Gitlab.Types.{Note, Discussion}
use opencode_reviewer.Vcs.Marker.{MarkerMetadata, Json}
use opencode_reviewer.Vcs.Marker.RoundTrip.{IsWritable}
use opencode_reviewer.Warrior.Classifier.{
  ai_finding, classify_discussion, should_process_discussion, discussion_resolved,
  discussion_resolved_in,
}
use opencode_reviewer.Warrior.Decision.{
  Decision, validate_decision, apply_decision, noop_action, should_confirm_closure, reply_body,
  metadata_none,
}
use opencode_reviewer.Warrior.Decision.Applied.{with_reply, should_process_discussion-answered}
use opencode_reviewer.Warrior.Decision.Validated.{Acts, apply_decision-validated}
use opencode_reviewer.Warrior.Filter.{PipelineConfig, filter_processable_discussions}
use opencode_reviewer.Warrior.Filter.Chosen.{
  chosen, limit_to, filter_processable_discussions-chosen,
}
use opencode_reviewer.Warrior.Tests.{
  same, one_json, note_by, leak_json, leak_discussion, outside_discussion,
}

closure-IsWritable :
    (m : MarkerMetadata) → IsWritable (one_json m) (codes "closure-confirmed") (codes "{}") m
closure-IsWritable m = record {
  kind_chars = (
    refl,
    (
      refl,
      (
        refl,
        (
          refl,
          (
            refl,
            (
              refl,
              (
                refl,
                (refl, (refl, (refl, (refl, (refl, (refl, (refl, (refl, (refl, (refl, tt)))))))))),
              ),
            ),
          ),
        ),
      ),
    ),
  );
  kind_filled = refl;
  marshals = refl;
  unmarshals = refl;
  are_bytes = (omega arith, (omega arith, tt));
  bytes_filled = refl;
}

abbrev fixed : Decision
fixed = record {
  action = codes "resolve";
  body = codes "Fixed.";
  confidence = codes "high";
  would_modify_code = false;
  needs_human = false;
  reason = [];
}

abbrev closure_json : Json
closure_json = one_json metadata_none

-- A finding that somebody has resolved.
abbrev resolved_discussion : Discussion
resolved_discussion = record {
  id = codes "d3";
  individual_note = false;
  notes = note_by 1 true (codes "A leak.") ∷ [];
}

abbrev answer : Note
answer = note_by 1 true (
    reply_body closure_json (codes "Fixed.")
      (should_confirm_closure ai_finding resolved_discussion fixed))

should_process_discussion-answered_example :
    should_process_discussion same closure_json
      (classify_discussion same closure_json (with_reply resolved_discussion answer) (pos 1))
      (with_reply resolved_discussion answer)
      (pos 1)
    ≡ false
should_process_discussion-answered_example =
    should_process_discussion-answered same closure_json (pos 1) resolved_discussion answer
      ai_finding fixed (codes "{}") refl refl refl refl (unfold index has_prefix in refl)
      (closure-IsWritable metadata_none)
      (λ h.
        unfold should_confirm_closure discussion_resolved discussion_resolved_in bytes_eq in refl)

apply_decision-validated_example :
    let done = apply_decision closure_json (λ before effect. none) (codes "d3") fixed true in
    ((fixed.action ≡ noop_action) × (done ≡ record { effects = []; error = none }))
    ⊎ ((fixed.needs_human ≡ false)
        × (is_empty (trim_space fixed.body) ≡ false)
        × Acts closure_json
            (λ before effect. none)
            (codes "d3")
            fixed.action
            true
            (reply_body closure_json fixed.body)
            done)
apply_decision-validated_example =
    apply_decision-validated closure_json (λ before effect. none) (codes "d3") fixed true
      (unfold validate_decision bytes_eq trim_space in refl)

abbrev one_at_a_time : PipelineConfig
one_at_a_time = record {
  project_dir = [];
  branch = codes "topic";
  base_branch = codes "main";
  mr_iid = pos 7;
  dry_run = false;
  max_discussions = pos 1;
  discussion_id = [];
}

filter_processable_discussions-chosen_example :
    filter_processable_discussions same leak_json one_at_a_time
      (outside_discussion ∷ leak_discussion ∷ leak_discussion ∷ [])
      (pos 1)
    ≡ limit_to (pos 1) (
        chosen same leak_json one_at_a_time
          (pos 1)
          (outside_discussion ∷ leak_discussion ∷ leak_discussion ∷ []))
filter_processable_discussions-chosen_example =
    filter_processable_discussions-chosen same leak_json one_at_a_time (pos 1)
      (outside_discussion ∷ leak_discussion ∷ leak_discussion ∷ [])
