-- ===== src/Warrior/Decision.antt =====
-- internal/commentwarrior/decision.go and pipeline.go: decisions, their validation, and what they
-- do to the discussion.
pub mod Applied
pub mod Validated
use opencode_reviewer.Prelude.{
  Bool, true, false, not, ◌&&◌, ◌||◌, List, [], ◌∷◌, ◌++◌, Option, none, some, if◌then◌else◌,
  Result, ok, err, ◌>>=◌,
}
use opencode_reviewer.GoText.{Bytes, codes, bytes_eq, is_empty, trim_space}
use opencode_reviewer.GoInt.{ℤ}
use opencode_reviewer.Gitlab.Types.{Discussion}
use opencode_reviewer.Vcs.Marker.{MarkerMetadata, Json, append_marker}
use opencode_reviewer.Warrior.Classifier.{
  Classification, ignore, ai_finding, human_mention_ai, discussion_resolved,
}

-- The action is a string of the response until it is validated.
pub record Decision : Type 0 where
  pub action : Bytes
  pub body : Bytes
  pub confidence : Bytes
  pub would_modify_code : Bool
  pub needs_human : Bool
  pub reason : Bytes

pub data DecisionErr : Type 0 where
  parse_decision : Bytes → DecisionErr
  unknown_action : Bytes → DecisionErr
  unknown_confidence : Bytes → DecisionErr
  would_modify : DecisionErr
  must_use_noop : DecisionErr
  requires_body : Bytes → DecisionErr

abbrev pub noop_action : Bytes
noop_action = codes "noop"

abbrev pub is_action : Bytes → Bool
is_action a =
    bytes_eq a (codes "reply")
    || bytes_eq a (codes "resolve")
    || bytes_eq a (codes "unresolve")
    || bytes_eq a noop_action

abbrev pub is_confidence : Bytes → Bool
is_confidence c =
    bytes_eq c (codes "high") || bytes_eq c (codes "medium") || bytes_eq c (codes "low")

-- `none` is no error.
unfoldable pub validate_decision : Decision → Option DecisionErr
unfolding bytes_eq trim_space
validate_decision d =
    if not (is_action d.action)
    then some (unknown_action d.action)
    else if not (is_confidence d.confidence)
    then some (unknown_confidence d.confidence)
    else if d.would_modify_code
    then some would_modify
    else if d.needs_human && not (bytes_eq d.action noop_action)
    then some must_use_noop
    else if not (bytes_eq d.action noop_action) && is_empty (trim_space d.body)
    then some (requires_body d.action)
    else none

abbrev checked : Decision → Option DecisionErr → Result DecisionErr Decision
checked d (some e) = err e
checked d none = ok d

-- `encoding/json` decodes the response: its reflection over the struct is the function `unmarshal`.
unfoldable pub parse_decision_with :
    (Bytes → Result Bytes Decision) → Bytes → Result DecisionErr Decision
unfolding validate_decision
parse_decision_with unmarshal bytes = elim (unmarshal bytes) [
  | err e ↦ err (parse_decision e)
  | ok d ↦ checked d (validate_decision d)
]

unfoldable pub should_confirm_closure : Classification → Discussion → Decision → Bool
unfolding discussion_resolved bytes_eq
should_confirm_closure ai_finding d decision =
    if discussion_resolved d
    then bytes_eq decision.action (codes "reply") || bytes_eq decision.action (codes "resolve")
    else bytes_eq decision.action (codes "resolve")
should_confirm_closure _ d decision = false

-- A call on the discussion.
pub data Effect : Type 0 where
  reply_to : Bytes → Bytes → Effect
  set_resolved : Bytes → Bool → Effect

-- What the client answers to a call, given the calls made before it: its error, if any.
abbrev pub Answers : Type 0
Answers = List Effect → Effect → Option Bytes

-- The calls made, in order, and the error that ended them, if any.
pub record AppliedTo : Type 0 where
  pub effects : List Effect
  pub error : Option Bytes

abbrev pub metadata_none : MarkerMetadata
metadata_none = record {
  id = [];
  base_sha = [];
  head_sha = [];
  start_sha = [];
  file = [];
  start_line = ℤ.pos 0;
  end_line = ℤ.pos 0;
  old_path = [];
  new_path = [];
  old_line = ℤ.pos 0;
  new_line = ℤ.pos 0;
  source_message_refs = [];
  fallback_message_refs = [];
}

module _ (json : Json) where
  unfoldable pub reply_body : Bytes → Bool → Bytes
  unfolding append_marker
  reply_body body confirmation =
      if confirmation
      then append_marker json body (codes "closure-confirmed") metadata_none
      else body

module _ (json : Json) (answers : Answers) where
  -- One call, made last.
  abbrev pub finish : List Effect → Effect → AppliedTo
  finish before effect = record { effects = before ++ (effect ∷ []); error = answers before effect }

  -- A reply, and the new state behind it unless the reply fails.
  abbrev pub after_reply : Bytes → Bytes → Bool → Option Bytes → AppliedTo
  after_reply id body resolved (some e) = record { effects = reply_to id body ∷ []; error = some e }
  after_reply id body resolved none = finish (reply_to id body ∷ []) (set_resolved id resolved)

  abbrev pub reply_and_set : Bytes → Bytes → Bool → AppliedTo
  reply_and_set id body resolved = after_reply id body resolved (answers [] (reply_to id body))

  unfoldable pub apply_decision : Bytes → Decision → Bool → AppliedTo
  unfolding bytes_eq reply_body
  apply_decision id d confirmation =
      let resolve =
        if not (is_empty d.body)
        then reply_and_set id (reply_body json d.body confirmation) true
        else finish [] (set_resolved id true) in
      let unresolve =
        if not (is_empty d.body)
        then reply_and_set id (reply_body json d.body false) false
        else finish [] (set_resolved id false) in
      if bytes_eq d.action (codes "reply")
      then finish [] (reply_to id (reply_body json d.body confirmation))
      else if bytes_eq d.action (codes "resolve")
      then resolve
      else if bytes_eq d.action (codes "unresolve")
      then unresolve
      else if bytes_eq d.action noop_action
      then record { effects = []; error = none }
      else record { effects = []; error = some (codes "unsupported action") }
