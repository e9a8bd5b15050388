-- ===== src/Review/Parse.antt =====
-- internal/review/parse.go and parse_final.go: the arguments of a tool call, or the text of a
-- fallback, parsed into a review.
pub mod Fence
use opencode_reviewer.Prelude.{
  ℕ, suc, ◌+◌, Bool, true, false, not, ◌&&◌, ◌||◌, List, [], ◌∷◌, ◌++◌, reverse, Option, none, some,
  ◌==◌, if◌then◌else◌, length, drop, ltb, Result, ok, err,
}
use opencode_reviewer.GoText.{
  Bytes, codes, bytes_eq, has_prefix, trim_suffix, index, trim_space, is_empty,
}
use opencode_reviewer.Models.{
  ReviewMessageRef, Finding, FinalFinding, ParseErr, parse_tool_args, invalid_verdict,
  failed_json_fallback, ReviewResult, FinalReview,
}

-- A missing or null list of findings is `none`.
pub record SubmitReviewArgs : Type 0 where
  pub reviewer_name : Bytes
  pub summary : Bytes
  pub verdict : Bytes
  pub findings : Option (List Finding)

pub record SubmitFinalReviewArgs : Type 0 where
  pub summary : Bytes
  pub verdict : Bytes
  pub findings : Option (List FinalFinding)

-- The strings of an object of any shape: `none` for a field that is missing or no string.
pub record RawArgs : Type 0 where
  pub reviewer_name : Option Bytes
  pub summary : Option Bytes
  pub verdict : Option Bytes

-- `encoding/json` on the responses: its reflection over the structs is not modelled.
pub record Decoder : Type 0 where
  pub args : Bytes → Result Bytes SubmitReviewArgs
  pub final_args : Bytes → Result Bytes SubmitFinalReviewArgs
  pub raw : Bytes → Option RawArgs

unfoldable pub valid_final_verdict : Bytes → Bool
unfolding bytes_eq
valid_final_verdict v =
    bytes_eq v (codes "approve")
    || bytes_eq v (codes "request_changes")
    || bytes_eq v (codes "comment_only")

unfoldable pub valid_verdict : Bytes → Bool
unfolding valid_final_verdict bytes_eq
valid_verdict v = valid_final_verdict v || bytes_eq v (codes "skipped")

-- The bytes that `strings.TrimRight` cuts off here.
abbrev pub fence_space : ℕ → Bool
fence_space c = c == 32 || c == 9 || c == 10 || c == 13

unfoldable pub skip_fence_space : Bytes → Bytes
skip_fence_space [] = []
skip_fence_space (c ∷ s) = let rest = skip_fence_space s in if fence_space c then rest else c ∷ s

-- `strings.TrimRight(s, " \t\n\r")`
unfoldable pub trim_right : Bytes → Bytes
unfolding skip_fence_space
trim_right s = reverse (skip_fence_space (reverse s))

unfoldable pub strip_code_fence : Bytes → Bytes
unfolding has_prefix index trim_suffix trim_right
strip_code_fence s = if not (has_prefix s (codes "```")) then s else elim (index s (codes "\n")) [
  | none ↦ s
  | some newline ↦ trim_right (trim_suffix (drop (suc newline) s) (codes "```"))
]

abbrev pub or_empty : {A : Type 0} → Option (List A) → List A
or_empty none = []
or_empty (some xs) = xs

-- The error of a verdict that is not known.
abbrev pub verdict_err : Bool → Bytes → Option ParseErr
verdict_err known verdict = if known then none else some (invalid_verdict verdict)

abbrev pub blank_ref : ReviewMessageRef
blank_ref = record { id = []; path = []; sha256 = [] }

abbrev pub result_of_args : SubmitReviewArgs → ReviewResult
result_of_args a = record {
  raw = [];
  findings = or_empty a.findings;
  parse_err = verdict_err (valid_verdict a.verdict) a.verdict;
  summary = a.summary;
  verdict = a.verdict;
  reviewer_name = a.reviewer_name;
  message_ref = blank_ref;
}

abbrev pub final_of_args : SubmitFinalReviewArgs → FinalReview
final_of_args a = record {
  raw = [];
  summary = a.summary;
  verdict = a.verdict;
  findings = or_empty a.findings;
  parse_err = verdict_err (valid_final_verdict a.verdict) a.verdict;
}

abbrev pub fallback_result : Bytes → ReviewResult
fallback_result raw = record {
  raw = raw;
  findings = [];
  parse_err = some failed_json_fallback;
  summary = [];
  verdict = [];
  reviewer_name = [];
  message_ref = blank_ref;
}

abbrev pub fallback_final : Bytes → FinalReview
fallback_final raw = record {
  raw = raw;
  summary = [];
  verdict = [];
  findings = [];
  parse_err = some failed_json_fallback;
}

abbrev or_missing : (RawArgs → Option Bytes) → Option RawArgs → Bytes
or_missing field none = []
or_missing field (some r) = elim (field r) [ none ↦ [] | some s ↦ s ]

abbrev is_given : {A : Type 0} → Option A → Bool
is_given none = false
is_given (some a) = true

module _ (decoder : Decoder) where
  -- The result of `ParseToolArgs` when the arguments do not decode: the strings that can be read.
  abbrev broken_args : Bytes → Bytes → ReviewResult
  broken_args data_bytes e =
      let r = decoder.raw data_bytes in
      record {
        raw = [];
        findings = [];
        parse_err = some (parse_tool_args e);
        summary = or_missing (λ (a : RawArgs). a.summary) r;
        verdict = or_missing (λ (a : RawArgs). a.verdict) r;
        reviewer_name = or_missing (λ (a : RawArgs). a.reviewer_name) r;
        message_ref = blank_ref;
      }

  unfoldable pub parse_args : Bytes → ReviewResult
  unfolding valid_verdict
  parse_args bytes = elim (decoder.args bytes) [
    | err e ↦ broken_args bytes e
    | ok a ↦ result_of_args a
  ]

  unfoldable pub parse : Bytes → ReviewResult
  unfolding strip_code_fence trim_space valid_verdict
  parse raw = elim (decoder.args (strip_code_fence (trim_space raw))) [
    | err e ↦ fallback_result raw
    | ok a ↦
        if not (is_empty a.verdict) && is_given a.findings
        then result_of_args a
        else fallback_result raw
  ]

  unfoldable pub parse_final : Bytes → FinalReview
  unfolding strip_code_fence trim_space valid_final_verdict
  parse_final raw = elim (decoder.final_args (strip_code_fence (trim_space raw))) [
    | err e ↦ fallback_final raw
    | ok a ↦
        if not (is_empty a.verdict) && is_given a.findings
        then final_of_args a
        else fallback_final raw
  ]

  unfoldable pub parse_final_args : Bytes → FinalReview
  unfolding valid_final_verdict
  parse_final_args bytes = elim (decoder.final_args bytes) [
    | err e ↦
        let r = decoder.raw bytes in
        record {
          raw = [];
          summary = or_missing (λ (a : RawArgs). a.summary) r;
          verdict = or_missing (λ (a : RawArgs). a.verdict) r;
          findings = [];
          parse_err = some (parse_tool_args e);
        }
    | ok a ↦ final_of_args a
  ]
