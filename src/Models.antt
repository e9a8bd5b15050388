-- ===== src/Models.antt =====
-- internal/shared/models: the findings and reviews that the stages hand to one another.
use opencode_reviewer.Prelude.{List, Option}
use opencode_reviewer.GoText.{Bytes}
use opencode_reviewer.GoInt.{ℤ}

pub record ReviewMessageRef : Type 0 where
  pub id : Bytes
  pub path : Bytes
  pub sha256 : Bytes

pub record ReviewMessage : Type 0 where
  pub ref : ReviewMessageRef
  pub content : Bytes

pub record Finding : Type 0 where
  pub file : Bytes
  pub start_line : ℤ
  pub end_line : ℤ
  pub existing_code : Bytes
  pub confidence : Bytes
  pub issue_content : Bytes
  pub recommendation : Bytes

pub record FinalFinding : Type 0 where
  pub file : Bytes
  pub start_line : ℤ
  pub end_line : ℤ
  pub existing_code : Bytes
  pub confidence : Bytes
  pub issue_content : Bytes
  pub recommendation : Bytes
  pub sources : List Bytes
  pub source_message_refs : List ReviewMessageRef
  pub fallback_message_refs : List ReviewMessageRef

-- Why a response could not be parsed: the three error values of parse.go and parse_final.go.
pub data ParseErr : Type 0 where
  parse_tool_args : Bytes → ParseErr
  invalid_verdict : Bytes → ParseErr
  failed_json_fallback : ParseErr

pub record ReviewResult : Type 0 where
  pub raw : Bytes
  pub findings : List Finding
  pub parse_err : Option ParseErr
  pub summary : Bytes
  pub verdict : Bytes
  pub reviewer_name : Bytes
  pub message_ref : ReviewMessageRef

pub record FinalReview : Type 0 where
  pub raw : Bytes
  pub summary : Bytes
  pub verdict : Bytes
  pub findings : List FinalFinding
  pub parse_err : Option ParseErr
