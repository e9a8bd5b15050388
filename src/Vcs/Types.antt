-- ===== src/Vcs/Types.antt =====
-- internal/shared/vcs: the records of diffline.go and diff_finding.go.
use opencode_reviewer.Prelude.{Bool}
use opencode_reviewer.GoText.{Bytes}
use opencode_reviewer.GoInt.{ℤ}
use opencode_reviewer.Models.{FinalFinding}

-- The strings "+", "-" and " " of `DiffLine.Origin`.
pub data Origin : Type 0 where
  plus minus context : Origin

pub record DiffLine : Type 0 where
  pub content : Bytes
  pub old_num : ℤ
  pub new_num : ℤ
  pub origin : Origin

pub record DiffFinding : Type 0 where
  pub old_path : Bytes
  pub new_path : Bytes
  pub old_line : ℤ
  pub new_line : ℤ
  pub in_diff : Bool
  pub source : FinalFinding
