-- ===== src/Diff/Types.antt =====
-- internal/shared/diff: the records of filediff.go, changetype.go and result.go.
use opencode_reviewer.Prelude.{ℕ, List}
use opencode_reviewer.GoText.{Bytes}

pub data ChangeType : Type 0 where
  added modified deleted renamed : ChangeType

-- A counter of lines cannot wrap: the lines are parts of a string in memory.
pub record FileDiff : Type 0 where
  pub path : Bytes
  pub old_path : Bytes
  pub language : Bytes
  pub change_type : ChangeType
  pub added : ℕ
  pub deleted : ℕ
  pub diff : Bytes

pub record DiffResult : Type 0 where
  pub files : List FileDiff
  pub filtered_files : List Bytes
  pub total_added : ℕ
  pub total_deleted : ℕ
  pub diff_stat : Bytes
  pub commit_log : Bytes
  pub branch : Bytes
  pub base_branch : Bytes
