-- ===== src/Diff/Prepare.antt =====
-- internal/shared/diff/diff.go: `Prepare` and `EstimateTokens`.
use opencode_reviewer.Prelude.{
  ℕ, ◌+◌, ◌/◌, List, [], ◌∷◌, if◌then◌else◌, length, Result, ok, ◌>>=◌, wrap_err,
}
use opencode_reviewer.GoText.{Bytes, trim_space}
use opencode_reviewer.Diff.Types.{FileDiff, DiffResult}
use opencode_reviewer.Diff.Filter.{is_noise, sort_files}
use opencode_reviewer.Diff.Parse.{parse_files, strip_diff_headers}

-- The three commands of `git.Client` that `Prepare` runs, each given the base and the head.
pub record GitClient (E : Type 0) : Type 0 where
  pub diff_for_review : Bytes → Bytes → Result E Bytes
  pub diff_stat : Bytes → Bytes → Result E Bytes
  pub log : Bytes → Bytes → Result E Bytes

-- The step that failed, with the error of git.
pub data PrepareErr (E : Type 0) : Type 0 where
  diff_prepare diff_stat_err diff_log : E → PrepareErr E

-- The loop that tells noise from files: what is kept, and the paths that are not.
unfoldable pub keep_files : List FileDiff → List FileDiff × List Bytes
unfolding is_noise
keep_files [] = ([], [])
keep_files (f ∷ fs) =
    let (files, filtered) = keep_files fs in
    if is_noise f.path then (files, f.path ∷ filtered) else (f ∷ files, filtered)

unfoldable pub total_added_of : List FileDiff → ℕ
total_added_of [] = 0
total_added_of (f ∷ fs) = f.added + total_added_of fs

unfoldable pub total_deleted_of : List FileDiff → ℕ
total_deleted_of [] = 0
total_deleted_of (f ∷ fs) = f.deleted + total_deleted_of fs

-- The result of `Prepare` once git has answered.
unfoldable pub assemble : Bytes → Bytes → Bytes → Bytes → Bytes → DiffResult
assemble branch base_branch raw_diff diff_stat commit_log =
    let (kept, filtered) = keep_files (parse_files raw_diff) in
    let files = sort_files kept in
    record {
      files = files;
      filtered_files = filtered;
      total_added = total_added_of files;
      total_deleted = total_deleted_of files;
      diff_stat = trim_space diff_stat;
      commit_log = trim_space commit_log;
      branch = branch;
      base_branch = base_branch;
    }

unfoldable pub prepare :
    {E : Type 0} → GitClient E → Bytes → Bytes → Result (PrepareErr E) DiffResult
unfolding assemble
prepare git branch base_branch = do
  raw_diff ← wrap_err diff_prepare (git.diff_for_review base_branch branch)
  diff_stat ← wrap_err diff_stat_err (git.diff_stat base_branch branch)
  commit_log ← wrap_err diff_log (git.log base_branch branch)
  ok (assemble branch base_branch raw_diff diff_stat commit_log)

-- `EstimateTokens`: a quarter of the bytes that are left of every file's diff.
unfoldable pub diff_bytes : List FileDiff → ℕ
unfolding strip_diff_headers
diff_bytes [] = 0
diff_bytes (f ∷ fs) = length (strip_diff_headers f.diff) + diff_bytes fs

unfoldable pub estimate_tokens : DiffResult → ℕ
unfolding diff_bytes
estimate_tokens result = diff_bytes result.files / 4
