-- ===== src/Review/Run.antt =====
-- internal/review/pipeline/pipeline.go: a run of the review, from the repository to the publication,
-- with what is undone behind it. Log lines are left out.
pub mod Cleaned
mod Tests
use opencode_reviewer.Prelude.{
  Bool, true, false, not, ◌&&◌, ◌||◌, List, [], ◌∷◌, ◌++◌, Option, none, some, if◌then◌else◌,
  Result, ok, err, wrap_err,
}
use opencode_reviewer.GoText.{Bytes, codes, is_empty, directory}
use opencode_reviewer.Models.{ReviewResult, FinalReview}
use opencode_reviewer.Runner.Models.{member}
use opencode_reviewer.Config.System.{System}
use opencode_reviewer.Diff.Types.{DiffResult}
use opencode_reviewer.Diff.Prepare.{assemble}
use opencode_reviewer.Git.{
  GitErr, prepare_repository, clean_tree, clean_exclude_patterns, diff_for_review, diff_stat, log,
}
use opencode_reviewer.Review.Provenance.{apply_finding_provenance}
use opencode_reviewer.Effect.{Effect, pure, fail, perform, wrapping, continue, ◌>>=◌}

-- The calls of a run, with what they are given.
pub data Call : Type 0 where
  git_command : List Bytes → Call
  write_context_file : DiffResult → Call
  load_review : Bytes → Call
  load_runtime : Call
  swap_agents_md : Call
  run_review_stage : Call
  run_finalizer_stage : List ReviewResult → Call
  save_review : Bytes → FinalReview → Call
  publish : FinalReview → Call
  cleanup_runtime : Call

-- The two stages, by the paths of their runners' logs; a path is empty when there is no runner or no
-- log.
pub record Stages : Type 0 where
  pub reviewer_log : Bytes
  pub finalizer_log : Bytes

-- What the loader of the runtime returns.
pub record Resources : Type 0 where
  pub stages : Stages
  pub has_cleanup : Bool

-- What the run calls. The stages answer with their results; their inner working is the subject of
-- `Review.Stage` and `Runner.Session`.
pub record World : Type 0 where
  pub command : List Call → List Bytes → Result Bytes Bytes
  pub write_context_file : List Call → Result Bytes Bytes
  pub load_review : List Call → Result Bytes FinalReview
  -- `none` is a nil result.
  pub load_runtime : List Call → Result Bytes (Option Resources)
  pub swap_agents_md : List Call → Result Bytes (List Bytes)
  pub run_review_stage : List Call → Result Bytes (List ReviewResult)
  pub run_finalizer_stage : List Call → Result Bytes FinalReview

pub record Pipeline : Type 0 where
  pub project_dir : Bytes
  pub remote : Bytes
  pub branch : Bytes
  pub base_branch : Bytes
  pub stages : Option Stages
  pub has_loader : Bool
  pub runtime_cleanup : Bool
  pub has_publisher : Bool
  pub review_dump_path : Bytes
  pub fast_review_path : Bytes

pub data RunErr : Type 0 where
  prepare_branch : GitErr → RunErr
  prepare_diff_failed : GitErr → RunErr
  write_context_failed : Bytes → RunErr
  load_review_dump : Bytes → RunErr
  loader_not_configured : RunErr
  load_runtime_failed : Bytes → RunErr
  nil_resources : RunErr
  swap_failed : Bytes → RunErr
  review_stage_failed : Bytes → RunErr
  finalizer_failed : Bytes → RunErr

-- A result with the calls, and the pipeline as it is left.
abbrev pub Ended : Type 0
Ended = (Result RunErr FinalReview × List Call) × Pipeline

unfoldable pub log_paths : Option Stages → List Bytes
log_paths none = []
log_paths (some s) =
    (if is_empty s.reviewer_log then [] else s.reviewer_log ∷ [])
    ++ (if is_empty s.finalizer_log then [] else s.finalizer_log ∷ [])

-- The directories of paths, each once.
unfoldable pub directories : List Bytes → List Bytes → List Bytes
unfolding directory member
directories dirs [] = dirs
directories dirs (path ∷ paths) =
    directories (if member (directory path) dirs then dirs else dirs ++ (directory path ∷ [])) paths

unfoldable pub log_dirs : Option Stages → List Bytes
unfolding directories log_paths
log_dirs stages = directories [] (log_paths stages)

-- An error of the cleanup is logged.
unfoldable pub cleanup_after :
    Pipeline → Result RunErr FinalReview × List Call → Result RunErr FinalReview × List Call
cleanup_after p (result, calls) =
    (result, if p.runtime_cleanup then cleanup_runtime ∷ calls else calls)

module _ (sys : System) (w : World) where
  abbrev pub git : List Bytes → Effect Call Bytes Bytes
  git args = perform (git_command args) (λ calls. w.command calls args)

  -- `prepareDiff`: the three commands of `diff.Prepare`, then the file for the agents.
  unfoldable pub prepare_diff : Pipeline → Effect Call RunErr DiffResult
  unfolding diff_for_review diff_stat log assemble
  prepare_diff p =
      wrapping prepare_diff_failed (diff_for_review git p.remote p.base_branch p.branch)
      >>= λ raw_diff.
          wrapping prepare_diff_failed (diff_stat git p.remote p.base_branch p.branch) >>= λ stat.
          wrapping prepare_diff_failed (log git p.remote p.base_branch p.branch) >>= λ commits.
          let diff = assemble p.branch p.base_branch raw_diff stat commits in
          wrapping write_context_failed (perform (write_context_file diff) w.write_context_file)
          >>= λ path. pure diff

  -- `publishReview`; an error of the publisher is logged.
  unfoldable pub publish_review : Pipeline → FinalReview → List Call → List Call
  publish_review p review calls = if p.has_publisher then publish review ∷ calls else calls

  -- The result is published, and returned.
  abbrev published : Pipeline → Effect Call RunErr FinalReview → Effect Call RunErr FinalReview
  published p m = m >>= λ review calls. (ok review, publish_review p review calls)

  unfoldable pub fast_path : Pipeline → Effect Call RunErr FinalReview
  unfolding publish_review
  fast_path p =
      published p
        (wrapping load_review_dump (perform (load_review p.fast_review_path) w.load_review))

  -- A dump that fails is logged.
  unfoldable pub dumped : Pipeline → FinalReview → Effect Call RunErr FinalReview
  dumped p review calls =
      if is_empty p.review_dump_path
      then (ok review, calls)
      else (ok review, save_review p.review_dump_path review ∷ calls)

  -- The phases, once the runtime is there.
  unfoldable pub phases : Pipeline → Effect Call RunErr FinalReview
  unfolding publish_review dumped apply_finding_provenance
  phases p = published p (
      wrapping swap_failed (perform swap_agents_md w.swap_agents_md) >>= λ swapped.
      wrapping review_stage_failed (perform run_review_stage w.run_review_stage) >>= λ results.
      wrapping finalizer_failed (perform (run_finalizer_stage results) w.run_finalizer_stage)
      >>= λ review. dumped p (apply_finding_provenance review results))

  abbrev with_resources : Pipeline → Option Resources → Result RunErr Pipeline
  with_resources p none = err nil_resources
  with_resources p (some r) =
      ok (record p { stages = some r.stages; runtime_cleanup = r.has_cleanup })

  -- The pipeline with its stages; those that it was made with are kept.
  unfoldable pub ensure_runtime : Pipeline → Effect Call RunErr Pipeline
  ensure_runtime p = elim p.stages [
    | some s ↦ pure p
    | none ↦
        if not p.has_loader
        then fail loader_not_configured
        else wrapping load_runtime_failed (perform load_runtime w.load_runtime)
          >>= λ resources calls. (with_resources p resources, calls)
  ]

  abbrev pub after_runtime : Pipeline → Result RunErr Pipeline × List Call → Ended
  after_runtime p (err e, calls) = ((err e, calls), p)
  after_runtime p (ok q, calls) = (cleanup_after q (phases q calls), q)

  abbrev pub after_diff : Pipeline → Result RunErr DiffResult × List Call → Ended
  after_diff p (err e, calls) = ((err e, calls), p)
  after_diff p (ok diff, calls) =
      if not (is_empty p.fast_review_path)
      then (fast_path p calls, p)
      else after_runtime p (ensure_runtime p calls)

  unfoldable pub run_prepared : Pipeline → List Call → Ended
  unfolding prepare_diff fast_path ensure_runtime phases cleanup_after
  run_prepared p calls = after_diff p (prepare_diff p calls)

  -- `Clean`, which keeps the directories of the logs; its error is logged.
  unfoldable pub cleaned : Ended → Result RunErr FinalReview × List Call
  unfolding clean_tree clean_exclude_patterns log_dirs
  cleaned ((result, calls), p) = (
    result,
    (clean_tree git p.remote (clean_exclude_patterns sys p.project_dir (log_dirs p.stages))
        calls).1,
  )

  abbrev pub after_prepare :
      Pipeline → Result RunErr Bytes × List Call → Result RunErr FinalReview × List Call
  after_prepare p (err e, calls) = (err e, calls)
  after_prepare p (ok out, calls) = cleaned (run_prepared p calls)

  unfoldable pub run : Pipeline → List Call → Result RunErr FinalReview × List Call
  unfolding prepare_repository run_prepared cleaned
  run p calls =
      after_prepare p (wrapping prepare_branch (prepare_repository git p.remote p.branch) calls)
