-- ===== src/Review/Run/Cleaned.antt =====
-- internal/review/pipeline/pipeline.go: what a run undoes, however it ends.
use opencode_reviewer.Prelude.{true, List, ◌∷◌, ok, err, ◌≡◌, ◌⊎◌}
use opencode_reviewer.GoText.{Bytes}
use opencode_reviewer.Config.System.{System}
use opencode_reviewer.Git.{clean_args, reset_args, clean_exclude_patterns, prepare_repository}
use opencode_reviewer.Effect.{wrapping}
use opencode_reviewer.Review.Run.{
  Call, git_command, cleanup_runtime, World, Pipeline, prepare_branch, git, Ended, log_dirs,
}

module _ (sys : System) (w : World) where
  -- When the pipeline holds a cleanup of its runtime, the last call is that cleanup.
  abbrev pub RuntimeIsDown : Ended → Type 0
  RuntimeIsDown ((result, calls), q) =
      q.runtime_cleanup ≡ true → (rest : List Call) × (calls ≡ cleanup_runtime ∷ rest)

  -- The tree was reset, and then cleaned but for the directories of the logs, unless the reset failed.
  abbrev pub TreeIsClean : Pipeline → List Call → List Call → Type 0
  TreeIsClean q before calls =
      ((message : Bytes) × (w.command before reset_args ≡ err message)
        × (calls ≡ git_command reset_args ∷ before))
      ⊎ (calls
          ≡ git_command (clean_args (clean_exclude_patterns sys q.project_dir (log_dirs q.stages)))
            ∷ git_command reset_args
            ∷ before)

  -- The repository was prepared, with those calls.
  abbrev pub IsPrepared : Pipeline → List Call → List Call → Type 0
  IsPrepared p calls before =
      (out : Bytes) × (wrapping prepare_branch (prepare_repository (git sys w) p.remote p.branch)
          calls
        ≡ (ok out, before))
