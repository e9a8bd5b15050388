-- ===== src/Review/Run/Tests.antt =====
-- A run whose finalizer fails, and the theorem for it.
use opencode_reviewer.Prelude.{true, false, List, [], ◌∷◌, none, some, ok, err, ◌≡◌, refl}
use opencode_reviewer.GoText.{codes, directory}
use opencode_reviewer.Config.System.{System}
use opencode_reviewer.Config.Dirs.{absolute}
use opencode_reviewer.Git.{clean_exclude_patterns}
use opencode_reviewer.Review.Run.{
  Call, git_command, World, Pipeline, finalizer_failed, run_prepared, log_dirs,
}

abbrev sys : System
sys = record {
  getenv = λ key. [];
  getwd = ok (codes "/w");
  read_file = λ path. err (codes "missing");
  stat_is_dir = λ path. err (codes "missing");
  read_dir = λ path. err (codes "missing");
}

-- Git answers with empty texts; the loader gives a runtime that logs below the project.
abbrev world : World
world = record {
  command = λ calls args. ok [];
  write_context_file = λ calls. ok (codes "context.md");
  load_review = λ calls. err (codes "no dump");
  load_runtime = λ calls. ok (
      some (record {
        stages = record { reviewer_log = codes "logs/r.log"; finalizer_log = codes "logs/f.log" };
        has_cleanup = true;
      }));
  swap_agents_md = λ calls. ok [];
  run_review_stage = λ calls. ok [];
  run_finalizer_stage = λ calls. err (codes "no answer");
}

abbrev pipeline : Pipeline
pipeline = record {
  project_dir = codes "/w";
  remote = codes "origin";
  branch = codes "b";
  base_branch = codes "main";
  stages = none;
  has_loader = true;
  runtime_cleanup = false;
  has_publisher = true;
  review_dump_path = [];
  fast_review_path = [];
}

-- The calls of the preparation, the last one first.
abbrev prepared : List Call
prepared =
    git_command (codes "checkout" ∷ codes "-B" ∷ codes "b" ∷ codes "origin/b" ∷ [])
    ∷ git_command (codes "clean" ∷ codes "-fd" ∷ [])
    ∷ git_command (codes "reset" ∷ codes "--hard" ∷ codes "HEAD" ∷ [])
    ∷ git_command (codes "fetch" ∷ codes "origin" ∷ [])
    ∷ []

failed_run_ends :
    (run_prepared sys world pipeline prepared).0.0 ≡ err (finalizer_failed (codes "no answer"))
unfolding run_prepared
failed_run_ends = refl

logs_are_kept :
    clean_exclude_patterns sys
      (codes "/w")
      (log_dirs (run_prepared sys world pipeline prepared).1.stages)
    ≡ codes "logs" ∷ []
unfolding clean_exclude_patterns log_dirs run_prepared absolute directory
logs_are_kept = refl
