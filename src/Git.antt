-- ===== src/Git.antt =====
-- internal/shared/git: the commands of the client, the cleaning of the working tree and the
-- preparation of the repository.
use opencode_reviewer.Prelude.{
  Bool, not, ◌&&◌, List, [], ◌∷◌, ◌++◌, Option, none, some, if◌then◌else◌, ok, err,
}
use opencode_reviewer.GoText.{
  Bytes, codes, bytes_eq, is_empty, has_prefix, clean, rel, split, trim_space,
}
use opencode_reviewer.Runner.Models.{member}
use opencode_reviewer.Config.System.{System}
use opencode_reviewer.Config.Dirs.{absolute}
use opencode_reviewer.Effect.{Effect, pure, wrapping, ◌>>=◌}

-- What was done when git failed, and the text of git.
pub record GitErr : Type 0 where
  pub step : Bytes
  pub message : Bytes

abbrev git_err : Bytes → Bytes → GitErr
git_err step message = record { step = step; message = message }

-- The lines of an output that are not blank, trimmed.
unfoldable pub filled_lines : List Bytes → List Bytes
unfolding trim_space
filled_lines [] = []
filled_lines (l ∷ ls) =
    let rest = filled_lines ls in if is_empty (trim_space l) then rest else trim_space l ∷ rest

-- The range of two branches of the remote, with its dots.
abbrev range : Bytes → Bytes → Bytes → Bytes → Bytes
range dots remote from to =
    remote ++ (codes "/" ++ (from ++ (dots ++ (remote ++ (codes "/" ++ to)))))

-- A path that lies below the root.
unfoldable pub is_below_root : Bytes → Bool
unfolding bytes_eq has_prefix
is_below_root pattern =
    not (bytes_eq pattern (codes "."))
    && (not (bytes_eq pattern (codes "..")) && not (has_prefix pattern (codes "../")))

module _ (sys : System) where
  -- The pattern of a path, if it has one.
  unfoldable pub pattern_of : Bytes → Bytes → Option Bytes
  unfolding absolute rel clean is_below_root
  pattern_of root_abs path = if is_empty path then none else elim (absolute sys path) [
    | err e ↦ none
    | ok path_abs ↦ elim (rel root_abs path_abs) [
      | none ↦ none
      | some r ↦ if is_below_root (clean r) then some (clean r) else none
    ]
  ]

  abbrev pub with_pattern : Option Bytes → List Bytes → List Bytes
  with_pattern none patterns = patterns
  with_pattern (some pattern) patterns =
      if member pattern patterns then patterns else patterns ++ (pattern ∷ [])

  -- The loop over the paths. The set `seen` holds the patterns.
  unfoldable pub add_patterns : Bytes → List Bytes → List Bytes → List Bytes
  unfolding pattern_of member
  add_patterns root_abs patterns [] = patterns
  add_patterns root_abs patterns (path ∷ paths) =
      add_patterns root_abs (with_pattern (pattern_of root_abs path) patterns) paths

  unfoldable pub clean_exclude_patterns : Bytes → List Bytes → List Bytes
  unfolding absolute add_patterns
  clean_exclude_patterns root paths = elim (absolute sys root) [
    | err e ↦ []
    | ok root_abs ↦ add_patterns root_abs [] paths
  ]

abbrev pub exclusions : List Bytes → List Bytes
exclusions [] = []
exclusions (pattern ∷ patterns) = codes "-e" ∷ pattern ∷ exclusions patterns

abbrev pub reset_args : List Bytes
reset_args = codes "reset" ∷ codes "--hard" ∷ codes "HEAD" ∷ []

abbrev pub clean_args : List Bytes → List Bytes
clean_args patterns = codes "clean" ∷ codes "-fd" ∷ exclusions patterns

-- `command` runs git in the directory of the client, with those arguments.
module _ {C : Type 0} (command : List Bytes → Effect C Bytes Bytes) (remote : Bytes) where
  abbrev run_step : Bytes → List Bytes → Effect C GitErr Bytes
  run_step step args = wrapping (git_err step) (command args)

  unfoldable pub validate : Effect C GitErr Bytes
  validate = run_step (codes "git validate") (codes "rev-parse" ∷ codes "--git-dir" ∷ [])

  unfoldable pub diff : Bytes → Bytes → Effect C GitErr Bytes
  diff base head =
      run_step (codes "git diff") (codes "diff" ∷ range (codes "...") remote base head ∷ [])

  unfoldable pub diff_files : Bytes → Bytes → Effect C GitErr (List Bytes)
  unfolding filled_lines split trim_space
  diff_files base head =
      run_step (codes "git diff files")
        (codes "diff" ∷ codes "--name-only" ∷ range (codes "...") remote base head ∷ [])
      >>= λ out. pure (filled_lines (split b'\n' (trim_space out)))

  unfoldable pub diff_for_review : Bytes → Bytes → Effect C GitErr Bytes
  diff_for_review base head = run_step (codes "git diff for review") (
      codes "diff"
      ∷ codes "-U6"
      ∷ codes "--no-color"
      ∷ codes "--find-renames"
      ∷ range (codes "...") remote base head
      ∷ [])

  unfoldable pub diff_stat : Bytes → Bytes → Effect C GitErr Bytes
  diff_stat base head =
      run_step (codes "git diff stat")
        (codes "diff" ∷ codes "--stat" ∷ range (codes "...") remote base head ∷ [])

  unfoldable pub fetch : Effect C GitErr Bytes
  fetch = run_step (codes "git fetch") (codes "fetch" ∷ remote ∷ [])

  unfoldable pub log : Bytes → Bytes → Effect C GitErr Bytes
  log base head =
      run_step (codes "git log")
        (codes "log" ∷ codes "--oneline" ∷ range (codes "..") remote base head ∷ [])

  unfoldable pub checkout : Bytes → Effect C GitErr Bytes
  checkout branch = run_step (codes "git checkout") (codes "checkout" ∷ branch ∷ [])

  unfoldable pub checkout_remote : Bytes → Effect C GitErr Bytes
  checkout_remote branch =
      run_step (codes "git checkout remote")
        (codes "checkout" ∷ codes "-B" ∷ branch ∷ (remote ++ (codes "/" ++ branch)) ∷ [])

  -- `Clean` with the patterns of the paths that are kept.
  unfoldable pub clean_tree : List Bytes → Effect C GitErr Bytes
  clean_tree patterns = run_step (codes "git reset") reset_args >>= λ out.
      run_step (codes "git clean") (clean_args patterns)

  -- `PrepareRepository`
  unfoldable pub prepare_repository : Bytes → Effect C GitErr Bytes
  unfolding fetch clean_tree checkout_remote
  prepare_repository branch =
      fetch >>= λ fetched. clean_tree [] >>= λ cleaned. checkout_remote branch
