-- ===== src/Config/Options.antt =====
-- internal/shared/config: the options of the program, their defaults, and the variables of the
-- environment that replace them.
pub mod Discovered
mod Types
pub use Types.*
use opencode_reviewer.Prelude.{
  Bool, ◌||◌, List, [], ◌∷◌, ◌++◌, Option, none, some, if◌then◌else◌, Result, ok, err, ◌>>=◌,
  wrap_err,
}
use opencode_reviewer.GoText.{Bytes, codes, bytes_eq, is_empty, split, is_abs, clean, join_paths}
use opencode_reviewer.GoInt.{ℤ, pos, eq_int}
use opencode_reviewer.GoInt.Number.{atoi}
use opencode_reviewer.Config.ModelChain.{normalize_model_list}

-- An empty text takes the default, a zero too.
abbrev or_text : Bytes → Bytes → Bytes
or_text value default = if is_empty value then default else value

abbrev or_number : ℤ → ℤ → ℤ
or_number value default = if eq_int value (pos 0) then default else value

unfoldable pub apply_defaults : Config → Config
apply_defaults cfg = record cfg {
  opencode = record (cfg.opencode) {
    binary = or_text cfg.opencode.binary (codes "opencode");
    stage_timeout = or_number cfg.opencode.stage_timeout (pos 600);
    precheck_timeout = or_number cfg.opencode.precheck_timeout (pos 300);
    log_dir = or_text cfg.opencode.log_dir (codes "opencode-review-logs");
  };
  git = record (cfg.git) {
    remote = or_text cfg.git.remote (codes "origin");
    base_branch = or_text cfg.git.base_branch (codes "main");
  };
}

-- `os.ReadFile` and `toml.Unmarshal` of the file; the empty path gives the empty options.
unfoldable pub load :
    (Bytes → Result Bytes Bytes) → (Bytes → Result Bytes Config) → Bytes → Result LoadErr Config
unfolding apply_defaults
load read_file unmarshal path =
    if is_empty path
    then ok (apply_defaults no_options)
    else wrap_err (read_config path) (read_file path) >>= λ text.
        wrap_err (parse_config path) (unmarshal text) >>= λ cfg. ok (apply_defaults cfg)

unfoldable pub parse_bool : Bytes → Bool
unfolding bytes_eq
parse_bool v = bytes_eq v (codes "true") || bytes_eq v (codes "1")

-- The options with the value of a variable.
abbrev pub Override : Type 0
Override = Bytes → Config → Config

-- A value that is no number changes nothing.
abbrev number_override : (ℤ → Config → Config) → Override
number_override set v cfg = elim (atoi v) [ none ↦ cfg | some n ↦ set n cfg ]

abbrev set_opencode : (OpenCodeConfig → OpenCodeConfig) → Config → Config
set_opencode f cfg = record cfg { opencode = f cfg.opencode }

abbrev set_git : (GitConfig → GitConfig) → Config → Config
set_git f cfg = record cfg { git = f cfg.git }

abbrev set_gitlab : (GitLabConfig → GitLabConfig) → Config → Config
set_gitlab f cfg = record cfg { gitlab = f cfg.gitlab }

-- The variables, in the order in which they are read, with what each one replaces.
unfoldable pub overrides : List (Bytes × Override)
unfolding atoi parse_bool split normalize_model_list
overrides =
    (codes "OR_PROJECT_DIR", λ v cfg. record cfg { project_dir = v })
    ∷ (codes "OR_OPENCODE_ENDPOINT", λ v. set_opencode (λ c. record c { endpoint = v }))
    ∷ (codes "OR_OPENCODE_PORT", number_override (λ n. set_opencode (λ c. record c { port = n })))
    ∷ (codes "OR_OPENCODE_MODEL", λ v. set_opencode (λ c. record c { model = v }))
    ∷ (
      codes "OR_OPENCODE_FALLBACK_MODELS",
      λ v. set_opencode (λ c. record c { fallback_models = normalize_model_list (split b',' v) }),
    )
    ∷ (codes "OR_OPENCODE_BINARY", λ v. set_opencode (λ c. record c { binary = v }))
    ∷ (
      codes "OR_OPENCODE_STAGE_TIMEOUT",
      number_override (λ n. set_opencode (λ c. record c { stage_timeout = n })),
    )
    ∷ (
      codes "OR_OPENCODE_PRECHECK_TIMEOUT",
      number_override (λ n. set_opencode (λ c. record c { precheck_timeout = n })),
    )
    ∷ (
      codes "OR_OPENCODE_MAX_STEPS",
      number_override (λ n. set_opencode (λ c. record c { max_steps = n })),
    )
    ∷ (codes "OR_OPENCODE_MIN_VERSION", λ v. set_opencode (λ c. record c { min_version = v }))
    ∷ (
      codes "OR_OPENCODE_PRINT_LOGS",
      λ v. set_opencode (λ c. record c { print_logs = parse_bool v }),
    )
    ∷ (codes "OR_OPENCODE_LOG_LEVEL", λ v. set_opencode (λ c. record c { log_level = v }))
    ∷ (codes "OR_OPENCODE_LOG_DIR", λ v. set_opencode (λ c. record c { log_dir = v }))
    ∷ (codes "OR_GIT_REMOTE", λ v. set_git (λ c. record c { remote = v }))
    ∷ (codes "OR_BRANCH", λ v. set_git (λ c. record c { branch = v }))
    ∷ (codes "OR_GIT_BASE_BRANCH", λ v. set_git (λ c. record c { base_branch = v }))
    ∷ (codes "OR_GITLAB_URL", λ v. set_gitlab (λ c. record c { url = v }))
    ∷ (codes "OR_GITLAB_TOKEN", λ v. set_gitlab (λ c. record c { token = v }))
    ∷ (
      codes "OR_GITLAB_PROJECT_ID",
      number_override (λ n. set_gitlab (λ c. record c { project_id = n })),
    )
    ∷ (
      codes "OR_GITLAB_CLEAR_COMMENTS",
      λ v. set_gitlab (λ c. record c { clear_comments = parse_bool v }),
    )
    ∷ []

abbrev override_one : Bytes → Override → Config → Config
override_one v set cfg = if is_empty v then cfg else set v cfg

unfoldable pub override_all : (Bytes → Bytes) → List (Bytes × Override) → Config → Config
override_all getenv [] cfg = cfg
override_all getenv ((key, set) ∷ rest) cfg =
    override_all getenv rest (override_one (getenv key) set cfg)

unfoldable pub apply_env_overrides : (Bytes → Bytes) → Config → Config
unfolding override_all overrides
apply_env_overrides getenv cfg = override_all getenv overrides cfg

unfoldable pub resolve_opencode_log_dir : Bytes → Bytes → Bytes
unfolding is_abs clean join_paths
resolve_opencode_log_dir log_dir project_dir =
    let dir = or_text log_dir (codes "opencode-review-logs") in
    if is_abs dir then clean dir else join_paths project_dir dir
