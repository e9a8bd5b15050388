-- ===== src/Config/Options/Types.antt =====
-- internal/shared/config: the options as the TOML file gives them.
use opencode_reviewer.Prelude.{Bool, false, List, []}
use opencode_reviewer.GoText.{Bytes}
use opencode_reviewer.GoInt.{ℤ, pos}

pub record OpenCodeConfig : Type 0 where
  pub endpoint : Bytes
  pub port : ℤ
  pub model : Bytes
  pub fallback_models : List Bytes
  pub binary : Bytes
  pub stage_timeout : ℤ
  pub precheck_timeout : ℤ
  pub max_steps : ℤ
  pub provider_config_path : Bytes
  pub min_version : Bytes
  pub print_logs : Bool
  pub log_level : Bytes
  pub log_dir : Bytes

pub record GitConfig : Type 0 where
  pub remote : Bytes
  pub branch : Bytes
  pub base_branch : Bytes

pub record PipelineConfig : Type 0 where
  pub review_agent_prompt_path : Bytes
  pub review_agent_prompt : Bytes
  pub review_message_paths : List Bytes
  pub review_messages : List Bytes
  pub finalizer_prompt_path : Bytes
  pub finalizer_prompt : Bytes
  pub finalizer_message_path : Bytes
  pub finalizer_message : Bytes
  pub review_sub_agent_prompt_paths : List Bytes
  pub review_sub_agent_prompts : List Bytes
  pub finalizer_sub_agent_prompt_paths : List Bytes
  pub finalizer_sub_agent_prompts : List Bytes

pub record GitLabConfig : Type 0 where
  pub url : Bytes
  pub token : Bytes
  pub project_id : ℤ
  pub clear_comments : Bool

pub record Config : Type 0 where
  pub project_dir : Bytes
  pub env : List (Bytes × Bytes)
  pub opencode : OpenCodeConfig
  pub git : GitConfig
  pub pipeline : PipelineConfig
  pub gitlab : GitLabConfig

pub data LoadErr : Type 0 where
  read_config : Bytes → Bytes → LoadErr
  parse_config : Bytes → Bytes → LoadErr

-- The zero value of `Config`.
abbrev pub no_options : Config
no_options = record {
  project_dir = [];
  env = [];
  opencode = record {
    endpoint = [];
    port = pos 0;
    model = [];
    fallback_models = [];
    binary = [];
    stage_timeout = pos 0;
    precheck_timeout = pos 0;
    max_steps = pos 0;
    provider_config_path = [];
    min_version = [];
    print_logs = false;
    log_level = [];
    log_dir = [];
  };
  git = record { remote = []; branch = []; base_branch = [] };
  pipeline = record {
    review_agent_prompt_path = [];
    review_agent_prompt = [];
    review_message_paths = [];
    review_messages = [];
    finalizer_prompt_path = [];
    finalizer_prompt = [];
    finalizer_message_path = [];
    finalizer_message = [];
    review_sub_agent_prompt_paths = [];
    review_sub_agent_prompts = [];
    finalizer_sub_agent_prompt_paths = [];
    finalizer_sub_agent_prompts = [];
  };
  gitlab = record { url = []; token = []; project_id = pos 0; clear_comments = false };
}
