-- ===== src/Config/Subagents/Load.antt =====
-- internal/shared/subagentconfig/subagentconfig.go: where the prompts of sub-agents come from.
use opencode_reviewer.Prelude.{
  ℕ, suc, Bool, not, ◌&&◌, List, [], ◌∷◌, ◌++◌, Option, none, some, if◌then◌else◌, Result, ok, err,
  ◌>>=◌, wrap_err,
}
use opencode_reviewer.GoText.{
  Bytes, codes, is_empty, base, clean, is_abs, join_paths, split, trim_space, trim_suffix, show_nat,
}
use opencode_reviewer.Config.System.{System}
use opencode_reviewer.Config.Subagents.Restrict.{PromptErr, validate, ensure_tool_restrictions}

pub record SubAgent : Type 0 where
  pub name : Bytes
  pub prompt : Bytes

pub record Options : Type 0 where
  pub use_legacy_env : Bool
  pub legacy_env_fallback : Bool

pub data LoadErr : Type 0 where
  get_working_directory : Bytes → LoadErr
  read_sub_agent_prompt : Bytes → Bytes → LoadErr
  invalid_prompt : PromptErr → LoadErr
  -- A slice out of range, where the source panics.
  out_of_range : LoadErr

unfoldable pub split_paths_of : List Bytes → List Bytes
unfolding trim_space
split_paths_of [] = []
split_paths_of (p ∷ ps) =
    let rest = split_paths_of ps in if is_empty (trim_space p) then rest else trim_space p ∷ rest

unfoldable pub split_paths : Bytes → List Bytes
unfolding split_paths_of split
split_paths s = split_paths_of (split b',' s)

abbrev agent_of : Bytes → Option Bytes → Result LoadErr SubAgent
agent_of name none = err out_of_range
agent_of name (some prompt) = ok (record { name = name; prompt = prompt })

abbrev checked_agent : Bytes → Bytes → Option PromptErr → Result LoadErr SubAgent
checked_agent name content (some e) = err (invalid_prompt e)
checked_agent name content none = agent_of name (ensure_tool_restrictions content)

-- A sub-agent from its content.
unfoldable pub sub_agent : Bytes → Bytes → Result LoadErr SubAgent
unfolding validate ensure_tool_restrictions
sub_agent name content = checked_agent name content (validate name content)

-- The loop over the texts of the configuration, from the number of the next one.
unfoldable pub inline_agents : Bytes → ℕ → List Bytes → Result LoadErr (List SubAgent)
unfolding sub_agent show_nat
inline_agents prefix n [] = ok []
inline_agents prefix n (prompt ∷ prompts) =
    sub_agent (codes "sub-" ++ (prefix ++ (codes "-" ++ show_nat n))) prompt >>= λ agent.
    inline_agents prefix (suc n) prompts >>= λ agents. ok (agent ∷ agents)

module _ (sys : System) where
  -- The loop of `readAll`.
  unfoldable pub read_all : List Bytes → Bytes → Result LoadErr (List SubAgent)
  unfolding sub_agent is_abs join_paths clean base trim_suffix
  read_all [] base_dir = ok []
  read_all (p ∷ ps) base_dir =
      let path = if is_abs p then p else join_paths base_dir p in
      wrap_err (read_sub_agent_prompt path) (sys.read_file (clean path)) >>= λ content.
      sub_agent (trim_suffix (base p) (codes ".md")) content >>= λ agent.
      read_all ps base_dir >>= λ agents. ok (agent ∷ agents)

  -- The prompts that the variable names, relative to the working directory.
  unfoldable pub read_env_paths : Bytes → Result LoadErr (List SubAgent)
  unfolding read_all split_paths
  read_env_paths raw =
      wrap_err get_working_directory sys.getwd >>= λ cwd. read_all (split_paths raw) cwd

  unfoldable pub load_with_options :
      Bytes → Bytes → Bytes → List Bytes → List Bytes → Options → Result LoadErr (List SubAgent)
  unfolding read_env_paths inline_agents
  load_with_options env_paths_key prefix config_dir toml_paths toml_inline opts =
      let raw = sys.getenv env_paths_key in
      let last : Result LoadErr (List SubAgent) =
        if (opts.use_legacy_env && opts.legacy_env_fallback) && not (is_empty raw)
        then read_env_paths raw
        else ok [] in
      let middle : Result LoadErr (List SubAgent) =
        if not (is_empty toml_inline)
        then inline_agents prefix 1 toml_inline
        else if not (is_empty toml_paths)
        then read_all toml_paths config_dir
        else last in
      if (opts.use_legacy_env && not opts.legacy_env_fallback) && not (is_empty raw)
      then read_env_paths raw
      else middle
