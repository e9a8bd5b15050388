-- ===== src/Config/Tests.antt =====
-- Configurations read from a small file system, and the theorems at concrete inputs.
use opencode_reviewer.Prelude.{true, List, [], ◌∷◌, some, ok, err, ◌≡◌, ◌⊎◌, refl, if◌then◌else◌}
use opencode_reviewer.GoText.{
  Bytes, codes, bytes_eq, has_prefix, index, contains, split, trim_space,
}
use opencode_reviewer.GoInt.{pos}
use opencode_reviewer.Runner.Models.{member}
use opencode_reviewer.Config.System.{System}
use opencode_reviewer.Config.Env.{Options, read_env_or_file_with_options, resolve_with_options}
use opencode_reviewer.Config.Env.Order.{
  resolve_with_options-first_present, first_present, in_order, file_of_env, file_of_config, inline,
}
use opencode_reviewer.Config.ModelChain.{model_chain, normalize_model_list, primary_model}
use opencode_reviewer.Config.ModelChain.Unique.{IsChain, model_chain-IsChain}
use opencode_reviewer.Config.Options.{no_options, apply_env_overrides, override_all}
use opencode_reviewer.Config.Toml.{table, plain, end, entry, flag_value, resolve, lookup}
use opencode_reviewer.Config.Subagents.Disabled.{Net, ensure_tool_restrictions-Net}
use opencode_reviewer.Config.Subagents.Parts.{front_matter_of}
use opencode_reviewer.Config.Subagents.{ensure_tool_restrictions}

-- One variable is set, and one file exists.
abbrev sys : System
sys = record {
  getenv = λ key.
      if bytes_eq key (codes "P")
      then codes "./a"
      else if bytes_eq key (codes "N")
      then codes "7"
      else [];
  getwd = ok (codes "/w");
  read_file =
      λ path. if bytes_eq path (codes "a") then ok (codes "text") else err (codes "missing");
  stat_is_dir = λ path. err (codes "missing");
  read_dir = λ path. err (codes "missing");
}

abbrev fallback : Options
fallback = record { use_env = true; env_fallback = true }

read_env : resolve_with_options sys (codes "P") [] [] fallback ≡ ok (codes "text")
unfolding resolve_with_options bytes_eq
read_env = refl

-- A number that is set replaces an option, and a text that is no number does not.
env_overrides :
    ((apply_env_overrides
        (λ key. if bytes_eq key (codes "OR_OPENCODE_PORT") then codes "80" else codes "x")
        no_options).opencode.port
      ≡ pos 80)
    × ((apply_env_overrides (λ key. codes "x") no_options).opencode.port ≡ pos 0)
unfolding apply_env_overrides override_all bytes_eq
env_overrides = (refl, refl)

nested_flag :
    flag_value
      (entry (codes "git") (table (entry (codes "base_branch") (plain (codes "dev")) end)) end)
      (codes "git-base-branch")
    ≡ some (plain (codes "dev"))
unfolding flag_value resolve lookup bytes_eq split
nested_flag = refl

-- The safety net for a list of tools: an entry without a permission keeps the tool allowed.
list_keeps_tool :
    ensure_tool_restrictions (
      codes
        "---\nmode: subagent\ntools:\n  - type: submit_review\n  - type: read\n    allowed: false\n---\nText")
    ≡ some (
        codes
          "---\nmode: subagent\ntools:\n  submit_review: true\n  read: false\n  submit_final_review: false\n---\nText")
unfolding ensure_tool_restrictions index contains has_prefix bytes_eq split trim_space
list_keeps_tool = refl

abbrev map_prompt : Bytes
map_prompt = codes "---\nmode: subagent\ntools:\n  submit_review: false\n  read: true\n---\nText"

ensure_tool_restrictions-Net_example :
    Net
      (codes "\nmode: subagent\ntools:\n  submit_review: false\n  read: true")
      (ensure_tool_restrictions map_prompt)
unfolding front_matter_of index contains has_prefix
ensure_tool_restrictions-Net_example =
    ensure_tool_restrictions-Net map_prompt
      (codes "\nmode: subagent\ntools:\n  submit_review: false\n  read: true") refl refl

resolve_with_options-first_present_example :
    (read_env_or_file_with_options sys (codes "P") (codes "N") [] fallback
      ≡ first_present (
          in_order fallback
            (file_of_env sys (codes "P") ∷ inline sys (sys.getenv (codes "N")) ∷ [])
            (file_of_config sys [] ∷ [])))
    × (resolve_with_options sys (codes "P") (codes "in") [] fallback
        ≡ first_present (
            in_order fallback
              (file_of_env sys (codes "P") ∷ [])
              (inline sys (codes "in") ∷ file_of_config sys [] ∷ [])))
resolve_with_options-first_present_example =
    resolve_with_options-first_present sys (codes "P") (codes "N") (codes "in") [] fallback

abbrev fallbacks : List Bytes
fallbacks = codes " p/b " ∷ [] ∷ codes "p/a" ∷ codes "p/b" ∷ []

chain_made : model_chain [] fallbacks (codes " p/a") ≡ ok (codes "p/a" ∷ codes "p/b" ∷ [])
unfolding model_chain index has_prefix member bytes_eq
chain_made = refl

model_chain-IsChain_example :
    ((normalize_model_list fallbacks ≡ []) × (codes "p/a" ∷ codes "p/b" ∷ [] ≡ []))
    ⊎ IsChain
        (primary_model [] (codes " p/a"))
        (normalize_model_list fallbacks)
        (codes "p/a" ∷ codes "p/b" ∷ [])
model_chain-IsChain_example =
    model_chain-IsChain [] fallbacks (codes " p/a") (codes "p/a" ∷ codes "p/b" ∷ []) chain_made
