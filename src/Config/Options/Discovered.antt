-- ===== src/Config/Options/Discovered.antt =====
-- internal/shared/config/pathdefaults.go: the files of the configuration directory replace the
-- options.
use opencode_reviewer.Prelude.{
  Bool, true, false, not, ◌&&◌, ◌||◌, List, [], ◌∷◌, if◌then◌else◌, ok, err, ltb, ◌==◌,
}
use opencode_reviewer.GoText.{Bytes, codes, is_empty, ext, join_paths}
use opencode_reviewer.Config.System.{System}
use opencode_reviewer.Config.Options.Types.{Config, PipelineConfig}

-- The order of byte strings.
less : Bytes → Bytes → Bool
less s [] = false
less [] (b ∷ t) = true
less (a ∷ s) (b ∷ t) = ltb a b || (a == b && less s t)

insert_sorted : Bytes → List Bytes → List Bytes
unfolding less
insert_sorted s [] = s ∷ []
insert_sorted s (t ∷ ts) =
    let rest = insert_sorted s ts in if less t s then t ∷ rest else s ∷ t ∷ ts

-- `sort.Strings`
sorted : List Bytes → List Bytes
unfolding insert_sorted
sorted [] = []
sorted (s ∷ ss) = insert_sorted s (sorted ss)

-- `strings.EqualFold(ext, ".md")`; no other letter folds to these two.
is_markdown : Bytes → Bool
is_markdown (dot ∷ m ∷ d ∷ []) =
    dot == b'.' && ((m == b'm' || m == b'M') && (d == b'd' || d == b'D'))
is_markdown _ = false

module _ (sys : System) where
  unfoldable pub exists : Bytes → Bool
  exists path = elim (sys.stat_is_dir path) [ err e ↦ false | ok dir ↦ not dir ]

  -- The Markdown files among the entries of a directory.
  unfoldable pub markdown_paths : Bytes → List (Bytes × Bool) → List Bytes
  unfolding is_markdown ext join_paths
  markdown_paths dir [] = []
  markdown_paths dir ((name, is_dir) ∷ entries) =
      let rest = markdown_paths dir entries in
      if is_dir || not (is_markdown (ext name)) then rest else join_paths dir name ∷ rest

  unfoldable pub discover_markdown : Bytes → List Bytes
  unfolding markdown_paths sorted
  discover_markdown dir = elim (sys.read_dir dir) [
    | err e ↦ []
    | ok entries ↦ sorted (markdown_paths dir entries)
  ]

  abbrev in_dir : Bytes → Bytes → Bytes → Bytes
  in_dir config_dir part name = join_paths (join_paths config_dir part) name

  -- A file that is there takes the place of a text and of another path.
  abbrev file_default : Bytes → (Bytes → Config → Config) → Config → Config
  file_default path set cfg = if exists path then set path cfg else cfg

  abbrev files_default : List Bytes → (List Bytes → Config → Config) → Config → Config
  files_default paths set cfg = if is_empty paths then cfg else set paths cfg

  abbrev set_pipeline : (PipelineConfig → PipelineConfig) → Config → Config
  set_pipeline f cfg = record cfg { pipeline = f cfg.pipeline }

  abbrev provider_default : Bytes → Config → Config
  provider_default dir =
      file_default (join_paths dir (codes "provider.json")) (λ path cfg. record cfg {
        opencode = record (cfg.opencode) { provider_config_path = path };
      })

  abbrev agent_default : Bytes → Config → Config
  agent_default dir = file_default (in_dir dir (codes "reviewer") (codes "agent.md")) (λ path.
      set_pipeline (λ c. record c { review_agent_prompt = []; review_agent_prompt_path = path }))

  abbrev messages_default : Bytes → Config → Config
  messages_default dir =
      files_default (discover_markdown (in_dir dir (codes "reviewer") (codes "messages"))) (λ paths.
        set_pipeline (λ c. record c { review_messages = []; review_message_paths = paths }))

  abbrev finalizer_default : Bytes → Config → Config
  finalizer_default dir =
      file_default (in_dir dir (codes "finalizer") (codes "agent.md")) (λ path.
        set_pipeline (λ c. record c { finalizer_prompt = []; finalizer_prompt_path = path }))

  abbrev finalizer_message_default : Bytes → Config → Config
  finalizer_message_default dir =
      file_default (in_dir dir (codes "finalizer") (codes "message.md")) (λ path.
        set_pipeline (λ c. record c { finalizer_message = []; finalizer_message_path = path }))

  abbrev review_sub_agents_default : Bytes → Config → Config
  review_sub_agents_default dir =
      files_default (discover_markdown (in_dir dir (codes "reviewer") (codes "sub-agents")))
        (λ paths.
          set_pipeline (λ c. record c {
            review_sub_agent_prompts = [];
            review_sub_agent_prompt_paths = paths;
          }))

  abbrev finalizer_sub_agents_default : Bytes → Config → Config
  finalizer_sub_agents_default dir =
      files_default (discover_markdown (in_dir dir (codes "finalizer") (codes "sub-agents")))
        (λ paths. set_pipeline (λ c. record c {
          finalizer_sub_agent_prompts = [];
          finalizer_sub_agent_prompt_paths = paths;
        }))

  unfoldable pub apply_config_dir_defaults : Config → Bytes → Config
  unfolding exists discover_markdown join_paths
  apply_config_dir_defaults cfg config_dir =
      if is_empty config_dir
      then cfg
      else finalizer_sub_agents_default config_dir (
          review_sub_agents_default config_dir (
            finalizer_message_default config_dir (
              finalizer_default config_dir (
                messages_default config_dir
                  (agent_default config_dir (provider_default config_dir cfg))))))
