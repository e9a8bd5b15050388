-- ===== src/Config/Env/Order.antt =====
-- internal/shared/envconfig/envconfig.go: the code takes the first source that is present, of a list
-- that depends on the options.
use opencode_reviewer.Prelude.{List, [], ◌∷◌, ◌++◌, if◌then◌else◌, Result, ok, ◌≡◌, arith}
use opencode_reviewer.GoText.{Bytes, is_empty}
use opencode_reviewer.Config.System.{System, ConfigErr}
use opencode_reviewer.Config.Env.{
  Options, read_env_file, read_config_file, read_env_or_file_with_options, resolve_with_options,
}

-- The specification: a source is a text, which is empty when the source is absent, and what the
-- text stands for.
pub record ValueSource : Type 0 where
  pub setting : Bytes
  pub value : Result ConfigErr Bytes

-- The value of the first source that is present, and the empty value when none is.
abbrev pub first_present : List ValueSource → Result ConfigErr Bytes
first_present [] = ok []
first_present (s ∷ sources) =
    let rest = first_present sources in if is_empty s.setting then rest else s.value

-- The environment stands in front of the configuration, behind it, or nowhere.
abbrev pub in_order : Options → List ValueSource → List ValueSource → List ValueSource
in_order opts env config =
    if opts.use_env then if opts.env_fallback then config ++ env else env ++ config else config

module _ (sys : System) where
  abbrev pub file_of_env : Bytes → ValueSource
  file_of_env key = record {
    setting = sys.getenv key;
    value = read_env_file sys key (sys.getenv key);
  }

  abbrev pub file_of_config : Bytes → ValueSource
  file_of_config path = record { setting = path; value = read_config_file sys path }

  abbrev pub inline : Bytes → ValueSource
  inline text = record { setting = text; value = ok text }

  read_env_or_file_with_options-first :
      (file_env_key inline_env_key fallback_path : Bytes) (opts : Options)
      → read_env_or_file_with_options sys file_env_key inline_env_key fallback_path opts
        ≡ first_present (
            in_order opts
              (file_of_env file_env_key ∷ inline (sys.getenv inline_env_key) ∷ [])
              (file_of_config fallback_path ∷ []))
  unfolding read_env_or_file_with_options
  read_env_or_file_with_options-first file_env_key inline_env_key fallback_path opts = ground arith

  resolve_with_options-first :
      (env_path_key inline_value fallback_path : Bytes) (opts : Options)
      → resolve_with_options sys env_path_key inline_value fallback_path opts
        ≡ first_present (
            in_order opts
              (file_of_env env_path_key ∷ [])
              (inline inline_value ∷ file_of_config fallback_path ∷ []))
  unfolding resolve_with_options
  resolve_with_options-first env_path_key inline_value fallback_path opts = ground arith

  -- Both ways to read a value refine the specification, for all options: the file that a variable
  -- names, an inline text and the file of the configuration are sources, the first source that is
  -- present gives the value or the error of reading its file, and no source the empty value. The
  -- environment stands in front of the configuration; with the fallback behind it; without
  -- permission nowhere. An inline text of the configuration stands in front of its file.
  pub resolve_with_options-first_present :
      (key inline_key inline_value path : Bytes) (opts : Options)
      → (read_env_or_file_with_options sys key inline_key path opts
          ≡ first_present (
              in_order opts
                (file_of_env key ∷ inline (sys.getenv inline_key) ∷ [])
                (file_of_config path ∷ [])))
        × (resolve_with_options sys key inline_value path opts
            ≡ first_present (
                in_order opts
                  (file_of_env key ∷ [])
                  (inline inline_value ∷ file_of_config path ∷ [])))
  resolve_with_options-first_present key inline_key inline_value path opts = (
    read_env_or_file_with_options-first key inline_key path opts,
    resolve_with_options-first key inline_value path opts,
  )
