-- ===== src/Config/Env.antt =====
-- internal/shared/envconfig/envconfig.go: a value from the environment, from the configuration or
-- from a file, in two orders.
pub mod Order
use opencode_reviewer.Prelude.{
  Bool, true, false, not, ◌&&◌, [], if◌then◌else◌, Result, ok, err, wrap_err,
}
use opencode_reviewer.GoText.{Bytes, is_empty, clean}
use opencode_reviewer.Config.System.{System, ConfigErr, read_env_path, read_config_path}

pub record Options : Type 0 where
  pub use_env : Bool
  pub env_fallback : Bool

module _ (sys : System) where
  -- The file that a variable names.
  unfoldable pub read_env_file : Bytes → Bytes → Result ConfigErr Bytes
  unfolding clean
  read_env_file key path = wrap_err (read_env_path key path) (sys.read_file (clean path))

  unfoldable pub read_config_file : Bytes → Result ConfigErr Bytes
  unfolding clean
  read_config_file path = wrap_err (read_config_path path) (sys.read_file (clean path))

  unfoldable pub read_env_or_file_with_options :
      Bytes → Bytes → Bytes → Options → Result ConfigErr Bytes
  unfolding read_env_file read_config_file
  read_env_or_file_with_options file_env_key inline_env_key fallback_path opts =
      let path = sys.getenv file_env_key in
      let val = sys.getenv inline_env_key in
      let last : Result ConfigErr Bytes =
        if opts.use_env && opts.env_fallback
        then if not (is_empty path)
          then read_env_file file_env_key path
          else if not (is_empty val)
          then ok val
          else ok []
        else ok [] in
      let middle : Result ConfigErr Bytes =
        if not (is_empty fallback_path) then read_config_file fallback_path else last in
      if opts.use_env && not opts.env_fallback
      then if not (is_empty path)
        then read_env_file file_env_key path
        else if not (is_empty val)
        then ok val
        else middle
      else middle

  unfoldable pub resolve_with_options : Bytes → Bytes → Bytes → Options → Result ConfigErr Bytes
  unfolding read_env_file read_config_file
  resolve_with_options env_path_key inline_value fallback_path opts =
      let path = sys.getenv env_path_key in
      let last : Result ConfigErr Bytes =
        if (opts.use_env && opts.env_fallback) && not (is_empty path)
        then read_env_file env_path_key path
        else ok [] in
      let middle : Result ConfigErr Bytes =
        if not (is_empty inline_value)
        then ok inline_value
        else if not (is_empty fallback_path)
        then read_config_file fallback_path
        else last in
      if (opts.use_env && not opts.env_fallback) && not (is_empty path)
      then read_env_file env_path_key path
      else middle

abbrev pub env_first : Options
env_first = record { use_env = true; env_fallback = false }

module _ (sys : System) where
  unfoldable pub read_env_or_file : Bytes → Bytes → Bytes → Result ConfigErr Bytes
  unfolding read_env_or_file_with_options
  read_env_or_file file_env_key inline_env_key fallback_path =
      read_env_or_file_with_options sys file_env_key inline_env_key fallback_path env_first

  unfoldable pub resolve : Bytes → Bytes → Bytes → Result ConfigErr Bytes
  unfolding resolve_with_options
  resolve env_path_key inline_value fallback_path =
      resolve_with_options sys env_path_key inline_value fallback_path env_first
