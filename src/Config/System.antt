-- ===== src/Config/System.antt =====
-- What the configuration is read from.
use opencode_reviewer.Prelude.{Bool, List, Result}
use opencode_reviewer.GoText.{Bytes}

-- The environment and the file system of the process. An error is its text.
pub record System : Type 0 where
  -- `os.Getenv`: empty when the variable is not set.
  pub getenv : Bytes → Bytes
  pub getwd : Result Bytes Bytes
  pub read_file : Bytes → Result Bytes Bytes
  -- `os.Stat`: whether the path is a directory.
  pub stat_is_dir : Bytes → Result Bytes Bool
  -- `os.ReadDir`: the names, and whether each is a directory.
  pub read_dir : Bytes → Result Bytes (List (Bytes × Bool))

-- The errors of the packages that read the configuration, with what their texts name.
pub data ConfigErr : Type 0 where
  read_env_path : Bytes → Bytes → Bytes → ConfigErr
  read_config_path : Bytes → Bytes → ConfigErr
  working_directory : Bytes → ConfigErr
  read_prompt : Bytes → Bytes → ConfigErr
  wrapped : Bytes → ConfigErr → ConfigErr
  -- A message of the package itself.
  refused : Bytes → ConfigErr
