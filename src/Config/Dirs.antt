-- ===== src/Config/Dirs.antt =====
-- internal/shared/configdir: the configuration directory, from the command line, the environment or
-- the project.
use opencode_reviewer.Prelude.{
  Bool, not, Option, none, some, if◌then◌else◌, [], Result, ok, err, ◌>>=◌,
}
use opencode_reviewer.GoText.{Bytes, codes, is_empty, is_abs, clean, join_paths}
use opencode_reviewer.Config.System.{System}

pub data Source : Type 0 where
  source_none source_cli source_env source_auto : Source

pub data DirErr : Type 0 where
  resolve_absolute_path : Bytes → Bytes → DirErr
  read_config_directory : Bytes → Bytes → DirErr
  not_a_directory : Bytes → DirErr

abbrev pub directory_name : Bytes
directory_name = codes ".opencodereview"

module _ (sys : System) where
  -- `filepath.Abs`
  unfoldable pub absolute : Bytes → Result Bytes Bytes
  unfolding is_abs clean join_paths
  absolute path =
      if is_abs path then ok (clean path) else sys.getwd >>= λ cwd. ok (join_paths cwd path)

  abbrev checked_directory : Bytes → Result Bytes Bool → Result DirErr Bytes
  checked_directory resolved (err e) = err (read_config_directory resolved e)
  checked_directory resolved (ok dir) = if dir then ok resolved else err (not_a_directory resolved)

  unfoldable pub abs : Bytes → Result DirErr Bytes
  unfolding absolute
  abs path = elim (absolute path) [
    | err e ↦ err (resolve_absolute_path path e)
    | ok resolved ↦ checked_directory resolved (sys.stat_is_dir resolved)
  ]

  abbrev found_directory : Bytes → Result Bytes Bool → Option Bytes
  found_directory candidate (err e) = none
  found_directory candidate (ok dir) = if dir then some candidate else none

  unfoldable pub discover_in : Bytes → Option Bytes
  unfolding join_paths
  discover_in project_dir =
      let candidate = join_paths project_dir directory_name in
      found_directory candidate (sys.stat_is_dir candidate)

  unfoldable pub discover : Bytes → Option Bytes
  unfolding discover_in
  discover project_dir =
      if is_empty project_dir
      then elim sys.getwd [ err e ↦ none | ok cwd ↦ discover_in cwd ]
      else discover_in project_dir

  unfoldable pub from_source : Bytes → Source → Result DirErr (Bytes × Source)
  unfolding abs
  from_source path source = abs path >>= λ resolved. ok (resolved, source)

  unfoldable pub resolve : Bytes → Bytes → Bytes → Bool → Result DirErr (Bytes × Source)
  unfolding from_source discover
  resolve cli_config_dir env_config_dir project_dir disable_auto_discovery =
      if not (is_empty cli_config_dir)
      then from_source cli_config_dir source_cli
      else if not (is_empty env_config_dir)
      then from_source env_config_dir source_env
      else if disable_auto_discovery
      then ok ([], source_none)
      else elim (discover project_dir) [
        | none ↦ ok ([], source_none)
        | some discovered ↦ from_source discovered source_auto
      ]
