-- ===== src/Config/Provider.antt =====
-- internal/shared/providerconfig/providerconfig.go: the provider configuration, a JSON text.
use opencode_reviewer.Prelude.{
  Bool, not, List, [], ◌∷◌, ◌++◌, Option, none, some, if◌then◌else◌, Result, ok, err, ◌>>=◌,
  wrap_err,
}
use opencode_reviewer.GoText.{Bytes, codes, is_empty}
use opencode_reviewer.GoInt.{ℤ, pos, lt_int}
use opencode_reviewer.Config.System.{System, ConfigErr, wrapped, refused}
use opencode_reviewer.Config.Env.{Options, read_env_or_file_with_options}

-- `F` is `float64`.
pub record CostEntry (F : Type 0) : Type 0 where
  pub input : F
  pub output : F
  pub cache_read : F

pub record LimitEntry : Type 0 where
  pub context : ℤ
  pub output : ℤ

pub record ModelEntry (F : Type 0) : Type 0 where
  pub cost : Option (CostEntry F)
  pub limit : Option LimitEntry

-- The maps are lists in the order in which they are gone through.
pub record ConfigShape (F : Type 0) : Type 0 where
  pub provider : List (Bytes × List (Bytes × ModelEntry F))
  pub model : Bytes

-- `encoding/json` on the text of a configuration, the comparison of a number with 0,
-- and the quoting of a name by `%q`.
pub record Decoding (F : Type 0) : Type 0 where
  pub decode : Bytes → Result Bytes (ConfigShape F)
  pub below_zero : F → Bool
  pub quote : Bytes → Bytes

abbrev Check : Type 0
Check = Option ConfigErr

-- The first check that fails.
infixr 20 ◌or_else◌
abbrev ◌or_else◌ : Check → Check → Check
some e or_else later = some e
none or_else later = later

module _ {F : Type 0} (json : Decoding F) where
  unfoldable pub check_cost : Bytes → CostEntry F → Check
  check_cost place cost =
      if json.below_zero cost.input
      then some (refused (place ++ codes "cost.input must be non-negative"))
      else if json.below_zero cost.output
      then some (refused (place ++ codes "cost.output must be non-negative"))
      else none

  unfoldable pub check_limit : Bytes → LimitEntry → Check
  check_limit place limit =
      if not (lt_int (pos 0) limit.context)
      then some (refused (place ++ codes "limit.context must be positive"))
      else none

  unfoldable pub check_model : Bytes → ModelEntry F → Check
  unfolding check_cost check_limit
  check_model place m =
      (elim m.cost [ none ↦ none | some cost ↦ check_cost place cost ])
      or_else (elim m.limit [ none ↦ none | some limit ↦ check_limit place limit ])

  -- The loop over the models of a provider.
  unfoldable pub check_models : Bytes → List (Bytes × ModelEntry F) → Check
  unfolding check_model
  check_models provider [] = none
  check_models provider ((name, m) ∷ models) =
      check_model
        (codes "provider "
          ++ (json.quote provider ++ (codes " model " ++ (json.quote name ++ codes ": "))))
        m
      or_else check_models provider models

  -- The loop over the providers.
  unfoldable pub check_providers : List (Bytes × List (Bytes × ModelEntry F)) → Check
  unfolding check_models
  check_providers [] = none
  check_providers ((name, models) ∷ providers) =
      (if is_empty models
        then some (
            refused (
              codes "provider "
              ++ (json.quote name ++ codes ": models is required and must not be empty")))
        else check_models name models)
      or_else check_providers providers

  unfoldable pub check_shape : ConfigShape F → Check
  unfolding check_providers
  check_shape cfg =
      (if is_empty cfg.provider
        then some (refused (codes "provider is required and must not be empty"))
        else check_providers cfg.provider)
      or_else (if is_empty cfg.model then some (refused (codes "model is required")) else none)

  unfoldable pub parse_error : Bytes → ConfigErr
  parse_error e = refused (codes "parse JSON: " ++ e)

  unfoldable pub validate : Bytes → Check
  unfolding check_shape parse_error
  validate raw = elim (json.decode raw) [ err e ↦ some (parse_error e) | ok cfg ↦ check_shape cfg ]

  -- An empty text has no model.
  unfoldable pub default_model : Bytes → Result ConfigErr Bytes
  unfolding parse_error
  default_model raw =
      if is_empty raw
      then ok []
      else elim (json.decode raw) [ err e ↦ err (parse_error e) | ok cfg ↦ ok cfg.model ]

  abbrev validated : Bytes → Check → Result ConfigErr Bytes
  validated raw none = ok raw
  validated raw (some e) = err (wrapped (codes "validate provider config") e)

  -- The text of the configuration; the empty text stands for nil.
  unfoldable pub load_with_options : System → Bytes → Options → Result ConfigErr Bytes
  unfolding read_env_or_file_with_options validate
  load_with_options sys config_path opts =
      wrap_err (wrapped (codes "load provider config")) (
        read_env_or_file_with_options sys (codes "OR_PROVIDER_CONFIG_PATH")
          (codes "OR_PROVIDER_CONFIG") config_path opts)
      >>= λ raw. if is_empty raw then ok [] else validated raw (validate raw)
