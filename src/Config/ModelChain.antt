-- ===== src/Config/ModelChain.antt =====
-- internal/shared/config/opencode.go: the models of a run, the first one and those that follow it.
pub mod Unique
use opencode_reviewer.Prelude.{
  suc, Bool, true, false, not, ◌&&◌, ◌||◌, List, [], ◌∷◌, ◌++◌, Option, none, some, if◌then◌else◌,
  take, drop, Result, ok, err, ◌>>=◌,
}
use opencode_reviewer.GoText.{Bytes, codes, is_empty, index, trim_space}
use opencode_reviewer.Runner.Models.{member}

-- `normalizeModelList`
unfoldable pub normalize_model_list : List Bytes → List Bytes
unfolding trim_space
normalize_model_list [] = []
normalize_model_list (model ∷ models) =
    let rest = normalize_model_list models in
    if is_empty (trim_space model) then rest else trim_space model ∷ rest

-- A part before the first slash, and one behind it, both filled.
unfoldable pub is_full_model_id : Bytes → Bool
unfolding index
is_full_model_id model = elim (index model (codes "/")) [
  | none ↦ false
  | some i ↦ not (is_empty (take i model)) && not (is_empty (drop (suc i) model))
]

pub data ChainErr : Type 0 where
  no_primary_model : ChainErr
  primary_not_full : Bytes → ChainErr
  fallback_not_full : Bytes → ChainErr

-- The loop over the fallback models. The set `seen` holds the models of the chain.
unfoldable pub add_fallbacks : List Bytes → List Bytes → Result ChainErr (List Bytes)
unfolding is_full_model_id member
add_fallbacks chain [] = ok chain
add_fallbacks chain (model ∷ models) =
    let skipped = add_fallbacks chain models in
    let added = add_fallbacks (chain ++ (model ∷ [])) models in
    if not (is_full_model_id model)
    then err (fallback_not_full model)
    else if member model chain
    then skipped
    else added

unfoldable pub primary_model : Bytes → Bytes → Bytes
unfolding trim_space
primary_model configured provider_model =
    if is_empty (trim_space configured) then trim_space provider_model else trim_space configured

abbrev pub chain_from : Bytes → List Bytes → Result ChainErr (List Bytes)
chain_from primary fallbacks =
    if is_empty primary
    then err no_primary_model
    else if not (is_full_model_id primary)
    then err (primary_not_full primary)
    else add_fallbacks (primary ∷ []) fallbacks

-- `ModelChain` of a configuration with that model and those fallback models.
unfoldable pub model_chain : Bytes → List Bytes → Bytes → Result ChainErr (List Bytes)
unfolding normalize_model_list primary_model add_fallbacks
model_chain model fallback_models provider_model =
    let fallbacks = normalize_model_list fallback_models in
    if is_empty fallbacks then ok [] else chain_from (primary_model model provider_model) fallbacks
