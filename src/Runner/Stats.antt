-- ===== src/Runner/Stats.antt =====
-- internal/shared/runner/session_stats.go: the statistics of a session, with their collection in
-- runner.go and run_session.go. An `int` is its residue modulo 2 ^ 64. The addition of `float64` is
-- an argument, as are its values.
pub mod Tokens
pub mod Merged
pub mod Accounted
mod Tests
use opencode_reviewer.Prelude.{
  ℕ, suc, ◌+◌, ◌%◌, Bool, false, not, ◌&&◌, ◌||◌, List, [], ◌∷◌, ◌++◌, Option, none, some,
  if◌then◌else◌, ltb, Result, ok, err,
}
use opencode_reviewer.GoText.{Bytes, codes, bytes_eq, is_empty}
use opencode_reviewer.Runner.Models.{
  MessageModel, model_string, member, append_unique_models, with_fallback_models,
}

unfoldable pub add_int : ℕ → ℕ → ℕ
add_int a b = (a + b) % 18446744073709551616

pub record TokenCache : Type 0 where
  pub read : ℕ
  pub write : ℕ

pub record TokenUsage : Type 0 where
  pub input : ℕ
  pub output : ℕ
  pub reasoning : ℕ
  pub cache : TokenCache

unfoldable pub add_token_usage : TokenUsage → TokenUsage → TokenUsage
unfolding add_int
add_token_usage a b = record {
  input = add_int a.input b.input;
  output = add_int a.output b.output;
  reasoning = add_int a.reasoning b.reasoning;
  cache = record {
    read = add_int a.cache.read b.cache.read;
    write = add_int a.cache.write b.cache.write;
  };
}

abbrev pub no_tokens : TokenUsage
no_tokens = record { input = 0; output = 0; reasoning = 0; cache = record { read = 0; write = 0 } }

pub record ModelCost (F : Type 0) : Type 0 where
  pub model : Bytes
  pub cost : F
  pub tokens : TokenUsage

-- The set of message ids is a list.
pub record SessionStats (F : Type 0) : Type 0 where
  pub cost : F
  pub tokens : TokenUsage
  pub models : List Bytes
  pub fallback_models : List Bytes
  pub model_costs : List (ModelCost F)
  pub message_ids : List Bytes
  pub message_count : ℕ

pub record SessionMessageInfo (F : Type 0) : Type 0 where
  pub id : Bytes
  pub role : Bytes
  pub cost : F
  pub tokens : TokenUsage
  pub provider_id : Bytes
  pub model_id : Bytes
  pub model : Option MessageModel

pub record SentMessage (F : Type 0) : Type 0 where
  pub info : SessionMessageInfo F
  pub requested_model : Bytes

module _ (F : Type 0) (zero_cost : F) (plus : F → F → F) where
  abbrev pub no_stats : SessionStats F
  no_stats = record {
    cost = zero_cost;
    tokens = no_tokens;
    models = [];
    fallback_models = [];
    model_costs = [];
    message_ids = [];
    message_count = 0;
  }

  unfoldable pub has_model : Bytes → List (ModelCost F) → Bool
  unfolding bytes_eq
  has_model m [] = false
  has_model m (x ∷ xs) = bytes_eq m x.model || has_model m xs

  abbrev pub add_cost : ModelCost F → ModelCost F → ModelCost F
  add_cost x c = record x { cost = plus x.cost c.cost; tokens = add_token_usage x.tokens c.tokens }

  -- A cost is added to the last entry of its model, to which `index` points, or appended.
  unfoldable pub merge_cost : ModelCost F → List (ModelCost F) → List (ModelCost F)
  unfolding has_model bytes_eq add_token_usage
  merge_cost c [] = c ∷ []
  merge_cost c (x ∷ xs) =
      let rest = merge_cost c xs in
      if has_model c.model xs
      then x ∷ rest
      else if bytes_eq c.model x.model
      then add_cost x c ∷ xs
      else x ∷ rest

  unfoldable pub append_model_costs : List (ModelCost F) → List (ModelCost F) → List (ModelCost F)
  unfolding merge_cost
  append_model_costs base [] = base
  append_model_costs base (c ∷ cs) =
      append_model_costs (if is_empty c.model then base else merge_cost c base) cs

  -- `Add`
  unfoldable pub add_stats : SessionStats F → SessionStats F → SessionStats F
  unfolding add_token_usage append_unique_models append_model_costs
  add_stats s other = record {
    cost = plus s.cost other.cost;
    tokens = add_token_usage s.tokens other.tokens;
    models = append_unique_models s.models other.models;
    fallback_models = append_unique_models s.fallback_models other.fallback_models;
    model_costs = append_model_costs s.model_costs other.model_costs;
    message_ids = s.message_ids ++ other.message_ids;
    message_count = s.message_count + other.message_count;
  }

  abbrev pub info_model : SessionMessageInfo F → Bytes → Bytes
  info_model info requested_model =
      let model = model_string info.provider_id info.model_id info.model in
      if is_empty model then requested_model else model

  -- The statistics with the model of a message, which is filled.
  abbrev pub with_model : Bytes → SessionMessageInfo F → SessionStats F → SessionStats F
  with_model model info s = record s {
    models = append_unique_models s.models (model ∷ []);
    model_costs =
        append_model_costs s.model_costs
          (record { model = model; cost = info.cost; tokens = info.tokens } ∷ []);
  }

  unfoldable pub with_message : SessionStats F → SessionMessageInfo F → Bytes → SessionStats F
  unfolding add_token_usage append_unique_models append_model_costs model_string
  with_message s info requested_model =
      let model = info_model info requested_model in
      let named = if is_empty model then s else with_model model info s in
      record named {
        cost = plus s.cost info.cost;
        tokens = add_token_usage s.tokens info.tokens;
        message_ids = if is_empty info.id then s.message_ids else s.message_ids ++ (info.id ∷ []);
        message_count = suc s.message_count;
      }

  unfoldable pub has_message_id : SessionStats F → Bytes → Bool
  unfolding member
  has_message_id s id = not (is_empty id) && member id s.message_ids

  abbrev pub has_messages : SessionStats F → Bool
  has_messages s = ltb 0 s.message_count

  -- The messages of a session, of which those of the assistant count.
  unfoldable pub count_messages : SessionStats F → List (SessionMessageInfo F) → SessionStats F
  unfolding with_message bytes_eq
  count_messages stats [] = stats
  count_messages stats (m ∷ ms) =
      count_messages
        (if not (bytes_eq m.role (codes "assistant")) then stats else with_message stats m []) ms

  -- `getSessionStats`, on what `fetchSessionStats` reads for each session, in any order of the
  -- children.
  unfoldable pub add_sessions :
      SessionStats F → List (Result Bytes (List (SessionMessageInfo F))) → SessionStats F
  unfolding count_messages add_stats
  add_sessions total [] = total
  add_sessions total (err e ∷ rest) = add_sessions total rest
  add_sessions total (ok messages ∷ rest) =
      add_sessions (add_stats total (count_messages no_stats messages)) rest

  -- The sent messages that the statistics lack, in the order in which the map is visited.
  unfoldable pub add_sent : Bool → SessionStats F → List (SentMessage F) → SessionStats F
  unfolding with_message has_message_id
  add_sent had_session_messages stats [] = stats
  add_sent had_session_messages stats (m ∷ ms) =
      add_sent had_session_messages
        (if has_message_id stats m.info.id || had_session_messages
          then stats
          else with_message stats m.info m.requested_model)
        ms

  -- `cleanup`
  unfoldable pub final_stats :
      List Bytes
      → List (SentMessage F)
      → List Bytes
      → List (Result Bytes (List (SessionMessageInfo F)))
      → SessionStats F
  unfolding add_sessions add_sent append_unique_models with_fallback_models
  final_stats used_models sent configured_chain sessions =
      let fetched = add_sessions no_stats sessions in
      let stats = record fetched { models = append_unique_models used_models fetched.models } in
      let added = add_sent (has_messages stats) stats sent in
      record added { fallback_models = with_fallback_models added.models configured_chain }
