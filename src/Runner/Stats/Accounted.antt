-- ===== src/Runner/Stats/Accounted.antt =====
-- internal/shared/runner/session_stats.go: the table of costs accounts for the tokens of a run.
use opencode_reviewer.Prelude.{
  choice, Bool, true, false, List, [], ◌∷◌, Result, ok, err, All, ◌⊎◌, inl, inr, ◌≡◌, refl, sym, ap,
  ◌∙◌, arith,
}
use opencode_reviewer.GoText.{Bytes, codes, bytes_eq, bytes_eq_self, is_empty}
use opencode_reviewer.Runner.Models.{member, append_unique_models, member-append_unique_models}
use opencode_reviewer.Runner.Stats.{
  add_token_usage, SessionStats, SessionMessageInfo, SentMessage, no_stats, ModelCost, merge_cost,
  append_model_costs, add_stats, info_model, with_model, with_message, count_messages, add_sessions,
  add_sent, final_stats,
}
use opencode_reviewer.Runner.Stats.Tokens.{sum_tokens}
use opencode_reviewer.Runner.Stats.Merged.{
  OfModels, append_model_costs-OfModels, IsTable, sum_tokens-merge_cost, append_model_costs-IsTable,
  sum_tokens-append_model_costs,
}

module _ (F : Type 0) (zero_cost : F) (plus : F → F → F) where
  abbrev pub IsListed : List Bytes → Bytes → Type 0
  IsListed models m = member m models ≡ true

  kept-IsListed :
      (base ms : List Bytes) (xs : List (ModelCost F))
      → OfModels F zero_cost plus (IsListed base) xs
      → OfModels F zero_cost plus (IsListed (append_unique_models base ms)) xs
  kept-IsListed base ms [] all = tt
  kept-IsListed base ms (x ∷ xs) (h, all) =
      (member-append_unique_models x.model base ms ∙ ground arith, kept-IsListed base ms xs all)

  new-IsListed :
      (base ms : List Bytes) (xs : List (ModelCost F))
      → OfModels F zero_cost plus (λ m. is_empty m ≡ false) xs
      → OfModels F zero_cost plus (IsListed ms) xs
      → OfModels F zero_cost plus (IsListed (append_unique_models base ms)) xs
  new-IsListed base ms [] filled all = tt
  new-IsListed base ms (x ∷ xs) (f, filled) (h, all) = (
    member-append_unique_models x.model base ms ∙ ground arith,
    new-IsListed base ms xs filled all,
  )

  row-IsListed :
      (base : List Bytes) (m : Bytes)
      → is_empty m ≡ false
      → IsListed (append_unique_models base (m ∷ [])) m
  row-IsListed base m f =
      let same = bytes_eq_self m in
      member-append_unique_models m base (m ∷ []) ∙ unfold member in ground arith

  -- The rows of the table are those of different models, which are listed, and their tokens add up
  -- to the total.
  pub record IsAccounted (s : SessionStats F) : Type 0 where
    pub total : s.tokens ≡ sum_tokens F s.model_costs
    pub table : IsTable F zero_cost plus s.model_costs
    pub listed : OfModels F zero_cost plus (IsListed s.models) s.model_costs

  -- A message names its model, itself or by its request.
  abbrev pub IsNamed : Bytes → SessionMessageInfo F → Type 0
  IsNamed requested info = is_empty (info_model F zero_cost plus info requested) ≡ false

  -- A message that is not of the assistant, or names its model.
  abbrev pub IsAttributed : SessionMessageInfo F → Type 0
  IsAttributed m = (bytes_eq m.role (codes "assistant") ≡ false) ⊎ IsNamed [] m

  abbrev pub SessionIsAttributed : Result Bytes (List (SessionMessageInfo F)) → Type 0
  SessionIsAttributed (err e) = Unit
  SessionIsAttributed (ok messages) = All IsAttributed messages

  abbrev pub SentIsNamed : SentMessage F → Type 0
  SentIsNamed m = IsNamed m.requested_model m.info

  no_stats-IsAccounted : IsAccounted (no_stats F zero_cost plus)
  no_stats-IsAccounted = record {
    total = unfold sum_tokens in refl;
    table = record { filled = tt; unique = tt };
    listed = tt;
  }

  one_cost :
      (row : ModelCost F) (xs : List (ModelCost F))
      → is_empty row.model ≡ false
      → append_model_costs F zero_cost plus xs (row ∷ []) ≡ merge_cost F zero_cost plus row xs
  unfolding append_model_costs
  one_cost row xs named = rw named refl

  -- The table of `n` accounts for `s` with the message.
  abbrev Counts : SessionStats F → SessionMessageInfo F → SessionStats F → Type 0
  Counts s info n =
      (add_token_usage s.tokens info.tokens ≡ sum_tokens F n.model_costs)
      × IsTable F zero_cost plus n.model_costs
      × OfModels F zero_cost plus (IsListed n.models) n.model_costs

  with_model-Counts :
      (s : SessionStats F) (info : SessionMessageInfo F) (m : Bytes)
      → is_empty m ≡ false
      → IsAccounted s
      → Counts s info (with_model F zero_cost plus m info s)
  with_model-Counts s info m named a =
      let row : ModelCost F = record { model = m; cost = info.cost; tokens = info.tokens } in
      let models = append_unique_models s.models (m ∷ []) in
      (
        ap (λ u. add_token_usage u info.tokens) a.total
            ∙ (sym (sum_tokens-merge_cost F zero_cost plus row s.model_costs)
                ∙ ap (sum_tokens F) (sym (one_cost row s.model_costs named))),
        append_model_costs-IsTable F zero_cost plus s.model_costs (row ∷ []) a.table (named, tt),
        append_model_costs-OfModels F zero_cost plus (IsListed models) (row ∷ []) s.model_costs
            (kept-IsListed s.models (m ∷ []) s.model_costs a.listed)
            (row-IsListed s.models m named, tt),
      )

  with_message-IsAccounted :
      (s : SessionStats F) (info : SessionMessageInfo F) (requested : Bytes)
      → IsNamed requested info
      → IsAccounted s
      → IsAccounted (with_message F zero_cost plus s info requested)
  unfolding with_message
  with_message-IsAccounted s info requested named a =
      let m = info_model F zero_cost plus info requested in
      let counts =
        choice (is_empty m) s (with_model F zero_cost plus m info s) (Counts s info)
          (λ e. absurd cc) (λ e. with_model-Counts s info m named a) in
      record { total = counts.0; table = counts.1; listed = counts.2 }

  add_stats-IsAccounted :
      (s other : SessionStats F)
      → IsAccounted s
      → IsAccounted other
      → IsAccounted (add_stats F zero_cost plus s other)
  unfolding add_stats
  add_stats-IsAccounted s other a b = record {
    total =
        ap (λ u. add_token_usage u other.tokens) a.total
        ∙ (ap (add_token_usage (sum_tokens F s.model_costs)) b.total
            ∙ sym (
                sum_tokens-append_model_costs F zero_cost plus s.model_costs other.model_costs
                  b.table.filled));
    table =
        append_model_costs-IsTable F zero_cost plus s.model_costs other.model_costs a.table
          b.table.filled;
    listed =
        append_model_costs-OfModels F zero_cost plus
          (IsListed (append_unique_models s.models other.models)) other.model_costs s.model_costs
          (kept-IsListed s.models other.models s.model_costs a.listed)
          (new-IsListed s.models other.models other.model_costs b.table.filled b.listed);
  }

  count_messages-IsAccounted :
      (ms : List (SessionMessageInfo F)) (s : SessionStats F)
      → All IsAttributed ms
      → IsAccounted s
      → IsAccounted (count_messages F zero_cost plus s ms)
  unfolding count_messages
  count_messages-IsAccounted [] s all a = a
  count_messages-IsAccounted (m ∷ ms) s (inl other, all) a =
      rw other (count_messages-IsAccounted ms s all a)
  count_messages-IsAccounted (m ∷ ms) s (inr named, all) a = count_messages-IsAccounted ms _ all (
      choice _ s (with_message F zero_cost plus s m []) IsAccounted (λ other. a)
        (λ assistant. with_message-IsAccounted s m [] named a))

  add_sessions-IsAccounted :
      (sessions : List (Result Bytes (List (SessionMessageInfo F)))) (s : SessionStats F)
      → All SessionIsAttributed sessions
      → IsAccounted s
      → IsAccounted (add_sessions F zero_cost plus s sessions)
  unfolding add_sessions
  add_sessions-IsAccounted [] s all a = a
  add_sessions-IsAccounted (err e ∷ rest) s (_, all) a = add_sessions-IsAccounted rest s all a
  add_sessions-IsAccounted (ok messages ∷ rest) s (attributed, all) a =
      add_sessions-IsAccounted rest _ all (
        add_stats-IsAccounted s _ a
          (count_messages-IsAccounted messages _ attributed no_stats-IsAccounted))

  add_sent-IsAccounted :
      (had : Bool) (sent : List (SentMessage F)) (s : SessionStats F)
      → All SentIsNamed sent
      → IsAccounted s
      → IsAccounted (add_sent F zero_cost plus had s sent)
  unfolding add_sent
  add_sent-IsAccounted had [] s all a = a
  add_sent-IsAccounted had (m ∷ ms) s (named, all) a = add_sent-IsAccounted had ms _ all (
      choice _ s (with_message F zero_cost plus s m.info m.requested_model) IsAccounted
        (λ present. a) (λ lacking. with_message-IsAccounted s m.info m.requested_model named a))

  -- The statistics of a run have one row for each model, whose name is filled and among the models
  -- used, and the tokens of the rows add up to the total, modulo 2 ^ 64, when every message of an assistant names its model and every message that
  -- was sent is answered with a model or asked for one. This holds for any order of the sessions and
  -- of the sent messages, and whichever sessions cannot be read.
  pub final_stats-IsAccounted :
      (used_models : List Bytes) (sent : List (SentMessage F)) (configured_chain : List Bytes)
      → (sessions : List (Result Bytes (List (SessionMessageInfo F)))) → All SentIsNamed sent
      → All SessionIsAttributed sessions
      → IsAccounted (final_stats F zero_cost plus used_models sent configured_chain sessions)
  unfolding final_stats
  final_stats-IsAccounted used_models sent configured_chain sessions named attributed =
      let fetched = add_sessions-IsAccounted sessions _ attributed no_stats-IsAccounted in
      let added = add_sent-IsAccounted _ sent _ named (record {
        total = fetched.total;
        table = fetched.table;
        listed = new-IsListed used_models _ _ fetched.table.filled fetched.listed;
      }) in
      record { total = added.total; table = added.table; listed = added.listed }
