-- ===== src/Runner/Stats/Tests.antt =====
-- The statistics of a run with a session that cannot be read, and the theorem at them.
use opencode_reviewer.Prelude.{ℕ, ◌+◌, List, [], ◌∷◌, none, ok, err, inl, inr, ◌≡◌, refl, Result}
use opencode_reviewer.GoText.{Bytes, codes, bytes_eq}
use opencode_reviewer.Runner.Models.{model_string}
use opencode_reviewer.Runner.Stats.{TokenUsage, SessionMessageInfo, SentMessage, final_stats}
use opencode_reviewer.Runner.Stats.Accounted.{IsAccounted, final_stats-IsAccounted}

abbrev tokens : ℕ → TokenUsage
tokens n = record { input = n; output = 1; reasoning = 0; cache = record { read = 0; write = n } }

abbrev message : Bytes → Bytes → ℕ → SessionMessageInfo ℕ
message role model n = record {
  id = codes "msg";
  role = role;
  cost = n;
  tokens = tokens n;
  provider_id = codes "p";
  model_id = model;
  model = none;
}

abbrev sessions : List (Result Bytes (List (SessionMessageInfo ℕ)))
sessions =
    err (codes "down")
    ∷ ok (
        message (codes "assistant") (codes "a") 3
        ∷ message (codes "user") [] 9
        ∷ message (codes "assistant") (codes "b") 4
        ∷ [])
    ∷ ok (message (codes "assistant") (codes "a") 18446744073709551615 ∷ [])
    ∷ []

abbrev sent : List (SentMessage ℕ)
sent = record { info = message (codes "assistant") (codes "a") 3; requested_model = [] } ∷ []

-- Two rows, the first with a count that wrapped round.
test_rows : (final_stats ℕ 0 (λ x y. x + y) [] sent [] sessions).model_costs ≡ (
    record {
      model = codes "p/a";
      cost = 18446744073709551618;
      tokens = record {
        input = 2;
        output = 2;
        reasoning = 0;
        cache = record { read = 0; write = 2 };
      };
    }
    ∷ record { model = codes "p/b"; cost = 4; tokens = tokens 4 }
    ∷ [])
unfolding final_stats
test_rows = refl

final_stats-IsAccounted_example :
    IsAccounted ℕ 0 (λ x y. x + y) (final_stats ℕ 0 (λ x y. x + y) [] sent [] sessions)
unfolding model_string bytes_eq
final_stats-IsAccounted_example =
    final_stats-IsAccounted ℕ 0 (λ x y. x + y) [] sent [] sessions (refl, tt)
      (tt, ((inr refl, (inl refl, (inr refl, tt))), ((inr refl, tt), tt)))
