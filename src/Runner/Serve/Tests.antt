-- ===== src/Runner/Serve/Tests.antt =====
-- A server that comes up at the second attempt, and the theorem at it.
use opencode_reviewer.Prelude.{
  All, true, ℕ, ◌==◌, false, [], ◌∷◌, none, some, ok, ◌≡◌, refl, if◌then◌else◌,
}
use opencode_reviewer.GoText.{codes, trim_space}
use opencode_reviewer.Runner.Serve.{
  answered, check_health, Check, context_done, Attempt, process_started, process_killed,
  start_serve_subprocess_with_retries,
}
use opencode_reviewer.Runner.Serve.Running.{running, succeeded, IsGivenUp, start_serve-running}

abbrev check : ℕ → Check
check status = record {
  exchange = answered status (codes "503 Service Unavailable") (ok (codes " no\ndb "));
  from_context = false;
}

test_check_health :
    check_health (check 503).exchange
    ≡ some (codes "health returned 503 Service Unavailable: no db")
unfolding check_health trim_space
test_check_health = refl

abbrev attempt : ℕ → Attempt
attempt n = record {
  port = ok 4096;
  output = none;
  start = none;
  checks = check 503 ∷ [];
  last_check = check (if n == 2 then 200 else 503);
  end = context_done (codes "deadline");
  dies = true;
}

second_attempt :
    start_serve_subprocess_with_retries attempt (λ n. false) (λ n. none)
    ≡ (none, process_started ∷ process_killed ∷ process_started ∷ [])
unfolding start_serve_subprocess_with_retries trim_space
second_attempt = refl

start_serve-running_example :
    (running false (start_serve_subprocess_with_retries attempt (λ n. false) (λ n. none)).1
      ≡ some (succeeded (start_serve_subprocess_with_retries attempt (λ n. false) (λ n. none)).0))
    × All
        (IsGivenUp attempt (λ n. false) (λ n. none))
        (start_serve_subprocess_with_retries attempt (λ n. false) (λ n. none)).1
start_serve-running_example = start_serve-running attempt (λ n. false) (λ n. none)
