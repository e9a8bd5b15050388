-- ===== src/Runner/Serve/Running.antt =====
-- internal/shared/runner/runner.go: when a server process runs behind a start.
use opencode_reviewer.Prelude.{
  All, All-append, choice, ℕ, zero, suc, Bool, true, false, List, [], ◌∷◌, ◌++◌, Option, none, some,
  Result, ok, err, ◌==◌, ◌≡◌, refl, ◌∙◌,
}
use opencode_reviewer.GoText.{Bytes}
use opencode_reviewer.Runner.Serve.{
  Act, log_closed, process_started, process_killed, process_exited, process_survived, Attempt,
  StartErr, not_allocated, no_output, not_started, unhealthy, Health, healthy, timed_out, exited,
  wait_healthy, after_wait, on_start, on_output, on_port, start_serve_subprocess_once, ServeErr,
  after_delay, after_failure, after_attempt, start_from, start_serve_subprocess_with_retries,
}

-- Whether the runner has a process behind the acts, which it has started and not seen end or given
-- up; `none` when it starts one next to it, or ends one that it does not have.
unfoldable pub running : Bool → List Act → Option Bool
running b [] = some b
running b (log_closed ∷ acts) = running b acts
running false (process_started ∷ acts) = running true acts
running true (process_killed ∷ acts) = running false acts
running true (process_exited ∷ acts) = running false acts
running true (process_survived ∷ acts) = running false acts
running b (_ ∷ acts) = none

abbrev pub succeeded : {E : Type 0} → Option E → Bool
succeeded none = true
succeeded (some e) = false

-- The acts bring a process up exactly when there is no error.
abbrev BringsUp : {E : Type 0} → Option E × List Act → Type 0
BringsUp (e, acts) = (rest : List Act) → running false (acts ++ rest) ≡ running (succeeded e) rest

after_wait-BringsUp : (dies : Bool) (h : Health) → BringsUp (after_wait dies h)
unfolding running
after_wait-BringsUp dies healthy rest = refl
after_wait-BringsUp true (timed_out last cause) rest = refl
after_wait-BringsUp false (timed_out last cause) rest = refl
after_wait-BringsUp dies (exited last cause) rest = refl

on_start-BringsUp : (a : Attempt) (e : Option Bytes) → BringsUp (on_start a e)
on_start-BringsUp a (some e) rest = unfold running in refl
on_start-BringsUp a none rest =
    after_wait-BringsUp a.dies (wait_healthy none a.checks a.last_check a.end) rest

on_output-BringsUp : (a : Attempt) (e : Option Bytes) → BringsUp (on_output a e)
on_output-BringsUp a (some e) rest = refl
on_output-BringsUp a none rest = on_start-BringsUp a a.start rest

on_port-BringsUp : (a : Attempt) (port : Result Bytes ℕ) → BringsUp (on_port a port)
on_port-BringsUp a (err e) rest = refl
on_port-BringsUp a (ok port) rest = on_output-BringsUp a a.output rest

start_once-BringsUp : (a : Attempt) → BringsUp (start_serve_subprocess_once a)
unfolding start_serve_subprocess_once
start_once-BringsUp a rest = on_port-BringsUp a a.port rest

-- A process is given up only when it does not die.
abbrev pub IsExcused : Bool → Act → Type 0
IsExcused dies process_survived = dies ≡ false
IsExcused dies _ = Unit

after_wait-IsExcused : (dies : Bool) (h : Health) → All (IsExcused dies) (after_wait dies h).1
after_wait-IsExcused dies healthy = (tt, tt)
after_wait-IsExcused true (timed_out last cause) = (tt, (tt, tt))
after_wait-IsExcused false (timed_out last cause) = (tt, (refl, tt))
after_wait-IsExcused dies (exited last cause) = (tt, (tt, tt))

on_start-IsExcused : (a : Attempt) (e : Option Bytes) → All (IsExcused a.dies) (on_start a e).1
on_start-IsExcused a (some e) = (tt, tt)
on_start-IsExcused a none =
    after_wait-IsExcused a.dies (wait_healthy none a.checks a.last_check a.end)

on_output-IsExcused : (a : Attempt) (e : Option Bytes) → All (IsExcused a.dies) (on_output a e).1
on_output-IsExcused a (some e) = tt
on_output-IsExcused a none = on_start-IsExcused a a.start

on_port-IsExcused :
    (a : Attempt) (port : Result Bytes ℕ) → All (IsExcused a.dies) (on_port a port).1
on_port-IsExcused a (err e) = tt
on_port-IsExcused a (ok port) = on_output-IsExcused a a.output

module _ (attempt : ℕ → Attempt) (context_ended : ℕ → Bool) (delay : ℕ → Option Bytes) where
  abbrev Ends : Bool → Option ServeErr × List Act → Type 0
  Ends b (e, acts) = running b acts ≡ some (succeeded e)

  delay-Ends :
      (d : Option Bytes) (later : Option ServeErr × List Act)
      → Ends false later
      → Ends false (after_delay d later)
  delay-Ends (some cause) later h = unfold running in refl
  delay-Ends none later h = h

  failure-Ends :
      (n : ℕ) (is_last : Bool) (before : List StartErr) (e : StartErr)
      → (later : Option ServeErr × List Act) → Ends false later
      → Ends false (after_failure attempt context_ended delay n is_last before e later)
  failure-Ends n is_last before (not_allocated e) later h = unfold running in refl
  failure-Ends n is_last before (no_output e) later h = unfold running in refl
  failure-Ends n is_last before (not_started e) later h = unfold running in refl
  failure-Ends n is_last before (unhealthy x) later h =
      choice (context_ended n) _ _ (Ends false) (λ e. unfold running in refl)
        (λ e.
          choice is_last _ _ (Ends false) (λ e. unfold running in refl)
            (λ e. delay-Ends (delay n) later h))

  attempt-Ends :
      (n : ℕ) (is_last : Bool) (before : List StartErr) (e : Option StartErr)
      → (later : StartErr → Option ServeErr × List Act) → ((x : StartErr) → Ends false (later x))
      → Ends (succeeded e) (after_attempt attempt context_ended delay n is_last before e later)
  attempt-Ends n is_last before none later h = unfold running in refl
  attempt-Ends n is_last before (some e) later h = failure-Ends n is_last before e (later e) (h e)

  start_from-Ends :
      (left n : ℕ) (before : List StartErr)
      → Ends false (start_from attempt context_ended delay left n before)
  unfolding start_from
  start_from-Ends zero n before = unfold running in refl
  start_from-Ends (suc left) n before =
      let once = start_serve_subprocess_once (attempt n) in
      start_once-BringsUp (attempt n) _
      ∙ attempt-Ends n (left == 0) before once.0
          (λ e. start_from attempt context_ended delay left (suc n) (before ++ (e ∷ [])))
          (λ e. start_from-Ends left (suc n) (before ++ (e ∷ [])))

  -- Given up by an attempt whose process does not die.
  abbrev pub IsGivenUp : Act → Type 0
  IsGivenUp process_survived = (n : ℕ) × ((attempt n).dies ≡ false)
  IsGivenUp _ = Unit

  once-IsGivenUp :
      (n : ℕ) (acts : List Act) → All (IsExcused (attempt n).dies) acts → All IsGivenUp acts
  once-IsGivenUp n [] h = tt
  once-IsGivenUp n (log_closed ∷ acts) (_, h) = (tt, once-IsGivenUp n acts h)
  once-IsGivenUp n (process_started ∷ acts) (_, h) = (tt, once-IsGivenUp n acts h)
  once-IsGivenUp n (process_killed ∷ acts) (_, h) = (tt, once-IsGivenUp n acts h)
  once-IsGivenUp n (process_exited ∷ acts) (_, h) = (tt, once-IsGivenUp n acts h)
  once-IsGivenUp n (process_survived ∷ acts) (e, h) = ((n, e), once-IsGivenUp n acts h)

  delay-IsGivenUp :
      (d : Option Bytes) (later : Option ServeErr × List Act)
      → All IsGivenUp later.1
      → All IsGivenUp (after_delay d later).1
  delay-IsGivenUp (some cause) later h = tt
  delay-IsGivenUp none later h = h

  attempt-IsGivenUp :
      (n : ℕ) (is_last : Bool) (before : List StartErr) (e : Option StartErr)
      → (later : StartErr → Option ServeErr × List Act)
      → ((x : StartErr) → All IsGivenUp (later x).1)
      → All IsGivenUp (after_attempt attempt context_ended delay n is_last before e later).1
  attempt-IsGivenUp n is_last before none later h = tt
  attempt-IsGivenUp n is_last before (some (not_allocated e)) later h = tt
  attempt-IsGivenUp n is_last before (some (no_output e)) later h = tt
  attempt-IsGivenUp n is_last before (some (not_started e)) later h = tt
  attempt-IsGivenUp n is_last before (some (unhealthy x)) later h =
      choice (context_ended n) _ _ (λ (r : Option ServeErr × List Act). All IsGivenUp r.1) (λ e. tt)
        (λ e.
          choice is_last _ _ (λ (r : Option ServeErr × List Act). All IsGivenUp r.1) (λ e. tt)
            (λ e. delay-IsGivenUp (delay n) (later (unhealthy x)) (h (unhealthy x))))

  start_from-IsGivenUp :
      (left n : ℕ) (before : List StartErr)
      → All IsGivenUp (start_from attempt context_ended delay left n before).1
  unfolding start_from start_serve_subprocess_once
  start_from-IsGivenUp zero n before = tt
  start_from-IsGivenUp (suc left) n before =
      let once = start_serve_subprocess_once (attempt n) in
      All-append IsGivenUp once.1 _
        (once-IsGivenUp n once.1 (on_port-IsExcused (attempt n) (attempt n).port))
        (attempt-IsGivenUp n (left == 0) before once.0
          (λ e. start_from attempt context_ended delay left (suc n) (before ++ (e ∷ [])))
          (λ e. start_from-IsGivenUp left (suc n) (before ++ (e ∷ []))))

  -- However the attempts go, the runner starts no server process while it has another, ends none
  -- that it does not have, and has one behind the start exactly when there is no error. It leaves
  -- a process that still runs only where this does not end in time behind SIGKILL: if every process
  -- does, none is ever started next to another.
  pub start_serve-running :
      (running false (start_serve_subprocess_with_retries attempt context_ended delay).1
        ≡ some (succeeded (start_serve_subprocess_with_retries attempt context_ended delay).0))
      × All IsGivenUp (start_serve_subprocess_with_retries attempt context_ended delay).1
  unfolding start_serve_subprocess_with_retries
  start_serve-running = (start_from-Ends 3 1 [], start_from-IsGivenUp 3 1 [])
