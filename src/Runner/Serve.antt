-- ===== src/Runner/Serve.antt =====
-- internal/shared/runner/runner.go: the start of the server process with its retries and the wait
-- until it is healthy. Time, HTTP and the process are arguments: the checks of the wait, and what each
-- attempt meets.
pub mod Running
mod Tests
use opencode_reviewer.Prelude.{
  ℕ, zero, suc, Bool, true, false, not, ◌&&◌, ◌||◌, List, [], ◌∷◌, ◌++◌, Option, none, some,
  if◌then◌else◌, take, Result, ok, err, ◌==◌,
}
use opencode_reviewer.GoText.{Bytes, codes, is_empty, trim_space}
use opencode_reviewer.Runner.Send.{sanitize_log_value}

-- What comes of a request: it cannot be built, the exchange fails, or there is a status, its text,
-- and the body as far as it is read, or the error of the read.
pub data Exchange : Type 0 where
  not_built : Bytes → Exchange
  failed : Bytes → Exchange
  answered : ℕ → Bytes → Result Bytes Bytes → Exchange

abbrev unhealthy_body : Result Bytes Bytes → Bytes
unhealthy_body (err e) = codes " and body read failed: " ++ e
unhealthy_body (ok text) =
    let trimmed = trim_space (take 1024 text) in
    if is_empty trimmed
    then codes " with empty body"
    else codes ": " ++ sanitize_log_value trimmed 1024

-- A health check, and whether an error of it is one of the context.
pub record Check : Type 0 where
  pub exchange : Exchange
  pub from_context : Bool

unfoldable pub check_health : Exchange → Option Bytes
unfolding trim_space sanitize_log_value
check_health (not_built e) = some (codes "build health request: " ++ e)
check_health (failed e) = some (codes "health request failed: " ++ e)
check_health (answered status line body) =
    if status == 200 then none else some (codes "health returned " ++ (line ++ unhealthy_body body))

-- What ends the wait behind a failed check, unless there is a tick: the context or the process.
pub data End : Type 0 where
  context_done : Bytes → End
  process_done : Bytes → End

-- How the wait ends, with the last error.
pub data Health : Type 0 where
  healthy : Health
  timed_out : Bytes → Bytes → Health
  exited : Bytes → Bytes → Health

-- The error to report: the first one, or a later one that is not of the context.
abbrev pub later_error : Option Bytes → Bytes → Bool → Bytes
later_error none e from_context = e
later_error (some last) e from_context = if not from_context then e else last

abbrev pub ended : End → Bytes → Health
ended (context_done cause) now = timed_out now cause
ended (process_done cause) now = exited now cause

-- The checks with a tick behind them, and one that the end comes behind.
unfoldable pub wait_healthy : Option Bytes → List Check → Check → End → Health
unfolding check_health
wait_healthy last [] c end = elim (check_health c.exchange) [
  | none ↦ healthy
  | some e ↦ ended end (later_error last e c.from_context)
]
wait_healthy last (t ∷ ts) c end = elim (check_health t.exchange) [
  | none ↦ healthy
  | some e ↦ wait_healthy (some (later_error last e t.from_context)) ts c end
]

-- What happens to the process and its log.
pub data Act : Type 0 where
  log_closed process_started process_killed process_exited process_survived : Act

-- What an attempt meets: the port, the output, the start, and the checks of the wait.
pub record Attempt : Type 0 where
  pub port : Result Bytes ℕ
  pub output : Option Bytes
  pub start : Option Bytes
  pub checks : List Check
  pub last_check : Check
  pub end : End
  -- Whether the process ends within the time that `killAndWait` gives it behind SIGKILL.
  pub dies : Bool

pub data StartErr : Type 0 where
  not_allocated : Bytes → StartErr
  no_output : Bytes → StartErr
  not_started : Bytes → StartErr
  unhealthy : Health → StartErr

-- `killAndWait` waits for a process that it has killed, but not for ever.
abbrev pub kill_and_wait : Bool → Act
kill_and_wait true = process_killed
kill_and_wait false = process_survived

abbrev pub after_wait : Bool → Health → Option StartErr × List Act
after_wait dies healthy = (none, process_started ∷ [])
after_wait dies (exited last cause) =
    (some (unhealthy (exited last cause)), process_started ∷ process_exited ∷ [])
after_wait dies (timed_out last cause) =
    (some (unhealthy (timed_out last cause)), process_started ∷ kill_and_wait dies ∷ [])

abbrev pub on_start : Attempt → Option Bytes → Option StartErr × List Act
on_start a (some e) = (some (not_started e), log_closed ∷ [])
on_start a none = after_wait a.dies (wait_healthy none a.checks a.last_check a.end)

abbrev pub on_output : Attempt → Option Bytes → Option StartErr × List Act
on_output a (some e) = (some (no_output e), [])
on_output a none = on_start a a.start

abbrev pub on_port : Attempt → Result Bytes ℕ → Option StartErr × List Act
on_port a (err e) = (some (not_allocated e), [])
on_port a (ok port) = on_output a a.output

unfoldable pub start_serve_subprocess_once : Attempt → Option StartErr × List Act
unfolding wait_healthy
start_serve_subprocess_once a = on_port a a.port

pub data ServeErr : Type 0 where
  start_failed : StartErr → ServeErr
  not_healthy : List StartErr → ServeErr
  delay_ended : Bytes → ServeErr

abbrev pub serve_start_attempts : ℕ
serve_start_attempts = 3

abbrev pub after_delay : Option Bytes → Option ServeErr × List Act → Option ServeErr × List Act
after_delay (some cause) later = (some (delay_ended cause), [])
after_delay none later = later

module _ (attempt : ℕ → Attempt) (context_ended : ℕ → Bool) (delay : ℕ → Option Bytes) where
  -- The error of attempt `n` with those before it, and what comes next: the last attempt, a delay
  -- that the context ends, or `later`.
  abbrev pub after_failure :
      ℕ → Bool → List StartErr → StartErr → Option ServeErr × List Act → Option ServeErr × List Act
  after_failure n is_last before (unhealthy h) later =
      if context_ended n
      then (some (start_failed (unhealthy h)), [])
      else if is_last
      then (some (not_healthy (before ++ (unhealthy h ∷ []))), [])
      else after_delay (delay n) later
  after_failure n is_last before e later = (some (start_failed e), [])

  abbrev pub after_attempt :
      ℕ
      → Bool
      → List StartErr
      → Option StartErr
      → (StartErr → Option ServeErr × List Act)
      → Option ServeErr × List Act
  after_attempt n is_last before none later = (none, [])
  after_attempt n is_last before (some e) later = after_failure n is_last before e (later e)

  -- The attempts from `n` on, of which there are that many, and the errors before them.
  unfoldable pub start_from : ℕ → ℕ → List StartErr → Option ServeErr × List Act
  unfolding start_serve_subprocess_once
  start_from zero n before = (some (not_healthy []), [])
  start_from (suc left) n before =
      let once = start_serve_subprocess_once (attempt n) in
      let next =
        after_attempt n (left == 0) before once.0
          (λ e. start_from left (suc n) (before ++ (e ∷ []))) in
      (next.0, once.1 ++ next.1)

  unfoldable pub start_serve_subprocess_with_retries : Option ServeErr × List Act
  unfolding start_from
  start_serve_subprocess_with_retries = start_from serve_start_attempts 1 []
