-- ===== src/Sse/Stream/Rule.antt =====
-- internal/shared/sse/client.go: a rule for what holds when the loop over the lines is left.
use opencode_reviewer.Prelude.{
  ℕ, ◌+◌, ◌≤◌, Bool, true, false, ◌++◌, if◌then◌else◌, length, ltb, err, ◌⊎◌, inl, inr, ◌≡◌, refl,
  arith,
}
use opencode_reviewer.GoText.{Bytes, codes, has_prefix, is_empty}
use opencode_reviewer.Sse.CodeErrors.{SseErr, event_too_large, read_error, stream_ended}
use opencode_reviewer.Sse.Stream.Reads.{Reads, next, eof, over_limit, broken}
use opencode_reviewer.Sse.Stream.Events.{Wait, State, handle_data}
use opencode_reviewer.Sse.Stream.Loop.{
  Exit, after_event, reset, reset_after, at_end, finish, flush, on_line, bare_line, data_of,
  parse_reads,
}

module _ (P : State → Type 0) (Q : Exit × State → Type 0) where
  -- `P` at a state with which the loop goes on, `Q` where it is left.
  abbrev pub Holds : State ⊎ (Exit × State) → Type 0
  Holds (inl s) = P s
  Holds (inr exit) = Q exit

  Holds-if :
      (b : Bool) (x y : State ⊎ (Exit × State))
      → (b ≡ true → Holds x)
      → (b ≡ false → Holds y)
      → Holds (if b then x else y)
  Holds-if true x y hx hy = hx refl
  Holds-if false x y hx hy = hy refl

module _ (w : Wait) (max_bytes : ℕ) (P : State → Type 0) (Q : Exit × State → Type 0)
    (lost : (e : SseErr) (s : State) → P s → Q (err e, s))
    (cleared : (s : State) → P s → P (reset w s))
    (added : (s : State) (d : Bytes)
      → P s
      → length s.buffer + length d ≤ max_bytes
      → P (record s { buffer = s.buffer ++ d; has_data = true }))
    (handled : (s : State) → P s → Holds P Q (after_event (handle_data w s))) where
  flush-Holds : (s : State) → P s → Holds P Q (flush w s)
  unfolding flush
  flush-Holds s p = Holds-if P Q s.has_data _ (inl s) (λ _. handled s p) (λ _. p)

  reset_after-Holds : (r : State ⊎ (Exit × State)) → Holds P Q r → Holds P Q (reset_after w r)
  reset_after-Holds (inl s) p = cleared s p
  reset_after-Holds (inr exit) q = q

  on_line-Holds : (line : Bytes) (s : State) → P s → Holds P Q (on_line w max_bytes line s)
  unfolding on_line
  on_line-Holds line s p =
      Holds-if P Q (has_prefix line (codes "event:")) (inl s) _ (λ _. p)
        (λ _.
          Holds-if P Q (has_prefix line (codes "data:")) _ _
            (λ _.
              Holds-if P Q (ltb max_bytes (length s.buffer + length (data_of line))) _ _
                (λ _. lost (event_too_large max_bytes) s p)
                (λ fits. added s (data_of line) p (ground arith)))
            (λ _.
              Holds-if P Q (is_empty line) _ (inl s)
                (λ _. reset_after-Holds (flush w s) (flush-Holds s p)) (λ _. p)))

  at_end-Holds : (r : State ⊎ (Exit × State)) → Holds P Q r → Q (at_end w r)
  at_end-Holds (inl t) q = lost (stream_ended w.tool_name w.session_id) t q
  at_end-Holds (inr exit) q = q

  finish-Holds : (r : State ⊎ (Exit × State)) → Holds P Q r → Q (finish w r)
  finish-Holds (inl s) p = at_end-Holds (flush w s) (flush-Holds s p)
  finish-Holds (inr exit) q = q

  next-Holds :
      (reads : Reads) (line : Bytes) (s : State) (r : State ⊎ (Exit × State))
      → on_line w max_bytes (bare_line line) s ≡ r
      → Holds P Q r
      → ((t : State) → P t → Q (parse_reads w max_bytes reads t))
      → Q (parse_reads w max_bytes (next line reads) s)
  unfolding parse_reads
  next-Holds reads line s (inl t) e p later = rw (e, parse_reads) (later t p)
  next-Holds reads line s (inr exit) e q later = rw (e, parse_reads) q

  -- Whatever the lines are, the loop is left as the rules say.
  pub parse_reads-Holds : (reads : Reads) (s : State) → P s → Q (parse_reads w max_bytes reads s)
  unfolding parse_reads
  parse_reads-Holds (next line reads) s p =
      next-Holds reads line s (on_line w max_bytes (bare_line line) s) refl
        (on_line-Holds (bare_line line) s p) (parse_reads-Holds reads)
  parse_reads-Holds (eof line) s p =
      finish-Holds (on_line w max_bytes (bare_line line) s) (on_line-Holds (bare_line line) s p)
  parse_reads-Holds over_limit s p = lost (event_too_large max_bytes) s p
  parse_reads-Holds (broken cause) s p = lost (read_error cause) s p
