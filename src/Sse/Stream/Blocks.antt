-- ===== src/Sse/Stream/Blocks.antt =====
-- internal/shared/sse/client.go: the buffer holds the data of a block of lines.
use mathlib.Core.Path.{subst}
use opencode_reviewer.Prelude.{
  ℕ, ◌+◌, ◌≤◌, true, false, List, [], ◌∷◌, ◌++◌, append_assoc, append-nil, length, length-append,
  ltb, ok, err, ◌⊎◌, inl, inr, All, All-append, choice, ◌≡◌, refl, sym, ap, ◌∙◌, arith,
}
use opencode_reviewer.GoText.{Bytes, codes, has_prefix, is_empty}
use opencode_reviewer.Sse.Stream.Reads.{Reads, next, eof, over_limit, broken, Reader, reads_of}
use opencode_reviewer.Sse.Stream.Lines.{lines_of, line_data, block_data, block_data-append, IsEvent}
use opencode_reviewer.Sse.Stream.Events.{Wait, State}
use opencode_reviewer.Sse.Stream.Loop.{
  Exit, start, parse_stream_with_limit, flush, reset, reset_after, at_end, finish, on_line,
  bare_line, data_of, parse_reads,
}
use opencode_reviewer.Sse.Stream.Calls.{IsOfRaw, Flushed, flush-Flushed}

module _ (w : Wait) (max_bytes : ℕ) where
  -- The buffer holds the data of the lines behind the last empty one of those that were read.
  record Tracked (read : List Bytes) (s : State) : Type 0 where
    before : List Bytes
    block : List Bytes
    cut : read ≡ before ++ block
    filled : All (λ line. is_empty line ≡ false) block
    begins : (before ≡ []) ⊎ ((b : List Bytes) × (before ≡ b ++ ([] ∷ [])))
    data_eq : s.buffer ≡ block_data block
    fits : length s.buffer ≤ max_bytes

  Tracked-IsEvent :
      (read after : List Bytes) (s : State)
      → Tracked read s
      → (after ≡ []) ⊎ ((a : List Bytes) × (after ≡ [] ∷ a))
      → IsEvent (read ++ after) s.buffer
  Tracked-IsEvent read after s t ends = record {
    before = t.before;
    block = t.block;
    after = after;
    cut = ap (λ l. l ++ after) t.cut ∙ append_assoc t.before t.block after;
    filled = t.filled;
    begins = t.begins;
    ends = ends;
    data_eq = t.data_eq;
  }

  -- A line that is not empty goes to the block.
  Tracked-line :
      (read : List Bytes) (line : Bytes) (s t : State)
      → Tracked read s
      → is_empty line ≡ false
      → t.buffer ≡ s.buffer ++ line_data line
      → length t.buffer ≤ max_bytes
      → Tracked (read ++ (line ∷ [])) t
  Tracked-line read line s t h full same fits = record {
    before = h.before;
    block = h.block ++ (line ∷ []);
    cut = ap (λ l. l ++ (line ∷ [])) h.cut ∙ append_assoc h.before h.block (line ∷ []);
    filled = All-append (λ l. is_empty l ≡ false) h.block (line ∷ []) h.filled (full, tt);
    begins = h.begins;
    data_eq = same ∙ ap (λ b. b ++ line_data line) h.data_eq ∙ sym (block_data-append h.block line);
    fits = fits;
  }

  Tracked-reset : (read : List Bytes) (s : State) → Tracked (read ++ ([] ∷ [])) (reset w s)
  Tracked-reset read s = record {
    before = read ++ ([] ∷ []);
    block = [];
    cut = sym (append-nil (read ++ ([] ∷ [])));
    filled = tt;
    begins = inr (read, refl);
    data_eq = refl;
    fits = omega arith;
  }

  -- What a line comes to, with `read` in front of it and `rest` behind it.
  abbrev Stepped : List Bytes → Bytes → List Bytes → State ⊎ (Exit × State) → Type 0
  Stepped read line rest (inl t) = Tracked (read ++ (line ∷ [])) t
  Stepped read line rest (inr (ok args, t)) =
      (raw : Bytes) × IsEvent (read ++ (line ∷ rest)) raw × IsOfRaw w max_bytes raw args
  Stepped read line rest (inr (err e, t)) = Unit

  Stepped-empty :
      (read rest : List Bytes) (s : State) (r : State ⊎ (Exit × State))
      → Tracked read s
      → Flushed w max_bytes s.buffer r
      → Stepped read [] rest (reset_after w r)
  Stepped-empty read rest s (inl t) h f = Tracked-reset read t
  Stepped-empty read rest s (inr (ok args, t)) h f =
      (s.buffer, Tracked-IsEvent read ([] ∷ rest) s h (inr (rest, refl)), f)
  Stepped-empty read rest s (inr (err e, t)) h f = tt

  -- The two lines that leave the buffer as it is.
  Stepped-skipped :
      (read rest : List Bytes) (line : Bytes) (s : State)
      → Tracked read s
      → is_empty line ≡ false
      → line_data line ≡ []
      → Stepped read line rest (inl s)
  Stepped-skipped read rest line s h full no_data =
      Tracked-line read line s s h full
        (sym (append-nil s.buffer) ∙ ap (λ d. s.buffer ++ d) (sym no_data)) h.fits

  prefix_full :
      (line : Bytes) (c : ℕ) (p : Bytes) → has_prefix line (c ∷ p) ≡ true → is_empty line ≡ false
  prefix_full [] c p h = absurd (unfold has_prefix in cc)
  prefix_full (x ∷ line) c p h = refl

  line_data-data :
      (line buffer : Bytes)
      → has_prefix line (codes "event:") ≡ false
      → has_prefix line (codes "data:") ≡ true
      → buffer ++ data_of line ≡ buffer ++ line_data line
  unfolding line_data
  line_data-data line buffer e d = rw (e, d) refl

  empty_line : (line : Bytes) → is_empty line ≡ true → line ≡ []
  empty_line [] h = refl
  empty_line (x ∷ line) h = absurd cc

  on_line-Stepped :
      (read rest : List Bytes) (line : Bytes) (s : State)
      → Tracked read s
      → Stepped read line rest (on_line w max_bytes line s)
  unfolding on_line
  on_line-Stepped read rest line s h =
      choice (has_prefix line (codes "event:")) (inl s) _ (Stepped read line rest)
        (λ named.
          Stepped-skipped read rest line s h (prefix_full line b'e' (codes "vent:") named)
            (unfold line_data in rw named refl))
        (λ unnamed.
          choice (has_prefix line (codes "data:")) _ _ (Stepped read line rest)
            (λ has_data.
              choice (ltb max_bytes (length s.buffer + length (data_of line))) _ _
                (Stepped read line rest) (λ over. tt)
                (λ within.
                  Tracked-line read line s
                    (record s { buffer = s.buffer ++ data_of line; has_data = true }) h
                    (prefix_full line b'd' (codes "ata:") has_data)
                    (line_data-data line s.buffer unnamed has_data)
                    (ground (arith, length-append s.buffer (data_of line)))))
            (λ no_data.
              choice (is_empty line) _ (inl s) (Stepped read line rest)
                (λ e.
                  subst (λ l. Stepped read l rest (reset_after w (flush w s)))
                    (sym (empty_line line e))
                    (Stepped-empty read rest s (flush w s) h (flush-Flushed w max_bytes s h.fits)))
                (λ full.
                  Stepped-skipped read rest line s h full
                    (unfold line_data in rw (unnamed, no_data) refl))))

  -- Arguments are those of an event of the lines.
  abbrev pub Exits : List Bytes → Exit × State → Type 0
  Exits lines (ok args, s) = (raw : Bytes) × IsEvent lines raw × IsOfRaw w max_bytes raw args
  Exits lines (err e, s) = Unit

  flush-Exits :
      (read : List Bytes) (s : State) (r : State ⊎ (Exit × State))
      → Tracked read s
      → Flushed w max_bytes s.buffer r
      → Exits read (at_end w r)
  flush-Exits read s (inl t) h f = tt
  flush-Exits read s (inr (ok args, t)) h f = (
    s.buffer,
    subst (λ l. IsEvent l s.buffer) (append-nil read) (Tracked-IsEvent read [] s h (inl refl)),
    f,
  )
  flush-Exits read s (inr (err e, t)) h f = tt

  finish-Exits :
      (read : List Bytes) (line : Bytes) (r : State ⊎ (Exit × State))
      → Stepped read line [] r
      → Exits (read ++ (line ∷ [])) (finish w r)
  finish-Exits read line (inl t) h =
      flush-Exits (read ++ (line ∷ [])) t (flush w t) h (flush-Flushed w max_bytes t h.fits)
  finish-Exits read line (inr (ok args, t)) h = h
  finish-Exits read line (inr (err e, t)) h = tt

  next-Exits :
      (read : List Bytes) (line : Bytes) (reads : Reads) (s : State) (r : State ⊎ (Exit × State))
      → on_line w max_bytes (bare_line line) s ≡ r
      → Stepped read (bare_line line) (lines_of reads) r
      → ((t : State)
          → Tracked (read ++ (bare_line line ∷ [])) t
          → Exits
              ((read ++ (bare_line line ∷ [])) ++ lines_of reads)
              (parse_reads w max_bytes reads t))
      → Exits
          (read ++ (bare_line line ∷ lines_of reads))
          (parse_reads w max_bytes (next line reads) s)
  unfolding parse_reads
  next-Exits read line reads s (inl t) e h later =
      rw (e, parse_reads)
        (subst (λ l. Exits l (parse_reads w max_bytes reads t))
          (append_assoc read (bare_line line ∷ []) (lines_of reads)) (later t h))
  next-Exits read line reads s (inr (ok args, t)) e h later = rw (e, parse_reads) h
  next-Exits read line reads s (inr (err x, t)) e h later = rw (e, parse_reads) tt

  parse_reads-Exits :
      (reads : Reads) (read : List Bytes) (s : State)
      → Tracked read s
      → Exits (read ++ lines_of reads) (parse_reads w max_bytes reads s)
  unfolding parse_reads
  parse_reads-Exits (next line reads) read s h =
      next-Exits read line reads s (on_line w max_bytes (bare_line line) s) refl
        (on_line-Stepped read (lines_of reads) (bare_line line) s h)
        (λ t g. parse_reads-Exits reads (read ++ (bare_line line ∷ [])) t g)
  parse_reads-Exits (eof line) read s h =
      finish-Exits read (bare_line line) (on_line w max_bytes (bare_line line) s)
        (on_line-Stepped read [] (bare_line line) s h)
  parse_reads-Exits over_limit read s h = tt
  parse_reads-Exits (broken cause) read s h = tt

  pub parse_stream-Exits :
      (reader : Reader)
      → Exits (lines_of (reads_of max_bytes reader)) (parse_stream_with_limit w max_bytes reader)
  unfolding parse_stream_with_limit
  parse_stream-Exits reader = parse_reads-Exits (reads_of max_bytes reader) [] (start w) (record {
    before = [];
    block = [];
    cut = refl;
    filled = tt;
    begins = inl refl;
    data_eq = refl;
    fits = omega arith;
  })
