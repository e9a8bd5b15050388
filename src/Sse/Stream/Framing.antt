-- ===== src/Sse/Stream/Framing.antt =====
-- internal/shared/sse/client.go: a stream that is written as the format of server-sent events asks
-- is read as the events that it holds.
use mathlib.Core.Path.{subst}
use opencode_reviewer.Prelude.{
  ℕ, ◌+◌, ◌≤◌, Bool, true, false, ◌||◌, List, [], ◌∷◌, ◌++◌, append_assoc, append-nil, length,
  length-append, ◌≡◌, ◌⊎◌, refl, sym, ap, ◌∙◌, arith, inl, inr, All, map, ltb, none,
}
use opencode_reviewer.GoText.{
  Bytes, codes, has_prefix, has_suffix, trim_suffix, trim_suffix-append, trim_space,
}
use opencode_reviewer.Sse.Stream.Reads.{
  Slice, buffer_full, whole_line, Reads, next, eof, read_sse_lines, read_end, reads_of,
}
use opencode_reviewer.Sse.Stream.Events.{Wait, State}
use opencode_reviewer.Sse.Stream.Frames.{
  Field, data_field, event_field, comment_field, payload, has_payload, line_of, event_lines,
  IsPlain, joined, CutLine, whole_text, slices_of, reader_of, continue, run_events,
}
use opencode_reviewer.Sse.Stream.Loop.{
  Exit, reset, reset_after, flush, on_line, bare_line, parse_reads, start, parse_stream_with_limit,
}

chain : List Bytes → Reads
chain [] = eof []
chain (line ∷ lines) = next line (chain lines)

module _ (max_bytes : ℕ) where
  -- A line is put together from its fragments.
  read_sse_lines-cut :
      (fragments : List Bytes) (rest line : Bytes) (slices : List Slice)
      → length (line ++ (joined fragments ++ rest)) ≤ max_bytes
      → read_sse_lines max_bytes
          (map buffer_full fragments ++ (whole_line rest ∷ slices))
          line
          []
          none
        ≡ next (line ++ (joined fragments ++ rest)) (read_sse_lines max_bytes slices [] [] none)
  unfolding read_sse_lines
  read_sse_lines-cut [] rest line slices fits = ground arith
  read_sse_lines-cut (f ∷ fragments) rest line slices fits =
      let assoc : line ++ ((f ++ joined fragments) ++ rest)
          ≡ (line ++ f) ++ (joined fragments ++ rest) =
        simp append_assoc in
      let longer : length ((line ++ f) ++ (joined fragments ++ rest)) ≤ max_bytes =
        subst (λ t. length t ≤ max_bytes) assoc fits in
      let short : ltb max_bytes (length (line ++ f)) ≡ false =
        ground (arith, length-append (line ++ f) (joined fragments ++ rest)) in
      rw short (
        read_sse_lines-cut fragments rest (line ++ f) slices longer
        ∙ ap (λ t. next t (read_sse_lines max_bytes slices [] [] none)) (sym assoc))

  reads_of-reader_of :
      (cuts : List CutLine)
      → All (λ line. length line ≤ max_bytes) (map whole_text cuts)
      → reads_of max_bytes (reader_of cuts) ≡ chain (map whole_text cuts)
  unfolding reads_of chain
  reads_of-reader_of [] h = unfold read_sse_lines read_end in ground arith
  reads_of-reader_of ((fragments, rest) ∷ cuts) (fits, h) =
      read_sse_lines-cut fragments rest [] (slices_of cuts) fits
      ∙ ap (next (joined fragments ++ rest)) (reads_of-reader_of cuts h)

bare_line-line_of :
    (crlf : Bool) (text : Bytes)
    → has_suffix text (codes "\r") ≡ false
    → bare_line (line_of crlf text) ≡ text
unfolding bare_line
bare_line-line_of true text plain =
    ap (λ t. trim_suffix t (codes "\r")) (trim_suffix-append (text ++ codes "\r") (codes "\n"))
    ∙ trim_suffix-append text (codes "\r")
bare_line-line_of false text plain =
    ap (λ t. trim_suffix t (codes "\r")) (trim_suffix-append text (codes "\n"))
    ∙ unfold trim_suffix in rw plain refl

module _ (w : Wait) (max_bytes : ℕ) where
  -- The state after the fields of an event.
  abbrev with_fields : List Field → State → State
  with_fields fields s = record s {
    buffer = s.buffer ++ payload fields;
    has_data = s.has_data || has_payload fields;
  }

  on_data_field :
      (d : Bytes) (s : State)
      → length s.buffer + length (trim_space d) ≤ max_bytes
      → on_line w max_bytes (codes "data:" ++ d) s
        ≡ inl (record s { buffer = s.buffer ++ trim_space d; has_data = true })
  unfolding on_line
  on_data_field d s fits = ground arith

  on_event_field :
      (name : Bytes) (s : State) → on_line w max_bytes (codes "event:" ++ name) s ≡ inl s
  unfolding on_line has_prefix
  on_event_field name s = refl

  on_comment_field : (c : Bytes) (s : State) → on_line w max_bytes (codes ":" ++ c) s ≡ inl s
  unfolding on_line has_prefix
  on_comment_field c s = refl

  on_empty_line : (s : State) → on_line w max_bytes [] s ≡ reset_after w (flush w s)
  unfolding on_line has_prefix
  on_empty_line s = refl

  with_fields-data :
      (d : Bytes) (fields : List Field) (s : State)
      → with_fields fields (record s { buffer = s.buffer ++ trim_space d; has_data = true })
        ≡ with_fields (data_field d ∷ fields) s
  with_fields-data d fields s = rw append_assoc (ground arith)

  with_fields-nil : (s : State) → with_fields [] s ≡ s
  with_fields-nil s = rw append-nil (ground arith)

  next-inl :
      (line text : Bytes) (reads : Reads) (s t : State)
      → bare_line line ≡ text
      → on_line w max_bytes text s ≡ inl t
      → parse_reads w max_bytes (next line reads) s ≡ parse_reads w max_bytes reads t
  unfolding parse_reads
  next-inl line text reads s t bare e = rw (bare, parse_reads) (rw (e, parse_reads) refl)

  next-empty :
      (line : Bytes) (reads : Reads) (s : State) (r : State ⊎ (Exit × State))
      → bare_line line ≡ []
      → flush w s ≡ r
      → parse_reads w max_bytes (next line reads) s ≡ continue w (parse_reads w max_bytes reads) r
  unfolding parse_reads
  next-empty line reads s (inl t) bare e =
      rw (bare, parse_reads) (rw (on_empty_line s, parse_reads) (rw (e, parse_reads) refl))
  next-empty line reads s (inr exit) bare e =
      rw (bare, parse_reads) (rw (on_empty_line s, parse_reads) (rw (e, parse_reads) refl))

  fields_read :
      (crlf : Bool) (fields : List Field) (events : List (List Field)) (s : State)
      → All IsPlain fields
      → length s.buffer + length (payload fields) ≤ max_bytes
      → parse_reads w max_bytes (chain (event_lines crlf (fields ∷ events))) s
        ≡ continue w
            (parse_reads w max_bytes (chain (event_lines crlf events)))
            (flush w (with_fields fields s))
  unfolding chain
  fields_read crlf [] events s plain fits =
      next-empty (line_of crlf []) (chain (event_lines crlf events)) s (flush w s)
        (bare_line-line_of crlf [] (unfold has_suffix in refl)) refl
      ∙ ap (λ t. continue w (parse_reads w max_bytes (chain (event_lines crlf events))) (flush w t))
          (sym (with_fields-nil s))
  fields_read crlf (data_field d ∷ fields) events s (p, plain) fits =
      let t : State = record s { buffer = s.buffer ++ trim_space d; has_data = true } in
      next-inl (line_of crlf (codes "data:" ++ d)) (codes "data:" ++ d)
        (chain (event_lines crlf (fields ∷ events))) s t
        (bare_line-line_of crlf (codes "data:" ++ d) p)
        (on_data_field d s (omega (arith, length-append (trim_space d) (payload fields))))
      ∙ fields_read crlf fields events t plain (
          omega (
            arith,
            length-append (trim_space d) (payload fields),
            length-append s.buffer (trim_space d),
          ))
      ∙ ap (λ u. continue w (parse_reads w max_bytes (chain (event_lines crlf events))) (flush w u))
          (with_fields-data d fields s)
  fields_read crlf (event_field name ∷ fields) events s (p, plain) fits =
      next-inl (line_of crlf (codes "event:" ++ name)) (codes "event:" ++ name)
        (chain (event_lines crlf (fields ∷ events))) s s
        (bare_line-line_of crlf (codes "event:" ++ name) p) (on_event_field name s)
      ∙ fields_read crlf fields events s plain fits
  fields_read crlf (comment_field c ∷ fields) events s (p, plain) fits =
      next-inl (line_of crlf (codes ":" ++ c)) (codes ":" ++ c)
        (chain (event_lines crlf (fields ∷ events))) s s (bare_line-line_of crlf (codes ":" ++ c) p)
        (on_comment_field c s)
      ∙ fields_read crlf fields events s plain fits

  continue-same :
      (f g : State → Exit × State) (r : State ⊎ (Exit × State))
      → ((s : State) → f (reset w s) ≡ g (reset w s))
      → continue w f r ≡ continue w g r
  continue-same f g (inl s) h = h s
  continue-same f g (inr exit) h = refl

  events_read :
      (crlf : Bool) (events : List (List Field)) (s : State)
      → All (λ fields. All IsPlain fields) events
      → All (λ fields. length (payload fields) ≤ max_bytes) events
      → parse_reads w max_bytes (chain (event_lines crlf events)) (reset w s)
        ≡ run_events w events (reset w s)
  unfolding chain run_events parse_reads bare_line flush
  events_read crlf [] s plain fits = unfold on_line trim_suffix has_suffix has_prefix in refl
  events_read crlf (fields ∷ events) s (p, plain) (f, fits) =
      fields_read crlf fields events (reset w s) p (omega arith)
      ∙ continue-same (parse_reads w max_bytes (chain (event_lines crlf events)))
          (run_events w events) (flush w (with_fields fields (reset w s)))
          (λ t. events_read crlf events t plain fits)

  -- A stream of events whose lines and payloads are within the limit, with either line end and with
  -- the lines cut by the buffer of the reader in any way, is read as the handling of the payloads in
  -- their order: a payload is its data lines, trimmed and put together, whatever event names and
  -- comments stand between them, and the wait ends with the first event that has a result or an
  -- error, or with an error behind the last event. The lines of the fields do not end with a carriage
  -- return of their own, and the last event ends with an empty line.
  pub parse_stream-run_events :
      (crlf : Bool) (events : List (List Field)) (cuts : List CutLine)
      → map whole_text cuts ≡ event_lines crlf events
      → All (λ line. length line ≤ max_bytes) (event_lines crlf events)
      → All (λ fields. All IsPlain fields) events
      → All (λ fields. length (payload fields) ≤ max_bytes) events
      → parse_stream_with_limit w max_bytes (reader_of cuts) ≡ run_events w events (start w)
  unfolding parse_stream_with_limit
  parse_stream-run_events crlf events cuts cut lines plain fits =
      ap (λ reads. parse_reads w max_bytes reads (start w))
        (reads_of-reader_of max_bytes cuts
            (subst (All (λ line. length line ≤ max_bytes)) (sym cut) lines)
          ∙ ap chain cut)
      ∙ events_read crlf events (start w) plain fits
