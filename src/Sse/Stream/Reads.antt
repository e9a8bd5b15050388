-- ===== src/Sse/Stream/Reads.antt =====
-- internal/shared/sse/client.go: the lines that `readSSELine` gives, call after call.
use opencode_reviewer.Prelude.{
  ℕ, List, [], ◌∷◌, ◌++◌, Option, none, some, if◌then◌else◌, length, ltb,
}
use opencode_reviewer.GoText.{Bytes}
use opencode_reviewer.Sse.CodeErrors.{Cause}

-- What `ReadSlice('\n')` returns before the stream ends: a full buffer without a line end, or the
-- bytes up to the line end, which is among them.
pub data Slice : Type 0 where
  buffer_full : Bytes → Slice
  whole_line : Bytes → Slice

-- A reader: its slices, the bytes behind the last one, and the error at its end; `none` is `io.EOF`.
pub record Reader : Type 0 where
  pub slices : List Slice
  pub tail : Bytes
  pub failure : Option Cause

-- The results of the calls of `readSSELine`, up to the first with an error.
pub data Reads : Type 0 where
  next : Bytes → Reads → Reads
  eof : Bytes → Reads
  over_limit : Reads
  broken : Cause → Reads

module _ (max_bytes : ℕ) where
  -- A call that reaches the end of the stream.
  unfoldable pub read_end : Bytes → Option Cause → Reads
  read_end line failure =
      if ltb max_bytes (length line)
      then over_limit
      else elim failure [ none ↦ eof line | some cause ↦ broken cause ]

  -- The loop of a call; `line` holds the fragments that it has read.
  unfoldable pub read_sse_lines : List Slice → Bytes → Bytes → Option Cause → Reads
  unfolding read_end
  read_sse_lines [] line tail failure = read_end (line ++ tail) failure
  read_sse_lines (buffer_full fragment ∷ slices) line tail failure =
      let more = read_sse_lines slices (line ++ fragment) tail failure in
      if ltb max_bytes (length (line ++ fragment)) then over_limit else more
  read_sse_lines (whole_line fragment ∷ slices) line tail failure =
      let more = read_sse_lines slices [] tail failure in
      if ltb max_bytes (length (line ++ fragment)) then over_limit else next (line ++ fragment) more

  unfoldable pub reads_of : Reader → Reads
  unfolding read_sse_lines
  reads_of reader = read_sse_lines reader.slices [] reader.tail reader.failure
