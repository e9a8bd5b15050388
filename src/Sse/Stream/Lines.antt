-- ===== src/Sse/Stream/Lines.antt =====
-- The events of a stream by its lines, as a description for internal/shared/sse/client.go.
use opencode_reviewer.Prelude.{
  false, List, [], ◌∷◌, ◌++◌, append_assoc, append-nil, if◌then◌else◌, All, ◌≡◌, ◌⊎◌, sym, ap, ◌∙◌,
}
use opencode_reviewer.GoText.{Bytes, codes, has_prefix, is_empty}
use opencode_reviewer.Sse.Stream.Reads.{Reads, next, eof, over_limit, broken}
use opencode_reviewer.Sse.Stream.Loop.{bare_line, data_of}

-- The lines that are read, without their ends, and with what stands behind the last line end.
abbrev pub lines_of : Reads → List Bytes
lines_of (next line reads) = bare_line line ∷ lines_of reads
lines_of (eof line) = bare_line line ∷ []
lines_of over_limit = []
lines_of (broken cause) = []

-- What a line adds to the data of its event.
unfoldable pub line_data : Bytes → Bytes
unfolding has_prefix data_of
line_data line =
    if has_prefix line (codes "event:")
    then []
    else if has_prefix line (codes "data:")
    then data_of line
    else []

-- The data of a block of lines.
abbrev pub block_data : List Bytes → Bytes
block_data [] = []
block_data (line ∷ lines) = line_data line ++ block_data lines

-- The block of an event: lines that are not empty, with an empty line or the begin of the stream in
-- front of them, and an empty line or the end behind them. `raw` is its data.
pub record IsEvent (lines : List Bytes) (raw : Bytes) : Type 0 where
  pub before : List Bytes
  pub block : List Bytes
  pub after : List Bytes
  pub cut : lines ≡ before ++ (block ++ after)
  pub filled : All (λ line. is_empty line ≡ false) block
  pub begins : (before ≡ []) ⊎ ((b : List Bytes) × (before ≡ b ++ ([] ∷ [])))
  pub ends : (after ≡ []) ⊎ ((a : List Bytes) × (after ≡ [] ∷ a))
  pub data_eq : raw ≡ block_data block

pub block_data-append :
    (block : List Bytes) (line : Bytes)
    → block_data (block ++ (line ∷ [])) ≡ block_data block ++ line_data line
block_data-append [] line = append-nil (line_data line)
block_data-append (x ∷ block) line =
    ap (λ t. line_data x ++ t) (block_data-append block line)
    ∙ sym (append_assoc (line_data x) (block_data block) (line_data line))
