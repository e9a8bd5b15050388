-- ===== src/Vcs/Lines/Numbers.antt =====
-- `parseDiffLines`: the numbers of the lines of a hunk.
use mathlib.Core.Path.{ap₂}
use native.Mathlib.Nat.{add-zero}
use opencode_reviewer.Prelude.{
  ℕ, ◌+◌, ◌<◌, Bool, false, ◌||◌, List, [], ◌∷◌, ◌++◌, none, some, ◌==◌, if◌then◌else◌, ◌≡◌, refl,
  ap, ◌∙◌, arith, All, length, get_elem?,
}
use opencode_reviewer.GoText.{Bytes, codes, has_prefix}
use opencode_reviewer.GoInt.{ℤ, pos, two_63, inc_int-pos}
use opencode_reviewer.Diff.Filter.{prefix_of}
use opencode_reviewer.Diff.Parse.{stripped_prefixes}
use opencode_reviewer.Vcs.Types.{DiffLine, plus, minus, context}
use opencode_reviewer.Vcs.Lines.{LineStep, is_header, hunk_header, body_line, scan_line, scan_lines}

-- The lines that the normalizer skips are those that the context file leaves out.
pub is_header-stripped : (line : Bytes) → is_header line ≡ prefix_of line stripped_prefixes
unfolding is_header
is_header-stripped line = ground arith

abbrev starts : ℕ → Bytes → Bool
starts c [] = false
starts c (x ∷ s) = x == c

-- How many lines of the new version, and of the old one, stand among these lines of a hunk.
abbrev pub new_count : List Bytes → ℕ
new_count [] = 0
new_count (line ∷ lines) = (if starts b'-' line then 0 else 1) + new_count lines

abbrev pub old_count : List Bytes → ℕ
old_count [] = 0
old_count (line ∷ lines) = (if starts b'+' line then 0 else 1) + old_count lines

-- The text of a line of a hunk, without the byte that says where it belongs.
abbrev pub body_text : Bytes → Bytes
body_text [] = []
body_text (c ∷ s) = if c == b'+' || c == b'-' || c == b' ' then s else c ∷ s

-- A line of a hunk with the numbers `o` and `n` of the two versions.
abbrev pub numbered : ℕ → ℕ → Bytes → DiffLine
numbered o n line = record {
  content = body_text line;
  old_num = if starts b'+' line then pos 0 else pos o;
  new_num = if starts b'-' line then pos 0 else pos n;
  origin = if starts b'+' line then plus else if starts b'-' line then minus else context;
}

-- No line of the hunk reads like a header.
abbrev pub IsBody : List Bytes → Type 0
IsBody = All (λ line. (is_header line ≡ false) × (hunk_header line ≡ none))

body_line-numbered :
    (o n : ℕ) (line : Bytes)
    → o + 1 < two_63
    → n + 1 < two_63
    → body_line (pos o) (pos n) line ≡ record {
      emitted = some (numbered o n line);
      old_num = pos (o + old_count (line ∷ []));
      new_num = pos (n + new_count (line ∷ []));
    }
unfolding body_line
body_line-numbered o n [] h k = ground (arith, inc_int-pos o h, inc_int-pos n k)
body_line-numbered o n (c ∷ s) h k = ground (arith, inc_int-pos o h, inc_int-pos n k)

scan_line-body :
    (o n : ℤ) (line : Bytes)
    → is_header line ≡ false
    → hunk_header line ≡ none
    → scan_line o n line ≡ body_line o n line
unfolding scan_line
scan_line-body o n line h k = rw (h, k) refl

-- The rest of a round, once the line is read.
abbrev continue : LineStep → List Bytes → List DiffLine
continue st lines =
    let rest = scan_lines st.old_num st.new_num lines in
    elim st.emitted [ none ↦ rest | some dl ↦ dl ∷ rest ]

scan_lines-body :
    (o n : ℕ) (line : Bytes) (lines : List Bytes)
    → is_header line ≡ false
    → hunk_header line ≡ none
    → o + 1 < two_63
    → n + 1 < two_63
    → scan_lines (pos o) (pos n) (line ∷ lines)
      ≡ numbered o n line
        ∷ scan_lines (pos (o + old_count (line ∷ []))) (pos (n + new_count (line ∷ []))) lines
unfolding scan_lines
scan_lines-body o n line lines h k ho hn =
    ap (λ st. continue st lines)
      (scan_line-body (pos o) (pos n) line h k ∙ body_line-numbered o n line ho hn)

scan_line-hunk :
    (o₀ n₀ o n : ℤ) (header : Bytes)
    → is_header header ≡ false
    → hunk_header header ≡ some (o, n)
    → scan_line o₀ n₀ header ≡ record { emitted = none; old_num = o; new_num = n }
unfolding scan_line
scan_line-hunk o₀ n₀ o n header h e = rw (h, e) refl

scan_lines-hunk :
    (o₀ n₀ o n : ℤ) (header : Bytes) (lines : List Bytes)
    → is_header header ≡ false
    → hunk_header header ≡ some (o, n)
    → scan_lines o₀ n₀ (header ∷ lines) ≡ scan_lines o n lines
unfolding scan_lines
scan_lines-hunk o₀ n₀ o n header lines h e =
    ap (λ st. continue st lines) (scan_line-hunk o₀ n₀ o n header h e)

body-numbered :
    (o n : ℕ) (before : List Bytes) (line : Bytes) (after : List Bytes)
    → IsBody (before ++ (line ∷ []))
    → o + length before + 1 < two_63
    → n + length before + 1 < two_63
    → get_elem? (scan_lines (pos o) (pos n) (before ++ (line ∷ after))) (length before)
      ≡ some (numbered (o + old_count before) (n + new_count before) line)
body-numbered o n [] line after (b, _) ho hn =
    rw (scan_lines-body o n line after b.0 b.1 (omega arith) (omega arith)) (simp add-zero)
body-numbered o n (l ∷ before) line after (b, bs) ho hn =
    let o' = o + old_count (l ∷ []) in
    let n' = n + new_count (l ∷ []) in
    rw (scan_lines-body o n l (before ++ (line ∷ after)) b.0 b.1 (omega arith) (omega arith)) (
      body-numbered o' n' before line after bs (ground arith) (ground arith)
      ∙ ap₂ (λ x y. some (numbered x y line)) (omega arith) (omega arith))

-- In a hunk whose header gives the numbers `o` and `n`, the line behind `before` gets the number
-- that it has in each version of the file that it belongs to: `o` and the lines of the old version
-- before it, `n` and those of the new one. No line up to it may read like a header, and the
-- numbers stay below 2^63.
pub scan_lines-numbered :
    (o₀ n₀ : ℤ) (o n : ℕ) (header : Bytes) (before : List Bytes) (line : Bytes) (after : List Bytes)
    → is_header header ≡ false
    → hunk_header header ≡ some (pos o, pos n)
    → IsBody (before ++ (line ∷ []))
    → o + length before + 1 < two_63
    → n + length before + 1 < two_63
    → get_elem? (scan_lines o₀ n₀ (header ∷ (before ++ (line ∷ after)))) (length before)
      ≡ some (numbered (o + old_count before) (n + new_count before) line)
scan_lines-numbered o₀ n₀ o n header before line after h e b ho hn =
    rw (scan_lines-hunk o₀ n₀ (pos o) (pos n) header (before ++ (line ∷ after)) h e)
      (body-numbered o n before line after b ho hn)

-- A deleted line whose text begins with "-- " reads like a header: wherever it stands, it is left
-- out, and all lines behind it are numbered as if it were not there.
pub scan_lines-deleted_dashes :
    (o n : ℤ) (before : List Bytes) (text : Bytes) (after : List Bytes)
    → scan_lines o n (before ++ ((b'-' ∷ (codes "-- " ++ text)) ∷ after))
      ≡ scan_lines o n (before ++ after)
unfolding scan_lines scan_line is_header has_prefix
scan_lines-deleted_dashes o n [] text after = refl
scan_lines-deleted_dashes o n (line ∷ before) text after =
    let st = scan_line o n line in
    ap
      (λ (rest : List DiffLine). elim st.emitted as (λ _. List DiffLine) [
        | none ↦ rest
        | some dl ↦ dl ∷ rest
      ])
      (scan_lines-deleted_dashes st.old_num st.new_num before text after)
