-- ===== src/Vcs/Lines.antt =====
-- internal/shared/vcs/normalizer.go: `parseDiffLines`, `isHeader` and the hunk header.
pub mod Numbers
use opencode_reviewer.Prelude.{
  ℕ, zero, suc, ◌-◌, Bool, true, false, ◌&&◌, ◌||◌, List, [], ◌∷◌, ◌++◌, Option, none, some, ltb,
  ◌==◌, if◌then◌else◌, drop,
}
use opencode_reviewer.GoText.{Bytes, codes, has_prefix, is_digit, is_empty, read_digits, split}
use opencode_reviewer.GoInt.{ℤ, pos, two_63, inc_int}
use opencode_reviewer.Vcs.Types.{DiffLine, Origin, plus, minus, context}

-- The digits at the front.
unfoldable pub digits_of : Bytes → Bytes
digits_of [] = []
digits_of (c ∷ s) = let rest = c ∷ digits_of s in if is_digit c then rest else []

unfoldable pub after_digits : Bytes → Bytes
after_digits [] = []
after_digits (c ∷ s) = let rest = after_digits s in if is_digit c then rest else c ∷ s

-- `(?:,\d+)?`
unfoldable pub skip_count : Bytes → Bytes
unfolding digits_of after_digits
skip_count [] = []
skip_count (c ∷ s) =
    if c == b',' then (if is_empty (digits_of s) then c ∷ s else after_digits s) else c ∷ s

-- `strconv.Atoi` on digits; out of range it returns the largest `int`, and the error is dropped.
unfoldable pub atoi_digits : Bytes → ℤ
unfolding read_digits
atoi_digits s = let n = read_digits 0 s in if ltb n two_63 then pos n else pos (two_63 - 1)

-- A number, an optional count, and what follows; `none` where there is no digit.
unfoldable pub read_range : Bytes → Option (ℤ × Bytes)
unfolding digits_of after_digits skip_count atoi_digits
read_range s =
    if is_empty (digits_of s)
    then none
    else some (atoi_digits (digits_of s), skip_count (after_digits s))

-- The groups of `hunkHeaderRe`, `^@@ -(\d+)(?:,\d+)? \+(\d+)(?:,\d+)? @@`. No shorter match of a
-- run of digits can succeed, since a digit is none of the bytes that may follow it.
unfoldable pub hunk_header : Bytes → Option (ℤ × ℤ)
unfolding has_prefix read_range
hunk_header line =
    if has_prefix line (codes "@@ -")
    then elim (read_range (drop 4 line)) [
      | none ↦ none
      | some (old, rest) ↦
          if has_prefix rest (codes " +")
          then elim (read_range (drop 2 rest)) [
            | none ↦ none
            | some (new, rest') ↦ if has_prefix rest' (codes " @@") then some (old, new) else none
          ]
          else none
    ]
    else none

unfoldable pub is_header : Bytes → Bool
is_header line =
    has_prefix line (codes "diff --git ")
    || has_prefix line (codes "index ")
    || has_prefix line (codes "--- ")
    || has_prefix line (codes "+++ ")
    || has_prefix line (codes "old mode ")
    || has_prefix line (codes "new mode ")
    || has_prefix line (codes "new file mode ")
    || has_prefix line (codes "deleted file mode ")
    || has_prefix line (codes "similarity index ")
    || has_prefix line (codes "rename from ")
    || has_prefix line (codes "rename to ")

-- What one round of `parseDiffLines` appends, and the two counters behind it.
pub record LineStep : Type 0 where
  pub emitted : Option DiffLine
  pub old_num : ℤ
  pub new_num : ℤ

abbrev pub context_line : ℤ → ℤ → Bytes → LineStep
context_line old new content = record {
  emitted = some (record { content = content; old_num = old; new_num = new; origin = context });
  old_num = inc_int old;
  new_num = inc_int new;
}

-- A line of a hunk, by its first byte.
unfoldable pub body_line : ℤ → ℤ → Bytes → LineStep
body_line old new [] = context_line old new []
body_line old new (c ∷ s) =
    if c == b'+'
    then record {
      emitted = some (record { content = s; old_num = pos 0; new_num = new; origin = plus });
      old_num = old;
      new_num = inc_int new;
    }
    else if c == b'-'
    then record {
      emitted = some (record { content = s; old_num = old; new_num = pos 0; origin = minus });
      old_num = inc_int old;
      new_num = new;
    }
    else context_line old new (if c == b' ' then s else c ∷ s)

unfoldable pub scan_line : ℤ → ℤ → Bytes → LineStep
scan_line old new line =
    if is_header line
    then record { emitted = none; old_num = old; new_num = new }
    else elim (hunk_header line) [
      | some (o, n) ↦ record { emitted = none; old_num = o; new_num = n }
      | none ↦ body_line old new line
    ]

unfoldable pub scan_lines : ℤ → ℤ → List Bytes → List DiffLine
scan_lines old new [] = []
scan_lines old new (line ∷ lines) =
    let st = scan_line old new line in
    let rest = scan_lines st.old_num st.new_num lines in
    elim st.emitted [ none ↦ rest | some dl ↦ dl ∷ rest ]

unfoldable pub parse_diff_lines : Bytes → List DiffLine
parse_diff_lines raw = scan_lines (pos 0) (pos 0) (split b'\n' raw)
