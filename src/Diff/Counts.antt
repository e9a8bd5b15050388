-- ===== src/Diff/Counts.antt =====
-- `parseOneFile`: the counts of added and deleted lines.
use mathlib.Core.List.{tail}
use opencode_reviewer.Prelude.{
  ℕ, ◌+◌, true, false, List, [], ◌∷◌, ◌≡◌, refl, arith, if◌then◌else◌, ◌==◌,
}
use opencode_reviewer.GoText.{Bytes, codes, has_prefix, split}
use opencode_reviewer.Diff.Types.{FileDiff}
use opencode_reviewer.Diff.Parse.{
  parse_line, parse_lines, with_header, new_file, parse_one_file, parse_section_lines,
}

-- How many lines begin with `p`.
abbrev pub count_prefix : Bytes → List Bytes → ℕ
count_prefix p [] = 0
count_prefix p (line ∷ lines) = (if has_prefix line p then 1 else 0) + count_prefix p lines

first_differs :
    (line p q : Bytes) (a b : ℕ)
    → (a == b) ≡ false
    → has_prefix line (a ∷ p) ≡ true
    → has_prefix line (b ∷ q) ≡ false
unfolding has_prefix
first_differs [] p q a b e h = refl
first_differs (c ∷ line) p q a b e h = ground arith

first_byte :
    (line p : Bytes) (a : ℕ) → has_prefix line (a ∷ p) ≡ true → has_prefix line (a ∷ []) ≡ true
unfolding has_prefix
first_byte [] p a h = h
first_byte (c ∷ line) p a h = ground arith

module _ (f : FileDiff) (line : Bytes) where
  parse_line-added :
      (parse_line f line).added + (if has_prefix line (codes "+++") then 1 else 0)
      ≡ f.added + (if has_prefix line (codes "+") then 1 else 0)
  unfolding parse_line
  parse_line-added = ground (
    arith,
    first_byte line (codes "++") b'+',
    first_differs line (codes "ew file mode") [] b'n' b'+',
    first_differs line (codes "ew file mode") (codes "++") b'n' b'+',
    first_differs line (codes "eleted file mode") [] b'd' b'+',
    first_differs line (codes "eleted file mode") (codes "++") b'd' b'+',
    first_differs line (codes "ename from ") [] b'r' b'+',
    first_differs line (codes "ename from ") (codes "++") b'r' b'+',
    first_differs line (codes "ename to ") [] b'r' b'+',
    first_differs line (codes "ename to ") (codes "++") b'r' b'+',
  )

  parse_line-deleted :
      (parse_line f line).deleted + (if has_prefix line (codes "---") then 1 else 0)
      ≡ f.deleted + (if has_prefix line (codes "-") then 1 else 0)
  unfolding parse_line
  parse_line-deleted = ground (
    arith,
    first_byte line (codes "--") b'-',
    first_differs line [] [] b'+' b'-',
    first_differs line [] (codes "--") b'+' b'-',
    first_differs line (codes "ew file mode") [] b'n' b'-',
    first_differs line (codes "ew file mode") (codes "--") b'n' b'-',
    first_differs line (codes "eleted file mode") [] b'd' b'-',
    first_differs line (codes "eleted file mode") (codes "--") b'd' b'-',
    first_differs line (codes "ename from ") [] b'r' b'-',
    first_differs line (codes "ename from ") (codes "--") b'r' b'-',
    first_differs line (codes "ename to ") [] b'r' b'-',
    first_differs line (codes "ename to ") (codes "--") b'r' b'-',
  )

parse_lines-added :
    (f : FileDiff) (lines : List Bytes)
    → (parse_lines f lines).added + count_prefix (codes "+++") lines
      ≡ f.added + count_prefix (codes "+") lines
unfolding parse_lines
parse_lines-added f [] = refl
parse_lines-added f (line ∷ lines) =
    omega (arith, parse_line-added f line, parse_lines-added (parse_line f line) lines)

parse_lines-deleted :
    (f : FileDiff) (lines : List Bytes)
    → (parse_lines f lines).deleted + count_prefix (codes "---") lines
      ≡ f.deleted + count_prefix (codes "-") lines
unfolding parse_lines
parse_lines-deleted f [] = refl
parse_lines-deleted f (line ∷ lines) =
    omega (arith, parse_line-deleted f line, parse_lines-deleted (parse_line f line) lines)

with_header-counts :
    (header : Bytes)
    → ((with_header new_file header).added ≡ 0) × ((with_header new_file header).deleted ≡ 0)
unfolding with_header
with_header-counts header = ground arith

parse_section_lines-counts :
    (section : Bytes) (lines : List Bytes)
    → ((parse_section_lines section lines).added + count_prefix (codes "+++") (tail lines)
        ≡ count_prefix (codes "+") (tail lines))
      × ((parse_section_lines section lines).deleted + count_prefix (codes "---") (tail lines)
          ≡ count_prefix (codes "-") (tail lines))
unfolding parse_section_lines
parse_section_lines-counts section [] = (omega arith, omega arith)
parse_section_lines-counts section (header ∷ lines) =
    let c = with_header-counts header in
    let f = with_header new_file header in
    (omega (arith, parse_lines-added f lines, c), omega (arith, parse_lines-deleted f lines, c))

-- Of the lines behind the header, those that begin with `+` are counted as added but for those
-- that begin with `+++`, and so for `-` and `---`; no header line is counted or hides one.
pub parse_one_file-counts :
    (section : Bytes)
    → ((parse_one_file section).added + count_prefix (codes "+++") (tail (split b'\n' section))
        ≡ count_prefix (codes "+") (tail (split b'\n' section)))
      × ((parse_one_file section).deleted + count_prefix (codes "---") (tail (split b'\n' section))
          ≡ count_prefix (codes "-") (tail (split b'\n' section)))
unfolding parse_one_file
parse_one_file-counts section = parse_section_lines-counts section (split b'\n' section)
