-- ===== src/Diff/Parse.antt =====
-- internal/shared/diff/parse.go: the raw diff split into files.
use opencode_reviewer.Prelude.{
  ℕ, zero, suc, ◌+◌, ◌&&◌, not, List, [], ◌∷◌, ◌++◌, Option, none, some, if◌then◌else◌, length,
  drop, take,
}
use opencode_reviewer.GoText.{Bytes, codes, has_prefix, trim_prefix, index, split, is_empty}
use opencode_reviewer.Diff.Types.{FileDiff, added, modified, deleted, renamed}
use opencode_reviewer.Diff.Filter.{detect_language, prefix_of}

abbrev pub marker : Bytes
marker = codes "diff --git "

-- The `for` loop of `splitDiffSections`, one round for each section.
unfoldable pub section_loop : ℕ → Bytes → List Bytes
section_loop zero raw = raw ∷ []
section_loop (suc f) raw = elim (index (drop 1 raw) marker) [
  | none ↦ raw ∷ []
  | some next ↦ take (next + 1) raw ∷ section_loop f (drop (next + 1) raw)
]

-- Each round but the last cuts at least one byte, so as many rounds as bytes are enough.
unfoldable pub split_diff_sections : Bytes → List Bytes
unfolding section_loop
split_diff_sections raw = elim (index raw marker) [
  | none ↦ []
  | some idx ↦ let rest = drop idx raw in section_loop (length rest) rest
]

-- `strings.SplitN(rest, " b/", 2)`, where it has two parts
unfoldable pub cut_at : Bytes → Bytes → Option (Bytes × Bytes)
unfolding index
cut_at sep s = elim (index s sep) [
  | none ↦ none
  | some i ↦ some (take i s, drop (i + length sep) s)
]

-- The old path and the new one; both empty if the header cannot be read.
unfoldable pub parse_diff_header : Bytes → Bytes × Bytes
unfolding has_prefix trim_prefix
parse_diff_header header =
    if has_prefix header marker
    then elim (cut_at (codes " b/") (drop (length marker) header)) [
      | none ↦ ([], [])
      | some (a, b) ↦ (trim_prefix a (codes "a/"), b)
    ]
    else ([], [])

-- The cases of the `switch` in `parseOneFile`.
unfoldable pub parse_line : FileDiff → Bytes → FileDiff
parse_line f line =
    if has_prefix line (codes "new file mode")
    then record f { change_type = added }
    else if has_prefix line (codes "deleted file mode")
    then record f { change_type = deleted }
    else if has_prefix line (codes "rename from ")
    then record f { change_type = renamed; old_path = trim_prefix line (codes "rename from ") }
    else if has_prefix line (codes "rename to ")
    then record f { change_type = renamed; path = trim_prefix line (codes "rename to ") }
    else if has_prefix line (codes "+") && not (has_prefix line (codes "+++"))
    then record f { added = f.added + 1 }
    else if has_prefix line (codes "-") && not (has_prefix line (codes "---"))
    then record f { deleted = f.deleted + 1 }
    else f

unfoldable pub parse_lines : FileDiff → List Bytes → FileDiff
unfolding parse_line
parse_lines f [] = f
parse_lines f (line ∷ lines) = parse_lines (parse_line f line) lines

-- `FileDiff{ChangeType: Modified}`
abbrev pub new_file : FileDiff
new_file = record {
  path = [];
  old_path = [];
  language = [];
  change_type = modified;
  added = 0;
  deleted = 0;
  diff = [];
}

-- The paths that the header line gives.
unfoldable pub with_header : FileDiff → Bytes → FileDiff
unfolding parse_diff_header
with_header f header =
    let (a, b) = parse_diff_header header in
    if is_empty a then f else record f { path = b; old_path = a }

unfoldable pub parse_section_lines : Bytes → List Bytes → FileDiff
unfolding with_header parse_lines detect_language
parse_section_lines section [] = record new_file { change_type = modified }
parse_section_lines section (header ∷ lines) =
    let f = parse_lines (with_header new_file header) lines in
    record f { diff = section; language = detect_language f.path }

unfoldable pub parse_one_file : Bytes → FileDiff
unfolding parse_section_lines split
parse_one_file section = parse_section_lines section (split b'\n' section)

-- The loop of `parseFiles` over the sections.
unfoldable pub parse_sections : List Bytes → List FileDiff
unfolding parse_one_file
parse_sections [] = []
parse_sections (section ∷ sections) =
    let f = parse_one_file section in
    let rest = parse_sections sections in if is_empty f.path then rest else f ∷ rest

unfoldable pub parse_files : Bytes → List FileDiff
unfolding split_diff_sections parse_sections
parse_files raw = if is_empty raw then [] else parse_sections (split_diff_sections raw)

-- The header lines that `stripDiffHeaders` leaves out.
abbrev pub stripped_prefixes : List Bytes
stripped_prefixes =
    codes "diff --git "
    ∷ codes "index "
    ∷ codes "--- "
    ∷ codes "+++ "
    ∷ codes "old mode "
    ∷ codes "new mode "
    ∷ codes "new file mode "
    ∷ codes "deleted file mode "
    ∷ codes "similarity index "
    ∷ codes "rename from "
    ∷ codes "rename to "
    ∷ []

-- The loop of `stripDiffHeaders`, `b` being what the builder holds.
unfoldable pub strip_lines : Bytes → List Bytes → Bytes
unfolding has_prefix
strip_lines b [] = b
strip_lines b (line ∷ lines) =
    strip_lines
      (if prefix_of line stripped_prefixes
        then b
        else (if is_empty b then b else b ++ b'\n' ∷ []) ++ line)
      lines

unfoldable pub strip_diff_headers : Bytes → Bytes
unfolding strip_lines split
strip_diff_headers raw = strip_lines [] (split b'\n' raw)
