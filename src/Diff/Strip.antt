-- ===== src/Diff/Strip.antt =====
-- `stripDiffHeaders` against a description by whole lists of lines.
use opencode_reviewer.Prelude.{
  ℕ, Bool, true, false, arith, ◌||◌, not, List, [], ◌∷◌, ◌++◌, ◌≡◌, inl, inr, refl, sym, ◌∙◌,
  select, Bool-cases, if◌then◌else◌, append-nil, append_assoc,
}
use opencode_reviewer.GoText.{Bytes, codes, has_prefix, is_empty, split, join}
use opencode_reviewer.Diff.Filter.{prefix_of}
use opencode_reviewer.Diff.Parse.{strip_lines, strip_diff_headers, stripped_prefixes}

-- The lines behind the empty ones at the front.
abbrev pub drop_empty : List Bytes → List Bytes
drop_empty [] = []
drop_empty (line ∷ lines) =
    let rest = drop_empty lines in if is_empty line then rest else line ∷ lines

-- The lines of the header of a file: the command, the paths, and the metadata of the change.
abbrev header_words : List Bytes
header_words =
    codes "diff --git "
    ∷ codes "index "
    ∷ codes "--- "
    ∷ codes "+++ "
    ∷ codes "old mode "
    ∷ codes "new mode "
    ∷ codes "new file mode "
    ∷ codes "deleted file mode "
    ∷ codes "similarity index "
    ∷ codes "rename from "
    ∷ codes "rename to "
    ∷ []

abbrev begins_with : List Bytes → Bytes → Bool
begins_with [] line = false
begins_with (word ∷ words) line = has_prefix line word || begins_with words line

abbrev pub is_kept : Bytes → Bool
is_kept line = not (begins_with header_words line)

-- The lines, each behind a newline.
abbrev behind_newlines : List Bytes → Bytes
behind_newlines [] = []
behind_newlines (line ∷ lines) = (b'\n' ∷ line) ++ behind_newlines lines

join-behind_newlines :
    (line : Bytes) (lines : List Bytes)
    → join (b'\n' ∷ []) (line ∷ lines) ≡ line ++ behind_newlines lines
unfolding join
join-behind_newlines line [] = sym (append-nil line)
join-behind_newlines line (next ∷ lines) = rw (join-behind_newlines next lines)

strip_lines-started :
    (c : ℕ) (b : Bytes) (lines : List Bytes)
    → strip_lines (c ∷ b) lines ≡ (c ∷ b) ++ behind_newlines (select is_kept lines)
unfolding strip_lines
strip_lines-started c b [] = sym (append-nil (c ∷ b))
strip_lines-started c b (line ∷ lines) = elim (Bool-cases (prefix_of line stripped_prefixes)) [
  | inl e ↦ rw e (strip_lines-started c b lines)
  | inr e ↦ rw e (strip_lines-started c ((b ++ b'\n' ∷ []) ++ line) lines ∙ simp append_assoc)
]

-- A kept line at the start: an empty one leaves the builder empty.
strip_lines-kept :
    (line : Bytes) (lines : List Bytes)
    → strip_lines [] lines ≡ join (b'\n' ∷ []) (drop_empty (select is_kept lines))
    → strip_lines line lines ≡ join (b'\n' ∷ []) (drop_empty (line ∷ select is_kept lines))
strip_lines-kept [] lines ih = ih
strip_lines-kept (c ∷ b) lines ih =
    strip_lines-started c b lines ∙ sym (join-behind_newlines (c ∷ b) (select is_kept lines))

strip_lines-eq-join :
    (lines : List Bytes)
    → strip_lines [] lines ≡ join (b'\n' ∷ []) (drop_empty (select is_kept lines))
unfolding strip_lines
strip_lines-eq-join [] = unfold join in refl
strip_lines-eq-join (line ∷ lines) = elim (Bool-cases (prefix_of line stripped_prefixes)) [
  | inl e ↦ rw e (strip_lines-eq-join lines)
  | inr e ↦ rw e (strip_lines-kept line lines (strip_lines-eq-join lines))
]

kept_deleted : (text : Bytes) → is_kept (b'-' ∷ text) ≡ not (has_prefix text (codes "-- "))
unfolding has_prefix
kept_deleted text = ground arith

kept_added : (text : Bytes) → is_kept (b'+' ∷ text) ≡ not (has_prefix text (codes "++ "))
unfolding has_prefix
kept_added text = ground arith

kept_context : (text : Bytes) → is_kept (b' ' ∷ text) ≡ true
unfolding has_prefix
kept_context text = refl

kept_hunk : (text : Bytes) → is_kept (b'@' ∷ text) ≡ true
unfolding has_prefix
kept_hunk text = refl

-- The stripped diff is its lines without the header lines, and without the empty lines in front
-- of the first line that is left, joined again. Among the lines of a hunk its first line and the
-- context are kept; a deleted line is kept unless its text begins with "-- ", and an added line
-- unless its text begins with "++ ".
pub strip_diff_headers_lem :
    (raw : Bytes)
    → (strip_diff_headers raw ≡ join (b'\n' ∷ []) (drop_empty (select is_kept (split b'\n' raw))))
      × ((text : Bytes) → is_kept (b'@' ∷ text) ≡ true)
      × ((text : Bytes) → is_kept (b' ' ∷ text) ≡ true)
      × ((text : Bytes) → is_kept (b'-' ∷ text) ≡ not (has_prefix text (codes "-- ")))
      × ((text : Bytes) → is_kept (b'+' ∷ text) ≡ not (has_prefix text (codes "++ ")))
unfolding strip_diff_headers
strip_diff_headers_lem raw =
    (strip_lines-eq-join (split b'\n' raw), kept_hunk, kept_context, kept_deleted, kept_added)
