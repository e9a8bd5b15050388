-- ===== src/Diff/Tests.antt =====
-- Runs of the diff component on a small diff, and the theorems at concrete inputs.
use mathlib.Core.List.{flatten, tail}
use opencode_reviewer.Prelude.{
  not, true, ℕ, ◌+◌, [], ◌∷◌, ◌++◌, ◌≡◌, refl, map, ok, err, select, drop, All,
}
use opencode_reviewer.GoText.{Bytes, codes, split, join, index, has_prefix, trim_prefix}
use opencode_reviewer.Diff.Types.{FileDiff, DiffResult}
use opencode_reviewer.Diff.Filter.{sort_files}
use opencode_reviewer.Diff.Parse.{
  split_diff_sections, parse_diff_header, parse_one_file, parse_files, strip_diff_headers, cut_at,
  parse_line,
}
use opencode_reviewer.Diff.Prepare.{GitClient, diff_stat_err, keep_files, assemble, prepare}
use opencode_reviewer.Diff.Sections.{IsSection, split_diff_sections_lem}
use opencode_reviewer.Diff.Header.{header_line, parse_diff_header-header_line}
use opencode_reviewer.Diff.Keep.{Describes, prepare-Describes}
use opencode_reviewer.Diff.Counts.{count_prefix, parse_one_file-counts}
use opencode_reviewer.Diff.Strip.{drop_empty, is_kept, strip_diff_headers_lem}

abbrev sample : Bytes
sample =
    codes
      "diff --git a/README.md b/README.md\n--- a/README.md\n+++ b/README.md\n@@ -1 +1,2 @@\n a\n+b\n"
    ++ (codes "diff --git a/go.sum b/go.sum\n@@ -1 +1 @@\n-x\n+y\n"
        ++ codes
            "diff --git a/x.go b/main.go\nrename from x.go\nrename to main.go\n@@ -3,2 +3,1 @@\n-old\n+new\n+newer")

abbrev git : GitClient ℕ
git = record {
  diff_for_review = λ b h. ok sample;
  diff_stat = λ b h. ok (codes " 3 files \n");
  log = λ b h. ok (codes "c1\n");
}

record Line : Type 0 where
  path : Bytes
  old_path : Bytes
  added : ℕ
  deleted : ℕ
  language : Bytes

abbrev line_of : FileDiff → Line
line_of f = record {
  path = f.path;
  old_path = f.old_path;
  added = f.added;
  deleted = f.deleted;
  language = f.language;
}

abbrev row : Bytes → Bytes → ℕ → ℕ → Bytes → Line
row p o a d l = record { path = p; old_path = o; added = a; deleted = d; language = l }

parsed_rows :
    map line_of (parse_files sample)
    ≡ row (codes "README.md") (codes "README.md") 1 0 (codes "markdown")
      ∷ row (codes "go.sum") (codes "go.sum") 1 1 []
      ∷ row (codes "main.go") (codes "x.go") 2 1 (codes "go")
      ∷ []
unfolding parse_files index cut_at parse_line has_prefix trim_prefix
parsed_rows = refl

prepared_files :
    map (λ f. f.path) (assemble (codes "topic") (codes "main") sample [] []).files
    ≡ codes "main.go" ∷ codes "README.md" ∷ []
unfolding assemble parse_files index cut_at parse_line has_prefix trim_prefix keep_files sort_files
prepared_files = refl

-- The first error of git ends the run.
failing_stat :
    prepare (record git { diff_stat = λ b h. err 7 }) (codes "topic") (codes "main")
    ≡ err (diff_stat_err 7)
unfolding prepare
failing_stat = refl

split_diff_sections_lem_example :
    (flatten (split_diff_sections sample) ≡ drop 0 sample)
    × All IsSection (split_diff_sections sample)
split_diff_sections_lem_example = split_diff_sections_lem sample 0 (unfold index has_prefix in refl)

parse_diff_header-header_line_example :
    parse_diff_header (header_line (codes "src/a b.go") (codes "c.go"))
    ≡ (codes "src/a b.go", codes "c.go")
parse_diff_header-header_line_example =
    parse_diff_header-header_line (codes "src/a b.go") (codes "c.go")
      (unfold index has_prefix in refl)

prepare-Describes_example :
    (r : DiffResult) × (prepare git (codes "topic") (codes "main") ≡ ok r)
    × Describes (parse_files sample) r
prepare-Describes_example =
    prepare-Describes git (codes "topic") (codes "main") sample _ _ refl refl refl

parse_one_file-counts_example :
    ((parse_one_file sample).added + count_prefix (codes "+++") (tail (split b'\n' sample))
      ≡ count_prefix (codes "+") (tail (split b'\n' sample)))
    × ((parse_one_file sample).deleted + count_prefix (codes "---") (tail (split b'\n' sample))
        ≡ count_prefix (codes "-") (tail (split b'\n' sample)))
parse_one_file-counts_example = parse_one_file-counts sample

strip_diff_headers_lem_example :
    (strip_diff_headers sample
      ≡ join (b'\n' ∷ []) (drop_empty (select is_kept (split b'\n' sample))))
    × ((text : Bytes) → is_kept (b'@' ∷ text) ≡ true)
    × ((text : Bytes) → is_kept (b' ' ∷ text) ≡ true)
    × ((text : Bytes) → is_kept (b'-' ∷ text) ≡ not (has_prefix text (codes "-- ")))
    × ((text : Bytes) → is_kept (b'+' ∷ text) ≡ not (has_prefix text (codes "++ ")))
strip_diff_headers_lem_example = strip_diff_headers_lem sample
