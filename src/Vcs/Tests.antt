-- ===== src/Vcs/Tests.antt =====
-- Runs of the normalizer on a small diff, and the theorems at concrete inputs.
use opencode_reviewer.Prelude.{
  false, List, [], ◌∷◌, some, none, ◌++◌, ◌≡◌, refl, ap, arith, inl, inr, get_elem?, In,
}
use opencode_reviewer.GoText.{
  Bytes, codes, index, split, has_prefix, has_suffix, trim_space, trim_prefix, bytes_eq,
}
use opencode_reviewer.GoInt.{pos, sub_int, neg_int, inc_int}
use opencode_reviewer.Models.{FinalFinding}
use opencode_reviewer.Vcs.Types.{DiffLine, DiffFinding}
use opencode_reviewer.Vcs.Marker.{MarkerMetadata, Json, append_marker, parse_markers, strip_markers}
use opencode_reviewer.Vcs.Marker.RoundTrip.{IsWritable, parse_markers-append_marker}
use opencode_reviewer.Vcs.Lines.{
  is_header, hunk_header, scan_line, scan_lines, body_line, parse_diff_lines,
}
use opencode_reviewer.Vcs.Lines.Numbers.{
  IsBody, numbered, scan_lines-numbered, scan_lines-deleted_dashes,
}
use opencode_reviewer.Vcs.Match.{
  line_num, abs_dist, split_code, window_match, from_line, match_at_line, window_matches,
  code_matches, best_match, best_from,
}
use opencode_reviewer.Vcs.Match.Occurs.{Occurs}
use opencode_reviewer.Vcs.Resolve.{
  Entries, Visit, find_entry, first_entry, strip_segments, resolve_file_lines, ends_at,
}
use opencode_reviewer.Vcs.Resolve.Sound.{
  FileLines, IsVisit, ResolvesTo, resolve_file_lines-ResolvesTo,
}
use opencode_reviewer.Vcs.Resolve.Root.{resolve_file_lines-root}
use opencode_reviewer.Vcs.Normalizer.{
  Normalizer, verify_at_position, search_and_correct, normalize_finding, normalize,
}
use opencode_reviewer.Vcs.Normalizer.Spec.{EachNormalized, normalize-Normalized}

abbrev hunk : Bytes
hunk =
    codes
      "diff --git a/src/main.go b/src/main.go\n--- a/src/main.go\n+++ b/src/main.go\n@@ -1,3 +1,4 @@\n package main\n-old()\n+new()\n+more()\n }"

abbrev main_lines : List DiffLine
main_lines =
    numbered 1 1 (codes " package main")
    ∷ numbered 2 2 (codes "-old()")
    ∷ numbered 3 2 (codes "+new()")
    ∷ numbered 3 3 (codes "+more()")
    ∷ numbered 3 4 (codes " }")
    ∷ []

parsed : parse_diff_lines hunk ≡ main_lines
unfolding parse_diff_lines scan_lines scan_line is_header hunk_header body_line has_prefix split
    inc_int
parsed = refl

abbrev n : Normalizer
n = record { file_lines = (codes "src/main.go", main_lines) ∷ []; file_old_paths = [] }

abbrev in_order : Visit
in_order i m = m

in_order-IsVisit : (m : Entries FileLines) → IsVisit in_order m
in_order-IsVisit m i e = (λ h. h, λ h. h)

-- The model said line 10 of "main.go" for code that stands at line 2.
abbrev finding : FinalFinding
finding = record {
  file = codes "main.go";
  start_line = pos 10;
  end_line = pos 11;
  existing_code = codes "new()\n  more()";
  confidence = codes "high";
  issue_content = [];
  recommendation = [];
  sources = [];
  source_message_refs = [];
  fallback_message_refs = [];
}

moved_finding :
    normalize (λ i. in_order) n 0 (finding ∷ [])
    ≡ record finding { start_line = pos 2; end_line = pos 3 } ∷ []
unfolding normalize normalize_finding verify_at_position search_and_correct split_code match_at_line
    from_line code_matches window_matches window_match best_match best_from line_num abs_dist
    sub_int neg_int resolve_file_lines find_entry first_entry strip_segments bytes_eq has_suffix
    trim_prefix trim_space split
moved_finding = refl

normalize-Normalized_example :
    EachNormalized (λ i. in_order) n 0 (finding ∷ []) (normalize (λ i. in_order) n 0 (finding ∷ []))
normalize-Normalized_example = normalize-Normalized (λ i. in_order) n (finding ∷ [])

abbrev diff_finding : DiffFinding
diff_finding = record {
  old_path = codes "main.go";
  new_path = codes "main.go";
  old_line = pos 0;
  new_line = pos 10;
  in_diff = false;
  source = finding;
}

resolve_file_lines-ResolvesTo_example :
    ResolvesTo n.file_lines
      (codes "a/main.go")
      (resolve_file_lines in_order n.file_lines (codes "a/main.go"))
resolve_file_lines-ResolvesTo_example =
    resolve_file_lines-ResolvesTo in_order n.file_lines (codes "a/main.go")
      (in_order-IsVisit n.file_lines)

abbrev root_file : Entries FileLines
root_file = (codes "main.go", main_lines) ∷ []

root_key :
    (key : Bytes) (lines : FileLines)
    → In (key, lines) root_file
    → ends_at key (codes "main.go") ≡ false
unfolding has_suffix
root_key key lines (inl e) = rw (ap (λ (x : Bytes × FileLines). x.0) e) refl
root_key key lines (inr h) = absurd h

resolve_file_lines-root_example : resolve_file_lines in_order root_file (codes "/main.go") ≡ none
resolve_file_lines-root_example =
    resolve_file_lines-root in_order root_file (codes "main.go") (in_order-IsVisit root_file)
      (omega arith) (unfold find_entry bytes_eq in refl) root_key

plain-IsBody : IsBody (codes " package main" ∷ codes "-old()" ∷ codes "+new()" ∷ [])
unfolding is_header hunk_header has_prefix
plain-IsBody = ((refl, refl), ((refl, refl), ((refl, refl), tt)))

scan_lines-numbered_example :
    get_elem?
      (scan_lines
        (pos 0)
        (pos 0)
        (codes "@@ -1,3 +1,4 @@" ∷ codes " package main" ∷ codes "-old()" ∷ codes "+new()" ∷ []))
      2
    ≡ some (numbered 3 2 (codes "+new()"))
scan_lines-numbered_example =
    scan_lines-numbered (pos 0) (pos 0) 1 1 (codes "@@ -1,3 +1,4 @@")
      (codes " package main" ∷ codes "-old()" ∷ []) (codes "+new()") []
      (unfold is_header has_prefix in refl) (unfold hunk_header has_prefix in refl) plain-IsBody
      (omega arith) (omega arith)

scan_lines-deleted_dashes_example :
    scan_lines (pos 7) (pos 7) (codes " a" ∷ codes "--- drop the table" ∷ codes " b" ∷ [])
    ≡ scan_lines (pos 7) (pos 7) (codes " a" ∷ codes " b" ∷ [])
scan_lines-deleted_dashes_example =
    scan_lines-deleted_dashes (pos 7) (pos 7) (codes " a" ∷ []) (codes "drop the table")
      (codes " b" ∷ [])

abbrev bare_metadata : MarkerMetadata
bare_metadata = record {
  id = [];
  base_sha = codes "b";
  head_sha = codes "h";
  start_sha = codes "s";
  file = codes "a.go";
  start_line = pos 3;
  end_line = pos 3;
  old_path = [];
  new_path = [];
  old_line = pos 0;
  new_line = pos 3;
  source_message_refs = [];
  fallback_message_refs = [];
}

-- A codec that knows one value.
abbrev bare_json : Json
bare_json = record { marshal = λ m. some (codes "{}"); unmarshal = λ b. some bare_metadata }

bare-IsWritable : IsWritable bare_json (codes "note") (codes "{}") bare_metadata
bare-IsWritable = record {
  kind_chars = (refl, (refl, (refl, (refl, tt))));
  kind_filled = refl;
  marshals = refl;
  unmarshals = refl;
  are_bytes = (omega arith, (omega arith, tt));
  bytes_filled = refl;
}

parse_markers-append_marker_example :
    (parse_markers bare_json (append_marker bare_json (codes "Hi.") (codes "note") bare_metadata)
      ≡ record { kind = codes "note"; metadata = bare_metadata } ∷ [])
    × (strip_markers (append_marker bare_json (codes "Hi.") (codes "note") bare_metadata)
        ≡ codes "Hi." ++ codes "\n\n")
parse_markers-append_marker_example =
    parse_markers-append_marker bare_json (codes "Hi.") (codes "note") (codes "{}") bare_metadata
      bare-IsWritable (unfold index has_prefix in refl)
