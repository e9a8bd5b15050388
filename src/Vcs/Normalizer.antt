-- ===== src/Vcs/Normalizer.antt =====
-- internal/shared/vcs/normalizer.go: `Normalizer` with its two operations.
pub mod Spec
mod Rounds
pub mod Placed
use opencode_reviewer.Prelude.{
  ℕ, zero, suc, ◌+◌, ◌-◌, Bool, true, false, ◌&&◌, ◌||◌, not, List, [], ◌∷◌, ◌++◌, Option, none,
  some, if◌then◌else◌, length,
}
use opencode_reviewer.GoText.{Bytes, bytes_eq, is_empty, trim_space}
use opencode_reviewer.GoInt.{ℤ, pos}
use opencode_reviewer.Models.{FinalFinding}
use opencode_reviewer.Diff.Types.{FileDiff, DiffResult}
use opencode_reviewer.Vcs.Types.{DiffLine, DiffFinding, Origin, plus, minus, context}
use opencode_reviewer.Vcs.Lines.{parse_diff_lines}
use opencode_reviewer.Vcs.Match.{
  Match, line_num, split_code, match_at_line, is_line_in_diff, code_matches, best_match, line_at,
}
use opencode_reviewer.Vcs.Resolve.{Entries, Visit, find_entry, put_entry, resolve_file_lines}

pub record Normalizer : Type 0 where
  pub file_lines : Entries (List DiffLine)
  pub file_old_paths : Entries Bytes

-- One round of the loop of `NewNormalizer`.
unfoldable pub add_file : Normalizer → FileDiff → Normalizer
add_file n f =
    let lines = parse_diff_lines f.diff in
    if is_empty lines then n else record {
      file_lines = put_entry f.path lines n.file_lines;
      file_old_paths =
          if not (is_empty f.old_path) && not (bytes_eq f.old_path f.path)
          then put_entry f.path f.old_path n.file_old_paths
          else n.file_old_paths;
    }

unfoldable pub add_files : Normalizer → List FileDiff → Normalizer
add_files n [] = n
add_files n (f ∷ fs) = add_files (add_file n f) fs

unfoldable pub new_normalizer : DiffResult → Normalizer
new_normalizer r = add_files (record { file_lines = []; file_old_paths = [] }) r.files

unfoldable pub verify_at_position : List DiffLine → FinalFinding → Bool
verify_at_position lines f =
    let code = split_code f.existing_code in
    match_at_line lines code f.start_line (λ dl. dl.new_num)
    || match_at_line lines code f.start_line (λ dl. dl.old_num)

-- `some` is the corrected finding, `none` the result `false`.
unfoldable pub search_and_correct : List DiffLine → FinalFinding → Option FinalFinding
search_and_correct lines f =
    let code = split_code f.existing_code in
    if is_empty code then none else elim (best_match (code_matches f.start_line code lines)) [
      | none ↦ none
      | some best ↦ some (record f {
        start_line = line_num (line_at lines best.idx);
        end_line = line_num (line_at lines (best.idx + length code - 1));
      })
    ]

-- One round of the loop of `Normalize`.
unfoldable pub normalize_finding : Visit → Normalizer → FinalFinding → FinalFinding
normalize_finding visit n f =
    if is_empty (trim_space f.existing_code)
    then f
    else elim (resolve_file_lines visit n.file_lines f.file) [
      | none ↦ f
      | some (key, lines) ↦
          if verify_at_position lines f
          then f
          else elim (search_and_correct lines f) [ none ↦ f | some f' ↦ f' ]
    ]

-- `visits i` is the order of the entries in the i-th round.
unfoldable pub normalize : (ℕ → Visit) → Normalizer → ℕ → List FinalFinding → List FinalFinding
normalize visits n i [] = []
normalize visits n i (f ∷ fs) = normalize_finding (visits i) n f ∷ normalize visits n (suc i) fs

unfoldable pub verify_diff_at_position : List DiffLine → DiffFinding → Option DiffFinding
verify_diff_at_position lines df =
    let code = split_code df.source.existing_code in
    let start_line = df.source.start_line in
    if match_at_line lines code start_line (λ dl. dl.new_num)
    then some (record df { old_line = pos 0; new_line = start_line })
    else if match_at_line lines code start_line (λ dl. dl.old_num)
    then some (record df { new_line = pos 0; old_line = start_line })
    else none

-- The side of the diff on which a line is commented.
unfoldable pub place_at : DiffLine → DiffFinding → DiffFinding
place_at start df = elim start.origin [
  | minus ↦ record df { old_line = start.old_num; new_line = pos 0 }
  | _ ↦ record df { new_line = start.new_num; old_line = pos 0 }
]

unfoldable pub search_and_correct_diff : List DiffLine → DiffFinding → Option DiffFinding
search_and_correct_diff lines df =
    let code = split_code df.source.existing_code in
    if is_empty code
    then none
    else elim (best_match (code_matches df.source.start_line code lines)) [
      | none ↦ none
      | some best ↦ some (place_at (line_at lines best.idx) df)
    ]

-- The paths of a finding whose file was found under `key`.
unfoldable pub with_paths : Normalizer → Bytes → DiffFinding → DiffFinding
with_paths n key df = record df {
  new_path = key;
  old_path = elim (find_entry key n.file_old_paths) [ some old ↦ old | none ↦ key ];
}

-- The round of `NormalizeDiff` once the file is found.
unfoldable pub place_in : List DiffLine → DiffFinding → DiffFinding
place_in lines df =
    if is_empty (trim_space df.source.existing_code)
    then record df { in_diff = is_line_in_diff lines df.old_line df.new_line }
    else elim (verify_diff_at_position lines df) [
      | some df' ↦ record df' { in_diff = true }
      | none ↦ elim (search_and_correct_diff lines df) [
        | some df' ↦ record df' { in_diff = true }
        | none ↦ df
      ]
    ]

-- One round of the loop of `NormalizeDiff`.
unfoldable pub normalize_diff_finding : Visit → Normalizer → DiffFinding → DiffFinding
normalize_diff_finding visit n df = elim (resolve_file_lines visit n.file_lines df.source.file) [
  | none ↦ df
  | some (key, lines) ↦ place_in lines (with_paths n key df)
]

unfoldable pub normalize_diff : (ℕ → Visit) → Normalizer → ℕ → List DiffFinding → List DiffFinding
normalize_diff visits n i [] = []
normalize_diff visits n i (df ∷ dfs) =
    normalize_diff_finding (visits i) n df ∷ normalize_diff visits n (suc i) dfs
