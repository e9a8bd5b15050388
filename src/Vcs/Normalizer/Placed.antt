-- ===== src/Vcs/Normalizer/Placed.antt =====
-- `NormalizeDiff` places a finding where `Normalize` puts it.
use opencode_reviewer.Prelude.{ℕ, true, false, List, none, some, ◌≡◌, ◌⊎◌}
use opencode_reviewer.GoText.{Bytes, is_empty, trim_space}
use opencode_reviewer.GoInt.{ℤ, pos}
use opencode_reviewer.Vcs.Types.{DiffLine, DiffFinding, Origin, plus, minus, context}
use opencode_reviewer.Vcs.Match.{line_num, split_code, match_at_line, line_at}
use opencode_reviewer.Vcs.Match.Occurs.{Occurs}
use opencode_reviewer.Vcs.Match.Best.{Nearest}
use opencode_reviewer.Vcs.Normalizer.Spec.{StandsAt}
use opencode_reviewer.Vcs.Resolve.{Visit, find_entry, resolve_file_lines}
use opencode_reviewer.Vcs.Normalizer.{Normalizer, normalize_finding, normalize_diff_finding}

module _ (n : Normalizer) (key : Bytes) (df : DiffFinding) where
  -- The path of the file, and the one that it had before the change.
  abbrev pub old_path_of : Bytes
  old_path_of = elim (find_entry key n.file_old_paths) [ some old ↦ old | none ↦ key ]

  -- The finding with the paths of the file, inside the diff, at those lines of the two sides.
  abbrev pub inside_at : ℤ → ℤ → DiffFinding
  inside_at old_line new_line = record df {
    old_path = old_path_of;
    new_path = key;
    old_line = old_line;
    new_line = new_line;
    in_diff = true;
  }

  abbrev pub outside : DiffFinding
  outside = record df { old_path = old_path_of; new_path = key }

  -- A deleted line is commented on the old side, any other on the new one.
  abbrev pub on_side : DiffLine → Origin → DiffFinding
  on_side dl minus = inside_at dl.old_num (pos 0)
  on_side dl plus = inside_at (pos 0) dl.new_num
  on_side dl context = inside_at (pos 0) dl.new_num

-- Where the comment goes when the code stands in the lines; `start` is the line of `Normalize`.
-- The code stands at the reported line of the new version; or not there, but at that line of the old
-- version; or elsewhere, and the comment goes to the line that `Normalize` has chosen.
abbrev pub IsPlaced : Normalizer → Bytes → List DiffLine → DiffFinding → ℤ → DiffFinding → Type 0
IsPlaced n key lines df start placed =
    let code = split_code df.source.existing_code in
    let reported = df.source.start_line in
    ((start ≡ reported)
      × StandsAt (λ dl. dl.new_num) reported code lines
      × (placed ≡ inside_at n key df (pos 0) reported))
    ⊎ ((start ≡ reported)
        × (match_at_line lines code reported (λ dl. dl.new_num) ≡ false)
        × StandsAt (λ dl. dl.old_num) reported code lines
        × (placed ≡ inside_at n key df reported (pos 0)))
    ⊎ ((k : ℕ) × (match_at_line lines code reported (λ dl. dl.new_num) ≡ false)
        × (match_at_line lines code reported (λ dl. dl.old_num) ≡ false)
        × Nearest reported code lines k
        × (start ≡ line_num (line_at lines k))
        × (placed ≡ on_side n key df (line_at lines k) (line_at lines k).origin))

module _ (visit : Visit) (n : Normalizer) (df : DiffFinding) (key : Bytes) (lines : List DiffLine)
    (ne : is_empty (trim_space df.source.existing_code) ≡ false)
    (found : resolve_file_lines visit n.file_lines df.source.file ≡ some (key, lines)) where
  abbrev Agrees : Type 0
  Agrees =
      ((k : ℕ) → ¬ Occurs (split_code df.source.existing_code) lines k)
        × (normalize_diff_finding visit n df ≡ outside n key df)
      ⊎ IsPlaced n key lines df (normalize_finding visit n df.source).start_line
          (normalize_diff_finding visit n df)
