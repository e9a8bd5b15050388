-- ===== src/Vcs/Normalizer/Rounds.antt =====
-- internal/shared/vcs/normalizer.go: a round of `Normalize` and of `NormalizeDiff`, branch by branch.
use opencode_reviewer.Prelude.{Bool, true, false, ◌||◌, List, none, some, ◌≡◌, refl, arith}
use opencode_reviewer.GoText.{Bytes, is_empty, trim_space}
use opencode_reviewer.GoInt.{pos}
use opencode_reviewer.Models.{FinalFinding}
use opencode_reviewer.Vcs.Types.{DiffLine, DiffFinding}
use opencode_reviewer.Vcs.Match.{split_code, match_at_line}
use opencode_reviewer.Vcs.Resolve.{Visit, resolve_file_lines}
use opencode_reviewer.Vcs.Normalizer.{
  Normalizer, verify_at_position, search_and_correct, normalize_finding, verify_diff_at_position,
  search_and_correct_diff, with_paths, place_in, normalize_diff_finding,
}

module _ (lines : List DiffLine) (df : DiffFinding) where
  verify_diff-none :
      verify_at_position lines df.source ≡ false → verify_diff_at_position lines df ≡ none
  unfolding verify_at_position verify_diff_at_position
  verify_diff-none v = ground arith

  pub place_in-searched :
      is_empty (trim_space df.source.existing_code) ≡ false
      → verify_at_position lines df.source ≡ false
      → place_in lines df ≡ elim (search_and_correct_diff lines df) [
        | some df' ↦ record df' { in_diff = true }
        | none ↦ df
      ]
  unfolding place_in
  place_in-searched ne v = rw (ne, place_in) (rw (verify_diff-none v) refl)

  pub place_in-new :
      is_empty (trim_space df.source.existing_code) ≡ false
      → match_at_line lines
          (split_code df.source.existing_code)
          df.source.start_line
          (λ dl. dl.new_num)
        ≡ true
      → place_in lines df
        ≡ record df { old_line = pos 0; new_line = df.source.start_line; in_diff = true }
  unfolding place_in verify_diff_at_position
  place_in-new ne v = ground arith

  pub place_in-old :
      is_empty (trim_space df.source.existing_code) ≡ false
      → match_at_line lines
          (split_code df.source.existing_code)
          df.source.start_line
          (λ dl. dl.new_num)
        ≡ false
      → match_at_line lines
          (split_code df.source.existing_code)
          df.source.start_line
          (λ dl. dl.old_num)
        ≡ true
      → place_in lines df
        ≡ record df { old_line = df.source.start_line; new_line = pos 0; in_diff = true }
  unfolding place_in verify_diff_at_position
  place_in-old ne w v = ground arith

  pub verified :
      (a b : Bool)
      → match_at_line lines
          (split_code df.source.existing_code)
          df.source.start_line
          (λ dl. dl.new_num)
        ≡ a
      → match_at_line lines
          (split_code df.source.existing_code)
          df.source.start_line
          (λ dl. dl.old_num)
        ≡ b
      → verify_at_position lines df.source ≡ (a || b)
  unfolding verify_at_position
  verified a b ha hb = rw (ha, hb) refl

module _ (visit : Visit) (n : Normalizer) {key : Bytes} {lines : List DiffLine} where
  pub normalize_diff_finding-found :
      (df : DiffFinding)
      → resolve_file_lines visit n.file_lines df.source.file ≡ some (key, lines)
      → normalize_diff_finding visit n df ≡ place_in lines (with_paths n key df)
  unfolding normalize_diff_finding
  normalize_diff_finding-found df e = rw (e, normalize_diff_finding) refl

  pub normalize_finding-verified :
      (f : FinalFinding)
      → is_empty (trim_space f.existing_code) ≡ false
      → resolve_file_lines visit n.file_lines f.file ≡ some (key, lines)
      → verify_at_position lines f ≡ true
      → normalize_finding visit n f ≡ f
  unfolding normalize_finding
  normalize_finding-verified f ne e v = rw (ne, e, v) refl

  pub normalize_finding-searched :
      (f f' : FinalFinding)
      → is_empty (trim_space f.existing_code) ≡ false
      → resolve_file_lines visit n.file_lines f.file ≡ some (key, lines)
      → verify_at_position lines f ≡ false
      → search_and_correct lines f ≡ some f'
      → normalize_finding visit n f ≡ f'
  unfolding normalize_finding
  normalize_finding-searched f f' ne e v s = rw (ne, e, v, s) refl
