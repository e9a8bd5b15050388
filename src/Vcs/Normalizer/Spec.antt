-- ===== src/Vcs/Normalizer/Spec.antt =====
-- `Normalize`: what becomes of a finding, on every branch.
use opencode_reviewer.Prelude.{
  ℕ, suc, ◌+◌, ◌-◌, ◌≤◌, ◌<◌, true, false, List, [], ◌∷◌, none, some, length, take, drop, ◌≡◌, refl,
  ap, arith, ◌⊎◌, inl, inr, Bool-cases, Option-cases, length-drop,
}
use opencode_reviewer.GoText.{Bytes, is_empty, trim_space, filled_line}
use opencode_reviewer.GoInt.{ℤ, eq_int, eq_int_iff}
use opencode_reviewer.Models.{FinalFinding}
use opencode_reviewer.Vcs.Types.{DiffLine}
use opencode_reviewer.Vcs.Match.{
  line_num, split_code, window_match, from_line, match_at_line, code_matches, best_match, line_at,
}
use opencode_reviewer.Vcs.Match.Occurs.{Occurs}
use opencode_reviewer.Vcs.Match.Best.{Nearest, best_match-code_matches, best_match-none}
use opencode_reviewer.Vcs.Resolve.{Visit, resolve_file_lines}
use opencode_reviewer.Vcs.Normalizer.{
  Normalizer, verify_at_position, search_and_correct, normalize_finding, normalize,
}

-- The code stands at a line that the accessor gives the number `start`.
abbrev pub StandsAt : (DiffLine → ℤ) → ℤ → List Bytes → List DiffLine → Type 0
StandsAt num start code lines = (k : ℕ) × Occurs code lines k × (num (line_at lines k) ≡ start)

from_line-drop :
    (num : DiffLine → ℤ) (start : ℤ) (lines rest : List DiffLine)
    → from_line num start lines ≡ some rest
    → (k : ℕ) × (k < length lines) × (drop k lines ≡ rest) × (num (line_at lines k) ≡ start)
unfolding from_line
from_line-drop num start [] rest e = cc
from_line-drop num start (dl ∷ lines) rest e = elim (Bool-cases (eq_int (num dl) start)) [
  | inl same ↦ (
    0,
    ground (arith, eq_int_iff (num dl) start),
    ground (arith, eq_int_iff (num dl) start),
    (eq_int_iff (num dl) start).0 same,
  )
  | inr other ↦
      let (k, l, d, n) = from_line-drop num start lines rest (rw other at e) in
      (suc k, omega arith, d, n)
]

match_at_line-rest :
    (num : DiffLine → ℤ) (start : ℤ) (code : List Bytes) (lines rest : List DiffLine)
    → from_line num start lines ≡ some rest
    → match_at_line lines code start num ≡ true
    → (length code ≤ length rest) × (window_match (take (length code) rest) code ≡ true)
unfolding match_at_line
match_at_line-rest num start code lines rest e h = ground (arith, e)

pub match_at_line-StandsAt :
    (num : DiffLine → ℤ) (start : ℤ) (code : List Bytes) (lines : List DiffLine)
    → match_at_line lines code start num ≡ true
    → StandsAt num start code lines
match_at_line-StandsAt num start code lines h = elim (Option-cases (from_line num start lines)) [
  | inl e ↦ absurd (unfold match_at_line in ground (arith, e))
  | inr (rest, e) ↦
      let (k, l, d, n) = from_line-drop num start lines rest e in
      let (fits, same) = match_at_line-rest num start code lines rest e h in
      (k, (omega (arith, ap length d, length-drop k lines), rw d same), n)
]

-- How `Normalize` may treat a finding `f`, with the finding that it returns.
pub data Normalized (visit : Visit) (n : Normalizer) (f : FinalFinding)
    : FinalFinding → Type 0 where
  -- there is no code to look for
  no_code : is_empty (trim_space f.existing_code) ≡ true → Normalized visit n f f
  -- the file is not in the diff
  no_file :
      is_empty (trim_space f.existing_code) ≡ false
      → resolve_file_lines visit n.file_lines f.file ≡ none
      → Normalized visit n f f
  -- the code stands at the reported line, on the new side or the old one
  in_place :
      {key : Bytes} {lines : List DiffLine}
      → resolve_file_lines visit n.file_lines f.file ≡ some (key, lines)
      → StandsAt (λ dl. dl.new_num) f.start_line (split_code f.existing_code) lines
        ⊎ StandsAt (λ dl. dl.old_num) f.start_line (split_code f.existing_code) lines
      → Normalized visit n f f
  -- the code stands nowhere in the file's diff
  unresolved :
      {key : Bytes} {lines : List DiffLine}
      → resolve_file_lines visit n.file_lines f.file ≡ some (key, lines)
      → ((k : ℕ) → ¬ Occurs (split_code f.existing_code) lines k)
      → Normalized visit n f f
  -- the code stands elsewhere, and the lines become those of a nearest place
  corrected :
      {key : Bytes} {lines : List DiffLine} {f' : FinalFinding} (k : ℕ)
      → resolve_file_lines visit n.file_lines f.file ≡ some (key, lines)
      → verify_at_position lines f ≡ false
      → Nearest f.start_line (split_code f.existing_code) lines k
      → f' ≡ record f {
        start_line = line_num (line_at lines k);
        end_line = line_num (line_at lines (k + length (split_code f.existing_code) - 1));
      }
      → Normalized visit n f f'

verify_at_position-StandsAt :
    (lines : List DiffLine) (f : FinalFinding)
    → verify_at_position lines f ≡ true
    → StandsAt (λ dl. dl.new_num) f.start_line (split_code f.existing_code) lines
      ⊎ StandsAt (λ dl. dl.old_num) f.start_line (split_code f.existing_code) lines
unfolding verify_at_position
verify_at_position-StandsAt lines f h =
    let code = split_code f.existing_code in
    elim (Bool-cases (match_at_line lines code f.start_line (λ dl. dl.new_num))) [
      | inl e ↦ inl (match_at_line-StandsAt (λ dl. dl.new_num) f.start_line code lines e)
      | inr e ↦ inr (match_at_line-StandsAt (λ dl. dl.old_num) f.start_line code lines (rw e at h))
    ]

pub split_code-filled :
    (f : FinalFinding)
    → is_empty (trim_space f.existing_code) ≡ false
    → is_empty (split_code f.existing_code) ≡ false
unfolding split_code
split_code-filled f h = filled_line f.existing_code h

module _ (visit : Visit) (n : Normalizer) (f : FinalFinding) where
  -- The branch in which the file is found and the reported line does not fit.
  search-Normalized :
      {key : Bytes} {lines : List DiffLine}
      → is_empty (trim_space f.existing_code) ≡ false
      → resolve_file_lines visit n.file_lines f.file ≡ some (key, lines)
      → verify_at_position lines f ≡ false
      → Normalized visit n f (elim (search_and_correct lines f) [ none ↦ f | some f' ↦ f' ])
  unfolding search_and_correct
  search-Normalized {lines} ne found moved =
      let code = split_code f.existing_code in
      let filled = split_code-filled f ne in
      elim (Option-cases (best_match (code_matches f.start_line code lines))) [
        | inl e ↦
            rw (filled, e) (unresolved found (best_match-none f.start_line code lines filled e))
        | inr (best, e) ↦
            rw (filled, e)
              (corrected best.idx found moved
                (best_match-code_matches f.start_line code lines best filled e) refl)
      ]

  -- Every finding is treated in one of these five ways.
  pub normalize_finding-Normalized : Normalized visit n f (normalize_finding visit n f)
  unfolding normalize_finding
  normalize_finding-Normalized = elim (Bool-cases (is_empty (trim_space f.existing_code))) [
    | inl e ↦ rw e (no_code e)
    | inr ne ↦ rw ne (elim (Option-cases (resolve_file_lines visit n.file_lines f.file)) [
      | inl e ↦ rw e (no_file ne e)
      | inr ((key, lines), e) ↦ rw e (elim (Bool-cases (verify_at_position lines f)) [
        | inl v ↦ rw v (in_place e (verify_at_position-StandsAt lines f v))
        | inr v ↦ rw v (search-Normalized ne e v)
      ])
    ])
  ]

-- The findings, one by one, with what `Normalize` makes of them; `i` is the index of the first.
abbrev pub EachNormalized :
    (ℕ → Visit) → Normalizer → ℕ → List FinalFinding → List FinalFinding → Type 0
EachNormalized visits n i [] [] = Unit
EachNormalized visits n i (f ∷ fs) (f' ∷ fs') =
    Normalized (visits i) n f f' × EachNormalized visits n (suc i) fs fs'
EachNormalized visits n i _ _ = ⊥

each-Normalized :
    (visits : ℕ → Visit) (n : Normalizer) (i : ℕ) (fs : List FinalFinding)
    → EachNormalized visits n i fs (normalize visits n i fs)
unfolding normalize
each-Normalized visits n i [] = tt
each-Normalized visits n i (f ∷ fs) =
    (normalize_finding-Normalized (visits i) n f, each-Normalized visits n (suc i) fs)

-- `Normalize` returns as many findings, each of them unchanged (there is no code, the file is not
-- in the diff, the code stands at the reported line, or it stands nowhere) or moved to a nearest
-- place where the code stands, whatever order the map is visited in.
pub normalize-Normalized :
    (visits : ℕ → Visit) (n : Normalizer) (fs : List FinalFinding)
    → EachNormalized visits n 0 fs (normalize visits n 0 fs)
normalize-Normalized visits n fs = each-Normalized visits n 0 fs
