-- ===== src/Vcs/Match.antt =====
-- internal/shared/vcs/normalizer.go: existing code compared with the lines of the diff.
pub mod Occurs
pub mod Best
use opencode_reviewer.Prelude.{
  ℕ, zero, suc, ◌+◌, ◌-◌, Bool, true, false, ◌&&◌, ◌||◌, not, List, [], ◌∷◌, ◌++◌, Option, none,
  some, ltb, leb, ◌==◌, if◌then◌else◌, length, take, drop, select, get_or,
}
use opencode_reviewer.GoText.{Bytes, bytes_eq, is_empty, split, trim_space}
use opencode_reviewer.GoInt.{ℤ, pos, sub_int, neg_int, eq_int, lt_int}
use opencode_reviewer.Vcs.Types.{DiffLine, Origin, plus, minus, context}

unfoldable pub line_num : DiffLine → ℤ
line_num dl = elim dl.origin [ plus ↦ dl.new_num | minus ↦ dl.old_num | context ↦ dl.new_num ]

unfoldable pub abs_dist : ℤ → ℤ → ℤ
abs_dist a b = let d = sub_int a b in if lt_int d (pos 0) then neg_int d else d

-- `splitCode`: the lines that are not empty
unfoldable pub split_code : Bytes → List Bytes
split_code code = select (λ l. not (is_empty l)) (split b'\n' code)

-- The comparison of one line of code with one of the diff.
abbrev pub same_line : Bytes → Bytes → Bool
same_line a b = bytes_eq (trim_space a) (trim_space b)

-- `windowMatch`; every caller passes a window with as many lines as the code.
unfoldable pub window_match : List DiffLine → List Bytes → Bool
window_match window [] = true
window_match [] (line ∷ code) = false
window_match (dl ∷ window) (line ∷ code) = same_line dl.content line && window_match window code

-- The lines from the first one whose number is `start_line`.
unfoldable pub from_line : (DiffLine → ℤ) → ℤ → List DiffLine → Option (List DiffLine)
from_line num start_line [] = none
from_line num start_line (dl ∷ lines) =
    let later = from_line num start_line lines in
    if eq_int (num dl) start_line then some (dl ∷ lines) else later

unfoldable pub match_at_line : List DiffLine → List Bytes → ℤ → (DiffLine → ℤ) → Bool
match_at_line lines code start_line num = elim (from_line num start_line lines) [
  | none ↦ false
  | some rest ↦
      if ltb (length rest) (length code) then false else window_match (take (length code) rest) code
]

unfoldable pub is_line_in_diff : List DiffLine → ℤ → ℤ → Bool
is_line_in_diff [] old_line new_line = false
is_line_in_diff (dl ∷ lines) old_line new_line =
    (lt_int (pos 0) new_line && eq_int dl.new_num new_line)
    || (lt_int (pos 0) old_line && eq_int dl.old_num old_line)
    || is_line_in_diff lines old_line new_line

-- `match` of the two searches
pub record Match : Type 0 where
  pub idx : ℕ
  pub dist : ℤ

-- The loop over single lines, from index `i` on.
unfoldable pub line_matches : ℤ → Bytes → ℕ → List DiffLine → List Match
line_matches start trimmed i [] = []
line_matches start trimmed i (dl ∷ lines) =
    let rest = line_matches start trimmed (suc i) lines in
    if bytes_eq (trim_space dl.content) trimmed
    then record { idx = i; dist = abs_dist (line_num dl) start } ∷ rest
    else rest

-- The loop over windows, from index `i` on, while a whole window is left.
unfoldable pub window_matches : ℤ → List Bytes → ℕ → List DiffLine → List Match
window_matches start code i [] = []
window_matches start code i (dl ∷ lines) =
    let rest = window_matches start code (suc i) lines in
    if leb (length code) (length (dl ∷ lines))
      && window_match (take (length code) (dl ∷ lines)) code
    then record { idx = i; dist = abs_dist (line_num dl) start } ∷ rest
    else rest

-- All places where the code stands.
unfoldable pub code_matches : ℤ → List Bytes → List DiffLine → List Match
code_matches start (line ∷ []) lines = line_matches start (trim_space line) 0 lines
code_matches start code lines = window_matches start code 0 lines

-- The first match with the smallest distance.
unfoldable pub best_from : Match → List Match → Match
best_from best [] = best
best_from best (m ∷ ms) = best_from (if lt_int m.dist best.dist then m else best) ms

unfoldable pub best_match : List Match → Option Match
best_match [] = none
best_match (m ∷ ms) = some (best_from m ms)

-- `lines[i]` for an index in range.
abbrev pub line_at : List DiffLine → ℕ → DiffLine
line_at lines i =
    get_or lines i (record { content = []; old_num = pos 0; new_num = pos 0; origin = context })
