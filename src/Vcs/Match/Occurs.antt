-- ===== src/Vcs/Match/Occurs.antt =====
-- The matches that the two searches collect are the places where the code stands.
use opencode_reviewer.Prelude.{
  ℕ, zero, suc, ◌+◌, ◌≤◌, ◌<◌, true, false, ◌&&◌, List, [], ◌∷◌, leb, length, take, drop, ◌≡◌,
  arith, inl, inr, In, All, Bool-cases,
}
use opencode_reviewer.GoText.{Bytes, bytes_eq, is_empty, trim_space}
use opencode_reviewer.GoInt.{ℤ}
use opencode_reviewer.Vcs.Types.{DiffLine}
use opencode_reviewer.Vcs.Match.{
  Match, line_num, abs_dist, window_match, line_matches, window_matches, code_matches, line_at,
}

-- The code stands at index `i` of the lines, line by line.
abbrev pub Occurs : List Bytes → List DiffLine → ℕ → Type 0
Occurs code lines i =
    (i + length code ≤ length lines)
    × (window_match (take (length code) (drop i lines)) code ≡ true)

-- The match for index `k` in lines that begin at index `i`.
abbrev pub match_at : ℤ → List DiffLine → ℕ → ℕ → Match
match_at start lines i k = record {
  idx = k + i;
  dist = abs_dist (line_num (line_at lines k)) start;
}

-- `m` is the match of a place where the code stands.
pub record IsMatch (start : ℤ) (code : List Bytes) (lines : List DiffLine) (i : ℕ) (m : Match)
    : Type 0 where
  pub place : ℕ
  pub is_match : m ≡ match_at start lines i place
  pub occurs : Occurs code lines place

All-imp :
    {A : Type 0} {P Q : A → Type 0} → ((a : A) → P a → Q a) → (xs : List A) → All P xs → All Q xs
All-imp f [] h = tt
All-imp f (x ∷ xs) (h, t) = (f x h, All-imp f xs t)

module _ (start : ℤ) (code : List Bytes) where
  IsMatch-next :
      (dl : DiffLine) (lines : List DiffLine) (i : ℕ) (m : Match)
      → IsMatch start code lines (suc i) m
      → IsMatch start code (dl ∷ lines) i m
  IsMatch-next dl lines i m h = record {
    place = suc h.place;
    is_match = ground (arith, h.is_match);
    occurs = (omega (arith, h.occurs.0), h.occurs.1);
  }

  window_matches-IsMatch :
      (i : ℕ) (lines : List DiffLine)
      → All (IsMatch start code lines i) (window_matches start code i lines)
  unfolding window_matches
  window_matches-IsMatch i [] = tt
  window_matches-IsMatch i (dl ∷ lines) =
      let rest = All-imp (IsMatch-next dl lines i) _ (window_matches-IsMatch (suc i) lines) in
      elim (Bool-cases (
        leb (length code) (length (dl ∷ lines))
        && window_match (take (length code) (dl ∷ lines)) code)) [
          | inl e ↦
              rw e (record { place = 0; is_match = ground arith; occurs = ground arith }, rest)
          | inr e ↦ rw e rest
        ]

  window_matches-In :
      (i : ℕ) (lines : List DiffLine) (k : ℕ)
      → Occurs code lines k
      → k < length lines
      → In (match_at start lines i k) (window_matches start code i lines)
  unfolding window_matches
  window_matches-In i [] k h l = absurd (omega arith)
  window_matches-In i (dl ∷ lines) zero h l = ground arith
  window_matches-In i (dl ∷ lines) (suc k) h l = ground (arith, window_matches-In (suc i) lines k)

module _ (start : ℤ) (line : Bytes) where
  line_matches-IsMatch :
      (i : ℕ) (lines : List DiffLine)
      → All (IsMatch start (line ∷ []) lines i) (line_matches start (trim_space line) i lines)
  unfolding line_matches
  line_matches-IsMatch i [] = tt
  line_matches-IsMatch i (dl ∷ lines) =
      let rest =
        All-imp (IsMatch-next start (line ∷ []) dl lines i) _
          (line_matches-IsMatch (suc i) lines) in
      elim (Bool-cases (bytes_eq (trim_space dl.content) (trim_space line))) [
        | inl e ↦ rw e (
          record {
            place = 0;
            is_match = ground arith;
            occurs = unfold window_match in ground arith;
          },
          rest,
        )
        | inr e ↦ rw e rest
      ]

  line_matches-In :
      (i : ℕ) (lines : List DiffLine) (k : ℕ)
      → Occurs (line ∷ []) lines k
      → In (match_at start lines i k) (line_matches start (trim_space line) i lines)
  unfolding line_matches window_match
  line_matches-In i [] k h = absurd (omega arith)
  line_matches-In i (dl ∷ lines) zero h = ground arith
  line_matches-In i (dl ∷ lines) (suc k) h = ground (arith, line_matches-In (suc i) lines k)

module _ (start : ℤ) (lines : List DiffLine) where
  pub code_matches-IsMatch :
      (code : List Bytes) → All (IsMatch start code lines 0) (code_matches start code lines)
  unfolding code_matches
  code_matches-IsMatch [] = window_matches-IsMatch start [] 0 lines
  code_matches-IsMatch (line ∷ []) = line_matches-IsMatch start line 0 lines
  code_matches-IsMatch (line ∷ next ∷ code) =
      window_matches-IsMatch start (line ∷ next ∷ code) 0 lines

  pub code_matches-In :
      (code : List Bytes) (k : ℕ)
      → is_empty code ≡ false
      → Occurs code lines k
      → In (match_at start lines 0 k) (code_matches start code lines)
  unfolding code_matches
  code_matches-In [] k e h = cc
  code_matches-In (line ∷ []) k e h = line_matches-In start line 0 lines k h
  code_matches-In (line ∷ next ∷ code) k e h =
      window_matches-In start (line ∷ next ∷ code) 0 lines k h (omega (arith, h.0))
