-- ===== src/GoText/Blank.antt =====
-- Text of newlines only is trimmed away.
use opencode_reviewer.Prelude.{
  Bool, true, false, not, [], ◌∷◌, ◌≡◌, refl, arith, inl, inr, select, All, Bool-cases,
}
use opencode_reviewer.GoText.Strings.{Bytes, is_empty, split, split-eq-cons}
use opencode_reviewer.GoText.Space.{trim_space, skip_spaces, lead_space}

abbrev Newlines : Bytes → Type 0
Newlines = All (λ c. c ≡ b'\n')

abbrev filled : Bytes → Bool
filled l = not (is_empty l)

only-Newlines : (s : Bytes) → is_empty (select filled (split b'\n' s)) ≡ true → Newlines s
unfolding split
only-Newlines [] h = tt
only-Newlines (c ∷ s) h =
    let (p, ps, e) = split-eq-cons b'\n' s in ground (arith, e, only-Newlines s)

lead_space-newline : (s : Bytes) → lead_space (b'\n' ∷ s) ≡ 1
unfolding lead_space
lead_space-newline [] = refl
lead_space-newline (b ∷ []) = refl
lead_space-newline (b ∷ c ∷ s) = refl

skip_spaces-Newlines : (s : Bytes) → Newlines s → skip_spaces lead_space 0 s ≡ []
unfolding skip_spaces
skip_spaces-Newlines [] h = refl
skip_spaces-Newlines (c ∷ s) (e, h) =
    rw e (rw (lead_space-newline s, skip_spaces) (skip_spaces-Newlines s h))

trim_space-Newlines : (s : Bytes) → Newlines s → trim_space s ≡ []
unfolding trim_space
trim_space-Newlines s h = rw (skip_spaces-Newlines s h) refl

-- Text that is not blank has a line that is not empty.
pub filled_line :
    (s : Bytes)
    → is_empty (trim_space s) ≡ false
    → is_empty (select (λ l. not (is_empty l)) (split b'\n' s)) ≡ false
filled_line s h = elim (Bool-cases (is_empty (select filled (split b'\n' s)))) [
  | inl e ↦ ground (arith, trim_space-Newlines s (only-Newlines s e))
  | inr e ↦ e
]
