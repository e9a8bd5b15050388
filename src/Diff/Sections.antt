-- ===== src/Diff/Sections.antt =====
-- `splitDiffSections`: nothing behind the first marker is lost, and each section holds one marker.
use mathlib.Core.List.{flatten}
use native.Mathlib.Numerals.{add-one}
use opencode_reviewer.Prelude.{
  ℕ, zero, suc, ◌+◌, ◌<◌, true, List, [], ◌∷◌, ◌++◌, none, some, ◌≡◌, refl, ap, inl, inr, ◌∙◌,
  arith, drop, take, length, Option-cases, All, append-nil, length-drop-le,
}
use opencode_reviewer.GoText.{
  Bytes, has_prefix, has_prefix-append, has_prefix-drop, index, index-take, index-has_prefix,
}
use opencode_reviewer.Diff.Parse.{marker, section_loop, split_diff_sections}

take-append-drop {ℓ} : {A : Type ℓ} (n : ℕ) (xs : List A) → take n xs ++ drop n xs ≡ xs
take-append-drop zero xs = refl
take-append-drop (suc n) [] = refl
take-append-drop (suc n) (x ∷ xs) = ap (◌∷◌ x) (take-append-drop n xs)

-- A section begins with the marker and holds no other.
abbrev pub IsSection : Bytes → Type 0
IsSection s = (has_prefix s marker ≡ true) × (index (drop 1 s) marker ≡ none)

section_loop_last :
    (f : ℕ) (raw : Bytes) → index (drop 1 raw) marker ≡ none → section_loop (suc f) raw ≡ raw ∷ []
unfolding section_loop
section_loop_last f raw e = rw (e, section_loop)

section_loop_cut :
    (f : ℕ) (raw : Bytes) (next : ℕ)
    → index (drop 1 raw) marker ≡ some next
    → section_loop (suc f) raw ≡ take (next + 1) raw ∷ section_loop f (drop (next + 1) raw)
unfolding section_loop
section_loop_cut f raw next e = rw (e, section_loop)

flatten-section_loop : (f : ℕ) (raw : Bytes) → flatten (section_loop f raw) ≡ raw
unfolding flatten
flatten-section_loop zero raw = unfold section_loop in append-nil raw
flatten-section_loop (suc f) raw = elim (Option-cases (index (drop 1 raw) marker)) [
  | inl e ↦ rw (section_loop_last f raw e) (append-nil raw)
  | inr (next, e) ↦
      rw (section_loop_cut f raw next e)
        (rw (flatten-section_loop f (drop (next + 1) raw)) (take-append-drop (next + 1) raw))
]

-- The marker does not overlap itself: the next one begins ten bytes on at the earliest.
no_next_marker : (t : Bytes) → index t marker ≡ none → index (drop 1 (marker ++ t)) marker ≡ none
unfolding index has_prefix
no_next_marker t e = rw e

next_marker :
    (t : Bytes) (j : ℕ)
    → index t marker ≡ some j
    → index (drop 1 (marker ++ t)) marker
      ≡ some (suc (suc (suc (suc (suc (suc (suc (suc (suc (suc j))))))))))
unfolding index has_prefix
next_marker t j e = rw e

IsSection-append : (t : Bytes) → index t marker ≡ none → IsSection (marker ++ t)
IsSection-append t e = (has_prefix-append marker t, no_next_marker t e)

has_prefix-eq : (t : Bytes) → has_prefix t marker ≡ true → (u : Bytes) × (t ≡ marker ++ u)
has_prefix-eq t h = (drop (length marker) t, has_prefix-drop t marker h)

-- One round with a further marker behind `t`.
section_loop-next :
    (f : ℕ) (t : Bytes) (j : ℕ)
    → index t marker ≡ some j
    → section_loop (suc f) (marker ++ t) ≡ (marker ++ take j t) ∷ section_loop f (drop j t)
section_loop-next f t j e =
    section_loop_cut f (marker ++ t) _ (next_marker t j e) ∙ rw (add-one) refl

section_loop-IsSection :
    (f : ℕ) (t : Bytes) → length t < f → All IsSection (section_loop f (marker ++ t))
section_loop-IsSection zero t h = absurd (omega arith)
section_loop-IsSection (suc f) t h = elim (Option-cases (index t marker)) [
  | inl e ↦ rw (section_loop_last f (marker ++ t) (no_next_marker t e)) (IsSection-append t e, tt)
  | inr (j, e) ↦
      let (u, cut) = has_prefix-eq (drop j t) (index-has_prefix t marker j e) in
      rw (section_loop-next f t j e, cut)
        (
          IsSection-append (take j t) (index-take t _ _ j e),
          section_loop-IsSection f u (omega (arith, ap length cut, length-drop-le j t)),
        )
]

split_diff_sections-found :
    (raw : Bytes) (idx : ℕ)
    → index raw marker ≡ some idx
    → split_diff_sections raw ≡ section_loop (length (drop idx raw)) (drop idx raw)
unfolding split_diff_sections
split_diff_sections-found raw idx e = rw (e, split_diff_sections)

-- The sections are the text from the first marker on, cut so that each begins with a marker and
-- holds no other.
pub split_diff_sections_lem :
    (raw : Bytes) (idx : ℕ)
    → index raw marker ≡ some idx
    → (flatten (split_diff_sections raw) ≡ drop idx raw) × All IsSection (split_diff_sections raw)
split_diff_sections_lem raw idx e =
    let (u, cut) = has_prefix-eq (drop idx raw) (index-has_prefix raw marker idx e) in
    rw (split_diff_sections-found raw idx e)
      (flatten-section_loop _ (drop idx raw), rw cut (section_loop-IsSection _ u (omega arith)))
