-- ===== src/GoText/Index.antt =====
-- What `index` finds is the first occurrence.
use mathlib.Core.Option
use opencode_reviewer.Prelude.{
  ℕ, zero, suc, true, false, [], ◌∷◌, ◌++◌, none, some, ◌≡◌, refl, arith, drop, take, Bool-cases,
  Option-cases,
}
use opencode_reviewer.GoText.Strings.{Bytes, has_prefix, has_prefix-append}
use opencode_reviewer.GoText.Search.{index}

-- The text at the position found begins with what was searched.
pub index-has_prefix : (s p : Bytes) (i : ℕ) → index s p ≡ some i → has_prefix (drop i s) p ≡ true
unfolding index has_prefix
index-has_prefix [] [] zero h = refl
index-has_prefix [] [] (suc i) h = refl
index-has_prefix [] (y ∷ p) i h = cc
index-has_prefix (c ∷ s) p zero h =
    ground (arith, Option-cases (index s p), Bool-cases (has_prefix (c ∷ s) p))
index-has_prefix (c ∷ s) p (suc i) h =
    ground (arith, index-has_prefix s p i, Option-cases (index s p))

-- A prefix of the shorter text is one of the longer.
pub has_prefix-take : (i : ℕ) (s p : Bytes) → has_prefix (take i s) p ≡ true → has_prefix s p ≡ true
unfolding has_prefix
has_prefix-take i s [] h = refl
has_prefix-take zero s (y ∷ p) h = cc
has_prefix-take (suc i) [] (y ∷ p) h = cc
has_prefix-take (suc i) (c ∷ s) (y ∷ p) h = ground (arith, has_prefix-take i s p)

-- Before the first occurrence there is none.
pub index-take :
    (s p : Bytes) (y i : ℕ) → index s (y ∷ p) ≡ some i → index (take i s) (y ∷ p) ≡ none
unfolding index
index-take [] p y i h = cc
index-take (c ∷ s) p y zero h = refl
index-take (c ∷ s) p y (suc i) h = ground (
  arith,
  index-take s p y i,
  has_prefix-take (suc i) (c ∷ s) (y ∷ p),
  Option-cases (index s (y ∷ p)),
)

-- The two ways in which a round of `index` ends.
pub index-cons_later :
    (c : ℕ) (s p : Bytes)
    → has_prefix (c ∷ s) p ≡ false
    → index (c ∷ s) p ≡ Option.map suc (index s p)
unfolding index
index-cons_later c s p h = rw (h, index)

-- A text with no occurrence has none at its front, and none behind.
pub index-cons_none :
    (c : ℕ) (s p : Bytes)
    → index (c ∷ s) p ≡ none
    → (has_prefix (c ∷ s) p ≡ false) × (index s p ≡ none)
unfolding index
index-cons_none c s p h =
    ground (arith, Bool-cases (has_prefix (c ∷ s) p), Option-cases (index s p))

-- `index` of a text that begins with what is searched.
pub index-append_self : (p s : Bytes) → index (p ++ s) p ≡ some 0
unfolding index
index-append_self [] [] = refl
index-append_self [] (c ∷ s) = refl
index-append_self (c ∷ p) s = rw (has_prefix-append (c ∷ p) s, index)
