-- ===== src/GoText/Segments.antt =====
-- Suffixes, and the segments of a text between separators.
use opencode_reviewer.Prelude.{
  ℕ, true, false, List, [], ◌∷◌, ◌++◌, reverse, ◌≡◌, refl, sym, ap, ◌∙◌, arith, inl, inr, ◌⊎◌, ◌==◌,
  Bool-cases, reverse-append, reverse-reverse, append_assoc, drop, take, length, length-append,
  take-append, ◌-◌,
}
use opencode_reviewer.GoText.Strings.{
  Bytes, is_empty, has_prefix-append, has_prefix-drop, has_suffix, trim_suffix, split, join,
  split-eq-cons,
}

pub has_suffix-append : (a p : Bytes) → has_suffix (a ++ p) p ≡ true
unfolding has_suffix
has_suffix-append a p = rw reverse-append (has_prefix-append (reverse p) (reverse a))

-- A text with a suffix is something followed by that suffix.
pub has_suffix-eq : (s p : Bytes) → has_suffix s p ≡ true → (a : Bytes) × (s ≡ a ++ p)
unfolding has_suffix
has_suffix-eq s p h =
    let rest = drop (length (reverse p)) (reverse s) in
    let e : reverse s ≡ reverse p ++ rest = has_prefix-drop (reverse s) (reverse p) h in
    (
      reverse rest,
      sym (reverse-reverse s)
          ∙ ap reverse e
          ∙ reverse-append (reverse p) rest
          ∙ rw reverse-reverse refl,
    )

-- `t` is `s`, or ends with `s` behind a separator.
abbrev pub Below : ℕ → Bytes → Bytes → Type 0
Below sep s t = (t ≡ s) ⊎ ((pre : Bytes) × (t ≡ pre ++ (sep ∷ s)))

pub Below-behind : (sep : ℕ) (s t pre : Bytes) → Below sep s t → Below sep s (pre ++ (sep ∷ t))
Below-behind sep s t pre (inl e) = inr (pre, rw e refl)
Below-behind sep s t pre (inr (q, e)) =
    inr (pre ++ (sep ∷ q), rw e (sym (append_assoc pre (sep ∷ q) (sep ∷ s))))

split-cons_other :
    (sep c : ℕ) (s : Bytes) (p : Bytes) (ps : List Bytes)
    → (c == sep) ≡ false
    → split sep s ≡ p ∷ ps
    → split sep (c ∷ s) ≡ (c ∷ p) ∷ ps
unfolding split
split-cons_other sep c s p ps e h = ground (arith, h)

split-cons_sep : (sep c : ℕ) (s : Bytes) → (c == sep) ≡ true → split sep (c ∷ s) ≡ [] ∷ split sep s
unfolding split
split-cons_sep sep c s e = ground arith

-- A separator in the text separates its parts.
pub split-append : (sep : ℕ) (a b : Bytes) → split sep (a ++ (sep ∷ b)) ≡ split sep a ++ split sep b
split-append sep [] b = split-cons_sep sep sep b (ground arith) ∙ unfold split in refl
split-append sep (c ∷ a) b = elim (Bool-cases (c == sep)) [
  | inl e ↦
      split-cons_sep sep c (a ++ (sep ∷ b)) e
      ∙ rw (split-append sep a b, split-cons_sep sep c a e) refl
  | inr e ↦
      let (p, ps, h) = split-eq-cons sep a in
      split-cons_other sep c (a ++ (sep ∷ b)) p (ps ++ split sep b) e
        (rw (split-append sep a b, h) refl)
      ∙ rw (split-cons_other sep c a p ps e h) refl
]

pub join-cons :
    (sep p q : Bytes) (ps : List Bytes) → join sep (p ∷ q ∷ ps) ≡ p ++ (sep ++ join sep (q ∷ ps))
unfolding join
join-cons sep p q ps = refl

pub split-filled : (sep : ℕ) (s : Bytes) → is_empty (split sep s) ≡ false
split-filled sep s = let (p, ps, e) = split-eq-cons sep s in rw e refl

pub trim_suffix-append : (s p : Bytes) → trim_suffix (s ++ p) p ≡ s
unfolding trim_suffix
trim_suffix-append s p = rw (has_suffix-append s p) (
    ap (λ n. take n (s ++ p)) {x = length (s ++ p) - length p} {y = length s}
      (omega (arith, length-append s p))
    ∙ take-append s p)
