-- ===== src/Warrior/Classifier/Mention.antt =====
-- internal/commentwarrior/classifier.go: `containsAIMarker` finds every mention that stands alone.
use mathlib.Core.Path.{subst}
use mathlib.Core.Option
use opencode_reviewer.Prelude.{
  ℕ, zero, suc, ◌+◌, ◌-◌, ◌≤◌, ◌<◌, Bool, true, false, ◌&&◌, [], ◌∷◌, none, some, if◌then◌else◌,
  drop, length, ◌≡◌, ◌↔◌, ◌⊎◌, inl, inr, refl, sym, ap, ◌∙◌, arith, Bool-cases, Option-cases,
}
use opencode_reviewer.GoText.{Bytes, codes, index, has_prefix, index-has_prefix, index-cons_later}
use opencode_reviewer.Warrior.Classifier.{
  ai_marker, free_before, free_at, mention_from, contains_ai_marker,
}

-- `#ai` stands at a position, with no marker character on either side.
pub record IsMention (body : Bytes) (at : ℕ) : Type 0 where
  pub occurs : has_prefix (drop at body) ai_marker ≡ true
  pub free_left : free_before body at ≡ true
  pub free_right : free_at body (at + 3) ≡ true

drop-nil : (n : ℕ) → drop {A = ℕ} n [] ≡ []
drop-nil zero = refl
drop-nil (suc n) = refl

drop-drop : (i j : ℕ) (s : Bytes) → drop i (drop j s) ≡ drop (i + j) s
drop-drop i zero s = ap (λ n. drop n s) (omega arith)
drop-drop i (suc j) [] = drop-nil i ∙ sym (drop-nil (i + suc j))
drop-drop i (suc j) (c ∷ s) =
    drop-drop i j s ∙ ap (λ n. drop n (c ∷ s)) {x = suc (i + j)} (omega arith)

occurs_not_in-nil : (j y : ℕ) (p : Bytes) → has_prefix (drop j []) (y ∷ p) ≡ true → ⊥
unfolding has_prefix
occurs_not_in-nil zero y p h = cc
occurs_not_in-nil (suc j) y p h = cc

-- An occurrence is at or behind the one that `index` finds.
index-first :
    (s p : Bytes) (y j : ℕ)
    → has_prefix (drop j s) (y ∷ p) ≡ true
    → (i : ℕ) × (index s (y ∷ p) ≡ some i) × (i ≤ j)
unfolding index
index-first [] p y j h = absurd (occurs_not_in-nil j y p h)
index-first (c ∷ s) p y zero h = (0, rw (h, index) refl, omega arith)
index-first (c ∷ s) p y (suc j) h = elim (Bool-cases (has_prefix (c ∷ s) (y ∷ p))) [
  | inl e ↦ (0, rw (e, index) refl, omega arith)
  | inr e ↦
      let (i, found, le) = index-first s p y j h in
      (suc i, index-cons_later c s (y ∷ p) e ∙ ap (Option.map suc) found, omega arith)
]

-- Two occurrences do not overlap.
occurs_apart :
    (s : Bytes) (j : ℕ)
    → has_prefix s ai_marker ≡ true
    → has_prefix (drop (suc j) s) ai_marker ≡ true
    → 2 ≤ j
unfolding has_prefix
occurs_apart (x ∷ y ∷ s) zero h k = ground arith
occurs_apart (x ∷ y ∷ z ∷ s) (suc zero) h k = ground arith
occurs_apart s (suc (suc j)) h k = omega arith
occurs_apart _ _ h k = ground arith

occurs-length : (j : ℕ) (s : Bytes) → has_prefix (drop j s) ai_marker ≡ true → j < length s
occurs-length j [] h = absurd (occurs_not_in-nil j _ _ h)
occurs-length zero (c ∷ s) h = omega arith
occurs-length (suc j) (c ∷ s) h = omega (arith, occurs-length j s h)

occurs_same_or_apart :
    (s : Bytes) (i j : ℕ)
    → has_prefix (drop i s) ai_marker ≡ true
    → has_prefix (drop j s) ai_marker ≡ true
    → i ≤ j
    → (i ≡ j) ⊎ (i + 3 ≤ j)
occurs_same_or_apart s zero zero h k le = inl refl
occurs_same_or_apart s zero (suc j) h k le = let apart = occurs_apart s j h k in inr (omega arith)
occurs_same_or_apart s (suc i) zero h k le = absurd (omega arith)
occurs_same_or_apart [] (suc i) (suc j) h k le = absurd (occurs_not_in-nil (suc i) _ _ h)
occurs_same_or_apart (c ∷ s) (suc i) (suc j) h k le =
    elim (occurs_same_or_apart s i j h k (omega arith)) [
      | inl e ↦ inl (ap suc e)
      | inr apart ↦ inr (omega arith)
    ]

-- A round of the loop: nothing is found, the mention found stands alone, or the loop goes on.
round_none :
    (f : ℕ) (body : Bytes) (offset : ℕ)
    → index (drop offset body) ai_marker ≡ none
    → mention_from (suc f) body offset ≡ false
unfolding mention_from
round_none f body offset e = rw (e, mention_from) refl

round_some :
    (f : ℕ) (body : Bytes) (offset i : ℕ)
    → index (drop offset body) ai_marker ≡ some i
    → mention_from (suc f) body offset ≡ (
        if free_before body (i + offset) && free_at body (i + offset + 3)
        then true
        else mention_from f body (i + offset + 3))
unfolding mention_from
round_some f body offset i e = rw (e, mention_from) refl

cond-true :
    (a b x : Bool) → (if a && b then true else x) ≡ true → ((a ≡ true) × (b ≡ true)) ⊎ (x ≡ true)
cond-true true true x h = inl (refl, refl)
cond-true true false x h = inr h
cond-true false b x h = inr h

cond_free : (a b x : Bool) → a ≡ true → b ≡ true → (if a && b then true else x) ≡ true
cond_free a b x left right = rw (left, right) refl

cond_later : (a b x : Bool) → x ≡ true → (if a && b then true else x) ≡ true
cond_later true true x later = refl
cond_later true false x later = later
cond_later false b x later = later

mention_from_sound :
    (f : ℕ) (body : Bytes) (offset : ℕ)
    → mention_from f body offset ≡ true
    → (at : ℕ) × IsMention body at
mention_from_sound zero body offset h = absurd (unfold mention_from in cc)
mention_from_sound (suc f) body offset h =
    elim (Option-cases (index (drop offset body) ai_marker)) [
      | inl e ↦ let stop = round_none f body offset e in absurd cc
      | inr (i, e) ↦
          elim (cond-true (free_before body (i + offset)) (free_at body (i + offset + 3))
            (mention_from f body (i + offset + 3)) (sym (round_some f body offset i e) ∙ h)) [
              | inl (left, right) ↦ (
                i + offset,
                record {
                  occurs =
                      subst (λ t. has_prefix t ai_marker ≡ true) (drop-drop i offset body)
                        (index-has_prefix (drop offset body) ai_marker i e);
                  free_left = left;
                  free_right = right;
                },
              )
              | inr later ↦ mention_from_sound f body (i + offset + 3) later
            ]
    ]

mention_from_complete :
    (f : ℕ) (body : Bytes) (offset at : ℕ)
    → IsMention body at
    → offset ≤ at
    → length body < f + offset
    → mention_from f body offset ≡ true
mention_from_complete zero body offset at m le fuel =
    let short = occurs-length at body m.occurs in absurd (omega arith)
mention_from_complete (suc f) body offset at m le fuel =
    let same : at - offset + offset ≡ at = omega arith in
    let here : has_prefix (drop (at - offset) (drop offset body)) ai_marker ≡ true =
      ap (λ t. has_prefix t ai_marker)
        (drop-drop (at - offset) offset body ∙ ap (λ n. drop n body) same)
      ∙ m.occurs in
    let (i, found, first) = index-first (drop offset body) (codes "ai") b'#' (at - offset) here in
    let there = index-has_prefix (drop offset body) ai_marker i found in
    elim (occurs_same_or_apart (drop offset body) i (at - offset) there here first) [
      | inl e ↦
          let at_i : i + offset ≡ at = omega arith in
          round_some f body offset i found
          ∙ cond_free (free_before body (i + offset)) (free_at body (i + offset + 3)) _
              (ap (free_before body) at_i ∙ m.free_left)
              (ap (λ n. free_at body (n + 3)) at_i ∙ m.free_right)
      | inr apart ↦
          let rest =
            mention_from_complete f body (i + offset + 3) at m (omega arith) (omega arith) in
          round_some f body offset i found
          ∙ cond_later (free_before body (i + offset)) (free_at body (i + offset + 3)) _ rest
    ]

-- `containsAIMarker` answers true exactly when the body has a mention that stands alone: `#ai` with
-- no marker character in front of it and none behind it.
pub contains_ai_marker-IsMention :
    (body : Bytes) → (contains_ai_marker body ≡ true) ↔ ((at : ℕ) × IsMention body at)
unfolding contains_ai_marker
contains_ai_marker-IsMention body = (
  mention_from_sound (suc (length body)) body 0,
  λ (at, m). mention_from_complete (suc (length body)) body 0 at m (omega arith) (omega arith),
)
