-- ===== src/Review/Stage/Collect.antt =====
-- internal/review/pipeline/review_stage.go: the order in which the sessions end does not matter.
use mathlib.Core.Path.{ap₂}
use opencode_reviewer.Prelude.{
  ℕ, zero, suc, ◌<◌, List, [], ◌∷◌, Option, none, some, In, length, get_or, ◌≡◌, ◌⊎◌, inl, inr,
  refl, sym, ap, ◌∙◌, arith, Option-cases,
}
use opencode_reviewer.Review.Stage.{set_slot, receive_all, blank_slots, filled, run_all_reviews}

module _ {R : Type 0} where
  -- Every slot holds its outcome or nothing yet, and the slots of a set of indices hold theirs.
  Agrees : List (Option R) → List (Option R) → Type 0
  Agrees [] [] = Unit
  Agrees (o ∷ os) (s ∷ ss) = ((s ≡ none) ⊎ (s ≡ o)) × Agrees os ss
  Agrees _ _ = ⊥

  Agrees-blank : (os : List (Option R)) → Agrees os (blank_slots os)
  unfolding Agrees
  Agrees-blank [] = tt
  Agrees-blank (o ∷ os) = (inl refl, Agrees-blank os)

  Agrees-set_slot :
      (i : ℕ) (r : R) (os ss : List (Option R))
      → get_or os i none ≡ some r
      → Agrees os ss
      → Agrees os (set_slot i (some r) ss)
  unfolding Agrees
  Agrees-set_slot i r [] [] e a = tt
  Agrees-set_slot i r [] (s ∷ ss) e a = absurd a
  Agrees-set_slot zero r (o ∷ os) [] e a = absurd a
  Agrees-set_slot (suc i) r (o ∷ os) [] e a = absurd a
  Agrees-set_slot zero r (o ∷ os) (s ∷ ss) e (h, a) = (inr (sym e), a)
  Agrees-set_slot (suc i) r (o ∷ os) (s ∷ ss) e (h, a) = (h, Agrees-set_slot i r os ss e a)

  -- The slot of an index holds its outcome.
  abbrev IsDone : List (Option R) → List (Option R) → ℕ → Type 0
  IsDone os ss i = get_or ss i none ≡ get_or os i none

  IsDone-set_slot :
      (i j : ℕ) (r : R) (os ss : List (Option R))
      → get_or os i none ≡ some r
      → Agrees os ss
      → (i ≡ j) ⊎ IsDone os ss j
      → IsDone os (set_slot i (some r) ss) j
  unfolding Agrees
  IsDone-set_slot i j r [] [] e a d = refl
  IsDone-set_slot i j r [] (s ∷ ss) e a d = absurd a
  IsDone-set_slot zero zero r (o ∷ os) [] e a d = absurd a
  IsDone-set_slot zero (suc j) r (o ∷ os) [] e a d = absurd a
  IsDone-set_slot (suc i) zero r (o ∷ os) [] e a d = absurd a
  IsDone-set_slot (suc i) (suc j) r (o ∷ os) [] e a d = absurd a
  IsDone-set_slot zero zero r (o ∷ os) (s ∷ ss) e a d = sym e
  IsDone-set_slot zero (suc j) r (o ∷ os) (s ∷ ss) e a (inl d) = absurd (omega arith)
  IsDone-set_slot zero (suc j) r (o ∷ os) (s ∷ ss) e a (inr d) = d
  IsDone-set_slot (suc i) zero r (o ∷ os) (s ∷ ss) e a (inl d) = absurd (omega arith)
  IsDone-set_slot (suc i) zero r (o ∷ os) (s ∷ ss) e a (inr d) = d
  IsDone-set_slot (suc i) (suc j) r (o ∷ os) (s ∷ ss) e (h, a) (inl d) =
      IsDone-set_slot i j r os ss e a (inl (omega arith))
  IsDone-set_slot (suc i) (suc j) r (o ∷ os) (s ∷ ss) e (h, a) (inr d) =
      IsDone-set_slot i j r os ss e a (inr d)

  -- A slot whose outcome is an error stays blank.
  IsDone-none :
      (j : ℕ) (os ss : List (Option R)) → get_or os j none ≡ none → Agrees os ss → IsDone os ss j
  unfolding Agrees
  IsDone-none j [] [] e a = refl
  IsDone-none j [] (s ∷ ss) e a = absurd a
  IsDone-none zero (o ∷ os) [] e a = absurd a
  IsDone-none (suc j) (o ∷ os) [] e a = absurd a
  IsDone-none zero (o ∷ os) (s ∷ ss) e (inl h, a) = h ∙ sym e
  IsDone-none zero (o ∷ os) (s ∷ ss) e (inr h, a) = h
  IsDone-none (suc j) (o ∷ os) (s ∷ ss) e (h, a) = IsDone-none j os ss e a

  receive_all-none :
      (os ss : List (Option R)) (i : ℕ) (order : List ℕ)
      → get_or os i none ≡ none
      → receive_all os (i ∷ order) ss ≡ receive_all os order ss
  unfolding receive_all
  receive_all-none os ss i order e = rw (e, receive_all) refl

  receive_all-some :
      (os ss : List (Option R)) (i : ℕ) (order : List ℕ) (r : R)
      → get_or os i none ≡ some r
      → receive_all os (i ∷ order) ss ≡ receive_all os order (set_slot i (some r) ss)
  unfolding receive_all
  receive_all-some os ss i order r e = rw (e, receive_all) refl

  receive_all-IsDone :
      (os ss : List (Option R)) (order : List ℕ) (j : ℕ)
      → Agrees os ss
      → In j order ⊎ IsDone os ss j
      → IsDone os (receive_all os order ss) j
  receive_all-IsDone os ss [] j a (inl m) = absurd m
  receive_all-IsDone os ss [] j a (inr d) = unfold receive_all in d
  receive_all-IsDone os ss (i ∷ order) j a d = elim (Option-cases (get_or os i none)) [
    | inl e ↦
        let later : In j order ⊎ IsDone os ss j = elim d [
          | inl m ↦ elim m [
            | inl same ↦ inr (IsDone-none j os ss (ap (λ k. get_or os k none) same ∙ e) a)
            | inr m' ↦ inl m'
          ]
          | inr done ↦ inr done
        ] in
        rw (receive_all-none os ss i order e) (receive_all-IsDone os ss order j a later)
    | inr (r, e) ↦
        let later : In j order ⊎ IsDone os (set_slot i (some r) ss) j = elim d [
          | inl m ↦ elim m [
            | inl same ↦ inr (IsDone-set_slot i j r os ss e a (inl (sym same)))
            | inr m' ↦ inl m'
          ]
          | inr done ↦ inr (IsDone-set_slot i j r os ss e a (inr done))
        ] in
        rw (receive_all-some os ss i order r e) (
          receive_all-IsDone os (set_slot i (some r) ss) order j (Agrees-set_slot i r os ss e a)
            later)
  ]

  receive_all-Agrees :
      (os ss : List (Option R)) (order : List ℕ)
      → Agrees os ss
      → Agrees os (receive_all os order ss)
  receive_all-Agrees os ss [] a = unfold receive_all in a
  receive_all-Agrees os ss (i ∷ order) a = elim (Option-cases (get_or os i none)) [
    | inl e ↦ rw (receive_all-none os ss i order e) (receive_all-Agrees os ss order a)
    | inr (r, e) ↦
        rw (receive_all-some os ss i order r e)
          (receive_all-Agrees os (set_slot i (some r) ss) order (Agrees-set_slot i r os ss e a))
  ]

  Agrees-same :
      (os ss : List (Option R))
      → Agrees os ss
      → ((j : ℕ) → j < length os → IsDone os ss j)
      → ss ≡ os
  unfolding Agrees
  Agrees-same [] [] a d = refl
  Agrees-same [] (s ∷ ss) a d = absurd a
  Agrees-same (o ∷ os) [] a d = absurd a
  Agrees-same (o ∷ os) (s ∷ ss) (h, a) d =
      ap₂ (◌∷◌) (d 0 (omega arith)) (Agrees-same os ss a (λ j le. d (suc j) (omega arith)))

  -- In whatever order the sessions end, and however often an index is received, the results are
  -- those of the sessions that succeeded, in the order of the messages, once every session is
  -- received.
  pub run_all_reviews-order :
      (os : List (Option R)) (order : List ℕ)
      → ((j : ℕ) → j < length os → In j order)
      → run_all_reviews os order ≡ filled os
  unfolding run_all_reviews
  run_all_reviews-order os order every =
      let start = Agrees-blank os in
      ap filled (
        Agrees-same os (receive_all os order (blank_slots os))
          (receive_all-Agrees os (blank_slots os) order start)
          (λ j le. (receive_all-IsDone os (blank_slots os) order j start (inl (every j le)))))
