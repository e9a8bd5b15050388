-- ===== src/Vcs/Match/Best.antt =====
-- The match that the searches choose is a nearest one.
use mathlib.Core.Path.{subst}
use native.Mathlib.Nat.{add-zero}
use mathlib.Core.Option.{some-injective}
use opencode_reviewer.Prelude.{
  ℕ, true, false, List, [], ◌∷◌, none, some, ◌≡◌, refl, sym, inl, inr, In, All, All-In, Bool-cases,
  ap, ◌∙◌,
}
use opencode_reviewer.GoText.{Bytes, is_empty}
use opencode_reviewer.GoInt.{ℤ, lt_int, ◌≤ℤ◌, ≤ℤ_refl, ≤ℤ_trans, <ℤ-≤ℤ}
use opencode_reviewer.Vcs.Types.{DiffLine}
use opencode_reviewer.Vcs.Match.{
  Match, abs_dist, line_num, line_at, code_matches, best_from, best_match,
}
use opencode_reviewer.Vcs.Match.Occurs.{Occurs, match_at, code_matches-IsMatch, code_matches-In}

module _ (b m : Match) (ms : List Match) where
  nearer : lt_int m.dist b.dist ≡ true → best_from b (m ∷ ms) ≡ best_from m ms
  unfolding best_from
  nearer e = rw (e, best_from)

  not_nearer : lt_int m.dist b.dist ≡ false → best_from b (m ∷ ms) ≡ best_from b ms
  unfolding best_from
  not_nearer e = rw (e, best_from)

In-skip : (b m : Match) (ms : List Match) (x : Match) → In x (b ∷ ms) → In x (b ∷ m ∷ ms)
In-skip b m ms x (inl e) = inl e
In-skip b m ms x (inr h) = inr (inr h)

best_from-In : (b : Match) (ms : List Match) → In (best_from b ms) (b ∷ ms)
best_from-In b [] = unfold best_from in inl refl
best_from-In b (m ∷ ms) = elim (Bool-cases (lt_int m.dist b.dist)) [
  | inl e ↦ subst (λ x. In x (b ∷ m ∷ ms)) (sym (nearer b m ms e)) (inr (best_from-In m ms))
  | inr e ↦
      subst (λ x. In x (b ∷ m ∷ ms)) (sym (not_nearer b m ms e))
        (In-skip b m ms _ (best_from-In b ms))
]

best_from-le_start : (b : Match) (ms : List Match) → (best_from b ms).dist ≤ℤ b.dist
best_from-le_start b [] = unfold best_from in ≤ℤ_refl b.dist
best_from-le_start b (m ∷ ms) = elim (Bool-cases (lt_int m.dist b.dist)) [
  | inl e ↦ rw (nearer b m ms e) (
      ≤ℤ_trans (best_from m ms).dist m.dist b.dist (best_from-le_start m ms)
        (<ℤ-≤ℤ m.dist b.dist e))
  | inr e ↦ rw (not_nearer b m ms e) (best_from-le_start b ms)
]

abbrev AllFrom : List Match → Match → Type 0
AllFrom ms b = All (λ m. b.dist ≤ℤ m.dist) ms

best_from-le : (b : Match) (ms : List Match) → AllFrom ms (best_from b ms)
best_from-le b [] = tt
best_from-le b (m ∷ ms) = elim (Bool-cases (lt_int m.dist b.dist)) [
  | inl e ↦
      subst (AllFrom (m ∷ ms)) (sym (nearer b m ms e)) (best_from-le_start m ms, best_from-le m ms)
  | inr e ↦
      subst (AllFrom (m ∷ ms)) (sym (not_nearer b m ms e)) (
        ≤ℤ_trans (best_from b ms).dist b.dist m.dist (best_from-le_start b ms) e,
        best_from-le b ms,
      )
]

best_match-Nearest :
    (ms : List Match) (b : Match)
    → best_match ms ≡ some b
    → In b ms × All (λ m. b.dist ≤ℤ m.dist) ms
unfolding best_match
best_match-Nearest [] b e = cc
best_match-Nearest (m ∷ ms) b e =
    subst (λ x. In x (m ∷ ms) × All (λ n. x.dist ≤ℤ n.dist) (m ∷ ms)) (some-injective _ b e)
      (best_from-In m ms, (best_from-le_start m ms, best_from-le m ms))

best_match-nil : (ms : List Match) → best_match ms ≡ none → ms ≡ []
unfolding best_match
best_match-nil [] e = refl
best_match-nil (m ∷ ms) e = cc

-- The search over `lines` chose index `k` for the code: the code stands there, and nowhere nearer
-- to `start` by the distance that the source uses.
pub record Nearest (start : ℤ) (code : List Bytes) (lines : List DiffLine) (k : ℕ) : Type 0 where
  pub occurs : Occurs code lines k
  pub nearest :
      (j : ℕ)
      → Occurs code lines j
      → abs_dist (line_num (line_at lines k)) start ≤ℤ abs_dist (line_num (line_at lines j)) start

pub best_match-code_matches :
    (start : ℤ) (code : List Bytes) (lines : List DiffLine) (b : Match)
    → is_empty code ≡ false
    → best_match (code_matches start code lines) ≡ some b
    → Nearest start code lines b.idx
best_match-code_matches start code lines b ne e =
    let (found, least) = best_match-Nearest _ b e in
    let m = All-In _ _ b (code_matches-IsMatch start lines code) found in
    let same : b ≡ match_at start lines 0 m.place = m.is_match in
    let at : b.idx ≡ m.place = ap (λ x. x.idx) same ∙ add-zero m.place in
    rw at (record {
      occurs = m.occurs;
      nearest = λ j h.
          rw (ap (λ x. x.dist) same) at
            (All-In _ _ _ least (code_matches-In start lines code j ne h));
    })

-- Nothing is chosen only where the code stands nowhere.
pub best_match-none :
    (start : ℤ) (code : List Bytes) (lines : List DiffLine)
    → is_empty code ≡ false
    → best_match (code_matches start code lines) ≡ none
    → (k : ℕ) → ¬ Occurs code lines k
best_match-none start code lines ne e k h =
    rw (best_match-nil _ e) at (code_matches-In start lines code k ne h)
