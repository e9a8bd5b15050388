-- ===== src/Review/Provenance/Unique.antt =====
-- internal/review/pipeline/provenance.go: a finding is traced to the message of a reviewer that it
-- names and that no other review has the name of.
use mathlib.Core.Path.{subst}
use opencode_reviewer.Prelude.{
  Bool, true, false, not, ◌&&◌, List, [], ◌∷◌, ◌++◌, if◌then◌else◌, In, All, All-append, ◌≡◌, ◌⊎◌,
  inl, inr, refl, sym,
}
use opencode_reviewer.GoText.{Bytes, is_empty}
use opencode_reviewer.Models.{ReviewMessageRef, ReviewResult, FinalFinding}
use opencode_reviewer.Review.Provenance.{all_refs, refs_by, seen_ref, match_sources, provenance_of}
use opencode_reviewer.Review.Provenance.Sources.{
  list_cases, IsAmbiguous, IsCovered, match_none, match_one, match_more, Verdict,
  match_sources-Judged,
}

module _ (phase1 : List ReviewResult) (names : List Bytes) where
  -- One of the names is that of a single review, and this is its message.
  abbrev pub IsUnique : ReviewMessageRef → Type 0
  IsUnique ref = (source : Bytes) × In source names × (refs_by source phase1 ≡ ref ∷ [])

  abbrev Matched : List ReviewMessageRef × Bool → Type 0
  Matched r = All IsUnique r.0

  Matched-if :
      (b : Bool) (x y : List ReviewMessageRef × Bool)
      → Matched x
      → Matched y
      → Matched (if b then x else y)
  Matched-if true x y hx hy = hx
  Matched-if false x y hx hy = hy

  match_sources-Matched :
      (sources : List Bytes) (matched : List ReviewMessageRef) (b : Bool)
      → ((s : Bytes) → In s sources → In s names)
      → All IsUnique matched
      → Matched (match_sources phase1 sources (matched, b))
  match_sources-Matched [] matched b known h = unfold match_sources in h
  match_sources-Matched (source ∷ sources) matched b known h =
      let later = λ (s : Bytes) (m : In s sources). known s (inr m) in
      elim (list_cases (refs_by source phase1)) [
        | inl e ↦
            subst Matched (sym (match_none phase1 source sources matched b e))
              (match_sources-Matched sources matched b later h)
        | inr more ↦ elim more [
          | inl (ref, e) ↦ subst Matched (sym (match_one phase1 source sources matched b ref e)) (
              Matched-if (seen_ref ref matched) _ _
                (match_sources-Matched sources matched b later h)
                (match_sources-Matched sources (matched ++ (ref ∷ [])) b later (
                  All-append IsUnique matched (ref ∷ []) h
                    ((source, known source (inl refl), e), tt))))
          | inr (r, q, refs, e) ↦
              subst Matched (sym (match_more phase1 source sources matched b r q refs e))
                (match_sources-Matched sources matched true later h)
        ]
      ]

module _ (phase1 : List ReviewResult) where
  -- Why no source message is given: a name is ambiguous, or no name is that of a review.
  abbrev pub IsUntraced : List Bytes → Type 0
  IsUntraced names =
      ((source : Bytes) × In source names × IsAmbiguous phase1 source)
      ⊎ All (λ source. refs_by source phase1 ≡ []) names

  nothing_matched :
      (sources : List Bytes)
      → All (IsCovered phase1 []) sources
      → All (λ source. refs_by source phase1 ≡ []) sources
  nothing_matched [] h = tt
  nothing_matched (s ∷ sources) (inl e, h) = (e, nothing_matched sources h)
  nothing_matched (s ∷ sources) (inr (ref, e, seen), h) = absurd (unfold seen_ref in cc)

  -- The three ways in which a finding is treated.
  provenance_cases :
      (f : FinalFinding) (names : List Bytes) (matched refs : List ReviewMessageRef)
      → (ambiguous : Bool) → Verdict phase1 names false (matched, ambiguous)
      → let done =
          if not (is_empty matched) && not ambiguous
          then record f { source_message_refs = matched }
          else if not (is_empty refs)
          then record f { fallback_message_refs = refs }
          else f in
        ((is_empty matched ≡ false)
          × All (IsCovered phase1 matched) names
          × (done ≡ record f { source_message_refs = matched }))
        ⊎ (IsUntraced names
            × ((done ≡ record f { fallback_message_refs = refs }) ⊎ ((done ≡ f) × (refs ≡ []))))
  provenance_cases f names m [] true (inl wrong) = absurd cc
  provenance_cases f names m (r ∷ rs) true (inl wrong) = absurd cc
  provenance_cases f names [] [] true (inr h) = inr (inl h, inr (refl, refl))
  provenance_cases f names [] (r ∷ rs) true (inr h) = inr (inl h, inl refl)
  provenance_cases f names (m ∷ ms) [] true (inr h) = inr (inl h, inr (refl, refl))
  provenance_cases f names (m ∷ ms) (r ∷ rs) true (inr h) = inr (inl h, inl refl)
  provenance_cases f names [] [] false (_, all) =
      inr (inr (nothing_matched names all), inr (refl, refl))
  provenance_cases f names [] (r ∷ rs) false (_, all) =
      inr (inr (nothing_matched names all), inl refl)
  provenance_cases f names (m ∷ ms) refs false (_, all) = inl (refl, all, refl)

-- A finding gets source messages when none of its sources is the name of several reviews, and one at
-- least is the name of a review: each of these messages is that of the only review of a source, and
-- each review that a source names alone is among them. Otherwise it gets all messages as a fallback,
-- or stays as it is when there are none.
pub provenance_of-IsUnique :
    (phase1 : List ReviewResult) (f : FinalFinding)
    → ((matched : List ReviewMessageRef) × (is_empty matched ≡ false)
        × All (IsUnique phase1 f.sources) matched
        × All (IsCovered phase1 matched) f.sources
        × (provenance_of phase1 f ≡ record f { source_message_refs = matched }))
      ⊎ (IsUntraced phase1 f.sources
          × ((provenance_of phase1 f ≡ record f { fallback_message_refs = all_refs phase1 })
              ⊎ ((provenance_of phase1 f ≡ f) × (all_refs phase1 ≡ []))))
unfolding provenance_of
provenance_of-IsUnique phase1 f =
    let found = match_sources phase1 f.sources ([], false) in
    let (keeps, verdict) = match_sources-Judged phase1 f.sources [] false in
    elim (provenance_cases phase1 f f.sources found.0 (all_refs phase1) found.1 verdict) [
      | inl (filled, covered, e) ↦ inl (
        found.0,
        filled,
        match_sources-Matched phase1 f.sources f.sources [] false (λ s m. m) tt,
        covered,
        e,
      )
      | inr others ↦ inr others
    ]
