-- ===== src/Review/Provenance/Sources.antt =====
-- internal/review/pipeline/provenance.go: the loop over the sources of a finding.
use mathlib.Core.Path.{subst}
use opencode_reviewer.Prelude.{
  Bool, true, false, List, [], ◌∷◌, ◌++◌, if◌then◌else◌, In, All, ◌≡◌, ◌⊎◌, inl, inr, refl, sym,
  Bool-cases, arith,
}
use opencode_reviewer.GoText.{Bytes, bytes_eq_self}
use opencode_reviewer.Models.{ReviewMessageRef, ReviewResult}
use opencode_reviewer.Review.Provenance.{refs_by, same_ref, seen_ref, match_sources}

-- No element, one, or more.
pub list_cases :
    {A : Type 0} (xs : List A)
    → (xs ≡ [])
      ⊎ (((x : A) × (xs ≡ x ∷ [])) ⊎ ((x : A) × (y : A) × (ys : List A) × (xs ≡ x ∷ y ∷ ys)))
list_cases [] = inl refl
list_cases (x ∷ []) = inr (inl (x, refl))
list_cases (x ∷ y ∷ ys) = inr (inr (x, y, ys, refl))

module _ (phase1 : List ReviewResult) where
  -- A name that several reviews have.
  abbrev pub IsAmbiguous : Bytes → Type 0
  IsAmbiguous source =
      (r : ReviewMessageRef) × (q : ReviewMessageRef) × (refs : List ReviewMessageRef) × (refs_by
          source phase1
        ≡ r ∷ q ∷ refs)

  -- A name that no two reviews have, and whose message, if there is one, is among the matched.
  abbrev pub IsCovered : List ReviewMessageRef → Bytes → Type 0
  IsCovered matched source =
      (refs_by source phase1 ≡ [])
      ⊎ ((ref : ReviewMessageRef) × (refs_by source phase1 ≡ ref ∷ [])
          × (seen_ref ref matched ≡ true))

module _ (phase1 : List ReviewResult) where
  -- A round of the loop by the number of reviews of a name.
  pub match_none :
      (source : Bytes) (sources : List Bytes) (matched : List ReviewMessageRef) (b : Bool)
      → refs_by source phase1 ≡ []
      → match_sources phase1 (source ∷ sources) (matched, b)
        ≡ match_sources phase1 sources (matched, b)
  unfolding match_sources
  match_none source sources matched b e = rw (e, match_sources) refl

  pub match_one :
      (source : Bytes) (sources : List Bytes) (matched : List ReviewMessageRef) (b : Bool)
      (ref : ReviewMessageRef)
      → refs_by source phase1 ≡ ref ∷ []
      → match_sources phase1 (source ∷ sources) (matched, b) ≡ (
          if seen_ref ref matched
          then match_sources phase1 sources (matched, b)
          else match_sources phase1 sources (matched ++ (ref ∷ []), b))
  unfolding match_sources
  match_one source sources matched b ref e = rw (e, match_sources) refl

  pub match_more :
      (source : Bytes) (sources : List Bytes) (matched : List ReviewMessageRef) (b : Bool)
      (r q : ReviewMessageRef) (refs : List ReviewMessageRef)
      → refs_by source phase1 ≡ r ∷ q ∷ refs
      → match_sources phase1 (source ∷ sources) (matched, b)
        ≡ match_sources phase1 sources (matched, true)
  unfolding match_sources
  match_more source sources matched b r q refs e = rw (e, match_sources) refl

same_ref_self : (ref : ReviewMessageRef) → same_ref ref ref ≡ true
unfolding same_ref
same_ref_self ref =
    ground (arith, bytes_eq_self ref.id, bytes_eq_self ref.path, bytes_eq_self ref.sha256)

seen_ref-added :
    (a ref : ReviewMessageRef) (ms : List ReviewMessageRef)
    → (seen_ref a ms ≡ true) ⊎ (same_ref a ref ≡ true)
    → seen_ref a (ms ++ (ref ∷ [])) ≡ true
unfolding seen_ref
seen_ref-added a ref [] (inl h) = absurd cc
seen_ref-added a ref [] (inr h) = rw h refl
seen_ref-added a ref (m ∷ ms) h = elim (Bool-cases (same_ref a m)) [
  | inl e ↦ rw e refl
  | inr e ↦ rw e (seen_ref-added a ref ms (rw (e) at h))
]

module _ (phase1 : List ReviewResult) where
  -- What the loop says of the sources: one is ambiguous, or all are covered by what it matched.
  abbrev pub Verdict : List Bytes → Bool → List ReviewMessageRef × Bool → Type 0
  Verdict sources b (m, true) =
      (b ≡ true) ⊎ ((source : Bytes) × In source sources × IsAmbiguous phase1 source)
  Verdict sources b (m, false) = (b ≡ false) × All (IsCovered phase1 m) sources

  abbrev pub Judged :
      List Bytes → List ReviewMessageRef → Bool → List ReviewMessageRef × Bool → Type 0
  Judged sources m b r =
      ((ref : ReviewMessageRef) → seen_ref ref m ≡ true → seen_ref ref r.0 ≡ true)
      × Verdict sources b r

  Verdict-covered :
      (source : Bytes) (sources : List Bytes) (b : Bool) (r : List ReviewMessageRef × Bool)
      → IsCovered phase1 r.0 source
      → Verdict sources b r
      → Verdict (source ∷ sources) b r
  Verdict-covered source sources b (m, true) covered (inl h) = inl h
  Verdict-covered source sources b (m, true) covered (inr (s, member, h)) = inr (s, inr member, h)
  Verdict-covered source sources b (m, false) covered (h, all) = (h, (covered, all))

  Verdict-ambiguous :
      (source : Bytes) (sources : List Bytes) (b : Bool) (r : List ReviewMessageRef × Bool)
      → IsAmbiguous phase1 source
      → Verdict sources true r
      → Verdict (source ∷ sources) b r
  Verdict-ambiguous source sources b (m, true) h v = inr (source, inl refl, h)
  Verdict-ambiguous source sources b (m, false) h (wrong, all) = absurd cc

  Judged-seen :
      (source : Bytes) (sources : List Bytes) (m : List ReviewMessageRef) (b seen : Bool)
      (ref : ReviewMessageRef)
      → seen_ref ref m ≡ seen
      → refs_by source phase1 ≡ ref ∷ []
      → Judged sources m b (match_sources phase1 sources (m, b))
      → Judged sources (m ++ (ref ∷ [])) b (match_sources phase1 sources (m ++ (ref ∷ []), b))
      → Judged (source ∷ sources) m b (
          if seen
          then match_sources phase1 sources (m, b)
          else match_sources phase1 sources (m ++ (ref ∷ []), b))
  Judged-seen source sources m b true ref h e (keeps, v) _ =
      (keeps, Verdict-covered source sources b _ (inr (ref, e, keeps ref h)) v)
  Judged-seen source sources m b false ref h e _ (keeps, v) = (
    λ a seen. keeps a (seen_ref-added a ref m (inl seen)),
    Verdict-covered source sources b _
        (inr (ref, e, keeps ref (seen_ref-added ref ref m (inr (same_ref_self ref))))) v,
  )

  pub match_sources-Judged :
      (sources : List Bytes) (m : List ReviewMessageRef) (b : Bool)
      → Judged sources m b (match_sources phase1 sources (m, b))
  match_sources-Judged [] m true = unfold match_sources in (λ ref h. h, inl refl)
  match_sources-Judged [] m false = unfold match_sources in (λ ref h. h, (refl, tt))
  match_sources-Judged (source ∷ sources) m b = elim (list_cases (refs_by source phase1)) [
    | inl e ↦
        let (keeps, v) = match_sources-Judged sources m b in
        subst (Judged (source ∷ sources) m b) (sym (match_none phase1 source sources m b e))
          (keeps, Verdict-covered source sources b _ (inl e) v)
    | inr more ↦ elim more [
      | inl (ref, e) ↦
          subst (Judged (source ∷ sources) m b) (sym (match_one phase1 source sources m b ref e)) (
            Judged-seen source sources m b (seen_ref ref m) ref refl e
              (match_sources-Judged sources m b) (match_sources-Judged sources (m ++ (ref ∷ [])) b))
      | inr (r, q, refs, e) ↦
          let (keeps, v) = match_sources-Judged sources m true in
          subst (Judged (source ∷ sources) m b)
            (sym (match_more phase1 source sources m b r q refs e))
            (keeps, Verdict-ambiguous source sources b _ (r, q, refs, e) v)
    ]
  ]
