-- ===== src/Review/Provenance.antt =====
-- internal/review/pipeline/provenance.go: from which message a final finding stems.
pub mod Sources
pub mod Unique
use opencode_reviewer.Prelude.{
  Bool, true, false, not, ◌&&◌, ◌||◌, List, [], ◌∷◌, ◌++◌, map, if◌then◌else◌,
}
use opencode_reviewer.GoText.{Bytes, bytes_eq, is_empty}
use opencode_reviewer.Models.{ReviewMessageRef, ReviewResult, FinalFinding, FinalReview}

unfoldable pub same_ref : ReviewMessageRef → ReviewMessageRef → Bool
unfolding bytes_eq
same_ref a b = bytes_eq a.id b.id && bytes_eq a.path b.path && bytes_eq a.sha256 b.sha256

abbrev pub has_ref : ReviewResult → Bool
has_ref r =
    not (is_empty r.message_ref.sha256 && is_empty r.message_ref.id && is_empty r.message_ref.path)

-- The references of all reviews, and those of the reviews of one name.
unfoldable pub all_refs : List ReviewResult → List ReviewMessageRef
all_refs [] = []
all_refs (r ∷ rs) = let rest = all_refs rs in if has_ref r then r.message_ref ∷ rest else rest

unfoldable pub refs_by : Bytes → List ReviewResult → List ReviewMessageRef
unfolding bytes_eq
refs_by name [] = []
refs_by name (r ∷ rs) =
    let rest = refs_by name rs in
    if has_ref r && not (is_empty r.reviewer_name) && bytes_eq r.reviewer_name name
    then r.message_ref ∷ rest
    else rest

unfoldable pub seen_ref : ReviewMessageRef → List ReviewMessageRef → Bool
unfolding same_ref
seen_ref a [] = false
seen_ref a (b ∷ bs) = same_ref a b || seen_ref a bs

-- The loop over a finding's sources: the references matched so far, and whether a source was
-- ambiguous.
unfoldable pub match_sources :
    List ReviewResult → List Bytes → List ReviewMessageRef × Bool → List ReviewMessageRef × Bool
unfolding refs_by seen_ref
match_sources phase1 [] (matched, ambiguous) = (matched, ambiguous)
match_sources phase1 (source ∷ sources) (matched, ambiguous) = elim (refs_by source phase1) [
  | [] ↦ match_sources phase1 sources (matched, ambiguous)
  | ref ∷ refs ↦ elim refs [
    | [] ↦
        if seen_ref ref matched
        then match_sources phase1 sources (matched, ambiguous)
        else match_sources phase1 sources (matched ++ (ref ∷ []), ambiguous)
    | _ ↦ match_sources phase1 sources (matched, true)
  ]
]

unfoldable pub provenance_of : List ReviewResult → FinalFinding → FinalFinding
unfolding match_sources all_refs
provenance_of phase1 f =
    let (matched, ambiguous) = match_sources phase1 f.sources ([], false) in
    let refs = all_refs phase1 in
    if not (is_empty matched) && not ambiguous
    then record f { source_message_refs = matched }
    else if not (is_empty refs)
    then record f { fallback_message_refs = refs }
    else f

unfoldable pub apply_finding_provenance : FinalReview → List ReviewResult → FinalReview
unfolding provenance_of
apply_finding_provenance review phase1 =
    if is_empty review.findings || is_empty phase1
    then review
    else record review { findings = map (provenance_of phase1) review.findings }
