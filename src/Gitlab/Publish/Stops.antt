-- ===== src/Gitlab/Publish/Stops.antt =====
-- internal/shared/vcs/gitlab/publisher.go: a publication that fails posts no finding.

use mathlib.Core.Option.{some-injective}
use opencode_reviewer.Prelude.{
  Bool, List, [], ◌∷◌, reverse, Option, none, some, if◌then◌else◌, inl, inr, ok, err, ◌⊎◌, ◌≡◌,
  refl, sym, ap, ◌∙◌, Option-cases, Result-cases,
}
use opencode_reviewer.GoText.{Bytes}
use opencode_reviewer.GoInt.{ℤ}
use opencode_reviewer.Models.{FinalReview}
use opencode_reviewer.Vcs.Types.{DiffFinding}
use opencode_reviewer.Vcs.Marker.{Json}
use opencode_reviewer.Vcs.Format.{review_note_with_metadata}
use opencode_reviewer.Gitlab.Types.{DiffRefs}
use opencode_reviewer.Gitlab.Publish.{
  Call, find_merge_request, clear_mr_comments, get_mr_diff_refs, post_mr_note, Client, Published,
  ref_metadata, publish,
}

module _ (client : Client) (clear : Bool) (source target : Bytes) (note_of : DiffRefs → Bytes) where
  abbrev setup : ℤ → List Call
  setup iid =
      if clear
      then clear_mr_comments iid ∷ find_merge_request source target ∷ []
      else find_merge_request source target ∷ []

  -- Where a publication stops: the search fails, or the references of the merge request that was
  -- found cannot be read, or the post of the summary to it is refused. `note_of` is the summary.
  abbrev pub StopsAt : Published → Bytes → Type 0
  StopsAt done e =
      ((client.find [] source target ≡ err e) × (done.made ≡ find_merge_request source target ∷ []))
      ⊎ ((iid : ℤ) × (client.find [] source target ≡ ok iid)
          × (client.diff_refs (setup iid) iid ≡ err e)
          × (done.made ≡ reverse (get_mr_diff_refs iid ∷ setup iid)))
      ⊎ ((iid : ℤ) × (refs : DiffRefs) × (client.find [] source target ≡ ok iid)
          × (client.diff_refs (setup iid) iid ≡ ok refs)
          × (client.post (get_mr_diff_refs iid ∷ setup iid) (post_mr_note iid (note_of refs))
              ≡ some e)
          × (done.made
              ≡ reverse (post_mr_note iid (note_of refs) ∷ get_mr_diff_refs iid ∷ setup iid)))

module _ (unicode : Bytes → Bytes) (json : Json) (client : Client) where
  -- When `Publish` fails, its error is that of the call it made last, which is the search of the
  -- merge request, the reading of its references, or the post of the review's summary to it. In
  -- front of that call are only the earlier ones of these and the clearing, so no finding is posted.
  pub publish-StopsAt :
      (clear : Bool) (review : Option FinalReview) (inline : List DiffFinding)
      (source target : Bytes) (e : Bytes)
      → (publish unicode json client clear review inline source target).error ≡ some e
      → StopsAt client clear source target
          (λ refs. review_note_with_metadata unicode json review (ref_metadata refs))
          (publish unicode json client clear review inline source target)
          e
  unfolding publish
  publish-StopsAt clear review inline source target e failed =
      elim (Result-cases (client.find [] source target)) [
        | inl (iid, found) ↦
            let before = setup client clear source target (λ refs. []) iid in
            elim (Result-cases (client.diff_refs before iid)) [
              | inl (refs, read) ↦
                  let note = review_note_with_metadata unicode json review (ref_metadata refs) in
                  elim (Option-cases
                    (client.post (get_mr_diff_refs iid ∷ before) (post_mr_note iid note))) [
                      | inl posted ↦
                          let fine : (publish unicode json client clear review inline source
                                target).error
                              ≡ none =
                            rw (found, publish) (rw read (rw posted refl)) in
                          absurd cc
                      | inr (x, refused) ↦
                          let same : some x ≡ some e =
                            sym (rw (found, publish) (rw read (rw refused refl))) ∙ failed in
                          inr (
                            inr (
                              iid,
                              refs,
                              found,
                              read,
                              refused ∙ same,
                              rw (found, publish) (rw read (rw refused refl)),
                            ))
                    ]
              | inr (x, unread) ↦
                  let same : some x ≡ some e =
                    sym (rw (found, publish) (rw unread refl)) ∙ failed in
                  inr (
                    inl (
                      iid,
                      found,
                      unread ∙ ap (λ y. err y) (some-injective x e same),
                      rw (found, publish) (rw unread refl),
                    ))
            ]
        | inr (x, unfound) ↦
            let same : some x ≡ some e = sym (rw (unfound, publish) refl) ∙ failed in
            inl (unfound ∙ ap (λ y. err y) (some-injective x e same), rw (unfound, publish) refl)
      ]
