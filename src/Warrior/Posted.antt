-- ===== src/Warrior/Posted.antt =====
-- internal/commentwarrior on the notes of internal/shared/vcs/format.go: what one program posted,
-- the other recognises.

use opencode_reviewer.Prelude.{true, false, List, [], ◌∷◌, none, ◌≡◌, refl, ap, ◌∙◌}
use opencode_reviewer.GoText.{Bytes, codes, bytes_eq, index}
use opencode_reviewer.GoInt.{ℤ}
use opencode_reviewer.Models.{FinalFinding}
use opencode_reviewer.Gitlab.Types.{Note, Discussion}
use opencode_reviewer.Vcs.Types.{DiffFinding}
use opencode_reviewer.Vcs.Marker.{MarkerMetadata, Json, parse_markers, comment_start}
use opencode_reviewer.Vcs.Marker.RoundTrip.{IsWritable, parse_markers-append_marker}
use opencode_reviewer.Vcs.Format.{
  format_finding_note, format_fallback_note, finding_metadata, fallback_metadata,
  finding_note_with_metadata, fallback_note_with_metadata,
}
use opencode_reviewer.Warrior.Classifier.{
  ai_finding, by_bot, has_kind, has_unhandled_ai_mention, classify_discussion,
}
use opencode_reviewer.Warrior.Task.{first_ref_path, finding_ref_path, source_review_prompt_path}

module _ (unicode : Bytes → Bytes) (json : Json) (bot : ℤ) where
  classify_discussion-marked :
      (d : Discussion) (first : Note) (rest : List Note) (m : MarkerMetadata)
      → d.notes ≡ first ∷ rest
      → by_bot bot first ≡ true
      → has_unhandled_ai_mention unicode d bot ≡ false
      → parse_markers json first.body ≡ record { kind = codes "finding"; metadata = m } ∷ []
      → (classify_discussion unicode json d bot ≡ ai_finding)
        × (source_review_prompt_path json d ≡ first_ref_path m.source_message_refs)
  unfolding classify_discussion source_review_prompt_path finding_ref_path has_kind bytes_eq
  classify_discussion-marked d first rest m notes own quiet marked = (
    rw (notes, classify_discussion) (rw quiet (rw own (rw (marked, has_kind) refl))),
    rw (notes, source_review_prompt_path) (rw (marked, finding_ref_path) refl),
  )

  -- A discussion that begins with an inline note of the reviewer is taken for a finding, unless a
  -- human's mention waits for an answer, and the path of its prompt is the first path of the
  -- finding's sources. The note's own text must hold no comment.
  pub classify_discussion-finding_note :
      (d : Discussion) (first : Note) (rest : List Note) (f : FinalFinding) (m : MarkerMetadata)
      (bytes : Bytes)
      → d.notes ≡ first ∷ rest
      → by_bot bot first ≡ true
      → has_unhandled_ai_mention unicode d bot ≡ false
      → first.body ≡ finding_note_with_metadata unicode json f m
      → index (format_finding_note unicode f) comment_start ≡ none
      → IsWritable json (codes "finding") bytes (finding_metadata f m)
      → (classify_discussion unicode json d bot ≡ ai_finding)
        × (source_review_prompt_path json d ≡ first_ref_path f.source_message_refs)
  unfolding finding_note_with_metadata
  classify_discussion-finding_note d first rest f m bytes notes own quiet body clean w =
      classify_discussion-marked d first rest (finding_metadata f m) notes own quiet (
        ap (parse_markers json) body
        ∙ (parse_markers-append_marker json (format_finding_note unicode f) (codes "finding") bytes
            (finding_metadata f m) w clean).0)

  -- A discussion that begins with a plain note of the reviewer, about a line outside the diff, is
  -- taken for a finding, unless a human's mention waits for an answer, and the path of its prompt is
  -- the first path of the finding's sources. The note's own text must hold no comment.
  pub classify_discussion-fallback_note :
      (d : Discussion) (first : Note) (rest : List Note) (df : DiffFinding) (m : MarkerMetadata)
      (bytes : Bytes)
      → d.notes ≡ first ∷ rest
      → by_bot bot first ≡ true
      → has_unhandled_ai_mention unicode d bot ≡ false
      → first.body ≡ fallback_note_with_metadata unicode json df m
      → index (format_fallback_note unicode df) comment_start ≡ none
      → IsWritable json (codes "finding") bytes (fallback_metadata df m)
      → (classify_discussion unicode json d bot ≡ ai_finding)
        × (source_review_prompt_path json d ≡ first_ref_path df.source.source_message_refs)
  unfolding fallback_note_with_metadata
  classify_discussion-fallback_note d first rest df m bytes notes own quiet body clean w =
      classify_discussion-marked d first rest (fallback_metadata df m) notes own quiet (
        ap (parse_markers json) body
        ∙ (parse_markers-append_marker json (format_fallback_note unicode df) (codes "finding")
            bytes (fallback_metadata df m) w clean).0)
