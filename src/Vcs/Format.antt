-- ===== src/Vcs/Format.antt =====
-- internal/shared/vcs/format.go and mapper.go: the notes in Markdown, and the findings that can
-- be placed.
use opencode_reviewer.Prelude.{
  ℕ, suc, ◌+◌, false, not, ◌&&◌, ◌||◌, List, [], ◌∷◌, ◌++◌, Option, none, some, if◌then◌else◌,
}
use opencode_reviewer.GoText.{
  Bytes, codes, utf8, is_empty, bytes_eq, join, replace_byte, show_nat, to_lower,
}
use opencode_reviewer.GoInt.{ℤ, pos, negsuc, eq_int, lt_int}
use opencode_reviewer.Models.{FinalFinding, FinalReview}
use opencode_reviewer.Vcs.Types.{DiffFinding}
use opencode_reviewer.Vcs.Marker.{MarkerMetadata, Json, append_marker}

-- `%d` of an `int`
unfoldable pub show_int : ℤ → Bytes
unfolding show_nat
show_int (pos n) = show_nat n
show_int (negsuc n) = b'-' ∷ show_nat (suc n)

-- A finding's text in a part of a note, or nothing when it is empty.
abbrev unless_empty : Bytes → Bytes → Bytes
unless_empty s text = if is_empty s then [] else text

unfoldable pub format_location : Bytes → ℤ → ℤ → Bytes
unfolding show_int
format_location file start end =
    if is_empty file
    then []
    else if not (eq_int end start) && lt_int (pos 0) end
    then codes "`"
      ++ (file ++ (codes ":" ++ (show_int start ++ (utf8 "–" ++ (show_int end ++ codes "`")))))
    else codes "`" ++ (file ++ (codes ":" ++ (show_int start ++ codes "`")))

-- mapper.go: a finding with no file or no line is skipped.
unfoldable pub map_findings : List FinalFinding → List DiffFinding
map_findings [] = []
map_findings (f ∷ fs) =
    let rest = map_findings fs in
    if is_empty f.file || not (lt_int (pos 0) f.start_line)
    then rest
    else record {
      old_path = f.file;
      new_path = f.file;
      old_line = pos 0;
      new_line = f.start_line;
      in_diff = false;
      source = f;
    }
      ∷ rest

-- `strings.ToLower` is ASCII in the code below but for the letters beyond it, which are the
-- function `unicode`.
module _ (unicode : Bytes → Bytes) where
  -- The label and the emoji of a verdict.
  unfoldable pub map_verdict : Bytes → Bytes × Bytes
  unfolding to_lower bytes_eq
  map_verdict v =
      let low = to_lower unicode v in
      if bytes_eq low (codes "approve")
      then (codes "Approved", utf8 "✅")
      else if bytes_eq low (codes "request_changes")
      then (codes "Changes Requested", utf8 "🔴")
      else if bytes_eq low (codes "comment_only")
      then (codes "Comments Only", utf8 "💬")
      else if bytes_eq low (codes "skipped")
      then (codes "Skipped", utf8 "⏭" ++ (0xef ∷ 0xb8 ∷ 0x8f ∷ []))
      else ([], [])

  unfoldable pub confidence_badge : Bytes → Bytes
  unfolding to_lower bytes_eq
  confidence_badge c =
      let low = to_lower unicode c in
      if bytes_eq low (codes "high")
      then utf8 "🔴 High"
      else if bytes_eq low (codes "medium")
      then utf8 "🟡 Medium"
      else if bytes_eq low (codes "low")
      then utf8 "🟢 Low"
      else c

  unfoldable pub format_finding_note : FinalFinding → Bytes
  unfolding confidence_badge join
  format_finding_note f =
      let badge = confidence_badge f.confidence in
      (if is_empty f.sources
        then codes "**" ++ (badge ++ codes "**\n\n")
        else codes "**"
          ++ (badge ++ (codes "** (" ++ (join (codes ", ") f.sources ++ codes ")\n\n"))))
      ++ (unless_empty f.issue_content (f.issue_content ++ codes "\n\n")
          ++ unless_empty f.recommendation
              (codes "**Recommendation:** " ++ (f.recommendation ++ codes "\n")))

  unfoldable pub format_fallback_note : DiffFinding → Bytes
  unfolding show_int format_finding_note
  format_fallback_note df =
      let line = if eq_int df.new_line (pos 0) then df.old_line else df.new_line in
      codes "> `"
      ++ (df.new_path
          ++ (codes ":"
              ++ (show_int line
                  ++ (codes "` *(line outside diff hunk)*\n\n" ++ format_finding_note df.source))))

  unfoldable pub finding_summary : FinalFinding → Bytes
  unfolding confidence_badge format_location replace_byte
  finding_summary f =
      codes "**"
      ++ (confidence_badge f.confidence
          ++ (codes "** "
              ++ (format_location f.file f.start_line f.end_line
                  ++ (unless_empty f.issue_content (utf8 " — " ++ f.issue_content)
                      ++ unless_empty f.existing_code (
                          codes "\n\n   <details><summary>Code</summary>\n\n   ```\n   "
                          ++ (replace_byte 10 (codes "\n   ") f.existing_code
                              ++ codes "\n   ```\n\n   </details>"))))))

  -- The numbered findings of a summary, from number `i + 1` on.
  unfoldable pub numbered_findings : ℕ → List FinalFinding → Bytes
  unfolding show_nat finding_summary
  numbered_findings i [] = []
  numbered_findings i (f ∷ fs) =
      show_nat (i + 1)
      ++ (codes ". " ++ (finding_summary f ++ (codes "\n" ++ numbered_findings (suc i) fs)))

  -- `none` is a nil review.
  unfoldable pub format_review_note : Option FinalReview → Bytes
  unfolding map_verdict numbered_findings
  format_review_note none =
      codes "## Automated Code Review\n\nReview completed but produced no structured output."
  format_review_note (some rev) =
      let (verdict, emoji) = map_verdict rev.verdict in
      if is_empty verdict && not (is_empty rev.raw)
      then codes "## Automated Code Review\n\n" ++ rev.raw
      else codes "## "
        ++ (emoji
            ++ (utf8 " Automated Code Review — "
                ++ (verdict
                    ++ (codes "\n\n"
                        ++ (unless_empty rev.summary (rev.summary ++ codes "\n\n")
                            ++ (if is_empty rev.findings
                                then codes "No issues found.\n"
                                else codes "### Findings\n\n"
                                  ++ numbered_findings 0 rev.findings))))))

-- The metadata of an inline note and of a fallback note.
unfoldable pub finding_metadata : FinalFinding → MarkerMetadata → MarkerMetadata
finding_metadata f m = record m {
  file = f.file;
  start_line = f.start_line;
  end_line = f.end_line;
  source_message_refs = f.source_message_refs;
  fallback_message_refs = f.fallback_message_refs;
}

unfoldable pub fallback_metadata : DiffFinding → MarkerMetadata → MarkerMetadata
fallback_metadata df m = record m {
  file = df.source.file;
  start_line = df.source.start_line;
  end_line = df.source.end_line;
  old_path = df.old_path;
  new_path = df.new_path;
  old_line = df.old_line;
  new_line = df.new_line;
  source_message_refs = df.source.source_message_refs;
  fallback_message_refs = df.source.fallback_message_refs;
}

module _ (unicode : Bytes → Bytes) (json : Json) where
  unfoldable pub review_note_with_metadata : Option FinalReview → MarkerMetadata → Bytes
  unfolding format_review_note append_marker
  review_note_with_metadata rev m =
      append_marker json (format_review_note unicode rev) (codes "summary") m

  unfoldable pub finding_note_with_metadata : FinalFinding → MarkerMetadata → Bytes
  unfolding format_finding_note append_marker finding_metadata
  finding_note_with_metadata f m =
      append_marker json (format_finding_note unicode f) (codes "finding") (finding_metadata f m)

  unfoldable pub fallback_note_with_metadata : DiffFinding → MarkerMetadata → Bytes
  unfolding format_fallback_note append_marker fallback_metadata
  fallback_note_with_metadata df m =
      append_marker json (format_fallback_note unicode df) (codes "finding")
        (fallback_metadata df m)
