-- ===== src/Warrior/Task.antt =====
-- internal/commentwarrior/task.go: the task text for a discussion.
use opencode_reviewer.Prelude.{Bool, not, List, [], ◌∷◌, Option, none, some, map, if◌then◌else◌}
use opencode_reviewer.GoText.{Bytes, codes, bytes_eq, is_empty, trim_space}
use opencode_reviewer.GoInt.{ℤ}
use opencode_reviewer.Models.{ReviewMessageRef}
use opencode_reviewer.Gitlab.Types.{Position, Note, Discussion}
use opencode_reviewer.Vcs.Marker.{ParsedMarker, Json, parse_markers, strip_markers}

pub record AuthorContext : Type 0 where
  pub username : Bytes
  pub name : Bytes

pub record PositionContext : Type 0 where
  pub path : Bytes
  pub line : ℤ

pub record NoteContext : Type 0 where
  pub id : ℤ
  pub body : Bytes
  pub system : Bool
  pub resolvable : Bool
  pub resolved : Bool
  pub author : AuthorContext
  pub position : Option PositionContext

pub record DiscussionContext : Type 0 where
  pub id : Bytes
  pub notes : List NoteContext

-- The path and the line of a position: the new ones, unless the new path is missing.
unfoldable pub place_of : Position → PositionContext
place_of p =
    if is_empty p.new_path
    then record { path = p.old_path; line = p.old_line }
    else record { path = p.new_path; line = p.new_line }

unfoldable pub compact_position : Option Position → Option PositionContext
unfolding place_of
compact_position none = none
compact_position (some p) = some (place_of p)

unfoldable pub compact_note : Note → NoteContext
unfolding compact_position trim_space strip_markers
compact_note n = record {
  id = n.id;
  body = trim_space (strip_markers n.body);
  system = n.system;
  resolvable = n.resolvable;
  resolved = n.resolved;
  author = record { username = n.author.username; name = n.author.name };
  position = compact_position n.position;
}

unfoldable pub compact_discussion : Discussion → DiscussionContext
unfolding compact_note
compact_discussion d = record { id = d.id; notes = map compact_note d.notes }

unfoldable pub first_ref_path : List ReviewMessageRef → Bytes
first_ref_path [] = []
first_ref_path (r ∷ rs) = if is_empty r.path then first_ref_path rs else r.path

unfoldable pub finding_ref_path : List ParsedMarker → Bytes
unfolding first_ref_path bytes_eq
finding_ref_path [] = []
finding_ref_path (m ∷ ms) =
    let rest = finding_ref_path ms in
    if not (bytes_eq m.kind (codes "finding"))
    then rest
    else first_ref_path m.metadata.source_message_refs

unfoldable pub source_review_prompt_path : Json → Discussion → Bytes
unfolding finding_ref_path parse_markers
source_review_prompt_path json d = elim d.notes [
  | [] ↦ []
  | n ∷ ns ↦ finding_ref_path (parse_markers json n.body)
]
