-- ===== src/Warrior/Classifier.antt =====
-- internal/commentwarrior/classifier.go: which discussions are worked on.
pub mod Mention
use opencode_reviewer.Prelude.{
  ℕ, zero, suc, ◌+◌, Bool, true, false, not, ◌&&◌, ◌||◌, List, [], ◌∷◌, ◌++◌, Option, none, some,
  if◌then◌else◌, ◌==◌, reverse, drop, length, get_elem?,
}
use opencode_reviewer.GoText.{Bytes, codes, bytes_eq, index, within, to_lower}
use opencode_reviewer.GoInt.{ℤ, eq_int}
use opencode_reviewer.Gitlab.Types.{Note, Discussion}
use opencode_reviewer.Vcs.Marker.{ParsedMarker, Json, parse_markers}

pub data Classification : Type 0 where
  ignore ai_finding human_mention_ai : Classification

abbrev pub ai_marker : Bytes
ai_marker = codes "#ai"

unfoldable pub is_marker_char : ℕ → Bool
is_marker_char b =
    b == b'@' || b == b'#' || b == b'_' || b == b'-' || within b'0' b'9' b || within b'a' b'z' b

-- The byte before position `i`, and the one at it, leave a mention standing alone.
unfoldable pub free_before : Bytes → ℕ → Bool
unfolding is_marker_char
free_before body zero = true
free_before body (suc i) = elim (get_elem? body i) [ some b ↦ not (is_marker_char b) | none ↦ true ]

unfoldable pub free_at : Bytes → ℕ → Bool
unfolding is_marker_char
free_at body i = elim (get_elem? body i) [ some b ↦ not (is_marker_char b) | none ↦ true ]

-- The rounds of `containsAIMarker` from an offset on, with fuel for their number.
unfoldable pub mention_from : ℕ → Bytes → ℕ → Bool
unfolding free_before free_at index
mention_from zero body offset = false
mention_from (suc f) body offset = elim (index (drop offset body) ai_marker) [
  | none ↦ false
  | some i ↦
      let at = i + offset in
      let later = mention_from f body (at + 3) in
      if free_before body at && free_at body (at + 3) then true else later
]

-- Every round moves the offset by at least three bytes, so as many rounds as bytes are enough.
unfoldable pub contains_ai_marker : Bytes → Bool
unfolding mention_from
contains_ai_marker body = mention_from (suc (length body)) body 0

-- A note by the bot.
abbrev pub by_bot : ℤ → Note → Bool
by_bot bot n = eq_int n.author.id bot

unfoldable pub discussion_resolved_in : List Note → Bool
discussion_resolved_in [] = false
discussion_resolved_in (n ∷ ns) = n.resolvable && n.resolved || discussion_resolved_in ns

unfoldable pub discussion_resolved : Discussion → Bool
unfolding discussion_resolved_in
discussion_resolved d = discussion_resolved_in d.notes

-- The loops below run over the notes from the last to the first.
unfoldable pub latest_human_note_in : ℤ → List Note → Option Note
latest_human_note_in bot [] = none
latest_human_note_in bot (n ∷ ns) =
    let earlier = latest_human_note_in bot ns in
    if n.system || by_bot bot n then earlier else some n

unfoldable pub latest_human_note : Discussion → ℤ → Option Note
unfolding latest_human_note_in
latest_human_note d bot = latest_human_note_in bot (reverse d.notes)

unfoldable pub handled_in : ℤ → List Note → Bool
handled_in bot [] = false
handled_in bot (n ∷ ns) =
    let earlier = handled_in bot ns in if n.system then earlier else by_bot bot n

-- The first note is left out.
unfoldable pub already_handled_ai_finding : Discussion → ℤ → Bool
unfolding handled_in
already_handled_ai_finding d bot = handled_in bot (reverse (drop 1 d.notes))

unfoldable pub has_kind : Bytes → List ParsedMarker → Bool
unfolding bytes_eq
has_kind kind [] = false
has_kind kind (m ∷ ms) = bytes_eq m.kind kind || has_kind kind ms

module _ (unicode : Bytes → Bytes) where
  unfoldable pub mention_in : ℤ → List Note → Bool
  unfolding contains_ai_marker to_lower
  mention_in bot [] = false
  mention_in bot (n ∷ ns) =
      let earlier = mention_in bot ns in
      if n.system
      then earlier
      else if by_bot bot n
      then false
      else if contains_ai_marker (to_lower unicode n.body)
      then true
      else earlier

  unfoldable pub has_unhandled_ai_mention : Discussion → ℤ → Bool
  unfolding mention_in
  has_unhandled_ai_mention d bot = mention_in bot (reverse d.notes)

module _ (json : Json) where
  unfoldable pub confirmed_in : ℤ → List Note → Bool
  unfolding has_kind parse_markers
  confirmed_in bot [] = false
  confirmed_in bot (n ∷ ns) =
      let earlier = confirmed_in bot ns in
      if n.system || not (by_bot bot n)
      then earlier
      else has_kind (codes "closure-confirmed") (parse_markers json n.body)

  unfoldable pub latest_bot_note_has_closure_confirmed_marker : Discussion → ℤ → Bool
  unfolding confirmed_in
  latest_bot_note_has_closure_confirmed_marker d bot = confirmed_in bot (reverse d.notes)

-- `x != nil`
abbrev is_found : {A : Type 0} → Option A → Bool
is_found (some a) = true
is_found none = false

module _ (unicode : Bytes → Bytes) (json : Json) where
  unfoldable pub classify_discussion : Discussion → ℤ → Classification
  unfolding has_unhandled_ai_mention has_kind parse_markers
  classify_discussion d bot = elim d.notes [
    | [] ↦ ignore
    | first ∷ rest ↦
        if has_unhandled_ai_mention unicode d bot
        then human_mention_ai
        else if by_bot bot first && has_kind (codes "finding") (parse_markers json first.body)
        then ai_finding
        else ignore
  ]

  unfoldable pub should_process_discussion : Classification → Discussion → ℤ → Bool
  unfolding has_unhandled_ai_mention discussion_resolved latest_human_note
      already_handled_ai_finding latest_bot_note_has_closure_confirmed_marker
  should_process_discussion human_mention_ai d bot = has_unhandled_ai_mention unicode d bot
  should_process_discussion ai_finding d bot =
      if discussion_resolved d
      then not (latest_bot_note_has_closure_confirmed_marker json d bot)
      else is_found (latest_human_note d bot) && not (already_handled_ai_finding d bot)
  should_process_discussion ignore d bot = false
