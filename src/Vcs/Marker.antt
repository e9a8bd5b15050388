-- ===== src/Vcs/Marker.antt =====
-- internal/shared/vcs/marker.go: the hidden markers in the notes.
pub mod Match
pub mod RoundTrip
use opencode_reviewer.Prelude.{
  ℕ, zero, suc, ◌-◌, Bool, true, false, ◌&&◌, ◌||◌, List, [], ◌∷◌, ◌++◌, Option, none, some, ◌==◌,
  if◌then◌else◌, length, drop,
}
use opencode_reviewer.GoText.{Bytes, codes, has_prefix, is_empty, within}
use opencode_reviewer.GoText.Base64.{encode, decode}
use opencode_reviewer.GoInt.{ℤ}
use opencode_reviewer.Models.{ReviewMessageRef}

pub record MarkerMetadata : Type 0 where
  pub id : Bytes
  pub base_sha : Bytes
  pub head_sha : Bytes
  pub start_sha : Bytes
  pub file : Bytes
  pub start_line : ℤ
  pub end_line : ℤ
  pub old_path : Bytes
  pub new_path : Bytes
  pub old_line : ℤ
  pub new_line : ℤ
  pub source_message_refs : List ReviewMessageRef
  pub fallback_message_refs : List ReviewMessageRef

pub record ParsedMarker : Type 0 where
  pub kind : Bytes
  pub metadata : MarkerMetadata

-- `encoding/json` on the metadata: its reflection over the struct is not modelled.
pub record Json : Type 0 where
  pub marshal : MarkerMetadata → Option Bytes
  pub unmarshal : Bytes → Option MarkerMetadata

abbrev pub comment_start : Bytes
comment_start = codes "<!--"

-- `\s*`
unfoldable pub skip_ws : Bytes → Bytes
skip_ws [] = []
skip_ws (c ∷ s) =
    let rest = skip_ws s in
    if c == 9 || c == 10 || c == 12 || c == 13 || c == 32 then rest else c ∷ s

abbrev pub kind_char : ℕ → Bool
kind_char c = within b'a' b'z' c || c == b'-'

abbrev pub payload_char : ℕ → Bool
payload_char c =
    within b'A' b'Z' c || within b'a' b'z' c || within b'0' b'9' c || c == b'_' || c == b'-'

-- A literal piece of the pattern, and what follows it.
unfoldable pub literal : Bytes → Bytes → Option Bytes
literal p s = if has_prefix s p then some (drop (length p) s) else none

-- `\s*-->`
unfoldable pub close : Bytes → Option Bytes
unfolding literal skip_ws
close s = literal (codes "-->") (skip_ws s)

-- `([A-Za-z0-9_-]+)\s*-->`: the longest run of characters behind which the marker closes.
unfoldable pub payload : Bytes → Option (Bytes × Bytes)
payload [] = none
payload (c ∷ s) =
    let longer = payload s in
    if payload_char c
    then elim longer [
      | some (p, rest) ↦ some (c ∷ p, rest)
      | none ↦ elim (close s) [ some rest ↦ some (c ∷ [], rest) | none ↦ none ]
    ]
    else none

-- The run of kind characters at the front, and what follows it.
unfoldable pub kind_of : Bytes → Bytes × Bytes
kind_of [] = ([], [])
kind_of (c ∷ s) = let (k, rest) = kind_of s in if kind_char c then (c ∷ k, rest) else ([], c ∷ s)

infixl 5 ◌>>=◌
abbrev pub ◌>>=◌ : {A B : Type 0} → Option A → (A → Option B) → Option B
none >>= f = none
some a >>= f = f a

-- What `markerRE` matches at the front: the two groups and what follows the marker. A kind that
-- ends early cannot be followed by `:v1:`, so the longest run is the only one to try.
unfoldable pub match_marker : Bytes → Option (Bytes × Bytes × Bytes)
unfolding literal skip_ws kind_of payload close has_prefix
match_marker s = do
  s ← literal comment_start s
  s ← literal (codes "opencode-reviewer:") (skip_ws s)
  let (kind, rest) = kind_of s
  s ← if is_empty kind then none else some rest
  s ← literal (codes ":v1:") s
  (encoded, rest) ← payload s
  some (kind, encoded, rest)

-- `FindAllStringSubmatch`: `k` bytes of the match before are still to be passed.
unfoldable pub find_markers : ℕ → Bytes → List (Bytes × Bytes)
find_markers k [] = []
find_markers (suc k) (c ∷ s) = find_markers k s
find_markers zero (c ∷ s) = elim (match_marker (c ∷ s)) [
  | none ↦ find_markers 0 s
  | some (kind, encoded, rest) ↦ (kind, encoded) ∷ find_markers (length s - length rest) s
]

-- `ReplaceAllString(body, "")`
unfoldable pub drop_markers : ℕ → Bytes → Bytes
drop_markers k [] = []
drop_markers (suc k) (c ∷ s) = drop_markers k s
drop_markers zero (c ∷ s) = elim (match_marker (c ∷ s)) [
  | none ↦ c ∷ drop_markers 0 s
  | some (kind, encoded, rest) ↦ drop_markers (length s - length rest) s
]

unfoldable pub strip_markers : Bytes → Bytes
unfolding drop_markers
strip_markers body = drop_markers 0 body

-- The marker itself.
abbrev pub marker_text : Bytes → Bytes → Bytes
marker_text kind bytes =
    comment_start
    ++ (codes " opencode-reviewer:" ++ (kind ++ (codes ":v1:" ++ (encode bytes ++ codes " -->"))))

module _ (json : Json) where
  unfoldable pub append_marker : Bytes → Bytes → MarkerMetadata → Bytes
  append_marker body kind metadata = elim (json.marshal metadata) [
    | none ↦ body
    | some bytes ↦ body ++ (codes "\n\n" ++ marker_text kind bytes)
  ]

  -- The metadata of a match; `none` where the round of the loop goes on with the next match.
  unfoldable pub read_marker : Bytes × Bytes → Option ParsedMarker
  read_marker (kind, encoded) = do
    bytes ← decode encoded
    metadata ← json.unmarshal bytes
    some (record { kind = kind; metadata = metadata })

  unfoldable pub read_all : List (Bytes × Bytes) → List ParsedMarker
  unfolding read_marker
  read_all [] = []
  read_all (found ∷ more) =
      let rest = read_all more in elim (read_marker found) [ none ↦ rest | some m ↦ m ∷ rest ]

  unfoldable pub parse_markers : Bytes → List ParsedMarker
  unfolding read_all find_markers
  parse_markers body = read_all (find_markers 0 body)
