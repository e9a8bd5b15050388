-- ===== src/Vcs/Marker/RoundTrip.antt =====
-- `ParseMarkers` and `StripMarkers` after `AppendMarker`.
use opencode_reviewer.Prelude.{
  ℕ, zero, suc, ◌-◌, false, [], ◌∷◌, ◌++◌, none, some, ◌≡◌, refl, ap, ◌∙◌, arith, length, drop,
}
use opencode_reviewer.GoText.{Bytes, codes, has_prefix, is_empty, index, index-cons_none}
use opencode_reviewer.GoText.Base64.{encode, AreBytes, decode-encode}
use opencode_reviewer.Vcs.Marker.{
  MarkerMetadata, ParsedMarker, Json, comment_start, match_marker, find_markers, drop_markers,
  strip_markers, marker_text, append_marker, read_marker, read_all, parse_markers,
}
use opencode_reviewer.Vcs.Marker.Match.{IsKind, match_marker-marker_before, match_marker-none}

-- A newline ends every hope that the start of a comment goes on behind it.
no_straddle :
    (c : ℕ) (s t : Bytes)
    → has_prefix (c ∷ s) comment_start ≡ false
    → has_prefix (c ∷ (s ++ (b'\n' ∷ t))) comment_start ≡ false
unfolding has_prefix
no_straddle c [] t h = ground arith
no_straddle c (a ∷ []) t h = ground arith
no_straddle c (a ∷ b ∷ []) t h = ground arith
no_straddle c (a ∷ b ∷ d ∷ s) t h = ground arith

-- One round at a byte where no marker begins.
module _ (c : ℕ) (s : Bytes) (h : match_marker (c ∷ s) ≡ none) where
  find_markers-skip : find_markers 0 (c ∷ s) ≡ find_markers 0 s
  unfolding find_markers
  find_markers-skip = rw (h, find_markers) refl

  drop_markers-keep : drop_markers 0 (c ∷ s) ≡ c ∷ drop_markers 0 s
  unfolding drop_markers
  drop_markers-keep = rw (h, drop_markers) refl

-- One round at a marker.
module _ (c : ℕ) (s kind encoded rest : Bytes)
    (h : match_marker (c ∷ s) ≡ some (kind, encoded, rest)) where
  find_markers-found :
      find_markers 0 (c ∷ s) ≡ (kind, encoded) ∷ find_markers (length s - length rest) s
  unfolding find_markers
  find_markers-found = rw (h, find_markers) refl

  drop_markers-found : drop_markers 0 (c ∷ s) ≡ drop_markers (length s - length rest) s
  unfolding drop_markers
  drop_markers-found = rw (h, drop_markers) refl

module _ (t : Bytes) where
  find_markers-body :
      (body : Bytes)
      → index body comment_start ≡ none
      → find_markers 0 (body ++ (b'\n' ∷ t)) ≡ find_markers 0 (b'\n' ∷ t)
  find_markers-body [] h = refl
  find_markers-body (c ∷ s) h =
      let (here, later) = index-cons_none c s comment_start h in
      find_markers-skip c (s ++ (b'\n' ∷ t)) (match_marker-none _ (no_straddle c s t here))
      ∙ find_markers-body s later

  drop_markers-body :
      (body : Bytes)
      → index body comment_start ≡ none
      → drop_markers 0 (body ++ (b'\n' ∷ t)) ≡ body ++ drop_markers 0 (b'\n' ∷ t)
  drop_markers-body [] h = refl
  drop_markers-body (c ∷ s) h =
      let (here, later) = index-cons_none c s comment_start h in
      drop_markers-keep c (s ++ (b'\n' ∷ t)) (match_marker-none _ (no_straddle c s t here))
      ∙ ap (◌∷◌ c) (drop_markers-body s later)

-- All that is left after a marker at the end is passed.
find_markers-all : (k : ℕ) (s : Bytes) → k ≡ length s → find_markers k s ≡ []
unfolding find_markers
find_markers-all k [] e = refl
find_markers-all zero (c ∷ s) e = absurd (omega arith)
find_markers-all (suc k) (c ∷ s) e = find_markers-all k s (omega arith)

drop_markers-all : (k : ℕ) (s : Bytes) → k ≡ length s → drop_markers k s ≡ []
unfolding drop_markers
drop_markers-all k [] e = refl
drop_markers-all zero (c ∷ s) e = absurd (omega arith)
drop_markers-all (suc k) (c ∷ s) e = drop_markers-all k s (omega arith)

module _ (kind bytes : Bytes) (k : IsKind kind) (nk : is_empty kind ≡ false)
    (nb : is_empty bytes ≡ false) where
  abbrev tail_text : Bytes
  tail_text = drop 1 (marker_text kind bytes)

  matched : match_marker (marker_text kind bytes) ≡ some (kind, encode bytes, [])
  matched = match_marker-marker_before kind bytes [] k nk nb

  no_match_at_newline : (t : Bytes) → match_marker (b'\n' ∷ t) ≡ none
  unfolding has_prefix
  no_match_at_newline t = match_marker-none (b'\n' ∷ t) refl

  newlines_find :
      find_markers 0 (codes "\n\n" ++ marker_text kind bytes) ≡ (kind, encode bytes) ∷ []
  newlines_find =
      find_markers-skip b'\n' (b'\n' ∷ marker_text kind bytes) (no_match_at_newline _)
      ∙ find_markers-skip b'\n' (marker_text kind bytes) (no_match_at_newline _)
      ∙ find_markers-found b'<' tail_text kind (encode bytes) [] matched
      ∙ ap (◌∷◌ (kind, encode bytes))
          (find_markers-all (length tail_text - 0) tail_text (omega arith))

  newlines_drop : drop_markers 0 (codes "\n\n" ++ marker_text kind bytes) ≡ codes "\n\n"
  newlines_drop =
      drop_markers-keep b'\n' (b'\n' ∷ marker_text kind bytes) (no_match_at_newline _)
      ∙ ap (◌∷◌ b'\n') (
          drop_markers-keep b'\n' (marker_text kind bytes) (no_match_at_newline _)
          ∙ ap (◌∷◌ b'\n') (
              drop_markers-found b'<' tail_text kind (encode bytes) [] matched
              ∙ drop_markers-all (length tail_text - 0) tail_text (omega arith)))

-- What must hold for a marker to be written and read: the kind is made of lower-case letters and
-- dashes, and JSON turns the metadata into bytes from which it reads the same metadata.
pub record IsWritable (json : Json) (kind bytes : Bytes) (metadata : MarkerMetadata) : Type 0 where
  pub kind_chars : IsKind kind
  pub kind_filled : is_empty kind ≡ false
  pub marshals : json.marshal metadata ≡ some bytes
  pub unmarshals : json.unmarshal bytes ≡ some metadata
  pub are_bytes : AreBytes bytes
  pub bytes_filled : is_empty bytes ≡ false

read_all-one :
    (json : Json) (found : Bytes × Bytes) (m : ParsedMarker)
    → read_marker json found ≡ some m
    → read_all json (found ∷ []) ≡ m ∷ []
unfolding read_all
read_all-one json found m e = rw (e, read_all) refl

module _ (json : Json) (body kind bytes : Bytes) (metadata : MarkerMetadata) where
  append_marker-eq :
      IsWritable json kind bytes metadata
      → append_marker json body kind metadata ≡ body ++ (codes "\n\n" ++ marker_text kind bytes)
  unfolding append_marker
  append_marker-eq w = rw (w.marshals, append_marker) refl

  read_marker-encode :
      IsWritable json kind bytes metadata
      → read_marker json (kind, encode bytes) ≡ some (record { kind = kind; metadata = metadata })
  unfolding read_marker
  read_marker-encode w = rw (decode-encode bytes w.are_bytes, w.unmarshals) refl

  -- A marker appended to a body with no comment in it is the one that is read, with its kind and
  -- its metadata, and stripping gives the body back, with the two newlines that were put behind it.
  pub parse_markers-append_marker :
      IsWritable json kind bytes metadata
      → index body comment_start ≡ none
      → (parse_markers json (append_marker json body kind metadata)
          ≡ record { kind = kind; metadata = metadata } ∷ [])
        × (strip_markers (append_marker json body kind metadata) ≡ body ++ codes "\n\n")
  unfolding parse_markers strip_markers
  parse_markers-append_marker w h =
      let found = newlines_find kind bytes w.kind_chars w.kind_filled w.bytes_filled in
      let dropped = newlines_drop kind bytes w.kind_chars w.kind_filled w.bytes_filled in
      rw (append_marker-eq w) (
        ap (read_all json) (find_markers-body _ body h ∙ found)
            ∙ read_all-one json (kind, encode bytes) _ (read_marker-encode w),
        drop_markers-body _ body h ∙ ap (◌++◌ body) dropped,
      )
