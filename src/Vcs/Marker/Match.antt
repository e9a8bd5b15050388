-- ===== src/Vcs/Marker/Match.antt =====
-- The marker that `AppendMarker` writes is matched, and read back.
use opencode_reviewer.Prelude.{
  ℕ, true, false, [], ◌∷◌, ◌++◌, none, some, ◌≡◌, refl, arith, drop-append, All,
}
use opencode_reviewer.GoText.{Bytes, codes, has_prefix, has_prefix-append, is_empty}
use opencode_reviewer.GoText.Base64.{encode, digit_char}
use opencode_reviewer.Vcs.Marker.{
  comment_start, skip_ws, kind_char, payload_char, literal, close, payload, kind_of, match_marker,
}

literal-append : (p s : Bytes) → literal p (p ++ s) ≡ some s
unfolding literal
literal-append p s = rw (has_prefix-append p s, drop-append p s) refl

abbrev pub IsKind : Bytes → Type 0
IsKind = All (λ c. kind_char c ≡ true)

kind_of-append : (k s : Bytes) → IsKind k → kind_of (k ++ (b':' ∷ s)) ≡ (k, b':' ∷ s)
unfolding kind_of
kind_of-append [] s h = refl
kind_of-append (c ∷ k) s (e, h) = rw (kind_of-append k s h, e) refl

digit_char-payload_char : (d : ℕ) → payload_char (digit_char d) ≡ true
unfolding digit_char
digit_char-payload_char d = ground arith

encode-payload_char : (s : Bytes) → All (λ c. payload_char c ≡ true) (encode s)
unfolding encode
encode-payload_char [] = tt
encode-payload_char (a ∷ []) = (digit_char-payload_char _, (digit_char-payload_char _, tt))
encode-payload_char (a ∷ b ∷ []) =
    (digit_char-payload_char _, (digit_char-payload_char _, (digit_char-payload_char _, tt)))
encode-payload_char (a ∷ b ∷ c ∷ s) = (
  digit_char-payload_char _,
  (
    digit_char-payload_char _,
    (digit_char-payload_char _, (digit_char-payload_char _, encode-payload_char s)),
  ),
)

encode-filled : (s : Bytes) → is_empty s ≡ false → is_empty (encode s) ≡ false
unfolding encode
encode-filled [] h = h
encode-filled (a ∷ []) h = refl
encode-filled (a ∷ b ∷ []) h = refl
encode-filled (a ∷ b ∷ c ∷ s) h = refl

payload-append :
    (c : ℕ) (p rest : Bytes)
    → payload_char c ≡ true
    → All (λ c. payload_char c ≡ true) p
    → payload (c ∷ (p ++ (codes " -->" ++ rest))) ≡ some (c ∷ p, rest)
unfolding payload close literal skip_ws has_prefix
payload-append c [] rest e h = rw (e, payload) refl
payload-append c (d ∷ p) rest e (e', h) = rw (payload-append d p rest e' h, e) refl

payload-encode :
    (bytes rest : Bytes)
    → is_empty bytes ≡ false
    → payload (encode bytes ++ (codes " -->" ++ rest)) ≡ some (encode bytes, rest)
payload-encode bytes rest h =
    filled (encode bytes) (encode-filled bytes h) (encode-payload_char bytes)
  where
    filled :
        (p : Bytes)
        → is_empty p ≡ false
        → All (λ c. payload_char c ≡ true) p
        → payload (p ++ (codes " -->" ++ rest)) ≡ some (p, rest)
    filled [] ne a = cc
    filled (c ∷ p) ne (e, a) = payload-append c p rest e a

-- A marker, with anything behind it.
abbrev pub marker_before : Bytes → Bytes → Bytes → Bytes
marker_before kind bytes rest =
    comment_start
    ++ (codes " opencode-reviewer:"
        ++ (kind ++ (codes ":v1:" ++ (encode bytes ++ (codes " -->" ++ rest)))))

pub match_marker-marker_before :
    (kind bytes rest : Bytes)
    → IsKind kind
    → is_empty kind ≡ false
    → is_empty bytes ≡ false
    → match_marker (marker_before kind bytes rest) ≡ some (kind, encode bytes, rest)
unfolding match_marker literal skip_ws has_prefix
match_marker-marker_before kind bytes rest k ne nb =
    rw (kind_of-append kind _ k, ne, payload-encode bytes rest nb) refl

-- Without the start of a comment at the front there is no marker there.
pub match_marker-none : (s : Bytes) → has_prefix s comment_start ≡ false → match_marker s ≡ none
unfolding match_marker literal
match_marker-none s h = rw h refl
