-- ===== src/Diff/Header.antt =====
-- `parseDiffHeader` reads back the header line that git writes.
use opencode_reviewer.Prelude.{
  ℕ, false, [], ◌∷◌, ◌++◌, none, some, ◌≡◌, refl, ◌∙◌, arith, length, drop-append_more, take-append,
}
use opencode_reviewer.GoText.{
  Bytes, codes, has_prefix, index, index-append_self, index-cons_none, index-cons_later,
}
use opencode_reviewer.Diff.Parse.{marker, cut_at, parse_diff_header}

abbrev pub between : Bytes
between = codes " b/"

-- `diff --git a/P b/Q`
abbrev pub header_line : Bytes → Bytes → Bytes
header_line p q = marker ++ (codes "a/" ++ (p ++ (between ++ q)))

-- The separator cannot begin in the path that stands before it.
no_straddle :
    (a : ℕ) (p q : Bytes)
    → has_prefix (a ∷ p) between ≡ false
    → has_prefix (a ∷ (p ++ (between ++ q))) between ≡ false
unfolding has_prefix
no_straddle a [] q h = ground arith
no_straddle a (b ∷ []) q h = ground arith
no_straddle a (b ∷ c ∷ p) q h = ground arith

index-between :
    (p q : Bytes) → index p between ≡ none → index (p ++ (between ++ q)) between ≡ some (length p)
index-between [] q h = index-append_self between q
index-between (a ∷ p) q h =
    let (here, later) = index-cons_none a p between h in
    index-cons_later a (p ++ (between ++ q)) between (no_straddle a p q here)
    ∙ rw (index-between p q later) refl

cut_at-between :
    (p q : Bytes) → index p between ≡ none → cut_at between (p ++ (between ++ q)) ≡ some (p, q)
unfolding cut_at
cut_at-between p q h =
    rw (index-between p q h, cut_at) (rw (take-append p _, drop-append_more 3 p _) refl)

index-a_slash : (p : Bytes) → index p between ≡ none → index (codes "a/" ++ p) between ≡ none
unfolding index has_prefix
index-a_slash p h = rw h

-- The paths of a header line are read back, whatever they hold, if the first one has no " b/".
pub parse_diff_header-header_line :
    (p q : Bytes) → index p between ≡ none → parse_diff_header (header_line p q) ≡ (p, q)
unfolding parse_diff_header
parse_diff_header-header_line p q h =
    rw (cut_at-between (codes "a/" ++ p) q (index-a_slash p h)) refl
