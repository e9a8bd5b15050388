-- ===== src/Review/Parse/Fence.antt =====
-- internal/review/parse.go: `stripCodeFence` takes a fence off.
use mathlib.Core.Option
use opencode_reviewer.Prelude.{ℕ, suc, [], ◌∷◌, ◌++◌, none, some, length, drop, ◌≡◌, refl, ap, ◌∙◌}
use opencode_reviewer.GoText.{
  Bytes, codes, has_prefix, trim_suffix-append, trim_suffix, index, index-cons_later,
  index-cons_none, index-append_self,
}
use opencode_reviewer.Review.Parse.{strip_code_fence, trim_right}

-- The first newline of a text is behind a part that has none.
index-line :
    (line rest : Bytes)
    → index line (10 ∷ []) ≡ none
    → index (line ++ (10 ∷ rest)) (10 ∷ []) ≡ some (length line)
unfolding has_prefix
index-line [] rest h = index-append_self (10 ∷ []) rest
index-line (c ∷ line) rest h =
    let (other, later) = index-cons_none c line (10 ∷ []) h in
    index-cons_later c (line ++ (10 ∷ rest)) (10 ∷ []) other
    ∙ ap (Option.map suc) (index-line line rest later)

drop-behind : (line rest : Bytes) (c : ℕ) → drop (suc (length line)) (line ++ (c ∷ rest)) ≡ rest
drop-behind [] rest c = refl
drop-behind (x ∷ line) rest c = drop-behind line rest c

-- A fenced text: three backquotes and a language, a line break, the text, and three backquotes.
abbrev pub fenced : Bytes → Bytes → Bytes
fenced language text = (codes "```" ++ language) ++ (10 ∷ (text ++ codes "```"))

-- Stripping a fence gives the text inside it, without the white space at its end, for any language
-- without a line break.
pub strip_code_fence-fenced :
    (language text : Bytes)
    → index language (10 ∷ []) ≡ none
    → strip_code_fence (fenced language text) ≡ trim_right text
unfolding strip_code_fence
strip_code_fence-fenced language text h = rw (index-line language (text ++ codes "```") h) (
    ap (λ t. trim_right (trim_suffix t (codes "```")))
      (drop-behind language (text ++ codes "```") 10)
    ∙ ap trim_right (trim_suffix-append text (codes "```")))
