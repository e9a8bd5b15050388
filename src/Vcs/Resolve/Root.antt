-- ===== src/Vcs/Resolve/Root.antt =====
-- A path that begins with its only slash, and a file at the root of the repository.
use opencode_reviewer.Prelude.{
  ℕ, false, [], ◌∷◌, none, ◌≡◌, ◌≢◌, refl, ◌∙◌, arith, inl, inr, Option-cases, In, All,
}
use opencode_reviewer.GoText.{Bytes, has_prefix, split, trim_prefix}
use opencode_reviewer.Vcs.Resolve.{
  Entries, Visit, find_entry, ends_at, first_entry, strip_segments, resolve_file_lines,
}
use opencode_reviewer.Vcs.Resolve.Sound.{FileLines, IsVisit, first_entry-In, resolve-segments}

split-one : (sep : ℕ) (s : Bytes) → All (λ c. c ≢ sep) s → split sep s ≡ s ∷ []
unfolding split
split-one sep [] h = refl
split-one sep (c ∷ s) (n, h) = ground (arith, split-one sep s h)

one_segment :
    (visit : Visit) (m : Entries FileLines) (name : Bytes)
    → All (λ c. c ≢ b'/') name
    → strip_segments visit m 1 (split b'/' name) ≡ none
unfolding strip_segments
one_segment visit m name plain = rw (split-one b'/' name plain) refl

-- A path "/name" with no further slash finds nothing, unless some key is it or ends with it: the
-- file "name" at the root is not tried.
pub resolve_file_lines-root :
    (visit : Visit) (m : Entries FileLines) (name : Bytes)
    → IsVisit visit m
    → All (λ c. c ≢ b'/') name
    → find_entry (b'/' ∷ name) m ≡ none
    → ((key : Bytes) (lines : FileLines) → In (key, lines) m → ends_at key name ≡ false)
    → resolve_file_lines visit m (b'/' ∷ name) ≡ none
unfolding trim_prefix has_prefix
resolve_file_lines-root visit m name v plain e other =
    elim (Option-cases (first_entry (λ key. ends_at key name) (visit 0 m))) [
      | inl f ↦ resolve-segments visit m (b'/' ∷ name) e f ∙ one_segment visit m name plain
      | inr ((key, lines), f) ↦
          let (there, ends) = first_entry-In _ (visit 0 m) key lines f in
          cc (other key lines ((v 0 (key, lines)).0 there), ends)
    ]
