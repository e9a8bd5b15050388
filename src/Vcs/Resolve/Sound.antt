-- ===== src/Vcs/Resolve/Sound.antt =====
-- `resolveFileLines`: what is found, and what it means that nothing is found.
use opencode_reviewer.Prelude.{
  ℕ, suc, Bool, true, false, ◌||◌, List, [], ◌∷◌, ◌++◌, Option, none, some, ◌≡◌, ◌≢◌, ◌↔◌, refl,
  sym, ap, ◌∙◌, arith, inl, inr, ◌⊎◌, Bool-cases, Option-cases, In,
}
use opencode_reviewer.GoText.{
  Bytes, codes, bytes_eq, bytes_eq_iff, has_suffix-append, has_suffix-eq, trim_prefix, split, join,
  join-split, join-cons, split-append, split-filled, Below, Below-behind, is_empty,
}
use opencode_reviewer.Vcs.Types.{DiffLine}
use opencode_reviewer.Vcs.Resolve.{
  Entries, Visit, find_entry, ends_at, first_entry, strip_segments, resolve_file_lines,
}

abbrev pub FileLines : Type 0
FileLines = List DiffLine

-- Every `range` visits the entries of the map and nothing else, in whatever order.
abbrev pub IsVisit : Visit → Entries FileLines → Type 0
IsVisit visit m = (i : ℕ) (e : Bytes × FileLines) → In e (visit i m) ↔ In e m

-- `key` is `path`, or ends with it behind a slash.
abbrev pub Under : Bytes → Bytes → Type 0
Under path key = Below b'/' path key

-- The path without its leading slash.
abbrev pub clean_path : Bytes → Bytes
clean_path path = trim_prefix path (codes "/")

find_entry-In :
    (k : Bytes) (m : Entries FileLines) (v : FileLines) → find_entry k m ≡ some v → In (k, v) m
unfolding find_entry
find_entry-In k [] v e = cc
find_entry-In k ((j, w) ∷ m) v e = ground (arith, bytes_eq_iff j k, find_entry-In k m v)

pub first_entry-In :
    (test : Bytes → Bool) (m : Entries FileLines) (k : Bytes) (v : FileLines)
    → first_entry test m ≡ some (k, v)
    → In (k, v) m × (test k ≡ true)
unfolding first_entry
first_entry-In test [] k v e = cc
first_entry-In test ((j, w) ∷ m) k v e = ground (arith, first_entry-In test m k v)

first_entry-none :
    (test : Bytes → Bool) (m : Entries FileLines) (k : Bytes) (v : FileLines)
    → first_entry test m ≡ none
    → In (k, v) m
    → test k ≡ false
unfolding first_entry
first_entry-none test [] k v e h = absurd h
first_entry-none test ((j, w) ∷ m) k v e h = ground (arith, first_entry-none test m k v)

ends_at-Under : (key path : Bytes) → ends_at key path ≡ true → Under path key
ends_at-Under key path h = inr (has_suffix-eq key (b'/' ∷ path) h)

is_or_ends_at-Under :
    (key path : Bytes) → (bytes_eq key path || ends_at key path) ≡ true → Under path key
is_or_ends_at-Under key path h = elim (Bool-cases (bytes_eq key path)) [
  | inl e ↦ inl ((bytes_eq_iff key path).0 e)
  | inr e ↦ ends_at-Under key path (rw e at h)
]

Under-is_or_ends_at :
    (key path : Bytes) → Under path key → (bytes_eq key path || ends_at key path) ≡ true
Under-is_or_ends_at key path (inl e) = rw ((bytes_eq_iff key path).1 e)
Under-is_or_ends_at key path (inr (pre, e)) =
    rw e (ground (arith, has_suffix-append pre (b'/' ∷ path)))

-- The search of one round of the loop over the segments.
abbrev round : Visit → Entries FileLines → ℕ → Bytes → Option (Bytes × FileLines)
round visit m i suffix = first_entry (λ key. bytes_eq key suffix || ends_at key suffix) (visit i m)

module _ (visit : Visit) (m : Entries FileLines) (i : ℕ) (part next : Bytes)
    (parts : List Bytes) where
  next_segment :
      round visit m i (join (b'/' ∷ []) (next ∷ parts)) ≡ none
      → strip_segments visit m i (part ∷ next ∷ parts)
        ≡ strip_segments visit m (suc i) (next ∷ parts)
  unfolding strip_segments
  next_segment e = rw (e, strip_segments) refl

  this_segment :
      (x : Bytes × FileLines)
      → round visit m i (join (b'/' ∷ []) (next ∷ parts)) ≡ some x
      → strip_segments visit m i (part ∷ next ∷ parts) ≡ some x
  unfolding strip_segments
  this_segment x e = rw (e, strip_segments) refl

module _ (visit : Visit) (m : Entries FileLines) (v : IsVisit visit m) where
  round-In :
      (i : ℕ) (suffix key : Bytes) (lines : FileLines)
      → round visit m i suffix ≡ some (key, lines)
      → In (key, lines) m × Under suffix key
  round-In i suffix key lines e =
      let (there, ends) = first_entry-In _ (visit i m) key lines e in
      ((v i (key, lines)).0 there, is_or_ends_at-Under key suffix ends)

  round-none :
      (i : ℕ) (suffix key : Bytes) (lines : FileLines)
      → round visit m i suffix ≡ none
      → In (key, lines) m
      → ¬ Under suffix key
  round-none i suffix key lines e there ends =
      let missed = first_entry-none _ (visit i m) key lines e ((v i (key, lines)).1 there) in
      absurd (ground (arith, missed, Under-is_or_ends_at key suffix ends))

  strip_segments-In :
      (i : ℕ) (parts : List Bytes) (key : Bytes) (lines : FileLines)
      → strip_segments visit m i parts ≡ some (key, lines)
      → In (key, lines) m × ((s : Bytes) × Under s (join (b'/' ∷ []) parts) × Under s key)
  strip_segments-In i [] key lines e = unfold strip_segments in cc
  strip_segments-In i (part ∷ []) key lines e = unfold strip_segments in cc
  strip_segments-In i (part ∷ next ∷ parts) key lines e =
      let suffix = join (b'/' ∷ []) (next ∷ parts) in
      elim (Option-cases (round visit m i suffix)) [
        | inl missed ↦
            let r =
              strip_segments-In (suc i) (next ∷ parts) key lines
                (sym (next_segment visit m i part next parts missed) ∙ e) in
            (r.0, (r.1.0, rw join-cons (Below-behind b'/' r.1.0 suffix part r.1.1), r.1.2))
        | inr (x, found) ↦
            let same = sym (this_segment visit m i part next parts x found) ∙ e in
            let (there, ends) = round-In i suffix key lines (found ∙ same) in
            (there, (suffix, rw join-cons (inr (part, refl)), ends))
      ]

  strip_segments-none :
      (i : ℕ) (before after : List Bytes) (key : Bytes) (lines : FileLines)
      → is_empty before ≡ false
      → is_empty after ≡ false
      → strip_segments visit m i (before ++ after) ≡ none
      → In (key, lines) m
      → ¬ Under (join (b'/' ∷ []) after) key
  strip_segments-none i [] after key lines eb ea e there ends = cc
  strip_segments-none i (p ∷ before) [] key lines eb ea e there ends = cc
  strip_segments-none i (p ∷ []) (q ∷ after) key lines eb ea e there ends =
      elim (Option-cases (round visit m i (join (b'/' ∷ []) (q ∷ after)))) [
        | inl missed ↦ round-none i (join (b'/' ∷ []) (q ∷ after)) key lines missed there ends
        | inr (x, found) ↦ cc (this_segment visit m i p q after x found)
      ]
  strip_segments-none i (p ∷ next ∷ before) (q ∷ after) key lines eb ea e there ends =
      elim (Option-cases (round visit m i (join (b'/' ∷ []) (next ∷ (before ++ (q ∷ after)))))) [
        | inl missed ↦
            strip_segments-none (suc i) (next ∷ before) (q ∷ after) key lines refl refl
              (sym (next_segment visit m i p next (before ++ (q ∷ after)) missed) ∙ e) there ends
        | inr (x, found) ↦ cc (this_segment visit m i p next (before ++ (q ∷ after)) x found)
      ]

-- What the outcome of a lookup says of the entries of the map.
abbrev pub ResolvesTo : Entries FileLines → Bytes → Option (Bytes × FileLines) → Type 0
ResolvesTo m path (some (key, lines)) =
    In (key, lines) m × ((key ≡ path) ⊎ ((s : Bytes) × Under s (clean_path path) × Under s key))
ResolvesTo m path none =
    (key : Bytes) (lines : FileLines)
    → In (key, lines) m
    → (key ≢ path)
      × (ends_at key (clean_path path) ≡ false)
      × ((pre s : Bytes) → clean_path path ≡ pre ++ (b'/' ∷ s) → ¬ Under s key)

find_entry-none :
    (k : Bytes) (m : Entries FileLines) (v : FileLines) → find_entry k m ≡ none → ¬ In (k, v) m
unfolding find_entry
find_entry-none k [] v e h = h
find_entry-none k ((j, w) ∷ m) v e h = ground (arith, bytes_eq_iff j k, find_entry-none k m v)

module _ (visit : Visit) (m : Entries FileLines) (path : Bytes) where
  resolve-exact :
      (lines : FileLines)
      → find_entry path m ≡ some lines
      → resolve_file_lines visit m path ≡ some (path, lines)
  unfolding resolve_file_lines
  resolve-exact lines e = rw (e, resolve_file_lines) refl

  resolve-suffix :
      (x : Bytes × FileLines)
      → find_entry path m ≡ none
      → first_entry (λ key. ends_at key (clean_path path)) (visit 0 m) ≡ some x
      → resolve_file_lines visit m path ≡ some x
  unfolding resolve_file_lines
  resolve-suffix x e f = rw (e, f, resolve_file_lines) refl

  pub resolve-segments :
      find_entry path m ≡ none
      → first_entry (λ key. ends_at key (clean_path path)) (visit 0 m) ≡ none
      → resolve_file_lines visit m path ≡ strip_segments visit m 1 (split b'/' (clean_path path))
  unfolding resolve_file_lines
  resolve-segments e f = rw (e, f, resolve_file_lines) refl

-- The lookup by segments, on both outcomes.
segments-ResolvesTo :
    (visit : Visit) (m : Entries FileLines) (path : Bytes)
    → IsVisit visit m
    → find_entry path m ≡ none
    → first_entry (λ key. ends_at key (clean_path path)) (visit 0 m) ≡ none
    → (r : Option (Bytes × FileLines)) → strip_segments visit m 1 (split b'/' (clean_path path)) ≡ r
    → ResolvesTo m path r
segments-ResolvesTo visit m path v e f (some (key, lines)) h =
    let clean = clean_path path in
    let r = strip_segments-In visit m v 1 (split b'/' clean) key lines h in
    (r.0, inr (r.1.0, rw join-split at (r.1.1), r.1.2))
segments-ResolvesTo visit m path v e f none h = λ key lines there. (
  λ same. find_entry-none path m lines e (rw same at there),
  first_entry-none _ (visit 0 m) key lines f ((v 0 (key, lines)).1 there),
  λ pre s cut ends.
      strip_segments-none visit m v 1 (split b'/' pre) (split b'/' s) key lines
        (split-filled b'/' pre) (split-filled b'/' s)
        (sym (ap (strip_segments visit m 1) (ap (split b'/') cut ∙ split-append b'/' pre s)) ∙ h)
        there (rw join-split ends),
)

-- Whatever order the map is visited in: what is found is an entry of the map, its key being the
-- path or sharing a run of last segments with it, and nothing is found only if no entry has the
-- path for its key, ends with it, or is or ends with what is left of it without first segments.
pub resolve_file_lines-ResolvesTo :
    (visit : Visit) (m : Entries FileLines) (path : Bytes)
    → IsVisit visit m
    → ResolvesTo m path (resolve_file_lines visit m path)
resolve_file_lines-ResolvesTo visit m path v = elim (Option-cases (find_entry path m)) [
  | inl e ↦ elim (Option-cases (first_entry (λ key. ends_at key (clean_path path)) (visit 0 m))) [
    | inl f ↦ rw (resolve-segments visit m path e f) (segments-ResolvesTo visit m path v e f _ refl)
    | inr ((key, lines), f) ↦
        let (there, ends) = first_entry-In _ (visit 0 m) key lines f in
        rw (resolve-suffix visit m path (key, lines) e f) (
          (v 0 (key, lines)).0 there,
          inr (clean_path path, inl refl, ends_at-Under key (clean_path path) ends),
        )
  ]
  | inr (lines, e) ↦
      rw (resolve-exact visit m path lines e) (find_entry-In path m lines e, inl refl)
]
