-- ===== src/Vcs/Resolve.antt =====
-- internal/shared/vcs/normalizer.go: the path of a finding looked up among the files of the diff.
pub mod Sound
pub mod Root
use opencode_reviewer.Prelude.{
  ℕ, zero, suc, ◌+◌, Bool, true, false, ◌&&◌, ◌||◌, List, [], ◌∷◌, ◌++◌, Option, none, some,
  if◌then◌else◌,
}
use opencode_reviewer.GoText.{
  Bytes, codes, bytes_eq, has_suffix, trim_prefix, split, join, is_empty,
}
use opencode_reviewer.Vcs.Types.{DiffLine}

-- A Go map with string keys, as its entries; a key stands once.
abbrev pub Entries : Type 0 → Type 0
Entries V = List (Bytes × V)

unfoldable pub find_entry : {V : Type 0} → Bytes → Entries V → Option V
find_entry k [] = none
find_entry k ((j, v) ∷ m) = let later = find_entry k m in if bytes_eq j k then some v else later

-- `m[k] = v`
unfoldable pub put_entry : {V : Type 0} → Bytes → V → Entries V → Entries V
put_entry k v [] = (k, v) ∷ []
put_entry k v ((j, w) ∷ m) =
    let later = (j, w) ∷ put_entry k v m in if bytes_eq j k then (k, v) ∷ m else later

-- The order in which the n-th `range` over the map visits its entries: Go leaves it open.
abbrev pub Visit : Type 0
Visit = ℕ → Entries (List DiffLine) → Entries (List DiffLine)

abbrev pub ends_at : Bytes → Bytes → Bool
ends_at key suffix = has_suffix key (b'/' ∷ suffix)

-- The first visited entry that passes the test on its key.
unfoldable pub first_entry :
    (Bytes → Bool) → Entries (List DiffLine) → Option (Bytes × List DiffLine)
first_entry test [] = none
first_entry test ((key, lines) ∷ m) =
    let later = first_entry test m in if test key then some (key, lines) else later

-- The loop over the segments: `i` counts those that are stripped.
unfoldable pub strip_segments :
    Visit → Entries (List DiffLine) → ℕ → List Bytes → Option (Bytes × List DiffLine)
strip_segments visit m i [] = none
strip_segments visit m i (part ∷ []) = none
strip_segments visit m i (part ∷ next ∷ parts) =
    let suffix = join (b'/' ∷ []) (next ∷ parts) in
    let later = strip_segments visit m (suc i) (next ∷ parts) in
    elim (first_entry (λ key. bytes_eq key suffix || ends_at key suffix) (visit i m)) [
      | some found ↦ some found
      | none ↦ later
    ]

unfoldable pub resolve_file_lines :
    Visit → Entries (List DiffLine) → Bytes → Option (Bytes × List DiffLine)
resolve_file_lines visit m file_path = elim (find_entry file_path m) [
  | some lines ↦ some (file_path, lines)
  | none ↦
      let clean = trim_prefix file_path (codes "/") in
      elim (first_entry (λ key. ends_at key clean) (visit 0 m)) [
        | some found ↦ some found
        | none ↦ strip_segments visit m 1 (split b'/' clean)
      ]
]
