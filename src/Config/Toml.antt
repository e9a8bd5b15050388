-- ===== src/Config/Toml.antt =====
-- internal/shared/config/tomlresolver.go: the value of a flag in a TOML file, by its name's parts.
use opencode_reviewer.Prelude.{List, [], ◌∷◌, Option, none, some, if◌then◌else◌}
use opencode_reviewer.GoText.{Bytes, codes, bytes_eq, join, split}

-- A value of the file: a table, or another value.
mutual
  pub data Value : Type 0 where
    table : Table → Value
    plain : Bytes → Value

  pub data Table : Type 0 where
    end : Table
    entry : Bytes → Value → Table → Table

-- `m[key]`
unfoldable pub lookup : Bytes → Table → Option Value
unfolding bytes_eq
lookup key end = none
lookup key (entry k v rest) = if bytes_eq k key then some v else lookup key rest

-- A section is a table.
abbrev section : Option Value → Option Table
section (some (table t)) = some t
section (some (plain v)) = none
section none = none

-- The exact name, else the rest of the name in the section of its first part. The last test of the
-- source asks for the only part again, which is the exact name.
unfoldable pub resolve : List Bytes → Table → Option Value
unfolding lookup join
resolve [] m = none
resolve (part ∷ []) m = lookup (join (codes "_") (part ∷ [])) m
resolve (part ∷ second ∷ parts) m =
    let nested : Option Value = elim (section (lookup part m)) [
      | some t ↦ resolve (second ∷ parts) t
      | none ↦ none
    ] in
    elim (lookup (join (codes "_") (part ∷ second ∷ parts)) m) [ some v ↦ some v | none ↦ nested ]

-- The value of a flag.
unfoldable pub flag_value : Table → Bytes → Option Value
unfolding resolve split
flag_value values name = resolve (split b'-' name) values
