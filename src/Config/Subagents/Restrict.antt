-- ===== src/Config/Subagents/Restrict.antt =====
-- internal/shared/subagentconfig/subagentconfig.go: `validate`, and the tools that a prompt's front
-- matter disables.
use opencode_reviewer.Prelude.{
  ℕ, ◌+◌, ◌-◌, Bool, true, false, not, ◌&&◌, ◌||◌, List, [], ◌∷◌, ◌++◌, Option, none, some,
  if◌then◌else◌, take, drop, length,
}
use opencode_reviewer.GoText.{
  Bytes, codes, bytes_eq, is_empty, has_prefix, trim_prefix, index, contains, split, join,
  trim_space,
}

pub data PromptErr : Type 0 where
  no_front_matter : Bytes → PromptErr
  not_closed : Bytes → PromptErr
  no_mode : Bytes → PromptErr

abbrev pub mark : Bytes
mark = codes "---"

abbrev pub closing : Bytes
closing = codes "\n---"

abbrev mode_error : Bytes → Bytes → Option PromptErr
mode_error name front_matter =
    if contains front_matter (codes "mode: subagent")
      || contains front_matter (codes "mode:subagent")
    then none
    else some (no_mode name)

-- The error of a prompt, if it has one.
unfoldable pub validate : Bytes → Bytes → Option PromptErr
unfolding trim_space has_prefix index contains
validate name content =
    let trimmed = trim_space content in
    if not (has_prefix trimmed mark)
    then some (no_front_matter name)
    else let rest = drop 3 trimmed in
      elim (index rest closing) [
        | none ↦ some (not_closed name)
        | some idx ↦ mode_error name (take idx rest)
      ]

-- The lines behind `- type: <tool>`, up to the next entry.
unfoldable pub disallowed : List Bytes → Bool
unfolding trim_space has_prefix bytes_eq
disallowed [] = false
disallowed (line ∷ lines) =
    let rest = disallowed lines in
    if has_prefix (trim_space line) (codes "- type: ")
    then false
    else if bytes_eq (trim_space line) (codes "allowed: false")
    then true
    else rest

-- Another entry follows.
unfoldable pub ends_entry : List Bytes → Bool
unfolding trim_space has_prefix
ends_entry [] = false
ends_entry (line ∷ lines) = has_prefix (trim_space line) (codes "- type: ") || ends_entry lines

-- The loop over the lines: the first entry of the tool that has an answer gives it.
unfoldable pub disabled_in_list : Bytes → List Bytes → Bool
unfolding disallowed ends_entry bytes_eq trim_space
disabled_in_list tool [] = false
disabled_in_list tool (line ∷ lines) =
    let later = disabled_in_list tool lines in
    if bytes_eq (trim_space line) (codes "- type: " ++ tool)
    then if disallowed lines then true else if ends_entry lines then false else later
    else later

unfoldable pub has_disabled_tool : Bytes → Bytes → Bool
unfolding contains disabled_in_list split
has_disabled_tool front_matter tool =
    contains front_matter (tool ++ codes ": false")
    || disabled_in_list tool (split b'\n' front_matter)

-- The value of `allowed` of an entry, among the lines behind its first.
unfoldable pub allowed_of : List Bytes → Bytes
unfolding trim_space trim_prefix has_prefix
allowed_of [] = codes "true"
allowed_of (line ∷ lines) =
    let rest = allowed_of lines in
    if has_prefix (trim_space line) (codes "- type: ")
    then codes "true"
    else if has_prefix (trim_space line) (codes "allowed: ")
    then trim_space (trim_prefix (trim_space line) (codes "allowed: "))
    else rest

-- The entries of a list of tools, each with its permission, as lines of a map.
unfoldable pub permission_lines : List Bytes → Bytes
unfolding allowed_of trim_space trim_prefix has_prefix
permission_lines [] = []
permission_lines (line ∷ lines) =
    let rest = permission_lines lines in
    if has_prefix (trim_space line) (codes "- type: ")
    then codes "\n  "
      ++ (trim_space (trim_prefix (trim_space line) (codes "- type: "))
          ++ (codes ": " ++ (allowed_of lines ++ rest)))
    else rest

unfoldable pub normalize_list_tools_block : Bytes → Bytes
unfolding permission_lines split
normalize_list_tools_block block = codes "tools:" ++ permission_lines (split b'\n' block)

-- A line that is not blank and not indented.
unfoldable pub top_level : Bytes → Bool
unfolding trim_space has_prefix
top_level line =
    not (is_empty (trim_space line))
    && (not (has_prefix line (codes " ")) && not (has_prefix line (codes "\t")))

-- The position of the first such line, from `pos` on.
unfoldable pub block_end : ℕ → List Bytes → ℕ → ℕ
unfolding top_level
block_end pos [] front_matter_end = front_matter_end
block_end pos (line ∷ lines) front_matter_end =
    let rest = block_end (pos + length line + 1) lines front_matter_end in
    if top_level line then pos else rest

-- `content[from:to]`
abbrev pub slice : ℕ → ℕ → Bytes → Bytes
slice from to content = take (to - from) (drop from content)

unfoldable pub find_tools_block_end : Bytes → ℕ → ℕ → ℕ
unfolding block_end split
find_tools_block_end content start front_matter_end =
    block_end start (split b'\n' (slice start front_matter_end content)) front_matter_end

abbrev pub submit_tools : List Bytes
submit_tools = codes "submit_review" ∷ codes "submit_final_review" ∷ []

-- The tools that the front matter does not disable.
unfoldable pub missing_tools : Bytes → List Bytes → List Bytes
unfolding has_disabled_tool
missing_tools front_matter [] = []
missing_tools front_matter (tool ∷ tools) =
    let rest = missing_tools front_matter tools in
    if has_disabled_tool front_matter tool then rest else tool ∷ rest

abbrev pub false_line : Bytes → Bytes
false_line tool = codes "  " ++ (tool ++ codes ": false")

abbrev pub false_lines : List Bytes → List Bytes
false_lines [] = []
false_lines (tool ∷ tools) = false_line tool ∷ false_lines tools

-- The loop over the missing lines, on a block that is normalized.
unfoldable pub add_missing : Bytes → List Bytes → Bytes
unfolding contains
add_missing normalized [] = normalized
add_missing normalized (tool ∷ tools) =
    add_missing
      (if contains normalized (codes "\n  " ++ (tool ++ codes ": "))
        then normalized
        else normalized ++ (codes "\n  " ++ (tool ++ codes ": false")))
      tools

-- The front matter is `content[fm_start:fm_end]`; `tools_at` is the position of its first `tools:`
-- and `line_end` the length of the line there. The three ways to add the missing tools:
unfoldable pub rewrite_list : Bytes → List Bytes → ℕ → ℕ → ℕ → Bytes
unfolding find_tools_block_end normalize_list_tools_block add_missing
rewrite_list content missing tools_at line_end fm_end =
    let end_at = find_tools_block_end content (tools_at + line_end + 1) fm_end in
    take tools_at content
    ++ (add_missing (normalize_list_tools_block (slice tools_at end_at content)) missing
        ++ drop end_at content)

unfoldable pub insert_lines : Bytes → Bytes → ℕ → Bytes
insert_lines content block at = take at content ++ (codes "\n" ++ (block ++ drop at content))

abbrev pub joined_lines : List Bytes → Bytes
joined_lines missing = join (codes "\n") (false_lines missing)

module _ (content : Bytes) (missing : List Bytes) (has_list_tools : Bool)
    (fm_start fm_length : ℕ) where
  -- From the line end behind `tools:`; without one the source panics.
  abbrev pub at_line_end : ℕ → Option ℕ → Option Bytes
  at_line_end tools_at none = none
  at_line_end tools_at (some line_end) = some (
      if has_list_tools
      then rewrite_list content missing tools_at line_end (fm_start + fm_length)
      else insert_lines content (joined_lines missing) (tools_at + line_end))

  -- From the place of `tools:` in the front matter.
  abbrev pub at_tools : Option ℕ → Option Bytes
  at_tools none =
      some (insert_lines content (codes "tools:\n" ++ joined_lines missing) (fm_start + fm_length))
  at_tools (some tools_rel) =
      at_line_end (fm_start + tools_rel) (index (drop (fm_start + tools_rel) content) (codes "\n"))

abbrev pub list_entry : Bytes
list_entry = codes "\n  - type:"

-- `ensureToolRestrictions` on a content with that front matter, which begins at `fm_start`.
unfoldable pub restrict : Bytes → Bytes → ℕ → Option Bytes
unfolding missing_tools rewrite_list insert_lines index contains join
restrict content front_matter fm_start =
    let has_list_tools = contains front_matter list_entry in
    let missing = missing_tools front_matter submit_tools in
    if is_empty missing && not has_list_tools
    then some content
    else at_tools content missing has_list_tools fm_start (length front_matter)
        (index front_matter (codes "tools:"))

unfoldable pub ensure_tool_restrictions : Bytes → Option Bytes
unfolding restrict index
ensure_tool_restrictions content = elim (index content mark) [
  | none ↦ none
  | some opened ↦ elim (index (drop (opened + 3) content) closing) [
    | none ↦ none
    | some close ↦ restrict content (take close (drop (opened + 3) content)) (opened + 3)
  ]
]
