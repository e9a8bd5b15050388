-- ===== src/Config/Subagents/Disabled.antt =====
-- internal/shared/subagentconfig/subagentconfig.go: the safety net takes both tools from a sub-agent
-- whose tools are a map.
use mathlib.Core.Path.{subst}
use opencode_reviewer.Prelude.{
  ℕ, ◌+◌, Bool, true, false, List, [], ◌∷◌, ◌++◌, append_assoc, append-nil, Option, none, some,
  length, length-append, drop, drop-append, ◌≡◌, refl, sym, ap, ◌∙◌, arith, inl, inr, ◌⊎◌,
}
use opencode_reviewer.GoText.{Bytes, codes, index, contains}
use opencode_reviewer.Config.Subagents.Restrict.{
  mark, closing, has_disabled_tool, submit_tools, missing_tools, joined_lines, insert_lines,
  list_entry, at_tools, at_line_end, restrict, ensure_tool_restrictions,
}
use opencode_reviewer.Config.Subagents.Free.{index-IsCut, LineEnd-found, LineEnd, Rest}
use opencode_reviewer.Config.Subagents.Meaning.{IsDisabled, has_disabled_tool-IsDisabled}
use opencode_reviewer.Config.Subagents.Kept.{with_lines}
use opencode_reviewer.Config.Subagents.Parts.{
  Parts, front_matter_of, front_matter_of-Parts, ensure-Parts, Parts-front_matter_of,
  inserted-Parts, same_parts,
}
use opencode_reviewer.Config.Subagents.Lines.{
  BothDisabled, Disables, HasLine, IsShown, Lines-both, Lines-review, Lines-final,
}

-- A content with a front matter in which `hasDisabledTool` finds both tools, and in which those that
-- the front matter `fm` does not disable have a line.
abbrev IsFound : Bytes → Option Bytes → Type 0
IsFound fm none = ⊥
IsFound fm (some r) =
    (new : Bytes) × (front_matter_of r ≡ some new)
    × BothDisabled new
    × (IsShown fm new (codes "submit_review") × IsShown fm new (codes "submit_final_review"))

-- The tool is disabled in the new front matter: by a line of its own, or as it was in the old one.
abbrev pub IsTaken : Bytes → Bytes → Bytes → Type 0
IsTaken fm new tool = IsDisabled new tool × (IsDisabled fm tool ⊎ HasLine new tool)

-- The outcome: a content with a front matter in which both tools are disabled.
abbrev pub Net : Bytes → Option Bytes → Type 0
Net fm none = ⊥
Net fm (some r) =
    (new : Bytes) × (front_matter_of r ≡ some new)
    × IsTaken fm new (codes "submit_review")
    × IsTaken fm new (codes "submit_final_review")

shown_before :
    (fm new : Bytes) (y : ℕ) (tool : Bytes)
    → IsShown fm new (y ∷ tool)
    → IsDisabled fm (y ∷ tool) ⊎ HasLine new (y ∷ tool)
shown_before fm new y tool (inl h) = inl (has_disabled_tool-IsDisabled fm y tool h)
shown_before fm new y tool (inr line) = inr line

found-Net : (fm : Bytes) (r : Option Bytes) → IsFound fm r → Net fm r
found-Net fm none found = found
found-Net fm (some r) (new, front, both, shown) = (
  new,
  front,
  (
    has_disabled_tool-IsDisabled new b's' (codes "ubmit_review") both.0,
    shown_before fm new b's' (codes "ubmit_review") shown.0,
  ),
  (
    has_disabled_tool-IsDisabled new b's' (codes "ubmit_final_review") both.1,
    shown_before fm new b's' (codes "ubmit_final_review") shown.1,
  ),
)

module _ (content fm : Bytes) (p : Parts content fm) where
  IsFound-inserted :
      (u v ins : Bytes) (at : ℕ)
      → fm ≡ u ++ v
      → Rest v
      → Disables fm ins
      → at ≡ (length p.pre + 3) + length u
      → IsFound fm (some (insert_lines content ins at))
  unfolding same_parts
  IsFound-inserted u v ins at e rest d here =
      let q : Parts content (u ++ v) = same_parts content p e in
      let r = insert_lines content ins ((length p.pre + 3) + length u) in
      subst (λ n. IsFound fm (some (insert_lines content ins n))) (sym here)
        (
          with_lines u ins v,
          front_matter_of-Parts r (with_lines u ins v)
              (inserted-Parts content u v ins q rest d.free),
          d.both u v (sym e) rest,
          d.shown u v rest,
        )

  IsFound-at_line_end :
      (missing : List Bytes) (a t : Bytes) (found : Option ℕ)
      → fm ≡ a ++ t
      → LineEnd t (codes "---" ++ p.post)
      → index (t ++ (closing ++ p.post)) (codes "\n") ≡ found
      → Disables fm (joined_lines missing)
      → IsFound fm (
          at_line_end content missing false
            (length p.pre + 3)
            (length fm)
            ((length p.pre + 3) + length a)
            found)
  IsFound-at_line_end missing a t found e (u, v, cut, rest, at) h d =
      subst
        (λ o. IsFound fm (
          at_line_end content missing false (length p.pre + 3) (length fm)
            ((length p.pre + 3) + length a) o))
        (sym at ∙ h)
        (IsFound-inserted (a ++ u) v (joined_lines missing)
          (((length p.pre + 3) + length a) + length u)
          (e ∙ ap (λ s. a ++ s) cut ∙ sym (append_assoc a u v)) rest d
          (omega (arith, length-append a u)))

  -- The text from the place of `tools:` on.
  behind_tools :
      (a t : Bytes)
      → fm ≡ a ++ t
      → drop ((length p.pre + 3) + length a) content ≡ t ++ (closing ++ p.post)
  behind_tools a t e =
      let b = closing ++ p.post in
      let front = p.pre ++ (mark ++ a) in
      let cut : content ≡ front ++ (t ++ b) =
        p.whole
        ∙ ap (λ s. p.pre ++ (mark ++ (s ++ b))) e
        ∙ ap (λ s. p.pre ++ (mark ++ s)) (append_assoc a t b)
        ∙ sym (append_assoc p.pre (mark ++ a) (t ++ b)) in
      let size : (length p.pre + 3) + length a ≡ length front =
        omega (arith, length-append p.pre (mark ++ a)) in
      ap (λ n. drop n content) size ∙ ap (drop (length front)) cut ∙ drop-append front (t ++ b)

  IsFound-at_tools :
      (missing : List Bytes) (found : Option ℕ)
      → index fm (codes "tools:") ≡ found
      → Disables fm (joined_lines missing)
      → Disables fm (codes "tools:\n" ++ joined_lines missing)
      → IsFound fm (at_tools content missing false (length p.pre + 3) (length fm) found)
  IsFound-at_tools missing none h d e =
      IsFound-inserted fm [] (codes "tools:\n" ++ joined_lines missing)
        ((length p.pre + 3) + length fm) (sym (append-nil fm)) (inl refl) e refl
  IsFound-at_tools missing (some rel) h d e =
      let (a, z, cut, len, _) = index-IsCut fm (codes "ools:") b't' rel h in
      let t = codes "tools:" ++ z in
      subst
        (λ n. IsFound fm (
          at_line_end content missing false (length p.pre + 3) (length fm) ((length p.pre + 3) + n)
            (index (drop ((length p.pre + 3) + n) content) (codes "\n"))))
        len
        (IsFound-at_line_end missing a t
          (index (drop ((length p.pre + 3) + length a) content) (codes "\n")) cut
          (LineEnd-found t (codes "---" ++ p.post))
          (ap (λ s. index s (codes "\n")) (sym (behind_tools a t cut))) d)

module _ (content fm : Bytes) (p : Parts content fm) where
  IsFound-restrict :
      (a b : Bool)
      → has_disabled_tool fm (codes "submit_review") ≡ a
      → has_disabled_tool fm (codes "submit_final_review") ≡ b
      → contains fm list_entry ≡ false
      → IsFound fm (restrict content fm (length p.pre + 3))
  unfolding restrict missing_tools
  IsFound-restrict true true ha hb map_form =
      rw (map_form, restrict)
        (rw (ha, restrict)
          (rw (hb, restrict) (fm, front_matter_of-Parts content fm p, (ha, hb), (inl ha, inl hb))))
  IsFound-restrict false false ha hb map_form =
      let (d, e) = Lines-both fm in
      rw (map_form, restrict)
        (rw (ha, restrict)
          (rw (hb, restrict)
            (IsFound-at_tools content fm p submit_tools (index fm (codes "tools:")) refl d e)))
  IsFound-restrict false true ha hb map_form =
      let (d, e) = Lines-review fm hb in
      rw (map_form, restrict)
        (rw (ha, restrict)
          (rw (hb, restrict)
            (IsFound-at_tools content fm p (codes "submit_review" ∷ []) (index fm (codes "tools:"))
              refl d e)))
  IsFound-restrict true false ha hb map_form =
      let (d, e) = Lines-final fm ha in
      rw (map_form, restrict)
        (rw (ha, restrict)
          (rw (hb, restrict)
            (IsFound-at_tools content fm p (codes "submit_final_review" ∷ [])
              (index fm (codes "tools:")) refl d e)))

-- The safety net on a content that has a front matter whose tools are not a list: there is a result,
-- so no slice is out of range, and it has a front matter again, in which each of the two tools that
-- end a review counts as disabled: it has the text `<tool>: false`, or a line `- type: <tool>` that
-- the line `allowed: false` follows before another such entry. A tool that did not count as disabled
-- in the old front matter has a line `  <tool>: false` in the new one.
pub ensure_tool_restrictions-Net :
    (content fm : Bytes)
    → front_matter_of content ≡ some fm
    → contains fm list_entry ≡ false
    → Net fm (ensure_tool_restrictions content)
ensure_tool_restrictions-Net content fm found map_form =
    let p = Parts-front_matter_of content fm found in
    found-Net fm (ensure_tool_restrictions content) (
      subst (IsFound fm) (sym (ensure-Parts content fm p)) (
        IsFound-restrict content fm p (has_disabled_tool fm (codes "submit_review"))
          (has_disabled_tool fm (codes "submit_final_review")) refl refl map_form))
