-- ===== src/Config/Subagents/Lines.antt =====
-- internal/shared/subagentconfig/subagentconfig.go: the lines that the safety net puts in, for each
-- choice of the missing tools.

use mathlib.Core.Path.{subst}
use opencode_reviewer.Prelude.{
  append_assoc, sym, ℕ, true, List, [], ◌∷◌, ◌++◌, ◌≡◌, refl, ap, ◌∙◌, inl, inr, ◌⊎◌, All,
}
use opencode_reviewer.GoText.{Bytes, codes, contains, has_prefix, split, join, trim_space, bytes_eq}
use opencode_reviewer.Config.Subagents.Restrict.{
  closing, has_disabled_tool, submit_tools, joined_lines,
}
use opencode_reviewer.Config.Subagents.Free.{Free, dashless, Free-dashless, Rest}
use opencode_reviewer.Config.Subagents.Kept.{
  with_lines, no_line_end, NoLineEnd-no_line_end, IsNeutral, has_disabled_tool-with_lines,
  has_disabled_tool-lines,
}

-- Both tools are disabled in a front matter.
abbrev pub BothDisabled : Bytes → Type 0
BothDisabled fm =
    (has_disabled_tool fm (codes "submit_review") ≡ true)
    × (has_disabled_tool fm (codes "submit_final_review") ≡ true)

-- A line of its own that says that the tool is disabled.
abbrev pub HasLine : Bytes → Bytes → Type 0
HasLine fm tool =
    (a : Bytes) × (z : Bytes) × (fm ≡ a ++ ((codes "\n  " ++ (tool ++ codes ": false")) ++ z))
    × Rest z

-- The front matter disables the tool itself, or there is such a line in the new one.
abbrev pub IsShown : Bytes → Bytes → Bytes → Type 0
IsShown fm new tool = (has_disabled_tool fm tool ≡ true) ⊎ HasLine new tool

-- The lines that are put in are no mark, and disable what the front matter does not.
pub record Disables (fm ins : Bytes) : Type 0 where
  pub free : (z : Bytes) → Free closing (10 ∷ ins) z
  pub both : (u v : Bytes) → u ++ v ≡ fm → Rest v → BothDisabled (with_lines u ins v)
  pub shown :
      (u v : Bytes)
      → Rest v
      → IsShown fm (with_lines u ins v) (codes "submit_review")
        × IsShown fm (with_lines u ins v) (codes "submit_final_review")

module _ (fm ins : Bytes) (neutral : All IsNeutral (split 10 ins)) where
  -- A tool that the front matter disables, or the lines.
  abbrev IsTakenAway : Bytes → Type 0
  IsTakenAway tool =
      (has_disabled_tool fm tool ≡ true)
      ⊎ ((v : Bytes) → contains ((10 ∷ ins) ++ v) (tool ++ codes ": false") ≡ true)

  -- A tool that the front matter disables, or a line of the lines.
  abbrev IsIn : Bytes → Type 0
  IsIn tool =
      (has_disabled_tool fm tool ≡ true)
      ⊎ ((a : Bytes) × (z : Bytes) × ((10 ∷ ins)
            ≡ a ++ ((codes "\n  " ++ (tool ++ codes ": false")) ++ z))
          × Rest z)

  Rest-append : (z v : Bytes) → Rest z → Rest v → Rest (z ++ v)
  Rest-append z v (inl e) r = subst (λ t. Rest (t ++ v)) (sym e) r
  Rest-append z v (inr (t, e)) r = inr (t ++ v, ap (λ x. x ++ v) e)

  IsIn-IsShown : (tool u v : Bytes) → IsIn tool → Rest v → IsShown fm (with_lines u ins v) tool
  IsIn-IsShown tool u v (inl h) r = inl h
  IsIn-IsShown tool u v (inr (a, z, cut, rest)) r =
      inr (u ++ a, z ++ v, ap (λ t. u ++ (t ++ v)) cut ∙ simp append_assoc, Rest-append z v rest r)

  taken_away :
      (y : ℕ) (tool : Bytes)
      → no_line_end (y ∷ tool ++ codes ": false") ≡ true
      → IsTakenAway (y ∷ tool)
      → (u v : Bytes) → u ++ v ≡ fm
      → Rest v
      → has_disabled_tool (with_lines u ins v) (y ∷ tool) ≡ true
  taken_away y tool plain (inl h) u v e rest =
      has_disabled_tool-with_lines y tool u ins v
        (NoLineEnd-no_line_end (y ∷ tool ++ codes ": false") plain) neutral rest
        (ap (λ t. has_disabled_tool t (y ∷ tool)) e ∙ h)
  taken_away y tool plain (inr f) u v e rest = has_disabled_tool-lines (y ∷ tool) u ins v (f v)

  Disables-lines :
      dashless (10 ∷ ins) ≡ true
      → IsTakenAway (codes "submit_review")
      → IsTakenAway (codes "submit_final_review")
      → IsIn (codes "submit_review")
      → IsIn (codes "submit_final_review")
      → Disables fm ins
  Disables-lines safe review final review_in final_in = record {
    free = λ z. Free-dashless (10 ∷ ins) z safe;
    shown = λ u v rest. (
      IsIn-IsShown (codes "submit_review") u v review_in rest,
      IsIn-IsShown (codes "submit_final_review") u v final_in rest,
    );
    both = λ u v e rest. (
      taken_away b's' (codes "ubmit_review") refl review u v e rest,
      taken_away b's' (codes "ubmit_final_review") refl final u v e rest,
    );
  }

-- The lines for the missing tools, in both forms of the block.
module _ (fm : Bytes) where
  abbrev pub Lines : List Bytes → Type 0
  Lines missing =
      Disables fm (joined_lines missing) × Disables fm (codes "tools:\n" ++ joined_lines missing)

  pub Lines-both : Lines submit_tools
  unfolding contains has_prefix join split trim_space bytes_eq
  Lines-both = (
    Disables-lines fm (joined_lines submit_tools) ((refl, refl), ((refl, refl), tt)) refl
        (inr (λ v. refl)) (inr (λ v. refl))
        (inr (
          [],
          codes "\n  submit_final_review: false",
          refl,
          inr (codes "  submit_final_review: false", refl),
        ))
        (inr (codes "\n  submit_review: false", [], refl, inl refl)),
    Disables-lines fm (codes "tools:\n" ++ joined_lines submit_tools)
        ((refl, refl), ((refl, refl), ((refl, refl), tt))) refl (inr (λ v. refl)) (inr (λ v. refl))
        (inr (
          codes "\ntools:",
          codes "\n  submit_final_review: false",
          refl,
          inr (codes "  submit_final_review: false", refl),
        ))
        (inr (codes "\ntools:\n  submit_review: false", [], refl, inl refl)),
  )

  pub Lines-review :
      has_disabled_tool fm (codes "submit_final_review") ≡ true → Lines (codes "submit_review" ∷ [])
  unfolding contains has_prefix join split trim_space bytes_eq
  Lines-review h = (
    Disables-lines fm (joined_lines (codes "submit_review" ∷ [])) ((refl, refl), tt) refl
        (inr (λ v. refl)) (inl h) (inr ([], [], refl, inl refl)) (inl h),
    Disables-lines fm (codes "tools:\n" ++ joined_lines (codes "submit_review" ∷ []))
        ((refl, refl), ((refl, refl), tt)) refl (inr (λ v. refl)) (inl h)
        (inr (codes "\ntools:", [], refl, inl refl)) (inl h),
  )

  pub Lines-final :
      has_disabled_tool fm (codes "submit_review") ≡ true → Lines (codes "submit_final_review" ∷ [])
  unfolding contains has_prefix join split trim_space bytes_eq
  Lines-final h = (
    Disables-lines fm (joined_lines (codes "submit_final_review" ∷ [])) ((refl, refl), tt) refl
        (inl h) (inr (λ v. refl)) (inl h) (inr ([], [], refl, inl refl)),
    Disables-lines fm (codes "tools:\n" ++ joined_lines (codes "submit_final_review" ∷ []))
        ((refl, refl), ((refl, refl), tt)) refl (inl h) (inr (λ v. refl)) (inl h)
        (inr (codes "\ntools:", [], refl, inl refl)),
  )
