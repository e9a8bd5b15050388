-- ===== src/Config/Subagents/Meaning.antt =====
-- internal/shared/subagentconfig/subagentconfig.go: what it means that `hasDisabledTool` says yes.
use opencode_reviewer.Prelude.{
  ℕ, if◌then◌else◌, Bool, true, false, List, [], ◌∷◌, ◌++◌, All, drop, length, ◌≡◌, ◌⊎◌, refl, ap,
  inl, inr, Bool-cases,
}
use opencode_reviewer.GoText.{
  has_prefix-drop, Bytes, codes, bytes_eq, bytes_eq_iff, has_prefix, contains, split, trim_space,
}
use opencode_reviewer.Config.Subagents.Restrict.{has_disabled_tool, disabled_in_list, disallowed}

-- The lines have an answer `allowed: false` in front of the next entry.
pub record IsDisallowed (lines : List Bytes) : Type 0 where
  pub block : List Bytes
  pub answer : Bytes
  pub after : List Bytes
  pub cut : lines ≡ block ++ (answer ∷ after)
  pub no_entry : All (λ line. has_prefix (trim_space line) (codes "- type: ") ≡ false) block
  pub says_no : trim_space answer ≡ codes "allowed: false"

-- The lines have an entry of the tool with that answer.
pub record IsListed (tool : Bytes) (lines : List Bytes) : Type 0 where
  pub before : List Bytes
  pub entry : Bytes
  pub behind : List Bytes
  pub cut : lines ≡ before ++ (entry ∷ behind)
  pub is_entry : trim_space entry ≡ codes "- type: " ++ tool
  pub disallowed : IsDisallowed behind

-- The text has `<tool>: false` in it, or an entry of the tool that is not allowed.
abbrev pub IsDisabled : Bytes → Bytes → Type 0
IsDisabled fm tool =
    ((a : Bytes) × (z : Bytes) × (fm ≡ a ++ ((tool ++ codes ": false") ++ z)))
    ⊎ IsListed tool (split b'\n' fm)

disallowed-IsDisallowed : (lines : List Bytes) → disallowed lines ≡ true → IsDisallowed lines
unfolding disallowed
disallowed-IsDisallowed [] h = absurd cc
disallowed-IsDisallowed (line ∷ lines) h =
    elim (Bool-cases (has_prefix (trim_space line) (codes "- type: "))) [
      | inl e ↦ absurd (let x = (rw e at h) in cc)
      | inr e ↦ elim (Bool-cases (bytes_eq (trim_space line) (codes "allowed: false"))) [
        | inl a ↦ record {
          block = [];
          answer = line;
          after = lines;
          cut = refl;
          no_entry = tt;
          says_no = (bytes_eq_iff (trim_space line) (codes "allowed: false")).0 a;
        }
        | inr a ↦
            let rest = disallowed-IsDisallowed lines (rw (e, a) at h) in
            record {
              block = line ∷ rest.block;
              answer = rest.answer;
              after = rest.after;
              cut = ap (λ l. line ∷ l) rest.cut;
              no_entry = (e, rest.no_entry);
              says_no = rest.says_no;
            }
      ]
    ]

later_lem : (b later : Bool) → (if b then false else later) ≡ true → later ≡ true
later_lem true later h = absurd cc
later_lem false later h = h

module _ (tool : Bytes) where
  IsListed-later :
      (line : Bytes) (lines : List Bytes) → IsListed tool lines → IsListed tool (line ∷ lines)
  IsListed-later line lines h = record {
    before = line ∷ h.before;
    entry = h.entry;
    behind = h.behind;
    cut = ap (λ l. line ∷ l) h.cut;
    is_entry = h.is_entry;
    disallowed = h.disallowed;
  }

  disabled_in_list-IsListed :
      (lines : List Bytes) → disabled_in_list tool lines ≡ true → IsListed tool lines
  unfolding disabled_in_list
  disabled_in_list-IsListed [] h = absurd cc
  disabled_in_list-IsListed (line ∷ lines) h =
      elim (Bool-cases (bytes_eq (trim_space line) (codes "- type: " ++ tool))) [
        | inr e ↦ IsListed-later line lines (disabled_in_list-IsListed lines (rw e at h))
        | inl e ↦ elim (Bool-cases (disallowed lines)) [
          | inl d ↦ record {
            before = [];
            entry = line;
            behind = lines;
            cut = refl;
            is_entry = (bytes_eq_iff (trim_space line) (codes "- type: " ++ tool)).0 e;
            disallowed = disallowed-IsDisallowed lines d;
          }
          | inr d ↦
              IsListed-later line lines
                (disabled_in_list-IsListed lines (later_lem _ _ (rw (e, d) at h)))
        ]
      ]

contains-cut :
    (s p : Bytes) (y : ℕ)
    → contains s (y ∷ p) ≡ true
    → (a : Bytes) × (z : Bytes) × (s ≡ a ++ ((y ∷ p) ++ z))
unfolding contains
contains-cut [] p y h = absurd cc
contains-cut (c ∷ s) p y h = elim (Bool-cases (has_prefix (c ∷ s) (y ∷ p))) [
  | inl e ↦ ([], drop (length (y ∷ p)) (c ∷ s), has_prefix-drop (c ∷ s) (y ∷ p) e)
  | inr e ↦ let (a, z, cut) = contains-cut s p y (rw e at h) in (c ∷ a, z, ap (λ t. c ∷ t) cut)
]

module _ (fm : Bytes) (y : ℕ) (tool : Bytes) where
  pub has_disabled_tool-IsDisabled :
      has_disabled_tool fm (y ∷ tool) ≡ true → IsDisabled fm (y ∷ tool)
  unfolding has_disabled_tool
  has_disabled_tool-IsDisabled h = elim (Bool-cases (contains fm (y ∷ tool ++ codes ": false"))) [
    | inl e ↦ inl (contains-cut fm (tool ++ codes ": false") y e)
    | inr e ↦ inr (disabled_in_list-IsListed (y ∷ tool) (split b'\n' fm) (rw e at h))
  ]
