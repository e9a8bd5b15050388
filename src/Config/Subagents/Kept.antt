-- ===== src/Config/Subagents/Kept.antt =====
-- Lines that are put in at a line end keep what a front matter disables.
use opencode_reviewer.Prelude.{
  ℕ, Bool, true, false, not, ◌&&◌, ◌||◌, List, [], ◌∷◌, ◌++◌, append-nil, ◌==◌, ◌≡◌, refl, sym, ap,
  ◌∙◌, arith, Bool-cases, inl, inr, All,
}
use opencode_reviewer.GoText.{
  Bytes, codes, bytes_eq, bytes_eq_iff, has_prefix, has_prefix-append, contains, split,
  split-append, trim_space,
}
use opencode_reviewer.Config.Subagents.Free.{Rest}
use opencode_reviewer.Config.Subagents.Restrict.{
  disallowed, ends_entry, disabled_in_list, has_disabled_tool,
}

abbrev pub NoLineEnd : Bytes → Type 0
NoLineEnd p = All (λ y. (10 == y) ≡ false) p

abbrev pub no_line_end : Bytes → Bool
no_line_end [] = true
no_line_end (y ∷ p) = not (10 == y) && no_line_end p

pub NoLineEnd-no_line_end : (p : Bytes) → no_line_end p ≡ true → NoLineEnd p
NoLineEnd-no_line_end [] h = tt
NoLineEnd-no_line_end (y ∷ p) h = (ground arith, NoLineEnd-no_line_end p (ground arith))

has_prefix-line_cut : (s w p : Bytes) → NoLineEnd p → has_prefix (s ++ (10 ∷ w)) p ≡ has_prefix s p
unfolding has_prefix
has_prefix-line_cut s w [] h = refl
has_prefix-line_cut [] w (y ∷ p) (h, _) = rw h refl
has_prefix-line_cut (c ∷ s) w (y ∷ p) (_, h) = ap (λ b. c == y && b) (has_prefix-line_cut s w p h)

or_assoc : (a b c : Bool) → (a || (b || c)) ≡ ((a || b) || c)
or_assoc true b c = refl
or_assoc false b c = refl

-- A text without line ends occurs in front of a line end, or behind its start.
contains-line_cut :
    (u w p : Bytes) (y : ℕ)
    → NoLineEnd (y ∷ p)
    → contains (u ++ (10 ∷ w)) (y ∷ p) ≡ (contains u (y ∷ p) || contains (10 ∷ w) (y ∷ p))
unfolding contains
contains-line_cut [] w p y h = refl
contains-line_cut (c ∷ u) w p y h =
    ap (λ b. b || contains (u ++ (10 ∷ w)) (y ∷ p)) (has_prefix-line_cut (c ∷ u) w (y ∷ p) h)
    ∙ ap (λ b. has_prefix (c ∷ u) (y ∷ p) || b) (contains-line_cut u w p y h)
    ∙ or_assoc (has_prefix (c ∷ u) (y ∷ p)) (contains u (y ∷ p)) (contains (10 ∷ w) (y ∷ p))

kept_behind : (a b c : Bool) → (a || c) ≡ true → (a || (b || c)) ≡ true
kept_behind true b c h = refl
kept_behind false true c h = refl
kept_behind false false c h = h

or_true : (b : Bool) → (b || true) ≡ true
or_true true = refl
or_true false = refl

clash : {b : Bool} → b ≡ true → b ≡ false → ⊥
clash h k = absurd (cc)

module _ (u ins : Bytes) where
  -- The text with the lines put in.
  abbrev pub with_lines : Bytes → Bytes
  with_lines v = u ++ ((10 ∷ ins) ++ v)

  contains-with_lines :
      (v p : Bytes) (y : ℕ)
      → Rest v
      → NoLineEnd (y ∷ p)
      → contains (u ++ v) (y ∷ p) ≡ true
      → contains (with_lines v) (y ∷ p) ≡ true
  contains-with_lines v p y (inl e) h found =
      let here : contains u (y ∷ p) ≡ true =
        ap (λ t. contains t (y ∷ p)) (sym (append-nil u) ∙ sym (ap (λ t. u ++ t) e)) ∙ found in
      contains-line_cut u (ins ++ v) p y h ∙ ap (λ b. b || contains (10 ∷ (ins ++ v)) (y ∷ p)) here
  contains-with_lines v p y (inr (w, e)) h found =
      let old = sym (ap (λ t. contains (u ++ t) (y ∷ p)) e ∙ contains-line_cut u w p y h) ∙ found in
      contains-line_cut u (ins ++ v) p y h
      ∙ ap (λ t. contains u (y ∷ p) || contains (10 ∷ (ins ++ t)) (y ∷ p)) e
      ∙ ap (λ b. contains u (y ∷ p) || b) (contains-line_cut (10 ∷ ins) w p y h)
      ∙ kept_behind (contains u (y ∷ p)) (contains (10 ∷ ins) (y ∷ p)) (contains (10 ∷ w) (y ∷ p))
          old

-- A line that neither begins an entry nor forbids one.
abbrev pub IsNeutral : Bytes → Type 0
IsNeutral line =
    (has_prefix (trim_space line) (codes "- type: ") ≡ false)
    × (bytes_eq (trim_space line) (codes "allowed: false") ≡ false)

disallowed-neutral : (ms ys : List Bytes) → All IsNeutral ms → disallowed (ms ++ ys) ≡ disallowed ys
unfolding disallowed
disallowed-neutral [] ys h = refl
disallowed-neutral (m ∷ ms) ys ((a, b), h) = rw (a, b) (disallowed-neutral ms ys h)

ends_entry-neutral : (ms ys : List Bytes) → All IsNeutral ms → ends_entry (ms ++ ys) ≡ ends_entry ys
unfolding ends_entry
ends_entry-neutral [] ys h = refl
ends_entry-neutral (m ∷ ms) ys ((a, b), h) = rw a (ends_entry-neutral ms ys h)

disallowed-same :
    (xs ys zs : List Bytes)
    → disallowed ys ≡ disallowed zs
    → disallowed (xs ++ ys) ≡ disallowed (xs ++ zs)
unfolding disallowed
disallowed-same [] ys zs e = e
disallowed-same (x ∷ xs) ys zs e = rw (disallowed-same xs ys zs e) refl

ends_entry-same :
    (xs ys zs : List Bytes)
    → ends_entry ys ≡ ends_entry zs
    → ends_entry (xs ++ ys) ≡ ends_entry (xs ++ zs)
unfolding ends_entry
ends_entry-same [] ys zs e = e
ends_entry-same (x ∷ xs) ys zs e = rw (ends_entry-same xs ys zs e) refl

-- A line that begins no entry is not the entry of a tool.
no_entry :
    (line tool : Bytes)
    → has_prefix line (codes "- type: ") ≡ false
    → bytes_eq line (codes "- type: " ++ tool) ≡ false
no_entry line tool h = elim (Bool-cases (bytes_eq line (codes "- type: " ++ tool))) [
  | inr other ↦ other
  | inl same ↦
      let e = (bytes_eq_iff line (codes "- type: " ++ tool)).0 same in
      let begins : has_prefix line (codes "- type: ") ≡ true =
        ap (λ t. has_prefix t (codes "- type: ")) e ∙ has_prefix-append (codes "- type: ") tool in
      absurd (clash begins h)
]

module _ (tool : Bytes) where
  disabled-neutral :
      (ms ys : List Bytes)
      → All IsNeutral ms
      → disabled_in_list tool (ms ++ ys) ≡ disabled_in_list tool ys
  unfolding disabled_in_list
  disabled-neutral [] ys h = refl
  disabled-neutral (m ∷ ms) ys ((a, b), h) =
      rw (no_entry (trim_space m) tool a) (disabled-neutral ms ys h)

  disabled-same :
      (xs ys zs : List Bytes)
      → disallowed ys ≡ disallowed zs
      → ends_entry ys ≡ ends_entry zs
      → disabled_in_list tool ys ≡ disabled_in_list tool zs
      → disabled_in_list tool (xs ++ ys) ≡ disabled_in_list tool (xs ++ zs)
  unfolding disabled_in_list
  disabled-same [] ys zs d n e = e
  disabled-same (x ∷ xs) ys zs d n e =
      rw (disallowed-same xs ys zs d, ends_entry-same xs ys zs n, disabled-same xs ys zs d n e) refl

  disabled-inserted :
      (xs ms ys : List Bytes)
      → All IsNeutral ms
      → disabled_in_list tool (xs ++ (ms ++ ys)) ≡ disabled_in_list tool (xs ++ ys)
  disabled-inserted xs ms ys h =
      disabled-same xs (ms ++ ys) ys (disallowed-neutral ms ys h) (ends_entry-neutral ms ys h)
        (disabled-neutral ms ys h)

  module _ (u ins : Bytes) (neutral : All IsNeutral (split 10 ins)) where
    lines-with_lines :
        (v : Bytes)
        → Rest v
        → disabled_in_list tool (split 10 (with_lines u ins v))
          ≡ disabled_in_list tool (split 10 (u ++ v))
    lines-with_lines v (inl e) =
        let lines = split 10 u in
        ap (λ t. disabled_in_list tool (split 10 (with_lines u ins t))) e
        ∙ ap (disabled_in_list tool) (split-append 10 u (ins ++ []))
        ∙ ap (λ t. disabled_in_list tool (lines ++ split 10 t)) (append-nil ins)
        ∙ ap (λ l. disabled_in_list tool (lines ++ l)) (sym (append-nil (split 10 ins)))
        ∙ disabled-inserted lines (split 10 ins) [] neutral
        ∙ ap (disabled_in_list tool) (append-nil lines)
        ∙ ap (λ t. disabled_in_list tool (split 10 t)) (sym (append-nil u))
        ∙ ap (λ t. disabled_in_list tool (split 10 (u ++ t))) (sym e)
    lines-with_lines v (inr (w, e)) =
        ap (λ t. disabled_in_list tool (split 10 (with_lines u ins t))) e
        ∙ ap (disabled_in_list tool) (split-append 10 u (ins ++ (10 ∷ w)))
        ∙ ap (λ l. disabled_in_list tool (split 10 u ++ l)) (split-append 10 ins w)
        ∙ disabled-inserted (split 10 u) (split 10 ins) (split 10 w) neutral
        ∙ ap (disabled_in_list tool) (sym (split-append 10 u w))
        ∙ ap (λ t. disabled_in_list tool (split 10 (u ++ t))) (sym e)

or_kept : (a b c d : Bool) → (a ≡ true → c ≡ true) → d ≡ b → (a || b) ≡ true → (c || d) ≡ true
or_kept true b c d f e h = rw (f refl) refl
or_kept false b true d f e h = refl
or_kept false b false d f e h = e ∙ h

-- What the front matter disabled stays disabled.
pub has_disabled_tool-with_lines :
    (y : ℕ) (tool u ins v : Bytes)
    → NoLineEnd (y ∷ tool ++ codes ": false")
    → All IsNeutral (split 10 ins)
    → Rest v
    → has_disabled_tool (u ++ v) (y ∷ tool) ≡ true
    → has_disabled_tool (with_lines u ins v) (y ∷ tool) ≡ true
unfolding has_disabled_tool
has_disabled_tool-with_lines y tool u ins v plain neutral rest h =
    or_kept (contains (u ++ v) (y ∷ (tool ++ codes ": false")))
      (disabled_in_list (y ∷ tool) (split 10 (u ++ v)))
      (contains (with_lines u ins v) (y ∷ (tool ++ codes ": false")))
      (disabled_in_list (y ∷ tool) (split 10 (with_lines u ins v)))
      (contains-with_lines u ins v (tool ++ codes ": false") y rest plain)
      (lines-with_lines (y ∷ tool) u ins neutral v rest) h

contains-behind : (a s p : Bytes) → contains s p ≡ true → contains (a ++ s) p ≡ true
unfolding contains
contains-behind [] s p h = h
contains-behind (c ∷ a) s p h = rw (contains-behind a s p h) (or_true (has_prefix (c ∷ (a ++ s)) p))

-- What the lines disable is disabled.
pub has_disabled_tool-lines :
    (tool u ins v : Bytes)
    → contains ((10 ∷ ins) ++ v) (tool ++ codes ": false") ≡ true
    → has_disabled_tool (with_lines u ins v) tool ≡ true
unfolding has_disabled_tool
has_disabled_tool-lines tool u ins v h =
    rw (contains-behind u ((10 ∷ ins) ++ v) (tool ++ codes ": false") h) refl
