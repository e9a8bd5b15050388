-- ===== src/Config/Subagents/Free.antt =====
-- Where a mark occurs first in a text, and what a text that is put in at a line end does to it.
use mathlib.Core.Path.{subst}
use mathlib.Core.Option
use opencode_reviewer.Prelude.{
  ℕ, suc, ◌≤◌, Bool, true, false, not, ◌&&◌, ◌||◌, [], ◌∷◌, ◌++◌, append_assoc, Option, none, some,
  length, length-append, drop, ◌==◌, ◌≡◌, ◌≢◌, refl, sym, ap, ◌∙◌, arith, Option-cases, Bool-cases,
  inl, inr, ◌⊎◌,
}
use opencode_reviewer.GoText.{
  Bytes, has_prefix, has_prefix-drop, index, index-cons_later, index-append_self,
}
use opencode_reviewer.Config.Subagents.Restrict.{closing}

-- No occurrence of `p` begins in `a`, in `a` followed by `b`.
abbrev pub Free : Bytes → Bytes → Bytes → Type 0
Free p [] b = Unit {0}
Free p (c ∷ a) b = (has_prefix (c ∷ (a ++ b)) p ≡ false) × Free p a b

pub index-Free : (a p z : Bytes) → Free p a (p ++ z) → index (a ++ (p ++ z)) p ≡ some (length a)
unfolding index
index-Free [] p z f = index-append_self p z
index-Free (c ∷ a) p z (h, f) = rw h (ap (Option.map suc) (index-Free a p z f))

pub Free-append : (p u v b : Bytes) → Free p u (v ++ b) → Free p v b → Free p (u ++ v) b
Free-append p [] v b fu fv = fv
Free-append p (c ∷ u) v b (h, fu) fv = (
  subst (λ t. has_prefix (c ∷ t) p ≡ false) (sym (append_assoc u v b)) h,
  Free-append p u v b fu fv,
)

pub Free-left : (p u v b : Bytes) → Free p (u ++ v) b → Free p u (v ++ b)
Free-left p [] v b f = tt
Free-left p (c ∷ u) v b (h, f) =
    (subst (λ t. has_prefix (c ∷ t) p ≡ false) (append_assoc u v b) h, Free-left p u v b f)

pub Free-right : (p u v b : Bytes) → Free p (u ++ v) b → Free p v b
Free-right p [] v b f = f
Free-right p (c ∷ u) v b (h, f) = Free-right p u v b f

empty_has_none : (p : Bytes) (y i : ℕ) → index [] (y ∷ p) ≢ some i
unfolding index
empty_has_none p y i h = cc

first_found :
    (c : ℕ) (s p : Bytes) (i : ℕ) → index (c ∷ s) p ≡ some i → has_prefix (c ∷ s) p ≡ true → 0 ≡ i
unfolding index
first_found c s p i h e = ground arith

-- The first occurrence, as a cut of the text.
abbrev pub IsCut : Bytes → Bytes → ℕ → Type 0
IsCut s p i = (a : Bytes) × (z : Bytes) × (s ≡ a ++ (p ++ z)) × (length a ≡ i) × Free p a (p ++ z)

IsCut-cons :
    (c : ℕ) (s p : Bytes) (i j : ℕ)
    → has_prefix (c ∷ s) p ≡ false
    → suc j ≡ i
    → IsCut s p j
    → IsCut (c ∷ s) p i
IsCut-cons c s p i j h e (a, z, cut, len, f) = (
  c ∷ a,
  z,
  ap (λ t. c ∷ t) cut,
  ap suc len ∙ e,
  (subst (λ t. has_prefix (c ∷ t) p ≡ false) cut h, f),
)

suc_found : (o : Option ℕ) (i j : ℕ) → Option.map suc o ≡ some i → o ≡ some j → suc j ≡ i
suc_found o i j h e = ground arith

none_found : (o : Option ℕ) (i : ℕ) → Option.map suc o ≡ some i → o ≢ none
none_found o i h e = ground arith

pub index-IsCut : (s p : Bytes) (y i : ℕ) → index s (y ∷ p) ≡ some i → IsCut s (y ∷ p) i
index-IsCut [] p y i h = absurd (empty_has_none p y i h)
index-IsCut (c ∷ s) p y i h = elim (Bool-cases (has_prefix (c ∷ s) (y ∷ p))) [
  | inl e ↦ (
    [],
    drop (length (y ∷ p)) (c ∷ s),
    has_prefix-drop (c ∷ s) (y ∷ p) e,
    first_found c s (y ∷ p) i h e,
    tt,
  )
  | inr e ↦
      let later = sym (index-cons_later c s (y ∷ p) e) ∙ h in
      elim (Option-cases (index s (y ∷ p))) [
        | inl gone ↦ absurd (none_found (index s (y ∷ p)) i later gone)
        | inr (j, found) ↦
            IsCut-cons c s (y ∷ p) i j e (suc_found (index s (y ∷ p)) i j later found)
              (index-IsCut s p y j found)
      ]
]

-- What decides whether a text begins with a mark is no longer than the mark.
has_prefix-long : (s x p : Bytes) → length p ≤ length s → has_prefix (s ++ x) p ≡ has_prefix s p
unfolding has_prefix
has_prefix-long s x [] h = refl
has_prefix-long [] x (y ∷ p) h = absurd (omega arith)
has_prefix-long (c ∷ s) x (y ∷ p) h = ap (λ b. c == y && b) (has_prefix-long s x p (omega arith))

pub Free-behind : (p a x y : Bytes) → Free p a (p ++ x) → Free p a (p ++ y)
Free-behind p [] x y f = tt
Free-behind p (c ∷ a) x y (h, f) =
    let to_cut = λ (t : Bytes).
      ap (λ u. has_prefix (c ∷ u) p) (sym (append_assoc a p t))
      ∙ has_prefix-long (c ∷ (a ++ p)) t p (omega (arith, length-append a p)) in
    (to_cut y ∙ sym (to_cut x) ∙ h, Free-behind p a x y f)

-- A line end in front of other text breaks no mark and makes none.
has_prefix-line_end :
    (c : ℕ) (a w z : Bytes)
    → has_prefix (c ∷ (a ++ (10 ∷ w))) closing ≡ has_prefix (c ∷ (a ++ (10 ∷ z))) closing
unfolding has_prefix
has_prefix-line_end c [] w z = refl
has_prefix-line_end c (x ∷ []) w z = refl
has_prefix-line_end c (x ∷ y ∷ []) w z = refl
has_prefix-line_end c (x ∷ y ∷ t ∷ a) w z = refl

pub Free-line_end : (a w z : Bytes) → Free closing a (10 ∷ w) → Free closing a (10 ∷ z)
Free-line_end [] w z f = tt
Free-line_end (c ∷ a) w z (h, f) = (sym (has_prefix-line_end c a w z) ∙ h, Free-line_end a w z f)

-- Nothing, or what begins with a line end.
abbrev pub Rest : Bytes → Type 0
Rest v = (v ≡ []) ⊎ ((w : Bytes) × (v ≡ 10 ∷ w))

-- A text in front of a line end, cut at its first line end.
abbrev pub LineEnd : Bytes → Bytes → Type 0
LineEnd a w =
    (u : Bytes) × (v : Bytes) × (a ≡ u ++ v)
    × Rest v
    × (index (a ++ (10 ∷ w)) (10 ∷ []) ≡ some (length u))

LineEnd-cons : (c : ℕ) (a w : Bytes) → (c == 10) ≡ false → LineEnd a w → LineEnd (c ∷ a) w
unfolding index has_prefix
LineEnd-cons c a w h (u, v, e, rest, found) =
    (c ∷ u, v, ap (λ t. c ∷ t) e, rest, rw h (ap (Option.map suc) found))

pub LineEnd-found : (a w : Bytes) → LineEnd a w
unfolding index has_prefix
LineEnd-found [] w = ([], [], refl, inl refl, refl)
LineEnd-found (c ∷ a) w = elim (Bool-cases (c == 10)) [
  | inl e ↦ ([], c ∷ a, refl, inr (a, ap (λ (n : ℕ). n ∷ a) (ground arith)), rw e refl)
  | inr e ↦ LineEnd-cons c a w e (LineEnd-found a w)
]

-- No line of a text begins with a dash, and it does not end with a line end.
abbrev pub dashless : Bytes → Bool
dashless [] = true
dashless (c ∷ []) = not (c == 10)
dashless (c ∷ d ∷ s) = (not (c == 10) || not (d == 45)) && dashless (d ∷ s)

pub Free-dashless : (s z : Bytes) → dashless s ≡ true → Free closing s z
unfolding has_prefix
Free-dashless [] z h = tt
Free-dashless (c ∷ []) z h = (ground arith, tt)
Free-dashless (c ∷ d ∷ s) z h = (ground arith, Free-dashless (d ∷ s) z (ground arith))
