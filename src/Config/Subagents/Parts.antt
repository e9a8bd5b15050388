-- ===== src/Config/Subagents/Parts.antt =====
-- internal/shared/subagentconfig/subagentconfig.go: a content taken apart at its front matter, and with
-- lines put in there.
use mathlib.Core.Path.{subst}
use opencode_reviewer.Prelude.{
  ℕ, ◌+◌, ◌∷◌, ◌++◌, append_assoc, Option, none, some, length, length-append, take, drop,
  take-append, drop-append, drop-append_more, ◌≡◌, sym, ap, ◌∙◌, arith, Option-cases, inl, inr,
}
use opencode_reviewer.GoText.{Bytes, codes, index}
use opencode_reviewer.Config.Subagents.Restrict.{
  mark, closing, insert_lines, restrict, ensure_tool_restrictions,
}
use opencode_reviewer.Config.Subagents.Free.{
  Free, Free-append, Free-left, Free-right, Free-behind, Free-line_end, index-Free, index-IsCut,
  Rest,
}
use opencode_reviewer.Config.Subagents.Kept.{with_lines}

-- The front matter of a content: what stands between its first mark and the next closing line.
unfoldable pub front_matter_of : Bytes → Option Bytes
front_matter_of content = elim (index content mark) [
  | none ↦ none
  | some opened ↦ elim (index (drop (opened + 3) content) closing) [
    | none ↦ none
    | some close ↦ some (take close (drop (opened + 3) content))
  ]
]

-- A content with a front matter, taken apart.
pub record Parts (content fm : Bytes) : Type 0 where
  pub pre : Bytes
  pub post : Bytes
  pub whole : content ≡ pre ++ (mark ++ (fm ++ (closing ++ post)))
  pub first : Free mark pre (mark ++ (fm ++ (closing ++ post)))
  pub closes : Free closing fm (closing ++ post)

drop-mark : (pre x : Bytes) → drop (length pre + 3) (pre ++ (mark ++ x)) ≡ x
drop-mark pre x = drop-append_more 3 pre (mark ++ x)

module _ (content fm : Bytes) (p : Parts content fm) where
  opens : index content mark ≡ some (length p.pre)
  opens = ap (λ t. index t mark) p.whole ∙ index-Free p.pre mark (fm ++ (closing ++ p.post)) p.first

  behind : drop (length p.pre + 3) content ≡ fm ++ (closing ++ p.post)
  behind = ap (drop (length p.pre + 3)) p.whole ∙ drop-mark p.pre (fm ++ (closing ++ p.post))

  closed : index (drop (length p.pre + 3) content) closing ≡ some (length fm)
  closed = ap (λ t. index t closing) behind ∙ index-Free fm closing p.post p.closes

  inside : take (length fm) (drop (length p.pre + 3) content) ≡ fm
  inside = ap (take (length fm)) behind ∙ take-append fm (closing ++ p.post)

  pub front_matter_of-Parts : front_matter_of content ≡ some fm
  unfolding front_matter_of
  front_matter_of-Parts =
      rw (opens, front_matter_of) (rw (closed, front_matter_of) (ap some inside))

  pub ensure-Parts : ensure_tool_restrictions content ≡ restrict content fm (length p.pre + 3)
  unfolding ensure_tool_restrictions
  ensure-Parts =
      rw (opens, ensure_tool_restrictions)
        (rw (closed, ensure_tool_restrictions)
          (ap (λ t. restrict content t (length p.pre + 3)) inside))

found-Parts :
    (content fm : Bytes) (opened close : ℕ)
    → index content mark ≡ some opened
    → index (drop (opened + 3) content) closing ≡ some close
    → take close (drop (opened + 3) content) ≡ fm
    → Parts content fm
found-Parts content fm opened close h k e =
    let (pre, x, whole, len, first) = index-IsCut content (codes "--") b'-' opened h in
    let rest : drop (opened + 3) content ≡ x =
      ap (λ n. drop (n + 3) content) (sym len)
      ∙ ap (drop (length pre + 3)) whole
      ∙ drop-mark pre x in
    let (a, post, cut, size, closes) =
      index-IsCut x (codes "---") 10 close (subst (λ t. index t closing ≡ some close) rest k) in
    let same : a ≡ fm =
      sym (take-append a (closing ++ post))
      ∙ ap (take (length a)) (sym cut)
      ∙ ap (λ n. take n x) size
      ∙ ap (take close) (sym rest)
      ∙ e in
    record {
      pre = pre;
      post = post;
      whole = whole ∙ ap (λ t. pre ++ (mark ++ t)) (cut ∙ ap (λ t. t ++ (closing ++ post)) same);
      first =
          subst (λ t. Free mark pre (mark ++ t)) (cut ∙ ap (λ t. t ++ (closing ++ post)) same)
            first;
      closes = subst (λ t. Free closing t (closing ++ post)) same closes;
    }

front_matter_of-found :
    (content fm : Bytes)
    → front_matter_of content ≡ some fm
    → (opened close : ℕ) × (index content mark ≡ some opened)
      × (index (drop (opened + 3) content) closing ≡ some close)
      × (take close (drop (opened + 3) content) ≡ fm)
unfolding front_matter_of
front_matter_of-found content fm h = elim (Option-cases (index content mark)) [
  | inl e ↦ absurd (ground (arith, e))
  | inr (opened, e) ↦ elim (Option-cases (index (drop (opened + 3) content) closing)) [
    | inl k ↦ absurd (ground (arith, e, k))
    | inr (close, k) ↦ (opened, close, e, k, ground (arith, e, k))
  ]
]

pub Parts-front_matter_of :
    (content fm : Bytes) → front_matter_of content ≡ some fm → Parts content fm
Parts-front_matter_of content fm h =
    let (opened, close, e, k, same) = front_matter_of-found content fm h in
    found-Parts content fm opened close e k same

-- A rest, and what closes the front matter, begin with a line end.
Rest-line_end : (v post : Bytes) → Rest v → (w : Bytes) × (v ++ (closing ++ post) ≡ 10 ∷ w)
Rest-line_end v post (inl e) = (codes "---" ++ post, ap (λ t. t ++ (closing ++ post)) e)
Rest-line_end v post (inr (w, e)) = (w ++ (closing ++ post), ap (λ t. t ++ (closing ++ post)) e)

module _ (content u v ins : Bytes) (p : Parts content (u ++ v)) (rest : Rest v)
    (free : (z : Bytes) → Free closing (10 ∷ ins) z) where
  abbrev pub place : ℕ
  place = (length p.pre + 3) + length u

  inserted_whole :
      insert_lines content ins place
      ≡ p.pre ++ (mark ++ (with_lines u ins v ++ (closing ++ p.post)))
  unfolding insert_lines
  inserted_whole =
      let b = closing ++ p.post in
      let front = p.pre ++ (mark ++ u) in
      let cut : content ≡ front ++ (v ++ b) =
        p.whole
        ∙ ap (λ t. p.pre ++ (mark ++ t)) (append_assoc u v b)
        ∙ sym (append_assoc p.pre (mark ++ u) (v ++ b)) in
      let size : place ≡ length front = omega (arith, length-append p.pre (mark ++ u)) in
      let taken : take place content ≡ front =
        ap (λ n. take n content) size ∙ ap (take (length front)) cut ∙ take-append front (v ++ b) in
      let dropped : drop place content ≡ v ++ b =
        ap (λ n. drop n content) size ∙ ap (drop (length front)) cut ∙ drop-append front (v ++ b) in
      ap (λ t. t ++ (10 ∷ (ins ++ drop place content))) taken
      ∙ ap (λ t. front ++ (10 ∷ (ins ++ t))) dropped
      ∙ append_assoc p.pre (mark ++ u) (10 ∷ (ins ++ (v ++ b)))
      ∙ ap (λ t. p.pre ++ (mark ++ (u ++ (10 ∷ t)))) (sym (append_assoc ins v b))
      ∙ ap (λ t. p.pre ++ (mark ++ t)) (sym (append_assoc u ((10 ∷ ins) ++ v) b))

  inserted_closes : Free closing (with_lines u ins v) (closing ++ p.post)
  inserted_closes =
      let b = closing ++ p.post in
      let (w, e) = Rest-line_end v p.post rest in
      Free-append closing u ((10 ∷ ins) ++ v) b
        (Free-line_end u w ((ins ++ v) ++ b)
          (subst (Free closing u) e (Free-left closing u v b p.closes)))
        (Free-append closing (10 ∷ ins) v b (free (v ++ b)) (Free-right closing u v b p.closes))

  pub inserted-Parts : Parts (insert_lines content ins place) (with_lines u ins v)
  inserted-Parts = record {
    pre = p.pre;
    post = p.post;
    whole = inserted_whole;
    first =
        Free-behind mark p.pre ((u ++ v) ++ (closing ++ p.post))
          (with_lines u ins v ++ (closing ++ p.post)) p.first;
    closes = inserted_closes;
  }

-- The parts of a content, for the front matter in another form.
unfoldable pub same_parts :
    (content : Bytes) {fm fm' : Bytes} → Parts content fm → fm ≡ fm' → Parts content fm'
same_parts content p e = record {
  pre = p.pre;
  post = p.post;
  whole = p.whole ∙ ap (λ t. p.pre ++ (mark ++ (t ++ (closing ++ p.post)))) e;
  first = subst (λ t. Free mark p.pre (mark ++ (t ++ (closing ++ p.post)))) e p.first;
  closes = subst (λ t. Free closing t (closing ++ p.post)) e p.closes;
}
