-- ===== src/Warrior/Filter/Chosen.antt =====
-- internal/commentwarrior/pipeline.go: the loop of `filterProcessableDiscussions` as a selection.
use opencode_reviewer.Prelude.{
  ℕ, zero, suc, ◌-◌, ◌≤◌, ◌<◌, Bool, true, false, not, ◌&&◌, List, [], ◌∷◌, map, select, take,
  if◌then◌else◌, ◌≡◌, refl, sym, ap, ◌∙◌, arith,
}
use opencode_reviewer.GoText.{Bytes, bytes_eq, is_empty}
use opencode_reviewer.GoInt.{ℤ, pos, negsuc}
use opencode_reviewer.Gitlab.Types.{Discussion}
use opencode_reviewer.Vcs.Marker.{Json}
use opencode_reviewer.Warrior.Classifier.{classify_discussion, should_process_discussion}
use opencode_reviewer.Warrior.Filter.{
  PipelineConfig, ProcessableDiscussion, limit_reached, filter_from, filter_processable_discussions,
}

-- A round of the loop is a round of the selection, cut to the `k` places that are left.
round_lem :
    {A : Type 0} (skip full process : Bool) (k : ℕ) (x : A) (rest skipped counted : List A)
    → skipped ≡ take k rest
    → (full ≡ true → k ≡ 0)
    → (full ≡ false → (j : ℕ) × (k ≡ suc j) × (counted ≡ take j rest))
    → (if skip then skipped else if full then [] else if not process then skipped else x ∷ counted)
      ≡ take k (if not skip && process then x ∷ rest else rest)
round_lem true full process k x rest skipped counted e z s = e
round_lem false true true k x rest skipped counted e z s = rw (z refl) refl
round_lem false true false k x rest skipped counted e z s = rw (z refl) refl
round_lem false false false k x rest skipped counted e z s = e
round_lem false false true k x rest skipped counted e z s =
    let (j, at_k, same) = s refl in rw (at_k, same) refl

round_unlimited :
    {A : Type 0} (skip full process : Bool) (x : A) (rest skipped counted : List A)
    → full ≡ false
    → skipped ≡ rest
    → counted ≡ rest
    → (if skip then skipped else if full then [] else if not process then skipped else x ∷ counted)
      ≡ (if not skip && process then x ∷ rest else rest)
round_unlimited true full process x rest skipped counted f e c = e
round_unlimited false full true x rest skipped counted f e c = rw (f, c) refl
round_unlimited false full false x rest skipped counted f e c = rw (f, e) refl

limit-full : (m n : ℕ) → limit_reached (pos (suc m)) n ≡ true → suc m ≤ n
limit-full m n h = ground arith

limit-open : (m n : ℕ) → limit_reached (pos (suc m)) n ≡ false → n < suc m
limit-open m n h = ground arith

take-nil : {A : Type 0} (k : ℕ) → take {A = A} k [] ≡ []
take-nil zero = refl
take-nil (suc k) = refl

-- A limit that is not positive is none.
abbrev pub limit_to : {A : Type 0} → ℤ → List A → List A
limit_to (pos (suc m)) xs = take (suc m) xs
limit_to _ xs = xs

module _ (unicode : Bytes → Bytes) (json : Json) (cfg : PipelineConfig) (bot : ℤ) where
  -- A discussion with its classification, and whether a run without a limit works on it.
  abbrev pub classified : Discussion → ProcessableDiscussion
  classified d = record { discussion = d; classification = classify_discussion unicode json d bot }

  abbrev pub is_chosen : ProcessableDiscussion → Bool
  is_chosen item =
      not (not (is_empty cfg.discussion_id) && not (bytes_eq item.discussion.id cfg.discussion_id))
      && should_process_discussion unicode json item.classification item.discussion bot

  abbrev pub chosen : List Discussion → List ProcessableDiscussion
  chosen ds = select is_chosen (map classified ds)

  filter_from-limited :
      (m n : ℕ) (ds : List Discussion)
      → cfg.max_discussions ≡ pos (suc m)
      → n ≤ suc m
      → filter_from unicode json cfg n ds bot ≡ take (suc m - n) (chosen ds)
  unfolding filter_from
  filter_from-limited m n [] e le = sym (take-nil (suc m - n))
  filter_from-limited m n (d ∷ ds) e le =
      round_lem (not (is_empty cfg.discussion_id) && not (bytes_eq d.id cfg.discussion_id))
        (limit_reached cfg.max_discussions n)
        (should_process_discussion unicode json (classify_discussion unicode json d bot) d bot)
        (suc m - n) (classified d) (chosen ds) (filter_from unicode json cfg n ds bot)
        (filter_from unicode json cfg (suc n) ds bot) (filter_from-limited m n ds e le)
        (λ h. let full = limit-full m n (sym (ap (λ z. limit_reached z n) e) ∙ h) in omega arith)
        (λ h.
          let open_place = limit-open m n (sym (ap (λ z. limit_reached z n) e) ∙ h) in
          (
            m - n,
            omega arith,
            filter_from-limited m (suc n) ds e (omega arith)
                ∙ ap (λ k. take k (chosen ds)) {x = suc m - suc n} {y = m - n} (omega arith),
          ))

  filter_from-unlimited :
      (n : ℕ) (ds : List Discussion)
      → ((k : ℕ) → limit_reached cfg.max_discussions k ≡ false)
      → filter_from unicode json cfg n ds bot ≡ chosen ds
  unfolding filter_from
  filter_from-unlimited n [] e = refl
  filter_from-unlimited n (d ∷ ds) e =
      round_unlimited (not (is_empty cfg.discussion_id) && not (bytes_eq d.id cfg.discussion_id))
        (limit_reached cfg.max_discussions n)
        (should_process_discussion unicode json (classify_discussion unicode json d bot) d bot)
        (classified d) (chosen ds) (filter_from unicode json cfg n ds bot)
        (filter_from unicode json cfg (suc n) ds bot) (e n) (filter_from-unlimited n ds e)
        (filter_from-unlimited (suc n) ds e)

  filter-limit_to :
      (z : ℤ) (ds : List Discussion)
      → cfg.max_discussions ≡ z
      → filter_from unicode json cfg 0 ds bot ≡ limit_to z (chosen ds)
  filter-limit_to (pos zero) ds e = filter_from-unlimited 0 ds (λ k. ap (λ z. limit_reached z k) e)
  filter-limit_to (pos (suc m)) ds e =
      filter_from-limited m 0 ds e (omega arith)
      ∙ ap (λ k. take k (chosen ds)) {x = suc m - 0} {y = suc m} (omega arith)
  filter-limit_to (negsuc m) ds e = filter_from-unlimited 0 ds (λ k. ap (λ z. limit_reached z k) e)

  -- The discussions worked on are, in order and with their classes, those of the configured
  -- identity (if one is configured) that should be processed, cut to the configured number (if it
  -- is positive).
  pub filter_processable_discussions-chosen :
      (ds : List Discussion)
      → filter_processable_discussions unicode json cfg ds bot
        ≡ limit_to cfg.max_discussions (chosen ds)
  unfolding filter_processable_discussions
  filter_processable_discussions-chosen ds = filter-limit_to cfg.max_discussions ds refl
