-- ===== src/Diff/Order.antt =====
-- `sortFiles`: the categories ascend, and files of one category keep their order.
use opencode_reviewer.Prelude.{ℕ, ◌≤◌, List, [], ◌∷◌, ◌≡◌, refl, ◌∙◌, arith, ◌==◌, select, All}
use opencode_reviewer.Diff.Types.{FileDiff}
use opencode_reviewer.Diff.Filter.{insert_by, sort_by, sort_files, file_category}

module _ (key : FileDiff → ℕ) where
  -- Every file stands before those with a larger key, or the same one.
  abbrev pub Ascends : List FileDiff → Type 0
  Ascends [] = Unit
  Ascends (f ∷ fs) = All (λ g. key f ≤ key g) fs × Ascends fs

  All-insert_by :
      (n : ℕ) (f : FileDiff) (fs : List FileDiff)
      → n ≤ key f
      → All (λ g. n ≤ key g) fs
      → All (λ g. n ≤ key g) (insert_by key f fs)
  unfolding insert_by
  All-insert_by n f [] h a = (h, tt)
  All-insert_by n f (g ∷ gs) h a = ground (arith, All-insert_by n f gs)

  All-weaken :
      (n m : ℕ) (fs : List FileDiff) → n ≤ m → All (λ g. m ≤ key g) fs → All (λ g. n ≤ key g) fs
  All-weaken n m [] h a = tt
  All-weaken n m (g ∷ gs) h (a, rest) = (omega arith, All-weaken n m gs h rest)

  insert_by-Ascends :
      (f : FileDiff) (fs : List FileDiff) → Ascends fs → Ascends (insert_by key f fs)
  unfolding insert_by
  insert_by-Ascends f [] a = (tt, tt)
  insert_by-Ascends f (g ∷ gs) (a, rest) = ground (
    arith,
    insert_by-Ascends f gs rest,
    All-insert_by (key g) f gs,
    All-weaken (key f) (key g) gs,
  )

  sort_by-Ascends : (fs : List FileDiff) → Ascends (sort_by key fs)
  unfolding sort_by
  sort_by-Ascends [] = tt
  sort_by-Ascends (f ∷ fs) = insert_by-Ascends f (sort_by key fs) (sort_by-Ascends fs)

  -- Among the files of one category, the new one comes first.
  select-insert_by :
      (k : ℕ) (f : FileDiff) (fs : List FileDiff)
      → select (λ g. key g == k) (insert_by key f fs) ≡ select (λ g. key g == k) (f ∷ fs)
  unfolding insert_by
  select-insert_by k f [] = refl
  select-insert_by k f (g ∷ gs) = ground (arith, select-insert_by k f gs)

  select-sort_by :
      (k : ℕ) (fs : List FileDiff)
      → select (λ g. key g == k) (sort_by key fs) ≡ select (λ g. key g == k) fs
  unfolding sort_by
  select-sort_by k [] = refl
  select-sort_by k (f ∷ fs) =
      select-insert_by k f (sort_by key fs) ∙ ground (arith, select-sort_by k fs)

-- The sorted files ascend by category, and those of each category are the given ones in the
-- given order, so none is lost, doubled or moved past another of its category.
pub sort_files_lem :
    (fs : List FileDiff)
    → Ascends file_category (sort_files fs)
      × ((k : ℕ)
          → select (λ f. file_category f == k) (sort_files fs)
            ≡ select (λ f. file_category f == k) fs)
unfolding sort_files
sort_files_lem fs = (sort_by-Ascends file_category fs, λ k. select-sort_by file_category k fs)
