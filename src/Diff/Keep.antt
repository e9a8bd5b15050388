-- ===== src/Diff/Keep.antt =====
-- `Prepare`: what becomes of the parsed files, and the errors of git.
use opencode_reviewer.Prelude.{
  ℕ, suc, ◌+◌, Bool, not, List, [], ◌∷◌, map, ◌≡◌, inl, inr, refl, ap, arith, select, Bool-cases,
  length, ◌==◌, ok,
}
use opencode_reviewer.GoText.{Bytes}
use opencode_reviewer.Diff.Types.{FileDiff, DiffResult}
use opencode_reviewer.Diff.Filter.{is_noise, file_category, insert_by, sort_by, sort_files}
use opencode_reviewer.Diff.Parse.{parse_files}
use opencode_reviewer.Diff.Order.{Ascends, sort_files_lem}
use opencode_reviewer.Diff.Prepare.{
  GitClient, keep_files, total_added_of, total_deleted_of, assemble, prepare,
}

abbrev pub is_reviewed : FileDiff → Bool
is_reviewed f = not (is_noise f.path)

keep_files-select :
    (fs : List FileDiff)
    → keep_files fs ≡ (select is_reviewed fs, map (λ f. f.path) (select (λ f. is_noise f.path) fs))
unfolding keep_files
keep_files-select [] = refl
keep_files-select (f ∷ fs) = elim (Bool-cases (is_noise f.path)) [
  | inl e ↦ rw (e, keep_files-select fs) refl
  | inr e ↦ rw (e, keep_files-select fs) refl
]

length-select-not :
    (p : FileDiff → Bool) (fs : List FileDiff)
    → length (select (λ f. not (p f)) fs) + length (select p fs) ≡ length fs
length-select-not p [] = omega arith
length-select-not p (f ∷ fs) = ground (arith, length-select-not p fs)

module _ (key : FileDiff → ℕ) where
  -- A sort keeps every sum over the files.
  sum_insert_by :
      (f : FileDiff) (fs : List FileDiff)
      → (length (insert_by key f fs) ≡ length fs + 1)
        × (total_added_of (insert_by key f fs) ≡ f.added + total_added_of fs)
        × (total_deleted_of (insert_by key f fs) ≡ f.deleted + total_deleted_of fs)
  unfolding insert_by total_added_of total_deleted_of
  sum_insert_by f [] = omega arith
  sum_insert_by f (g ∷ gs) = ground (arith, sum_insert_by f gs)

  sum_sort_by :
      (fs : List FileDiff)
      → (length (sort_by key fs) ≡ length fs)
        × (total_added_of (sort_by key fs) ≡ total_added_of fs)
        × (total_deleted_of (sort_by key fs) ≡ total_deleted_of fs)
  unfolding sort_by total_added_of total_deleted_of
  sum_sort_by [] = omega arith
  sum_sort_by (f ∷ fs) = omega (arith, sum_insert_by f (sort_by key fs), sum_sort_by fs)

-- What a result of `Prepare` is for the files that were parsed.
pub record Describes (parsed : List FileDiff) (r : DiffResult) : Type 0 where
  pub ascends : Ascends file_category r.files
  pub kept :
      (k : ℕ)
      → select (λ f. file_category f == k) r.files
        ≡ select (λ f. file_category f == k) (select is_reviewed parsed)
  pub filtered : r.filtered_files ≡ map (λ f. f.path) (select (λ f. is_noise f.path) parsed)
  pub complete : length r.files + length r.filtered_files ≡ length parsed
  pub added_sum : r.total_added ≡ total_added_of (select is_reviewed parsed)
  pub deleted_sum : r.total_deleted ≡ total_deleted_of (select is_reviewed parsed)

sum_sort_files :
    (fs : List FileDiff)
    → (length (sort_files fs) ≡ length fs)
      × (total_added_of (sort_files fs) ≡ total_added_of fs)
      × (total_deleted_of (sort_files fs) ≡ total_deleted_of fs)
unfolding sort_files
sum_sort_files fs = sum_sort_by file_category fs

length-map : (f : FileDiff → Bytes) (fs : List FileDiff) → length (map f fs) ≡ length fs
length-map f [] = refl
length-map f (x ∷ fs) = ap suc (length-map f fs)

assemble-Describes :
    (branch base raw stat log : Bytes)
    → Describes (parse_files raw) (assemble branch base raw stat log)
unfolding assemble
assemble-Describes branch base raw stat log =
    let parsed = parse_files raw in
    let kept = select is_reviewed parsed in
    let noise = select (λ f. is_noise f.path) parsed in
    rw (keep_files-select parsed) (record {
      ascends = (sort_files_lem kept).0;
      kept = (sort_files_lem kept).1;
      filtered = refl;
      complete = omega (
        arith,
        sum_sort_files kept,
        length-map (λ f. f.path) noise,
        length-select-not (λ f. is_noise f.path) parsed,
      );
      added_sum = (sum_sort_files kept).1;
      deleted_sum = (sum_sort_files kept).2;
    })

-- When git answers all three commands, `Prepare` returns a result that accounts for every parsed
-- file: noise in `FilteredFiles` in the order of the diff, all else sorted by category with the
-- order of the diff inside each category, and totals over the files that are not noise.
pub prepare-Describes :
    {E : Type 0} (git : GitClient E) (branch base raw stat log : Bytes)
    → git.diff_for_review base branch ≡ ok raw
    → git.diff_stat base branch ≡ ok stat
    → git.log base branch ≡ ok log
    → (r : DiffResult) × (prepare git branch base ≡ ok r) × Describes (parse_files raw) r
unfolding prepare
prepare-Describes git branch base raw stat log hr hs hl = (
  assemble branch base raw stat log,
  rw (hr, hs, hl) refl,
  assemble-Describes branch base raw stat log,
)
