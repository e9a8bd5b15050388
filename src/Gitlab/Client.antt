-- ===== src/Gitlab/Client.antt =====
-- internal/shared/vcs/gitlab/client.go: the loops over the pages of discussions.
pub mod Paging
pub mod Skipped
use opencode_reviewer.Prelude.{
  ℕ, zero, suc, Bool, true, false, not, List, [], ◌∷◌, ◌++◌, Option, none, some, if◌then◌else◌,
  length, ltb, Result, ok, err,
}
use opencode_reviewer.GoText.{Bytes}
use opencode_reviewer.GoInt.{ℤ, pos, eq_int}
use opencode_reviewer.Gitlab.Types.{Note, Discussion, clearable}

abbrev pub per_page : ℕ
per_page = 100

-- What a listing returns: what was read so far, and the error that ended it, if any.
pub record Listed : Type 0 where
  pub result : List Discussion
  pub error : Option Bytes

-- GitLab with its state: a page of the discussions, with the error of the request or of its
-- decoding, and the deletion of a note, with its error, if any.
pub record Server (S : Type 0) : Type 0 where
  pub get_page : S → ℕ → Result Bytes (List Discussion)
  pub delete_note : S → ℤ → S × Option Bytes

-- Whether a discussion is deleted, and the note that it is deleted by.
unfoldable pub own_note : ℤ → Discussion → Option ℤ
unfolding clearable
own_note me d = elim d.notes [
  | [] ↦ none
  | n ∷ ns ↦ if clearable d then if eq_int n.author.id me then some n.id else none else none
]

-- A deletion that fails is not counted.
abbrev pub count_deleted : ℕ → Option Bytes → ℕ
count_deleted deleted none = suc deleted
count_deleted deleted (some e) = deleted

module _ {S : Type 0} (server : Server S) where
  -- `ListDiscussions` from a page on, with fuel for the pages; `none` when it is spent.
  unfoldable pub list_from : ℕ → S → ℕ → List Discussion → Option Listed
  list_from zero s page result = none
  list_from (suc f) s page result = elim (server.get_page s page) [
    | err e ↦ some (record { result = result; error = some e })
    | ok items ↦
        let more = list_from f s (suc page) (result ++ items) in
        if ltb (length items) per_page
        then some (record { result = result ++ items; error = none })
        else more
  ]

  unfoldable pub list_discussions : ℕ → S → Option Listed
  unfolding list_from
  list_discussions fuel s = list_from fuel s 1 []

  -- The deletions of a page, with their count.
  unfoldable pub delete_own : ℤ → List Discussion → S × ℕ → S × ℕ
  unfolding own_note
  delete_own me [] (s, deleted) = (s, deleted)
  delete_own me (d ∷ ds) (s, deleted) = elim (own_note me d) [
    | none ↦ delete_own me ds (s, deleted)
    | some id ↦
        delete_own me ds
          ((server.delete_note s id).0, count_deleted deleted (server.delete_note s id).1)
  ]

  -- `ClearMRComments` from a page on: the state and the count that it ends with, and its error, if
  -- any.
  unfoldable pub clear_from : ℕ → ℤ → ℕ → S × ℕ → Option (S × ℕ × Option Bytes)
  unfolding delete_own
  clear_from zero me page (s, deleted) = none
  clear_from (suc f) me page (s, deleted) = elim (server.get_page s page) [
    | err e ↦ some (s, deleted, some e)
    | ok items ↦
        let after = delete_own me items (s, deleted) in
        let more = clear_from f me (suc page) after in
        if ltb (length items) per_page then some (after.0, after.1, none) else more
  ]

  unfoldable pub clear_mr_comments_of : ℕ → Result Bytes ℤ → S → Option (S × ℕ × Option Bytes)
  unfolding clear_from
  clear_mr_comments_of fuel (err e) s = some (s, 0, some e)
  clear_mr_comments_of fuel (ok me) s = clear_from fuel me 1 (s, 0)
