-- ===== src/Gitlab/Client/Skipped.antt =====
-- internal/shared/vcs/gitlab/client.go: `ClearMRComments` deletes while it pages.
use opencode_reviewer.Prelude.{
  ℕ, zero, suc, ◌+◌, ◌*◌, ◌≤◌, ◌<◌, true, false, List, [], ◌∷◌, ◌++◌, none, some, length, take,
  drop, take-append, ltb, ok, ◌≡◌, refl, sym, ap, ◌∙◌, arith, All,
}
use opencode_reviewer.GoInt.{ℤ}
use opencode_reviewer.Gitlab.Types.{Discussion}
use opencode_reviewer.Gitlab.Client.{
  per_page, Server, own_note, delete_own, clear_from, clear_mr_comments_of,
}

drop_all : {A : Type 0} (n : ℕ) (xs : List A) → length xs ≤ n → drop n xs ≡ []
drop_all zero [] h = refl
drop_all zero (x ∷ xs) h = absurd (omega arith)
drop_all (suc n) [] h = refl
drop_all (suc n) (x ∷ xs) h = drop_all n xs (omega arith)

module _ {S : Type 0} (server : Server S) (me : ℤ) (view : S → List Discussion) where
  -- The server serves what is there in pages, and a discussion goes when its only note is deleted.
  pub record IsOffsetPaged : Type 0 where
    pub pages :
        (s : S) (k : ℕ)
        → server.get_page s (suc k) ≡ ok (take per_page (drop (k * per_page) (view s)))
    pub deletes :
        (s : S) (d : Discussion) (rest : List Discussion) (id : ℤ)
        → view s ≡ d ∷ rest
        → own_note me d ≡ some id
        → (view (server.delete_note s id).0 ≡ rest) × ((server.delete_note s id).1 ≡ none)

  abbrev pub IsOwn : Discussion → Type 0
  IsOwn d = (id : ℤ) × (own_note me d ≡ some id)

  delete_own-nil : (s : S) (n : ℕ) → delete_own server me [] (s, n) ≡ (s, n)
  unfolding delete_own
  delete_own-nil s n = refl

  delete_own-cons :
      (d : Discussion) (ds : List Discussion) (s : S) (n : ℕ) (id : ℤ)
      → own_note me d ≡ some id
      → (server.delete_note s id).1 ≡ none
      → delete_own server me (d ∷ ds) (s, n)
        ≡ delete_own server me ds ((server.delete_note s id).0, suc n)
  unfolding delete_own
  delete_own-cons d ds s n id found fine = rw (found, delete_own) (rw fine refl)

  delete_own-IsOwn :
      (ds rest : List Discussion) (s : S) (n : ℕ)
      → IsOffsetPaged
      → All IsOwn ds
      → view s ≡ ds ++ rest
      → (view (delete_own server me ds (s, n)).0 ≡ rest)
        × ((delete_own server me ds (s, n)).1 ≡ n + length ds)
  delete_own-IsOwn [] rest s n p own e = unfold delete_own in (e, omega arith)
  delete_own-IsOwn (d ∷ ds) rest s n p ((id, found), own) e =
      let (gone, fine) = p.deletes s d (ds ++ rest) id e found in
      let (left, count) = delete_own-IsOwn ds rest (server.delete_note s id).0 (suc n) p own gone in
      let step = delete_own-cons d ds s n id found fine in
      (ap (λ (r : S × ℕ). view r.0) step ∙ left, ap (λ (r : S × ℕ). r.1) step ∙ count ∙ omega arith)

  -- One page of the clearing: it is the last one, or the next follows.
  clear_from-last :
      (f page : ℕ) (s : S) (n : ℕ) (items : List Discussion)
      → server.get_page s page ≡ ok items
      → length items < per_page
      → clear_from server (suc f) me page (s, n)
        ≡ some ((delete_own server me items (s, n)).0, (delete_own server me items (s, n)).1, none)
  unfolding clear_from
  clear_from-last f page s n items e le =
      let small : ltb (length items) per_page ≡ true = ground arith in
      rw (e, clear_from) (rw small refl)

  clear_from-more :
      (f page : ℕ) (s : S) (n : ℕ) (items : List Discussion)
      → server.get_page s page ≡ ok items
      → per_page ≤ length items
      → clear_from server (suc f) me page (s, n)
        ≡ clear_from server f me (suc page) (delete_own server me items (s, n))
  unfolding clear_from
  clear_from-more f page s n items e le =
      let full : ltb (length items) per_page ≡ false = ground arith in
      rw (e, clear_from) (rw full refl)

  -- `ClearMRComments` deletes while it pages, so it misses what moves to the pages already read:
  -- of a full page of the bot's unanswered discussions and up to a page more of any, it deletes the
  -- first page, reports their number and no error, and leaves all the others.
  pub clear_mr_comments_of-skips :
      (first rest : List Discussion) (s : S) (f : ℕ)
      → IsOffsetPaged
      → view s ≡ first ++ rest
      → All IsOwn first
      → length first ≡ per_page
      → length rest ≤ per_page
      → (end : S) × (view end ≡ rest)
        × (clear_mr_comments_of server (suc (suc f)) (ok me) s ≡ some (end, 100, none))
  unfolding clear_mr_comments_of
  clear_mr_comments_of-skips first rest s f p e own full short =
      let after = delete_own server me first (s, 0) in
      let (left, count) = delete_own-IsOwn first rest s 0 p own e in
      let page_one : server.get_page s 1 ≡ ok first =
        p.pages s 0
        ∙ ap ok (
            ap (take per_page) e
            ∙ ap (λ n. take n (first ++ rest)) (sym full)
            ∙ take-append first rest) in
      let page_two : server.get_page after.0 2 ≡ ok [] =
        p.pages after.0 1
        ∙ ap ok (
            ap (λ v. take per_page (drop per_page v)) left
            ∙ ap (take per_page) (drop_all per_page rest short)) in
      let hundred : after.1 ≡ 100 = omega (arith, count, full) in
      (
        after.0,
        left,
        clear_from-more (suc f) 1 s 0 first page_one (omega arith)
            ∙ clear_from-last f 2 after.0 after.1 [] page_two (omega arith)
            ∙ ap (λ (r : S × ℕ). some (r.0, r.1, none)) (delete_own-nil after.0 after.1)
            ∙ ap (λ k. some (after.0, k, none)) hundred,
      )
