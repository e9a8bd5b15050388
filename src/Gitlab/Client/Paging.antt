-- ===== src/Gitlab/Client/Paging.antt =====
-- internal/shared/vcs/gitlab/client.go: `ListDiscussions` returns all discussions.

use opencode_reviewer.Prelude.{
  ℕ, zero, suc, ◌+◌, ◌*◌, ◌≤◌, ◌<◌, true, false, List, [], ◌∷◌, ◌++◌, append_assoc, none, some,
  length, take, drop, ltb, ok, ◌≡◌, inl, inr, refl, sym, ap, ◌∙◌, arith, Bool-cases, length-drop,
}
use opencode_reviewer.Gitlab.Types.{Discussion}
use opencode_reviewer.Gitlab.Client.{per_page, Server, list_from, list_discussions}

module _ {A : Type 0} where
  pub take-drop : (n : ℕ) (xs : List A) → take n xs ++ drop n xs ≡ xs
  take-drop zero xs = refl
  take-drop (suc n) [] = refl
  take-drop (suc n) (x ∷ xs) = ap (◌∷◌ x) (take-drop n xs)

  pub take_all : (n : ℕ) (xs : List A) → length xs ≤ n → take n xs ≡ xs
  take_all zero [] h = refl
  take_all zero (x ∷ xs) h = absurd (omega arith)
  take_all (suc n) [] h = refl
  take_all (suc n) (x ∷ xs) h = ap (◌∷◌ x) (take_all n xs (omega arith))

  pub length-take : (n : ℕ) (xs : List A) → n ≤ length xs → length (take n xs) ≡ n
  length-take zero xs h = refl
  length-take (suc n) [] h = absurd (omega arith)
  length-take (suc n) (x ∷ xs) h = omega (arith, length-take n xs)

  drop-nil_lem : (n : ℕ) → drop {A = A} n [] ≡ []
  drop-nil_lem zero = refl
  drop-nil_lem (suc n) = refl

  drop-drop_lem : (m n : ℕ) (xs : List A) → drop m (drop n xs) ≡ drop (m + n) xs
  drop-drop_lem m zero xs = ap (λ k. drop k xs) {x = m} {y = m + 0} (omega arith)
  drop-drop_lem m (suc n) [] = drop-nil_lem m ∙ sym (drop-nil_lem (m + suc n))
  drop-drop_lem m (suc n) (x ∷ xs) =
      drop-drop_lem m n xs
      ∙ ap (λ k. drop k (x ∷ xs)) {x = suc (m + n)} {y = m + suc n} (omega arith)

module _ {S : Type 0} (server : Server S) (s : S) (all : List Discussion) where
  -- The server serves a list of discussions in pages.
  abbrev pub IsPaged : Type 0
  IsPaged = (k : ℕ) → server.get_page s (suc k) ≡ ok (take per_page (drop (k * per_page) all))

  list_from-last :
      (f page : ℕ) (items result : List Discussion)
      → server.get_page s page ≡ ok items
      → length items < per_page
      → list_from server (suc f) s page result
        ≡ some (record { result = result ++ items; error = none })
  unfolding list_from
  list_from-last f page items result e le =
      let small : ltb (length items) per_page ≡ true = ground arith in
      rw (e, list_from) (rw small refl)

  list_from-more :
      (f page : ℕ) (items result : List Discussion)
      → server.get_page s page ≡ ok items
      → per_page ≤ length items
      → list_from server (suc f) s page result ≡ list_from server f s (suc page) (result ++ items)
  unfolding list_from
  list_from-more f page items result e le =
      let full : ltb (length items) per_page ≡ false = ground arith in
      rw (e, list_from) (rw full refl)

  list_from-IsPaged :
      (f k : ℕ) (result : List Discussion)
      → IsPaged
      → length (drop (k * per_page) all) < per_page * f
      → list_from server f s (suc k) result
        ≡ some (record { result = result ++ drop (k * per_page) all; error = none })
  list_from-IsPaged zero k result paged le = absurd (omega arith)
  list_from-IsPaged (suc f) k result paged le =
      let rest = drop (k * per_page) all in
      elim (Bool-cases (ltb (length rest) per_page)) [
        | inl small ↦
            let below : length rest < per_page = ground (arith, small) in
            let whole = take_all per_page rest (omega arith) in
            list_from-last f (suc k) rest result (paged k ∙ ap ok whole) below
        | inr full ↦
            let above : per_page ≤ length rest = ground (arith, full) in
            let items = take per_page rest in
            let next : drop per_page rest ≡ drop (suc k * per_page) all =
              drop-drop_lem per_page (k * per_page) all
              ∙ ap (λ n. drop n all) {x = per_page + k * per_page} {y = suc k * per_page}
                  (omega arith) in
            let left = length-drop per_page rest above in
            let shorter : length (drop (suc k * per_page) all) < per_page * f =
              let same : length (drop per_page rest) ≡ length (drop (suc k * per_page) all) =
                ap length next in
              omega arith in
            list_from-more f (suc k) items result (paged k)
              (omega (arith, length-take per_page rest above))
            ∙ list_from-IsPaged f (suc k) (result ++ items) paged shorter
            ∙ ap (λ l. some (record { result = l; error = none }))
                (append_assoc result items (drop (suc k * per_page) all)
                  ∙ ap (λ t. result ++ t)
                      (ap (λ t. items ++ t) (sym next) ∙ take-drop per_page rest))
      ]

  -- `ListDiscussions` returns all discussions, in order and without an error, when the server
  -- serves them in pages of a hundred and there is fuel for a page more than they fill.
  pub list_discussions-IsPaged :
      (f : ℕ)
      → IsPaged
      → length all < per_page * f
      → list_discussions server f s ≡ some (record { result = all; error = none })
  unfolding list_discussions
  list_discussions-IsPaged f paged le = list_from-IsPaged f 0 [] paged le
