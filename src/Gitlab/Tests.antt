-- ===== src/Gitlab/Tests.antt =====
-- A publication against a server that refuses every second call, and the theorems at concrete inputs.
use opencode_reviewer.Prelude.{
  All, Bool, List, Option, [], ap, arith, drop, false, if◌then◌else◌, length, map, none, not, ok,
  err, refl, reverse, select, some, suc, take, true, zero, ℕ, ◌%◌, ◌*◌, ◌++◌, ◌==◌, ◌∙◌, ◌∷◌, ◌≡◌,
}
use opencode_reviewer.Gitlab.Types.{Discussion, clearable}
use opencode_reviewer.Gitlab.Client.{Server, own_note, list_discussions, clear_mr_comments_of}
use opencode_reviewer.Gitlab.Client.Paging.{list_discussions-IsPaged}
use opencode_reviewer.Gitlab.Client.Skipped.{IsOffsetPaged, IsOwn, clear_mr_comments_of-skips}
use opencode_reviewer.Gitlab.Publish.Stops.{StopsAt, publish-StopsAt}
use opencode_reviewer.GoText.{Bytes, codes, utf8}
use opencode_reviewer.GoInt.{ℤ, pos, eq_int, eq_int_iff}
use opencode_reviewer.Models.{FinalFinding}
use opencode_reviewer.Vcs.Types.{DiffFinding}
use opencode_reviewer.Vcs.Marker.{Json}
use opencode_reviewer.Vcs.Format.{
  format_review_note, format_finding_note, review_note_with_metadata,
}
use opencode_reviewer.Gitlab.Types.{DiffRefs}
use opencode_reviewer.Gitlab.Publish.{
  find_merge_request, get_mr_diff_refs, clear_mr_comments, post_mr_note, Client, ref_metadata,
  fallback_call, inline_call, publish,
}
use opencode_reviewer.Gitlab.Publish.Calls.{publish-calls}

abbrev finding_at : Bytes → ℕ → FinalFinding
finding_at file line = record {
  file = file;
  start_line = pos line;
  end_line = pos line;
  existing_code = [];
  confidence = codes "HIGH";
  issue_content = codes "A leak.";
  recommendation = codes "Close it.";
  sources = codes "r1" ∷ codes "r2" ∷ [];
  source_message_refs = [];
  fallback_message_refs = [];
}

abbrev placed_at : Bytes → ℕ → DiffFinding
placed_at file line = record {
  old_path = file;
  new_path = file;
  old_line = pos 0;
  new_line = pos line;
  in_diff = true;
  source = finding_at file line;
}

abbrev test_findings : List DiffFinding
test_findings =
    placed_at (codes "a.go") 3 ∷ record (placed_at (codes "b.go") 9) { in_diff = false } ∷ []

abbrev json : Json
json = record { marshal = λ m. some (codes "{}"); unmarshal = λ b. none }

abbrev refs : DiffRefs
refs = record { base_sha = codes "b"; head_sha = codes "h"; start_sha = codes "s" }

abbrev client : Client
client = record {
  find = λ calls s t. ok (pos 7);
  diff_refs = λ calls iid. ok refs;
  post = λ calls call. if length calls % 2 == 0 then some (codes "busy") else none;
}

test_note :
    format_finding_note (λ s. s) (finding_at (codes "a.go") 3)
    ≡ codes "**"
      ++ (utf8 "🔴 High" ++ codes "** (r1, r2)\n\nA leak.\n\n**Recommendation:** Close it.\n")
unfolding format_finding_note
test_note = refl

test_nil_review :
    format_review_note (λ s. s) none
    ≡ codes "## Automated Code Review\n\nReview completed but produced no structured output."
unfolding format_review_note
test_nil_review = refl

publish-calls_example :
    publish (λ s. s) json client true none test_findings (codes "topic") (codes "main") ≡ record {
      made =
          reverse
            (clear_mr_comments (pos 7) ∷ find_merge_request (codes "topic") (codes "main") ∷ [])
          ++ (get_mr_diff_refs (pos 7)
              ∷ post_mr_note
                  (pos 7)
                  (review_note_with_metadata (λ s. s) json none (ref_metadata refs))
              ∷ (map
                    (fallback_call (λ s. s) json (pos 7) refs)
                    (select (λ df. not df.in_diff) test_findings)
                  ++ map
                      (inline_call (λ s. s) json (pos 7) refs)
                      (select (λ df. df.in_diff) test_findings)));
      error = none;
    }
publish-calls_example =
    publish-calls (λ s. s) json client true none test_findings (codes "topic") (codes "main")
      (pos 7) refs refl refl refl

-- A server that keeps a list of discussions.
abbrev is_note : ℤ → Option ℤ → Bool
is_note id none = false
is_note id (some i) = eq_int i id

abbrev without : ℤ → ℤ → List Discussion → List Discussion
without me id [] = []
without me id (d ∷ ds) =
    let rest = without me id ds in if is_note id (own_note me d) then ds else d ∷ rest

-- The page before this one.
abbrev pages_before : ℕ → ℕ
pages_before zero = 0
pages_before (suc k) = k

abbrev server : ℤ → Server (List Discussion)
server me = record {
  get_page = λ s page. ok (take 100 (drop (pages_before page * 100) s));
  delete_note = λ s id. (without me id s, none);
}

without-own :
    (me id : ℤ) (d : Discussion) (ds : List Discussion)
    → own_note me d ≡ some id
    → without me id (d ∷ ds) ≡ ds
without-own me id d ds e = rw (e, without) (rw ((eq_int_iff id id).1 refl) refl)

server-IsOffsetPaged : (me : ℤ) → IsOffsetPaged (server me) me (λ (s : List Discussion). s)
server-IsOffsetPaged me = record {
  pages = λ s k. refl;
  deletes = λ s d rest id e own. (ap (without me id) e ∙ without-own me id d rest own, refl);
}

abbrev open_discussion : Discussion
open_discussion = record {
  id = codes "d";
  individual_note = false;
  notes =
      record {
        id = pos 4;
        body = [];
        system = false;
        resolvable = true;
        resolved = false;
        author = record { id = pos 1; username = []; name = [] };
        position = none;
      }
      ∷ [];
}

abbrev copies : ℕ → List Discussion
copies zero = []
copies (suc n) = open_discussion ∷ copies n

copies-IsOwn :
    (n : ℕ) → All (IsOwn (server (pos 1)) (pos 1) (λ (s : List Discussion). s)) (copies n)
copies-IsOwn zero = tt
copies-IsOwn (suc n) = ((pos 4, unfold own_note clearable in refl), copies-IsOwn n)

length-copies : (n : ℕ) → length (copies n) ≡ n
length-copies zero = refl
length-copies (suc n) = omega (arith, length-copies n)

clear_mr_comments_of-skips_example :
    (end : List Discussion) × (end ≡ open_discussion ∷ [])
    × (clear_mr_comments_of (server (pos 1)) 2 (ok (pos 1)) (copies 100 ++ (open_discussion ∷ []))
        ≡ some (end, 100, none))
clear_mr_comments_of-skips_example =
    clear_mr_comments_of-skips (server (pos 1)) (pos 1) (λ (s : List Discussion). s) (copies 100)
      (open_discussion ∷ []) (copies 100 ++ (open_discussion ∷ [])) 0 (server-IsOffsetPaged (pos 1))
      refl (copies-IsOwn 100) (length-copies 100) (omega arith)

list_discussions-IsPaged_example :
    list_discussions (server (pos 1)) 2 (copies 100 ++ (open_discussion ∷ []))
    ≡ some (record { result = copies 100 ++ (open_discussion ∷ []); error = none })
list_discussions-IsPaged_example =
    list_discussions-IsPaged (server (pos 1)) (copies 100 ++ (open_discussion ∷ []))
      (copies 100 ++ (open_discussion ∷ [])) 2 (λ k. refl) (omega arith)

-- A client that cannot read the references.
abbrev blind_client : Client
blind_client = record {
  find = λ calls s t. ok (pos 7);
  diff_refs = λ calls iid. err (codes "503");
  post = λ calls call. none;
}

publish-StopsAt_example :
    StopsAt blind_client true
      (codes "topic")
      (codes "main")
      (λ refs. review_note_with_metadata (λ s. s) json none (ref_metadata refs))
      (publish (λ s. s) json blind_client true none test_findings (codes "topic") (codes "main"))
      (codes "503")
publish-StopsAt_example =
    publish-StopsAt (λ s. s) json blind_client true none test_findings (codes "topic")
      (codes "main") (codes "503") (unfold publish in refl)
