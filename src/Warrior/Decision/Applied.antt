-- ===== src/Warrior/Decision/Applied.antt =====
-- internal/commentwarrior: what a validated decision does, and that its answer settles a discussion.
use opencode_reviewer.Prelude.{
  Bool, true, false, not, ◌&&◌, List, [], ◌∷◌, ◌++◌, none, reverse, drop, reverse-append, ◌≡◌, inl,
  inr, refl, ap, ◌∙◌, Bool-cases,
}
use opencode_reviewer.GoText.{Bytes, codes, bytes_eq_self, is_empty, index}
use opencode_reviewer.GoInt.{ℤ}
use opencode_reviewer.Gitlab.Types.{Note, Discussion}
use opencode_reviewer.Vcs.Marker.{ParsedMarker, MarkerMetadata, Json, parse_markers, comment_start}
use opencode_reviewer.Vcs.Marker.RoundTrip.{IsWritable, parse_markers-append_marker}
use opencode_reviewer.Warrior.Classifier.{
  Classification, ignore, ai_finding, human_mention_ai, by_bot, discussion_resolved, mention_in,
  has_unhandled_ai_mention, handled_in, already_handled_ai_finding, confirmed_in, has_kind,
  latest_bot_note_has_closure_confirmed_marker, should_process_discussion, classify_discussion,
}
use opencode_reviewer.Warrior.Decision.{Decision, reply_body, should_confirm_closure, metadata_none}

-- The discussion with a note written behind the others.
abbrev pub with_reply : Discussion → Note → Discussion
with_reply d n = record d { notes = d.notes ++ (n ∷ []) }

drop-append_filled :
    {A : Type 0} (xs ys : List A) → is_empty xs ≡ false → drop 1 (xs ++ ys) ≡ drop 1 xs ++ ys
drop-append_filled [] ys h = absurd cc
drop-append_filled (x ∷ xs) ys h = refl

and_not : (x y : Bool) → y ≡ true → (x && not y) ≡ false
and_not true y e = ap not e
and_not false y e = refl

module _ (bot : ℤ) (n : Note) (plain : n.system ≡ false) (own : by_bot bot n ≡ true) where
  mention_in-own :
      (unicode : Bytes → Bytes) (ns : List Note) → mention_in unicode bot (n ∷ ns) ≡ false
  unfolding mention_in
  mention_in-own unicode ns = rw (plain, mention_in) (rw own refl)

  handled_in-own : (ns : List Note) → handled_in bot (n ∷ ns) ≡ true
  unfolding handled_in
  handled_in-own ns = rw (plain, handled_in) own

  confirmed_in-own :
      (json : Json) (ns : List Note)
      → confirmed_in json bot (n ∷ ns)
        ≡ has_kind (codes "closure-confirmed") (parse_markers json n.body)
  unfolding confirmed_in
  confirmed_in-own json ns = rw (plain, confirmed_in) (rw own refl)

  already_handled-with_reply :
      (d : Discussion)
      → is_empty d.notes ≡ false
      → already_handled_ai_finding (with_reply d n) bot ≡ true
  unfolding already_handled_ai_finding
  already_handled-with_reply d filled =
      ap (handled_in bot) (
        ap reverse (drop-append_filled d.notes (n ∷ []) filled)
        ∙ reverse-append (drop 1 d.notes) (n ∷ []))
      ∙ handled_in-own (reverse (drop 1 d.notes))

  -- Whatever its class, a discussion that the bot wrote last in is left alone, if it is not
  -- resolved or that note confirms the closure.
  should_process-with_reply :
      (unicode : Bytes → Bytes) (json : Json) (c : Classification) (d : Discussion)
      → is_empty d.notes ≡ false
      → (discussion_resolved (with_reply d n) ≡ true
          → has_kind (codes "closure-confirmed") (parse_markers json n.body) ≡ true)
      → should_process_discussion unicode json c (with_reply d n) bot ≡ false
  unfolding should_process_discussion has_unhandled_ai_mention
      latest_bot_note_has_closure_confirmed_marker
  should_process-with_reply unicode json ignore d filled closed = refl
  should_process-with_reply unicode json human_mention_ai d filled closed =
      ap (mention_in unicode bot) (reverse-append d.notes (n ∷ []))
      ∙ mention_in-own unicode (reverse d.notes)
  should_process-with_reply unicode json ai_finding d filled closed =
      elim (Bool-cases (discussion_resolved (with_reply d n))) [
        | inl e ↦ rw e (
            ap not (
              ap (confirmed_in json bot) (reverse-append d.notes (n ∷ []))
              ∙ confirmed_in-own json (reverse d.notes)
              ∙ closed e))
        | inr e ↦ rw e (
            and_not _ (already_handled_ai_finding (with_reply d n) bot)
              (already_handled-with_reply d filled))
      ]

has_kind-one :
    (kind : Bytes) (m : MarkerMetadata) (ms : List ParsedMarker)
    → ms ≡ record { kind = kind; metadata = m } ∷ []
    → has_kind kind ms ≡ true
unfolding has_kind
has_kind-one kind m ms e = rw (e, has_kind) (rw (bytes_eq_self kind) refl)

module _ (unicode : Bytes → Bytes) (json : Json) (bot : ℤ) where
  -- The reviewer's answer settles a discussion. After the bot has replied with a decision's body
  -- that holds no comment, and with the marker exactly when the closure is to be confirmed, the
  -- discussion is not worked on again, provided that it is not resolved or the closure was
  -- confirmed.
  pub should_process_discussion-answered :
      (d : Discussion) (n : Note) (c : Classification) (decision : Decision) (bytes : Bytes)
      → n.system ≡ false
      → by_bot bot n ≡ true
      → n.body ≡ reply_body json decision.body (should_confirm_closure c d decision)
      → is_empty d.notes ≡ false
      → index decision.body comment_start ≡ none
      → IsWritable json (codes "closure-confirmed") bytes metadata_none
      → (discussion_resolved (with_reply d n) ≡ true → should_confirm_closure c d decision ≡ true)
      → should_process_discussion unicode json
          (classify_discussion unicode json (with_reply d n) bot)
          (with_reply d n)
          bot
        ≡ false
  unfolding reply_body
  should_process_discussion-answered d n c decision bytes plain own body filled clean w closed =
      should_process-with_reply bot n plain own unicode json
        (classify_discussion unicode json (with_reply d n) bot) d filled
        (λ resolved.
          has_kind-one (codes "closure-confirmed") metadata_none (parse_markers json n.body) (
            ap (parse_markers json) (body ∙ ap (reply_body json decision.body) (closed resolved))
            ∙ (parse_markers-append_marker json decision.body (codes "closure-confirmed") bytes
                metadata_none w clean).0))
