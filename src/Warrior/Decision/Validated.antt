-- ===== src/Warrior/Decision/Validated.antt =====
-- internal/commentwarrior: a decision that was validated is one that can be applied.
use opencode_reviewer.Prelude.{
  Bool, true, false, not, ◌&&◌, [], ◌∷◌, Option, none, some, if◌then◌else◌, ◌≡◌, ◌⊎◌, inl, inr,
  refl, Bool-cases, Option-cases, arith,
}
use opencode_reviewer.GoText.{Bytes, codes, bytes_eq, bytes_eq_iff, is_empty, trim_space}
use opencode_reviewer.Vcs.Marker.{Json}
use opencode_reviewer.Warrior.Decision.{
  Decision, DecisionErr, reply_to, set_resolved, Answers, noop_action, is_action, is_confidence,
  validate_decision, reply_body, apply_decision, AppliedTo, reply_and_set,
}

-- What `validate_decision` has tested when it returns no error.
valid_lem :
    (action confidence modifies human noop blank : Bool) (e₁ e₂ e₃ e₄ e₅ : DecisionErr)
    → (if not action
        then some e₁
        else if not confidence
        then some e₂
        else if modifies
        then some e₃
        else if human && not noop
        then some e₄
        else if not noop && blank
        then some e₅
        else none)
      ≡ none
    → (action ≡ true)
      × (modifies ≡ false)
      × ((human && not noop) ≡ false)
      × ((not noop && blank) ≡ false)
valid_lem action confidence modifies human noop blank e₁ e₂ e₃ e₄ e₅ h = ground arith

blank_lem : (b : Bytes) → is_empty (trim_space b) ≡ false → is_empty b ≡ false
blank_lem [] h = absurd (unfold trim_space in cc)
blank_lem (x ∷ b) h = refl

module _ (json : Json) (answers : Answers) (id : Bytes) where
  -- A reply that is all that is done.
  abbrev pub replies : Bytes → AppliedTo
  replies text = record { effects = reply_to id text ∷ []; error = answers [] (reply_to id text) }

  -- A reply, and the new state of the discussion unless the reply fails.
  abbrev pub then_set : Bytes → Bool → Option Bytes → AppliedTo
  then_set text resolved (some e) = record { effects = reply_to id text ∷ []; error = some e }
  then_set text resolved none = record {
    effects = reply_to id text ∷ set_resolved id resolved ∷ [];
    error = answers (reply_to id text ∷ []) (set_resolved id resolved);
  }

  abbrev pub replies_then : Bytes → Bool → AppliedTo
  replies_then text resolved = then_set text resolved (answers [] (reply_to id text))

  -- What an action that replies comes to. `text confirmed` is the text of the reply, with the marker
  -- of a confirmed closure or without.
  abbrev pub Acts : Bytes → Bool → (Bool → Bytes) → AppliedTo → Type 0
  Acts action confirmation text done =
      ((action ≡ codes "reply") × (done ≡ replies (text confirmation)))
      ⊎ ((action ≡ codes "resolve") × (done ≡ replies_then (text confirmation) true))
      ⊎ ((action ≡ codes "unresolve") × (done ≡ replies_then (text false) false))

  after_reply-then :
      (text : Bytes) (resolved : Bool)
      → reply_and_set json answers id text resolved ≡ replies_then text resolved
  after_reply-then text resolved = elim (Option-cases (answers [] (reply_to id text))) [
    | inl e ↦ rw e refl
    | inr (x, e) ↦ rw e refl
  ]

  apply_decision-noop :
      (d : Decision) (confirmation : Bool)
      → d.action ≡ noop_action
      → apply_decision json answers id d confirmation ≡ record { effects = []; error = none }
  unfolding apply_decision bytes_eq
  apply_decision-noop d confirmation e = rw e refl

  apply_decision-Acts :
      (d : Decision) (confirmation : Bool)
      → is_action d.action ≡ true
      → bytes_eq d.action noop_action ≡ false
      → is_empty d.body ≡ false
      → Acts d.action confirmation
          (reply_body json d.body)
          (apply_decision json answers id d confirmation)
  unfolding apply_decision
  apply_decision-Acts d confirmation known acts filled =
      elim (Bool-cases (bytes_eq d.action (codes "reply"))) [
        | inl r ↦ inl ((bytes_eq_iff d.action (codes "reply")).0 r, rw (r, apply_decision) refl)
        | inr r ↦ elim (Bool-cases (bytes_eq d.action (codes "resolve"))) [
          | inl s ↦ inr (
              inl (
                (bytes_eq_iff d.action (codes "resolve")).0 s,
                rw (r, apply_decision)
                    (rw s
                      (rw filled (after_reply-then (reply_body json d.body confirmation) true))),
              ))
          | inr s ↦
              let u : bytes_eq d.action (codes "unresolve") ≡ true =
                ground (arith, known, acts, r, s) in
              inr (
                inr (
                  (bytes_eq_iff d.action (codes "unresolve")).0 u,
                  rw (r, apply_decision)
                      (rw s
                        (rw u (rw filled (after_reply-then (reply_body json d.body false) false)))),
                ))
        ]
      ]

  -- A validated decision is applied as it says. `noop` makes no call and succeeds. The others, which
  -- no decision that needs a human is, have a text that is not blank: `reply` posts it, `resolve`
  -- posts it and then resolves the discussion, `unresolve` posts it and then reopens the discussion,
  -- and a reply that fails ends them with its error. The reply carries the marker of a confirmed
  -- closure when `reply` and `resolve` are asked for it, and never with `unresolve`.
  pub apply_decision-validated :
      (d : Decision) (confirmation : Bool)
      → validate_decision d ≡ none
      → let done = apply_decision json answers id d confirmation in
        ((d.action ≡ noop_action) × (done ≡ record { effects = []; error = none }))
        ⊎ ((d.needs_human ≡ false)
            × (is_empty (trim_space d.body) ≡ false)
            × Acts d.action confirmation (reply_body json d.body) done)
  unfolding validate_decision
  apply_decision-validated d confirmation valid =
      let (known, modifies, human, blank) =
        valid_lem (is_action d.action) (is_confidence d.confidence) d.would_modify_code
          d.needs_human (bytes_eq d.action noop_action) (is_empty (trim_space d.body)) _ _ _ _ _
          valid in
      elim (Bool-cases (bytes_eq d.action noop_action)) [
        | inl e ↦
            let at_noop = (bytes_eq_iff d.action noop_action).0 e in
            inl (at_noop, apply_decision-noop d confirmation at_noop)
        | inr e ↦
            let calm : d.needs_human ≡ false = ground (arith, human, e) in
            let filled : is_empty (trim_space d.body) ≡ false = ground (arith, blank, e) in
            inr (calm, filled, apply_decision-Acts d confirmation known e (blank_lem d.body filled))
      ]
