-- ===== src/Runner/Models.antt =====
-- internal/shared/runner: model names (message_model.go, message_info.go) and the lists of models
-- of session_stats.go.
use opencode_reviewer.Prelude.{
  suc, Bool, true, false, not, ◌&&◌, ◌||◌, List, [], ◌∷◌, ◌++◌, Option, none, some, if◌then◌else◌,
  select, ◌≡◌, refl, ap, ◌∙◌, sym, arith, Bool-cases, drop, length, take, inl, inr, ltb,
}
use opencode_reviewer.GoText.{Bytes, codes, bytes_eq, bytes_eq_iff, is_empty, index}

pub record MessageModel : Type 0 where
  pub provider_id : Bytes
  pub model_id : Bytes

-- `strings.SplitN(model, "/", 2)`: `none` when there is no slash.
unfoldable pub parse_model : Bytes → Option MessageModel
unfolding index
parse_model model = elim (index model (codes "/")) [
  | none ↦ none
  | some i ↦ some (record { provider_id = take i model; model_id = drop (suc i) model })
]

unfoldable pub format_model : Option MessageModel → Bytes
format_model none = []
format_model (some m) =
    if is_empty m.provider_id || is_empty m.model_id
    then []
    else m.provider_id ++ (codes "/" ++ m.model_id)

-- `modelString` of the information on a message.
unfoldable pub model_string : Bytes → Bytes → Option MessageModel → Bytes
unfolding format_model
model_string provider_id model_id model =
    if not (is_empty provider_id) && not (is_empty model_id)
    then provider_id ++ (codes "/" ++ model_id)
    else format_model model

unfoldable pub member : Bytes → List Bytes → Bool
unfolding bytes_eq
member m [] = false
member m (x ∷ xs) = bytes_eq m x || member m xs

-- The set `seen` of the source is that of the filled names of the list so far.
unfoldable pub append_unique_models : List Bytes → List Bytes → List Bytes
unfolding member
append_unique_models base [] = base
append_unique_models base (m ∷ ms) =
    let kept = append_unique_models base ms in
    let added = append_unique_models (base ++ (m ∷ [])) ms in
    if is_empty m || member m base then kept else added

-- The fallback models among those used: all of the chain but its first.
unfoldable pub with_fallback_models : List Bytes → List Bytes → List Bytes
unfolding append_unique_models member
with_fallback_models used chain =
    if ltb (length chain) 2
    then []
    else append_unique_models [] (select (λ m. not (is_empty m) && member m (drop 1 chain)) used)

pub member-append :
    (m : Bytes) (xs ys : List Bytes) → member m (xs ++ ys) ≡ (member m xs || member m ys)
unfolding member
member-append m [] ys = refl
member-append m (x ∷ xs) ys = ground (arith, member-append m xs ys)

-- A round of `append_unique_models` when its name is the one asked for, and when it is another.
unique_same :
    (old empty later old_m empty_m kept added : Bool)
    → old_m ≡ old
    → empty_m ≡ empty
    → kept ≡ (old || (not empty && later))
    → added ≡ ((old || true) || (not empty && later))
    → (if empty_m || old_m then kept else added) ≡ (old || (not empty && true))
unique_same true true later old_m empty_m kept added o e k a = rw (o, e, k) refl
unique_same true false later old_m empty_m kept added o e k a = rw (o, e, k) refl
unique_same false true later old_m empty_m kept added o e k a = rw (o, e, k) refl
unique_same false false later old_m empty_m kept added o e k a = rw (o, e, a) refl

or-false : (b : Bool) → (b || false) ≡ b
or-false true = refl
or-false false = refl

unique_other : (b kept added r : Bool) → kept ≡ r → added ≡ r → (if b then kept else added) ≡ r
unique_other true kept added r k a = k
unique_other false kept added r k a = a

member-if :
    (x : Bytes) (b : Bool) (xs ys : List Bytes)
    → member x (if b then xs else ys) ≡ (if b then member x xs else member x ys)
member-if x true xs ys = refl
member-if x false xs ys = refl

-- What is in the list afterwards: the old names, and the filled new ones.
pub member-append_unique_models :
    (x : Bytes) (base ms : List Bytes)
    → member x (append_unique_models base ms) ≡ (member x base || (not (is_empty x) && member x ms))
unfolding append_unique_models
member-append_unique_models x base [] = ground arith
member-append_unique_models x base (m ∷ ms) =
    let kept = member-append_unique_models x base ms in
    let rest = not (is_empty x) && member x ms in
    let added =
      member-append_unique_models x (base ++ (m ∷ [])) ms
      ∙ ap (λ b. b || rest) (member-append x base (m ∷ [])) in
    member-if x (is_empty m || member m base) (append_unique_models base ms)
      (append_unique_models (base ++ (m ∷ [])) ms)
    ∙ elim (Bool-cases (bytes_eq x m)) [
      | inl e ↦
          let same = (bytes_eq_iff x m).0 e in
          rw e (
            unique_same (member x base) (is_empty x) (member x ms) (member m base) (is_empty m) _ _
              (ap (λ t. member t base) (sym same)) (ap is_empty (sym same)) kept
              (added ∙ ap (λ b. (member x base || (b || false)) || rest) e))
      | inr e ↦ rw e (
          unique_other (is_empty m || member m base) _ _ _ kept (
            added
            ∙ ap (λ b. (member x base || (b || false)) || rest) e
            ∙ ap (λ b. b || rest) (or-false (member x base))))
    ]
