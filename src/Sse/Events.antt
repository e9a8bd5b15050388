-- ===== src/Sse/Events.antt =====
-- internal/shared/sse/event.go: the tool call events, and the errors of a session.
use opencode_reviewer.Prelude.{ℕ, Bool, not, List, [], ◌∷◌, Option, none, some, if◌then◌else◌}
use opencode_reviewer.GoText.{Bytes, codes, bytes_eq, is_empty}
use opencode_reviewer.GoInt.{ℤ, pos, negsuc}
use opencode_reviewer.GoInt.Number.{atoi}
use opencode_reviewer.Sse.CodeErrors.{CodeError, new_code_error, is_http_code_error}

pub record ToolCall : Type 0 where
  pub tool : Bytes
  pub session_id : Bytes
  -- `none` is a nil `RawMessage`.
  pub input : Option Bytes

-- `event.Properties.Part` of a `toolCallEvent`, with the fields of its `State`.
pub record ToolCallPart : Type 0 where
  pub session_id : Bytes
  pub kind : Bytes
  pub tool : Bytes
  pub status : Bytes
  pub input : Option Bytes

-- What `json.Unmarshal` makes of a value for an `any`. A number is a `float64`, of which the code
-- reads only `int(v)`.
mutual
  pub data Value : Type 0 where
    null : Value
    boolean : Bool → Value
    number : ℤ → Value
    text : Bytes → Value
    array : Value
    object : Fields → Value

  pub data Fields : Type 0 where
    end : Fields
    field : Bytes → Value → Fields → Fields

-- `properties[key]`; a missing key gives a nil value.
unfoldable pub lookup : Bytes → Fields → Value
lookup key end = null
lookup key (field k v rest) = if bytes_eq k key then v else lookup key rest

unfoldable pub number_value : Value → Option ℤ
unfolding atoi
number_value (number v) = some v
number_value (text v) = atoi v
number_value _ = none

-- `value.(map[string]any)`
unfoldable pub as_map : Value → Option Fields
as_map (object fields) = some fields
as_map _ = none

unfoldable pub session_error_status : Fields → Option ℤ
unfolding lookup number_value as_map
session_error_status properties = elim (number_value (lookup (codes "statusCode") properties)) [
  | some status ↦ some status
  | none ↦ elim (as_map (lookup (codes "error") properties)) [
    | some nested ↦ number_value (lookup (codes "statusCode") nested)
    | none ↦ none
  ]
]

-- `value.(string)`, when it is not empty.
unfoldable pub filled_text : Value → Option Bytes
filled_text (text v) = if is_empty v then none else some v
filled_text _ = none

abbrev snippet_keys : List Bytes
snippet_keys = codes "message" ∷ codes "body" ∷ codes "details" ∷ []

-- The loop over the keys.
unfoldable pub first_text : List Bytes → Fields → Option Bytes
unfolding lookup filled_text
first_text [] fields = none
first_text (key ∷ keys) fields =
    let rest = first_text keys fields in
    elim (filled_text (lookup key fields)) [ some v ↦ some v | none ↦ rest ]

-- `marshal` is what `json.Marshal` and `fmt.Sprint` make of the properties.
unfoldable pub session_error_snippet : (Fields → Bytes) → Fields → Bytes
unfolding first_text
session_error_snippet marshal properties =
    let nested : Option Bytes = elim (as_map (lookup (codes "error") properties)) [
      | some fields ↦ first_text snippet_keys fields
      | none ↦ none
    ] in
    elim nested [
      | some v ↦ v
      | none ↦ elim (first_text snippet_keys properties) [ some v ↦ v | none ↦ marshal properties ]
    ]

-- The decoder of the payloads. It is `encoding/json`, and a parameter.
pub record Decoder : Type 0 where
  -- The type and the properties of an event.
  pub session_event : Bytes → Option (Bytes × Fields)
  pub tool_event : Bytes → Option ToolCallPart
  pub marshal : Fields → Bytes

-- A status that is negative is no code.
abbrev code_of : ℤ → Option ℕ
code_of (pos n) = if is_http_code_error n then some n else none
code_of (negsuc n) = none

module _ (decoder : Decoder) where
  abbrev session_code_error : Bytes × Fields → Option CodeError
  session_code_error (kind, properties) =
      if not (bytes_eq kind (codes "session.error"))
      then none
      else elim (session_error_status properties) [
        | none ↦ none
        | some status ↦ elim (code_of status) [
          | none ↦ none
          | some code ↦ some (
              new_code_error code (codes "session.error")
                (session_error_snippet decoder.marshal properties))
        ]
      ]

  unfoldable pub extract_session_code_error : Bytes → Option CodeError
  unfolding session_error_status session_error_snippet is_http_code_error new_code_error bytes_eq
  extract_session_code_error raw = elim (decoder.session_event raw) [
    | none ↦ none
    | some event ↦ session_code_error event
  ]
