-- ===== src/GoText/Base64.antt =====
-- `base64.RawURLEncoding`: groups of three bytes as four characters, with no padding.
use mathlib.Core.Path.{ap₂}
use opencode_reviewer.Prelude.{
  ℕ, ◌+◌, ◌-◌, ◌*◌, ◌/◌, ◌%◌, ◌<◌, [], ◌∷◌, Option, none, some, ◌≡◌, refl, ap, arith, ltb, ◌==◌,
  if◌then◌else◌, All,
}
use opencode_reviewer.GoText.Strings.{Bytes}
use opencode_reviewer.GoText.Space.{within}

unfoldable pub digit_char : ℕ → ℕ
digit_char d =
    if ltb d 26
    then b'A' + d
    else if ltb d 52
    then b'a' + (d - 26)
    else if ltb d 62
    then b'0' + (d - 52)
    else if d == 62
    then b'-'
    else b'_'

unfoldable pub char_digit : ℕ → Option ℕ
char_digit c =
    if within b'A' b'Z' c
    then some (c - b'A')
    else if within b'a' b'z' c
    then some (c - b'a' + 26)
    else if within b'0' b'9' c
    then some (c - b'0' + 52)
    else if c == b'-'
    then some 62
    else if c == b'_'
    then some 63
    else none

unfoldable pub encode : Bytes → Bytes
encode [] = []
encode (a ∷ []) = digit_char (a / 4) ∷ digit_char (a % 4 * 16) ∷ []
encode (a ∷ b ∷ []) =
    digit_char (a / 4) ∷ digit_char (a % 4 * 16 + b / 16) ∷ digit_char (b % 16 * 4) ∷ []
encode (a ∷ b ∷ c ∷ s) =
    digit_char (a / 4)
    ∷ digit_char (a % 4 * 16 + b / 16)
    ∷ digit_char (b % 16 * 4 + c / 64)
    ∷ digit_char (c % 64)
    ∷ encode s

infixl 5 ◌>>=◌
abbrev ◌>>=◌ : {A B : Type 0} → Option A → (A → Option B) → Option B
none >>= f = none
some a >>= f = f a

-- The bits of the last group that fill no byte are ignored, as the decoder that is not strict does.
unfoldable pub decode : Bytes → Option Bytes
decode [] = some []
decode (w ∷ []) = none
decode (w ∷ x ∷ []) = do i ← char_digit w; j ← char_digit x; some ((i * 4 + j / 16) ∷ [])
decode (w ∷ x ∷ y ∷ []) = do
  i ← char_digit w
  j ← char_digit x
  k ← char_digit y
  some ((i * 4 + j / 16) ∷ (j % 16 * 16 + k / 4) ∷ [])
decode (w ∷ x ∷ y ∷ z ∷ s) = do
  i ← char_digit w
  j ← char_digit x
  k ← char_digit y
  l ← char_digit z
  rest ← decode s
  some ((i * 4 + j / 16) ∷ (j % 16 * 16 + k / 4) ∷ (k % 4 * 64 + l) ∷ rest)

char_digit-digit_char : (d : ℕ) → d < 64 → char_digit (digit_char d) ≡ some d
unfolding char_digit digit_char
char_digit-digit_char d h = ground arith

-- Every element is a byte.
abbrev pub AreBytes : Bytes → Type 0
AreBytes = All (λ c. c < 256)

-- `decode` undoes `encode` on bytes.
pub decode-encode : (s : Bytes) → AreBytes s → decode (encode s) ≡ some s
unfolding decode encode
decode-encode [] h = refl
decode-encode (a ∷ []) (ha, _) =
    rw
      (
        char_digit-digit_char (a / 4) (omega arith),
        char_digit-digit_char (a % 4 * 16) (omega arith),
      )
      (ap (λ x. some (x ∷ [])) (omega arith))
decode-encode (a ∷ b ∷ []) (ha, (hb, _)) =
    rw
      (
        char_digit-digit_char (a / 4) (omega arith),
        char_digit-digit_char (a % 4 * 16 + b / 16) (omega arith),
        char_digit-digit_char (b % 16 * 4) (omega arith),
      )
      (ap₂ (λ x y. some (x ∷ y ∷ [])) (omega arith) (omega arith))
decode-encode (a ∷ b ∷ c ∷ s) (ha, (hb, (hc, h))) =
    rw
      (
        char_digit-digit_char (a / 4) (omega arith),
        char_digit-digit_char (a % 4 * 16 + b / 16) (omega arith),
        char_digit-digit_char (b % 16 * 4 + c / 64) (omega arith),
        char_digit-digit_char (c % 64) (omega arith),
        decode-encode s h,
      )
      (ap₂ (λ x (t : Bytes). some (x ∷ t)) (omega arith)
        (ap₂ (λ y (t : Bytes). y ∷ t) (omega arith) (ap (λ z. z ∷ s) (omega arith))))
