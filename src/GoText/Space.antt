-- ===== src/GoText/Space.antt =====
-- White space, letter case and decimal numerals.
use opencode_reviewer.Prelude.{
  ℕ, zero, suc, ◌+◌, ◌-◌, ◌*◌, ◌/◌, ◌%◌, Bool, true, ◌&&◌, ◌||◌, [], ◌∷◌, map, reverse, ◌≡◌, refl,
  ltb, leb, ◌==◌, if◌then◌else◌,
}
use opencode_reviewer.GoText.Strings.{Bytes}

abbrev pub within : ℕ → ℕ → ℕ → Bool
within lo hi c = leb lo c && leb c hi

-- `unicode.IsSpace` on one byte
abbrev ascii_space : ℕ → Bool
ascii_space c = within 9 13 c || c == 32

-- The last byte of a space that begins with 0xe2, after its second byte.
abbrev e2_space : ℕ → ℕ → Bool
e2_space b c =
    (b == 0x80 && (within 0x80 0x8a c || c == 0xa8 || c == 0xa9 || c == 0xaf))
    || (b == 0x81 && c == 0x9f)

abbrev space2 : ℕ → ℕ → Bool
space2 a b = a == 0xc2 && (b == 0x85 || b == 0xa0)

abbrev space3 : ℕ → ℕ → ℕ → Bool
space3 a b c =
    (a == 0xe1 && b == 0x9a && c == 0x80)
    || (a == 0xe2 && e2_space b c)
    || (a == 0xe3 && b == 0x80 && c == 0x80)

-- The number of bytes of the Unicode space at the front, 0 if there is none.
unfoldable pub lead_space : Bytes → ℕ
lead_space [] = 0
lead_space (a ∷ []) = if ascii_space a then 1 else 0
lead_space (a ∷ b ∷ []) = if ascii_space a then 1 else if space2 a b then 2 else 0
lead_space (a ∷ b ∷ c ∷ s) =
    if ascii_space a then 1 else if space2 a b then 2 else if space3 a b c then 3 else 0

-- The same at the end, on the reversed bytes.
unfoldable pub trail_space : Bytes → ℕ
trail_space [] = 0
trail_space (a ∷ []) = if ascii_space a then 1 else 0
trail_space (b ∷ a ∷ []) = if ascii_space b then 1 else if space2 a b then 2 else 0
trail_space (c ∷ b ∷ a ∷ s) =
    if ascii_space c then 1 else if space2 b c then 2 else if space3 a b c then 3 else 0

-- Drops characters while `width` says how long the one in front is; `k` bytes of the current
-- character are still to go.
unfoldable pub skip_spaces : (Bytes → ℕ) → ℕ → Bytes → Bytes
skip_spaces width k [] = []
skip_spaces width (suc k) (a ∷ s) = skip_spaces width k s
skip_spaces width zero (a ∷ s) = elim (width (a ∷ s)) [
  | zero ↦ a ∷ s
  | suc k ↦ skip_spaces width k s
]

-- `strings.TrimSpace(s)`
unfoldable pub trim_space : Bytes → Bytes
unfolding lead_space trail_space skip_spaces
trim_space s = reverse (skip_spaces trail_space 0 (reverse (skip_spaces lead_space 0 s)))

abbrev lower_byte : ℕ → ℕ
lower_byte c = if within b'A' b'Z' c then c + 32 else c

is_ascii : Bytes → Bool
is_ascii [] = true
is_ascii (c ∷ s) = ltb c 128 && is_ascii s

-- `strings.ToLower(s)`: bytes by arithmetic if all are ASCII, otherwise by the Unicode tables,
-- which are the function `unicode`.
unfoldable pub to_lower : (Bytes → Bytes) → Bytes → Bytes
unfolding is_ascii
to_lower unicode s = if is_ascii s then map lower_byte s else unicode s

-- The decimal digits of `n` in front of `out`, with fuel for their number.
digits_onto : ℕ → ℕ → Bytes → Bytes
digits_onto zero n out = out
digits_onto (suc f) n out =
    let more = digits_onto f (n / 10) ((b'0' + n % 10) ∷ out) in
    if ltb n 10 then (b'0' + n) ∷ out else more

-- `%d` of a number that is not negative; `n + 1` rounds are enough, since each divides by ten.
unfoldable pub show_nat : ℕ → Bytes
unfolding digits_onto
show_nat n = digits_onto (n + 1) n []

abbrev pub is_digit : ℕ → Bool
is_digit = within b'0' b'9'

-- The value of decimal digits, read from the left.
unfoldable pub read_digits : ℕ → Bytes → ℕ
read_digits acc [] = acc
read_digits acc (c ∷ s) = read_digits (acc * 10 + (c - b'0')) s

test_trim :
    trim_space (32 ∷ 0xc2 ∷ 0xa0 ∷ b'a' ∷ 32 ∷ b'b' ∷ 0xe2 ∷ 0x80 ∷ 0x83 ∷ 10 ∷ [])
    ≡ b'a' ∷ 32 ∷ b'b' ∷ []
unfolding trim_space
test_trim = refl

test_show : show_nat 1070 ≡ b'1' ∷ b'0' ∷ b'7' ∷ b'0' ∷ []
unfolding show_nat
test_show = refl
