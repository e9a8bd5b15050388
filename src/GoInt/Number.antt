-- ===== src/GoInt/Number.antt =====
-- Go's `strconv.Atoi`, which reads a number in decimal.
use opencode_reviewer.Prelude.{
  ℕ, ◌-◌, Bool, true, false, not, ◌&&◌, ◌||◌, [], ◌∷◌, Option, none, some, if◌then◌else◌, ltb, leb,
  ◌==◌,
}
use opencode_reviewer.GoText.{Bytes, is_empty, is_digit, read_digits}
use opencode_reviewer.GoInt.{ℤ, pos, negsuc, two_63}

all_digits : Bytes → Bool
all_digits [] = true
all_digits (c ∷ s) = is_digit c && all_digits s

-- The digits of a number without its sign.
magnitude : Bytes → Option ℕ
unfolding all_digits read_digits
magnitude s = if is_empty s || not (all_digits s) then none else some (read_digits 0 s)

negated : ℕ → ℤ
negated n = if n == 0 then pos 0 else negsuc (n - 1)

within_int : Bool → ℕ → Option ℤ
unfolding negated
within_int true n = if leb n two_63 then some (negated n) else none
within_int false n = if ltb n two_63 then some (pos n) else none

signed : Bool → Bytes → Option ℤ
unfolding magnitude within_int
signed minus s = elim (magnitude s) [ none ↦ none | some n ↦ within_int minus n ]

-- A sign, then one digit or more, within the range of `int`.
unfoldable pub atoi : Bytes → Option ℤ
unfolding signed
atoi [] = none
atoi (c ∷ s) =
    if c == b'-' then signed true s else if c == b'+' then signed false s else signed false (c ∷ s)
