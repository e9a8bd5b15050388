-- ===== src/GoInt.antt =====
-- Go's `int`: a signed 64-bit integer, written as the integer that it stands for. Every operation
-- wraps round as the machine does.
pub mod Number
use opencode_reviewer.Prelude.{
  ℕ, zero, suc, ◌+◌, ◌-◌, ◌%◌, ◌<◌, ◌≡◌, ◌↔◌, Bool, true, false, arith, ltb, leb, ◌==◌,
  if◌then◌else◌,
}

-- `negsuc n` is -(n + 1).
pub data ℤ : Type 0 where
  pos : ℕ → ℤ
  negsuc : ℕ → ℤ

abbrev pub pos_part : ℤ → ℕ
pos_part (pos n) = n
pos_part (negsuc n) = 0

abbrev pub neg_part : ℤ → ℕ
neg_part (pos n) = 0
neg_part (negsuc n) = suc n

-- a - b, as an integer.
abbrev pub sub_ℕ : ℕ → ℕ → ℤ
sub_ℕ a b = if leb b a then pos (a - b) else negsuc (b - a - 1)

abbrev pub two_63 : ℕ
two_63 = 9_223_372_036_854_775_808

abbrev pub two_64 : ℕ
two_64 = 18_446_744_073_709_551_616

-- The 64-bit pattern read as a signed number.
abbrev pub of_word : ℕ → ℤ
of_word w = if ltb w two_63 then pos w else sub_ℕ w two_64

abbrev pub to_word : ℤ → ℕ
to_word (pos n) = n % two_64
to_word (negsuc n) = two_64 - 1 - n % two_64

-- `a - b` and `-a` and `a + 1` on `int`
unfoldable pub sub_int : ℤ → ℤ → ℤ
sub_int a b = of_word ((to_word a + two_64 - to_word b) % two_64)

unfoldable pub neg_int : ℤ → ℤ
neg_int a = of_word ((two_64 - to_word a) % two_64)

unfoldable pub inc_int : ℤ → ℤ
inc_int (pos n) = if ltb n (two_63 - 1) then pos (suc n) else of_word ((n + 1) % two_64)
inc_int (negsuc zero) = pos 0
inc_int (negsuc (suc n)) = negsuc n

abbrev pub eq_int : ℤ → ℤ → Bool
eq_int (pos a) (pos b) = a == b
eq_int (negsuc a) (negsuc b) = a == b
eq_int _ _ = false

-- `a < b`
abbrev pub lt_int : ℤ → ℤ → Bool
lt_int (pos a) (pos b) = ltb a b
lt_int (pos a) (negsuc b) = false
lt_int (negsuc a) (pos b) = true
lt_int (negsuc a) (negsuc b) = ltb b a

pub eq_int_iff : (a b : ℤ) → (eq_int a b ≡ true) ↔ (a ≡ b)
eq_int_iff (pos a) (pos b) = ground arith
eq_int_iff (negsuc a) (negsuc b) = ground arith
eq_int_iff _ _ = ground arith

-- `a ≤ b`, as a statement.
abbrev pub ◌≤ℤ◌ : ℤ → ℤ → Type 0
◌≤ℤ◌ a b = lt_int b a ≡ false

infix 50 ◌≤ℤ◌
pub ≤ℤ_refl : (a : ℤ) → a ≤ℤ a
≤ℤ_refl (pos a) = ground arith
≤ℤ_refl (negsuc a) = ground arith

pub ≤ℤ_trans : (a b c : ℤ) → a ≤ℤ b → b ≤ℤ c → a ≤ℤ c
≤ℤ_trans (pos a) (pos b) (pos c) h k = ground arith
≤ℤ_trans _ _ _ h k = ground arith

pub <ℤ-≤ℤ : (a b : ℤ) → lt_int a b ≡ true → a ≤ℤ b
<ℤ-≤ℤ (pos a) (pos b) h = ground arith
<ℤ-≤ℤ _ _ h = ground arith

-- Counting up from a number below the limit never wraps.
pub inc_int-pos : (n : ℕ) → n + 1 < two_63 → inc_int (pos n) ≡ pos (suc n)
unfolding inc_int
inc_int-pos n h = ground arith
