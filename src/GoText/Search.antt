-- ===== src/GoText/Search.antt =====
-- Searching a byte string for another.
use mathlib.Core.Option
use mathlib.Core.Option.{Option}
use opencode_reviewer.Prelude.{ℕ, suc, Bool, ◌||◌, [], ◌∷◌, ◌++◌, none, some, if◌then◌else◌}
use opencode_reviewer.GoText.Strings.{Bytes, has_prefix, is_empty}

-- `strings.Index(s, p)`; `none` stands for -1
unfoldable pub index : Bytes → Bytes → Option ℕ
unfolding has_prefix
index [] p = if is_empty p then some 0 else none
index (c ∷ s) p =
    let later = Option.map suc (index s p) in if has_prefix (c ∷ s) p then some 0 else later

-- `strings.Contains(s, p)`
unfoldable pub contains : Bytes → Bytes → Bool
unfolding has_prefix
contains [] p = is_empty p
contains (c ∷ s) p = has_prefix (c ∷ s) p || contains s p

-- `strings.ReplaceAll(s, old, new)` with `old` of one byte
unfoldable pub replace_byte : ℕ → Bytes → Bytes → Bytes
unfolding has_prefix
replace_byte old new [] = []
replace_byte old new (c ∷ s) =
    (if has_prefix (c ∷ []) (old ∷ []) then new else c ∷ []) ++ replace_byte old new s
