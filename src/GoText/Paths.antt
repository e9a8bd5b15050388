-- ===== src/GoText/Paths.antt =====
-- `path/filepath` on Unix paths.
use opencode_reviewer.Prelude.{[], ◌∷◌, ◌++◌, reverse, ◌==◌, if◌then◌else◌}
use opencode_reviewer.GoText.Strings.{Bytes, codes, is_empty}

-- The bytes behind the last slash.
after_slash : Bytes → Bytes → Bytes
after_slash cur [] = cur
after_slash cur (c ∷ s) = after_slash (if c == b'/' then [] else cur ++ c ∷ []) s

drop_slashes : Bytes → Bytes
drop_slashes [] = []
drop_slashes (c ∷ s) = let rest = drop_slashes s in if c == b'/' then rest else c ∷ s

-- `filepath.Base` on a Unix path
unfoldable pub base : Bytes → Bytes
unfolding after_slash drop_slashes
base path =
    if is_empty path
    then codes "."
    else let name = after_slash [] (reverse (drop_slashes (reverse path))) in
      if is_empty name then codes "/" else name

-- The bytes from the last dot of the last path element, on the reversed path; `none` if there
-- is no dot.
ext_back : Bytes → Bytes → Bytes
ext_back out [] = []
ext_back out (c ∷ s) =
    let rest = ext_back (c ∷ out) s in if c == b'/' then [] else if c == b'.' then c ∷ out else rest

-- `filepath.Ext`
unfoldable pub ext : Bytes → Bytes
unfolding ext_back
ext path = ext_back [] (reverse path)
