-- ===== src/GoText/Clean.antt =====
-- `path/filepath`: paths made shortest by their text, put together and taken apart, on Unix.
use opencode_reviewer.Prelude.{
  ◌==◌, Bool, true, false, ◌||◌, List, [], ◌∷◌, ◌++◌, map, reverse, if◌then◌else◌, ◌≡◌, refl,
  Option, none, some,
}
use opencode_reviewer.GoText.Strings.{Bytes, codes, is_empty, bytes_eq, has_prefix, split, join}

-- `filepath.IsAbs`
unfoldable pub is_abs : Bytes → Bool
unfolding has_prefix
is_abs path = has_prefix path (codes "/")

-- A `..` behind the elements that are kept, the last one first.
parent : Bool → List Bytes → List Bytes
unfolding bytes_eq
parent rooted [] = if rooted then [] else codes ".." ∷ []
parent rooted (top ∷ rest) = if bytes_eq top (codes "..") then codes ".." ∷ top ∷ rest else rest

keep_element : Bool → List Bytes → Bytes → List Bytes
unfolding parent
keep_element rooted out element =
    if is_empty element || bytes_eq element (codes ".")
    then out
    else if bytes_eq element (codes "..")
    then parent rooted out
    else element ∷ out

keep_elements : Bool → List Bytes → List Bytes → List Bytes
unfolding keep_element
keep_elements rooted out [] = out
keep_elements rooted out (element ∷ elements) =
    keep_elements rooted (keep_element rooted out element) elements

-- The elements of the shortest path.
clean_elements : Bytes → List Bytes
unfolding keep_elements is_abs split
clean_elements path = reverse (keep_elements (is_abs path) [] (split b'/' path))

from_elements : Bool → List Bytes → Bytes
unfolding join
from_elements true elements = codes "/" ++ join (codes "/") elements
from_elements false elements = if is_empty elements then codes "." else join (codes "/") elements

-- `filepath.Clean`
unfoldable pub clean : Bytes → Bytes
unfolding from_elements clean_elements
clean path = from_elements (is_abs path) (clean_elements path)

-- `filepath.Join` of two elements
unfoldable pub join_paths : Bytes → Bytes → Bytes
unfolding clean
join_paths a b =
    if is_empty a
    then if is_empty b then [] else clean b
    else if is_empty b
    then clean a
    else clean (a ++ (codes "/" ++ b))

-- `..` for each element of the base that is left, then the rest of the target; an element `..` of
-- the base has no inverse.
climb : List Bytes → List Bytes → Option Bytes
unfolding from_elements
climb [] target = some (from_elements false target)
climb (b ∷ bs) target =
    if bytes_eq b (codes "..")
    then none
    else some (from_elements false (map (λ _. codes "..") (b ∷ bs) ++ target))

rel_elements : List Bytes → List Bytes → Option Bytes
unfolding climb
rel_elements [] target = climb [] target
rel_elements (b ∷ bs) [] = climb (b ∷ bs) []
rel_elements (b ∷ bs) (t ∷ ts) =
    let rest = rel_elements bs ts in if bytes_eq b t then rest else climb (b ∷ bs) (t ∷ ts)

-- `filepath.Rel`; `none` stands for its error.
unfoldable pub rel : Bytes → Bytes → Option Bytes
unfolding rel_elements clean_elements
rel base_path target_path =
    if is_abs base_path
    then if is_abs target_path
      then rel_elements (clean_elements base_path) (clean_elements target_path)
      else none
    else if is_abs target_path
    then none
    else rel_elements (clean_elements base_path) (clean_elements target_path)

test_clean : clean (codes "/a/./b//../c/../../..") ≡ codes "/"
unfolding clean
test_clean = refl

test_join : join_paths (codes "../x/") (codes "../../y") ≡ codes "../../y"
unfolding join_paths
test_join = refl

test_rel : rel (codes "/a/b/c") (codes "/a/d") ≡ some (codes "../../d")
unfolding rel
test_rel = refl

-- The bytes up to the last slash, with it, of a reversed path.
to_slash : Bytes → Bytes
to_slash [] = []
to_slash (c ∷ s) = let rest = to_slash s in if c == b'/' then c ∷ s else rest

-- `filepath.Dir`
unfoldable pub directory : Bytes → Bytes
unfolding to_slash clean
directory path = clean (reverse (to_slash (reverse path)))
