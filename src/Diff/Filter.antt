-- ===== src/Diff/Filter.antt =====
-- internal/shared/diff/filter.go: noise files, languages, categories and the stable sort.
use opencode_reviewer.Prelude.{ℕ, Bool, false, ◌||◌, List, [], ◌∷◌, ◌++◌, ltb, if◌then◌else◌}
use opencode_reviewer.GoText.{Bytes, codes, bytes_eq, has_prefix, has_suffix, contains, base, ext}
use opencode_reviewer.Diff.Types.{FileDiff}

abbrev pub one_of : Bytes → List Bytes → Bool
one_of s [] = false
one_of s (x ∷ xs) = bytes_eq s x || one_of s xs

abbrev pub suffix_of : Bytes → List Bytes → Bool
suffix_of s [] = false
suffix_of s (x ∷ xs) = has_suffix s x || suffix_of s xs

abbrev pub prefix_of : Bytes → List Bytes → Bool
prefix_of s [] = false
prefix_of s (x ∷ xs) = has_prefix s x || prefix_of s xs

abbrev noise_names : List Bytes
noise_names =
    codes "go.sum"
    ∷ codes "go.mod"
    ∷ codes "package-lock.json"
    ∷ codes "yarn.lock"
    ∷ codes "pnpm-lock.yaml"
    ∷ codes "Podfile.lock"
    ∷ codes "Gemfile.lock"
    ∷ codes "composer.lock"
    ∷ codes "Cargo.lock"
    ∷ codes "poetry.lock"
    ∷ codes "flake.lock"
    ∷ codes "packages.lock.json"
    ∷ []

abbrev noise_suffixes : List Bytes
noise_suffixes =
    codes ".pb.go"
    ∷ codes ".pb.gw.go"
    ∷ codes "_generated.go"
    ∷ codes ".min.js"
    ∷ codes ".min.css"
    ∷ codes ".snap"
    ∷ codes ".png"
    ∷ codes ".jpg"
    ∷ codes ".jpeg"
    ∷ codes ".gif"
    ∷ codes ".ico"
    ∷ codes ".svg"
    ∷ codes ".webp"
    ∷ codes ".woff"
    ∷ codes ".woff2"
    ∷ codes ".ttf"
    ∷ codes ".eot"
    ∷ codes ".pdf"
    ∷ codes ".zip"
    ∷ codes ".tar.gz"
    ∷ codes ".jar"
    ∷ []

-- `config.ReviewDir`
abbrev pub review_dir : Bytes
review_dir = codes ".opencode-review"

abbrev noise_prefixes : List Bytes
noise_prefixes =
    (review_dir ++ codes "/")
    ∷ codes ".idea/"
    ∷ codes ".vscode/"
    ∷ codes ".gradle/"
    ∷ codes "vendor/"
    ∷ codes "node_modules/"
    ∷ codes "__pycache__/"
    ∷ []

unfoldable pub is_noise : Bytes → Bool
unfolding base bytes_eq has_suffix has_prefix
is_noise path =
    one_of (base path) noise_names || suffix_of path noise_suffixes || prefix_of path noise_prefixes

-- A table of pairs, looked up by its first column.
abbrev find_in : Bytes → List (Bytes × Bytes) → Bytes
find_in k [] = []
find_in k ((j, v) ∷ rest) = if bytes_eq k j then v else find_in k rest

abbrev language_map : List (Bytes × Bytes)
language_map =
    (codes ".go", codes "go")
    ∷ (codes ".kt", codes "kotlin")
    ∷ (codes ".kts", codes "kotlin")
    ∷ (codes ".java", codes "java")
    ∷ (codes ".py", codes "python")
    ∷ (codes ".js", codes "javascript")
    ∷ (codes ".jsx", codes "javascript")
    ∷ (codes ".ts", codes "typescript")
    ∷ (codes ".tsx", codes "typescript")
    ∷ (codes ".rs", codes "rust")
    ∷ (codes ".rb", codes "ruby")
    ∷ (codes ".c", codes "c")
    ∷ (codes ".h", codes "c")
    ∷ (codes ".cpp", codes "cpp")
    ∷ (codes ".cc", codes "cpp")
    ∷ (codes ".hpp", codes "cpp")
    ∷ (codes ".cs", codes "csharp")
    ∷ (codes ".swift", codes "swift")
    ∷ (codes ".sh", codes "bash")
    ∷ (codes ".bash", codes "bash")
    ∷ (codes ".zsh", codes "bash")
    ∷ (codes ".sql", codes "sql")
    ∷ (codes ".yaml", codes "yaml")
    ∷ (codes ".yml", codes "yaml")
    ∷ (codes ".json", codes "json")
    ∷ (codes ".xml", codes "xml")
    ∷ (codes ".html", codes "html")
    ∷ (codes ".css", codes "css")
    ∷ (codes ".scss", codes "scss")
    ∷ (codes ".md", codes "markdown")
    ∷ (codes ".toml", codes "toml")
    ∷ (codes ".proto", codes "protobuf")
    ∷ (codes ".lua", codes "lua")
    ∷ (codes ".php", codes "php")
    ∷ (codes ".r", codes "r")
    ∷ (codes ".R", codes "r")
    ∷ (codes ".dart", codes "dart")
    ∷ (codes ".scala", codes "scala")
    ∷ (codes ".groovy", codes "groovy")
    ∷ []

unfoldable pub detect_language : Bytes → Bytes
unfolding ext bytes_eq
detect_language path = find_in (ext path) language_map

abbrev test_suffixes : List Bytes
test_suffixes =
    codes "_test.go"
    ∷ codes "_test.kt"
    ∷ codes "_test.java"
    ∷ codes ".test.js"
    ∷ codes ".test.ts"
    ∷ codes ".test.tsx"
    ∷ codes ".spec.js"
    ∷ codes ".spec.ts"
    ∷ []

abbrev build_names : List Bytes
build_names =
    codes "Makefile"
    ∷ codes "Dockerfile"
    ∷ codes "Jenkinsfile"
    ∷ codes "docker-compose.yml"
    ∷ codes "docker-compose.yaml"
    ∷ codes "build.gradle"
    ∷ codes "build.gradle.kts"
    ∷ codes "pom.xml"
    ∷ []

unfoldable pub file_category : FileDiff → ℕ
unfolding base bytes_eq has_suffix has_prefix contains
file_category f =
    let path = f.path in
    if suffix_of path test_suffixes
      || contains path (codes "/test/")
      || contains path (codes "/tests/")
    then 1
    else if one_of (base path) build_names
    then 2
    else if has_prefix path (codes ".github/") || has_prefix path (codes ".ci/")
    then 2
    else if one_of f.language (codes "yaml" ∷ codes "toml" ∷ codes "json" ∷ codes "xml" ∷ [])
    then 3
    else if bytes_eq f.language (codes "markdown")
    then 4
    else 0

-- The insertion step of a stable sort by a key.
unfoldable pub insert_by : (FileDiff → ℕ) → FileDiff → List FileDiff → List FileDiff
insert_by key f [] = f ∷ []
insert_by key f (g ∷ gs) =
    let later = g ∷ insert_by key f gs in if ltb (key g) (key f) then later else f ∷ g ∷ gs

-- `sort.SliceStable`, by insertion from the back
unfoldable pub sort_by : (FileDiff → ℕ) → List FileDiff → List FileDiff
unfolding insert_by
sort_by key [] = []
sort_by key (f ∷ fs) = insert_by key f (sort_by key fs)

unfoldable pub sort_files : List FileDiff → List FileDiff
unfolding sort_by file_category
sort_files = sort_by file_category
