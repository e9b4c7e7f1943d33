-- ===== src/Paths.antt =====
-- The functions of package path/filepath that the program uses, on Unix, and the two checks of
-- paths: `validateDataDirPath` of main.go and internal/stats/migration.go, which are the same
-- function twice, and `validateFilePath` of main.go.
mod Tests
pub mod Inside
pub mod Stack
pub mod Stacked
pub mod Own
use mathlib.Core.List.{reverse}
use gospidertrap.Common.{
  ℕ, Bool, true, false, ◌||◌, Option, none, some, List, [], ◌∷◌, ◌++◌, Text, codes, text_eq,
  if◌then◌else◌,
}
use gospidertrap.Strings.{split, has_prefix, contains}

abbrev pub dot : Text
dot = codes "."

abbrev pub dot_dot : Text
dot_dot = codes ".."

-- What `Clean` does with one element of the path, over the elements kept so far, the last one first.
-- Behind the root there is nothing to go up to; a relative path keeps its leading `..`.
unfoldable pub push : Bool → List Text → Text → List Text
push rooted [] c =
    if text_eq c [] || text_eq c dot
    then []
    else if text_eq c dot_dot
    then (if rooted then [] else c ∷ [])
    else c ∷ []
push rooted (top ∷ kept) c =
    if text_eq c [] || text_eq c dot
    then top ∷ kept
    else if text_eq c dot_dot
    then (if text_eq top dot_dot then c ∷ top ∷ kept else kept)
    else c ∷ top ∷ kept

unfoldable pub push_all : Bool → List Text → List Text → List Text
push_all rooted kept [] = kept
push_all rooted kept (c ∷ cs) = push_all rooted (push rooted kept c) cs

abbrev pub is_abs : Text → Bool
is_abs path = has_prefix path (codes "/")

-- The elements that `Clean` keeps.
unfoldable pub elements : Text → List Text
elements path = reverse (push_all (is_abs path) [] (split path b'/'))

-- `strings.Join(cs, "/")`
unfoldable pub join_elements : List Text → Text
join_elements [] = []
join_elements (c ∷ []) = c
join_elements (c ∷ d ∷ cs) = c ++ b'/' ∷ join_elements (d ∷ cs)

abbrev pub or_dot : Text → Text
or_dot [] = dot
or_dot (c ∷ s) = c ∷ s

-- `filepath.Clean`
unfoldable pub clean : Text → Text
clean path =
    if is_abs path
    then b'/' ∷ join_elements (elements path)
    else or_dot (join_elements (elements path))

-- `filepath.Join(a, b)`
unfoldable pub join : Text → Text → Text
join [] [] = []
join [] (c ∷ b) = clean (c ∷ b)
join (c ∷ a) b = clean ((c ∷ a) ++ b'/' ∷ b)

-- `filepath.Abs`; the working directory is `none` if it cannot be told.
unfoldable pub abs : Option Text → Text → Option Text
abs cwd path =
    if is_abs path
    then some (clean path)
    else elim cwd [ none ↦ none | some dir ↦ some (join dir path) ]

-- The way from one list of elements to another, for paths that both begin at the root.
unfoldable pub way : List Text → List Text → List Text
way [] target = target
way (b ∷ base) [] = dot_dot ∷ way base []
way (b ∷ base) (t ∷ target) =
    let further = way base target in
    let up = dot_dot ∷ (way base [] ++ t ∷ target) in if text_eq b t then further else up

-- `filepath.Rel` for two absolute paths.
unfoldable pub rel : Text → Text → Text
rel base target = or_dot (join_elements (way (elements base) (elements target)))

-- The error, or `none`.
unfoldable pub validate_data_dir_path : Option Text → Text → Text → Option Text
validate_data_dir_path cwd data_dir file_path = elim (abs cwd data_dir) [
  | none ↦ some (codes "cannot resolve data directory")
  | some abs_dir ↦ elim (abs cwd file_path) [
    | none ↦ some (codes "cannot resolve file path")
    | some abs_file ↦
        if has_prefix (rel abs_dir abs_file) dot_dot
        then some (codes "file path is outside data directory: " ++ file_path)
        else none
  ]
]

-- `can_stat` is whether `os.Stat` finds a file at the path.
unfoldable pub validate_file_path : Option Text → (Text → Bool) → Text → Option Text
validate_file_path cwd can_stat path =
    if contains path dot_dot
    then some (codes "path contains directory traversal sequence: " ++ path)
    else elim (abs cwd path) [
      | none ↦ some (codes "cannot resolve absolute path")
      | some abs_path ↦ if can_stat abs_path then none else some (codes "cannot access file")
    ]
