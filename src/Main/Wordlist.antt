-- ===== src/Main/Wordlist.antt =====
-- main.go: `loadWordlist`.
use gospidertrap.Common.{
  ℕ, suc, Bool, true, false, Option, none, some, List, [], ◌∷◌, ◌++◌, Text, codes, text_eq, ltb,
  leb, if◌then◌else◌,
}
use gospidertrap.Strings.{trim_space}
use gospidertrap.Strings.Lines.{scan_lines}
use gospidertrap.Paths.{validate_file_path}

-- A value, or the message of an error.
pub data Result {ℓ} (A : Type ℓ) : Type ℓ where
  ok : A → Result A
  error : Text → Result A

-- The file system: the working directory, the sizes that `os.Stat` tells and the contents that
-- can be read.
pub record Disk : Type 0 where
  pub cwd : Option Text
  pub size : Text → Option ℕ
  pub content : Text → Option Text

abbrev pub can_stat : Disk → Text → Bool
can_stat disk path = elim (disk.size path) [ none ↦ false | some n ↦ true ]

abbrev pub max_wordlist_file_size : ℕ
max_wordlist_file_size = 52428800

abbrev pub max_wordlist_entries : ℕ
max_wordlist_entries = 100000

abbrev pub too_many : Text
too_many = codes "wordlist has too many entries (max 100000)"

abbrev pub push_entry : Text → Result (List Text) → Result (List Text)
push_entry entry (ok entries) = ok (entry ∷ entries)
push_entry entry (error e) = error e

-- The loop over the lines, with the number of entries so far.
unfoldable pub read_entries : ℕ → List Text → Result (List Text)
read_entries count [] = ok []
read_entries count (line ∷ lines) =
    let entry = trim_space line in
    let skipped = read_entries count lines in
    let kept = read_entries (suc count) lines in
    if text_eq entry []
    then skipped
    else if leb max_wordlist_entries count
    then error too_many
    else push_entry entry kept

abbrev pub unless_stopped : Bool → Result (List Text) → Result (List Text)
unless_stopped ended (error e) = error e
unless_stopped ended (ok entries) =
    if ended then ok entries else error (codes "error reading wordlist file")

-- The entries, unless the scanner stopped at a line that is too long.
unfoldable pub read_wordlist : Text → Result (List Text)
read_wordlist content =
    let (lines, ended) = scan_lines content in unless_stopped ended (read_entries 0 lines)

unfoldable pub load_wordlist : Disk → Text → Result (List Text)
load_wordlist disk filename = elim (validate_file_path disk.cwd (can_stat disk) filename) [
  | some e ↦ error (codes "invalid wordlist file path: " ++ e)
  | none ↦ elim (disk.size filename) [
    | none ↦ error (codes "can't read wordlist file")
    | some size ↦
        if ltb max_wordlist_file_size size
        then error (codes "wordlist file too large")
        else elim (disk.content filename) [
          | none ↦ error (codes "can't read wordlist file")
          | some content ↦ read_wordlist content
        ]
  ]
]
