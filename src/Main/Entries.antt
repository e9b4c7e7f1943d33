-- ===== src/Main/Entries.antt =====
-- main.go: which entries `loadWordlist` returns.
use gospidertrap.Common.{
  ℕ, suc, ◌+◌, ◌≤◌, ◌≡◌, ◌≢◌, refl, ap, ◌∙◌, Bool, true, false, none, some, List, [], ◌∷◌, arith,
  Text, text_eq, text_eq_iff, leb, ltb, if◌then◌else◌, length, Bool-cases, inl, inr, All,
}
use gospidertrap.Strings.{trim_space}
use gospidertrap.Strings.Lines.{scan_lines}
use gospidertrap.Paths.{validate_file_path}
use gospidertrap.Main.Wordlist.{
  Result, ok, error, Disk, can_stat, max_wordlist_file_size, max_wordlist_entries, too_many,
  push_entry, unless_stopped, read_entries, read_wordlist, load_wordlist,
}

-- The lines without the white space at their ends, where something is left.
unfoldable pub entries_of : List Text → List Text
entries_of [] = []
entries_of (line ∷ lines) =
    let rest = entries_of lines in
    if text_eq (trim_space line) [] then rest else trim_space line ∷ rest

abbrev pub answer : Bool → List Text → Result (List Text)
answer fits entries = if fits then ok entries else error too_many

push_answer :
    (fits fits' : Bool) (entry : Text) (entries : List Text)
    → fits ≡ fits'
    → push_entry entry (answer fits entries) ≡ answer fits' (entry ∷ entries)
push_answer true fits' entry entries e = rw (← e) refl
push_answer false fits' entry entries e = rw (← e) refl

read_entries_lem :
    (count : ℕ) (lines : List Text)
    → count ≤ max_wordlist_entries
    → read_entries count lines
      ≡ answer (leb (count + length (entries_of lines)) max_wordlist_entries) (entries_of lines)
unfolding read_entries entries_of
read_entries_lem count [] h =
    let fits : leb (count + 0) max_wordlist_entries ≡ true = ground arith in rw fits refl
read_entries_lem count (line ∷ lines) h = elim (Bool-cases (text_eq (trim_space line) [])) [
  | inl empty ↦ rw empty (read_entries_lem count lines h)
  | inr some_left ↦ elim (Bool-cases (leb max_wordlist_entries count)) [
    | inl full ↦
        let over : leb (count + suc (length (entries_of lines))) max_wordlist_entries ≡ false =
          ground arith in
        rw (some_left, full, over) refl
    | inr room ↦
        rw (some_left, room, read_entries_lem (suc count) lines (ground arith))
          (push_answer (leb (suc count + length (entries_of lines)) max_wordlist_entries)
            (leb (count + suc (length (entries_of lines))) max_wordlist_entries) (trim_space line)
            (entries_of lines) (ap (λ n. leb n max_wordlist_entries) (omega arith)))
  ]
]

-- Every entry has something in it.
entries_of_some : (lines : List Text) → All (λ entry. entry ≢ []) (entries_of lines)
unfolding entries_of
entries_of_some [] = tt
entries_of_some (line ∷ lines) = elim (Bool-cases (text_eq (trim_space line) [])) [
  | inl e ↦ rw e (entries_of_some lines)
  | inr e ↦ rw e ((λ h. cc (e, (text_eq_iff (trim_space line) []).1 h)), entries_of_some lines)
]

unstopped : (r : Result (List Text)) → unless_stopped true r ≡ r
unstopped (ok entries) = refl
unstopped (error e) = refl

read_wordlist_lem :
    (content : Text)
    → (scan_lines content).1 ≡ true
    → read_wordlist content
      ≡ answer
          (leb (length (entries_of (scan_lines content).0)) max_wordlist_entries)
          (entries_of (scan_lines content).0)
unfolding read_wordlist
read_wordlist_lem content ended = rw ended (
    unstopped (read_entries 0 (scan_lines content).0)
    ∙ read_entries_lem 0 (scan_lines content).0 (omega arith)
    ∙ ap (λ n. answer (leb n max_wordlist_entries) (entries_of (scan_lines content).0))
        (omega arith))

-- A file that passes the checks of its path and size, and in which the scanner finds no line that
-- is too long, gives its entries: its lines in their order, without the white space at their ends,
-- and none of them empty; or the error of too many if they are more than 100000.
pub load_wordlist_entries :
    (disk : Disk) (filename content : Text) (size : ℕ)
    → validate_file_path disk.cwd (can_stat disk) filename ≡ none
    → disk.size filename ≡ some size
    → size ≤ max_wordlist_file_size
    → disk.content filename ≡ some content
    → (scan_lines content).1 ≡ true
    → (load_wordlist disk filename
        ≡ answer
            (leb (length (entries_of (scan_lines content).0)) max_wordlist_entries)
            (entries_of (scan_lines content).0))
      × All (λ entry. entry ≢ []) (entries_of (scan_lines content).0)
unfolding load_wordlist
load_wordlist_entries disk filename content size valid sized small readable ended =
    let fits : ltb max_wordlist_file_size size ≡ false = ground arith in
    (
      rw (valid, sized, fits, readable, load_wordlist) (read_wordlist_lem content ended),
      entries_of_some (scan_lines content).0,
    )
