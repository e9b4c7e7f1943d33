-- ===== src/Strings/Lines.antt =====
-- `bufio.Scanner` with its default buffer, over the whole input.
use mathlib.Core.List.{reverse}
use gospidertrap.Common.{
  ℕ, Bool, true, false, List, [], ◌∷◌, Text, leb, text_eq, if◌then◌else◌, ◌==◌, length,
}
use gospidertrap.Strings.{split}

-- The buffer holds at most so many bytes; a line that fills it without its newline is an error.
abbrev pub max_token_size : ℕ
max_token_size = 65536

abbrev drop_first_cr : Text → Text
drop_first_cr [] = []
drop_first_cr (c ∷ s) = if c == 13 then s else c ∷ s

-- A line without a carriage return at its end.
unfoldable pub drop_cr : Text → Text
drop_cr line = reverse (drop_first_cr (reverse line))

-- The tokens, and whether the scan ended without an error.
unfoldable pub scan_pieces : List Text → List Text × Bool
scan_pieces [] = ([], true)
scan_pieces (p ∷ []) =
    if leb max_token_size (length p)
    then ([], false)
    else if text_eq p []
    then ([], true)
    else (drop_cr p ∷ [], true)
scan_pieces (p ∷ q ∷ ps) =
    let (rest, ended) = scan_pieces (q ∷ ps) in
    if leb max_token_size (length p) then ([], false) else (drop_cr p ∷ rest, ended)

unfoldable pub scan_lines : Text → List Text × Bool
scan_lines input = scan_pieces (split input 10)
