-- ===== src/Strings.antt =====
-- The functions of package strings that the program uses, over the bytes of a text.
pub mod Trim
pub mod Cut
pub mod Number
pub mod Decimal
pub mod Lines
use Prim.Native.Nat.{pred}
use mathlib.Core.List.{reverse}
use gospidertrap.Common.{
  ℕ, zero, suc, ◌+◌, Bool, true, false, ◌&&◌, ◌||◌, Option, none, some, List, [], ◌∷◌, ◌++◌, Text,
  ◌==◌, leb, if◌then◌else◌,
}

-- `strings.Split(s, sep)` for a separator of one byte; `cur` is the part that is being read.
unfoldable pub split_from : ℕ → Text → Text → List Text
split_from sep cur [] = cur ∷ []
split_from sep cur (c ∷ s) =
    let closed = cur ∷ split_from sep [] s in
    let longer = split_from sep (cur ++ c ∷ []) s in if c == sep then closed else longer

unfoldable pub split : Text → ℕ → List Text
unfolding split_from
split s sep = split_from sep [] s

-- `strings.LastIndex(s, b)` for one byte; `none` stands for -1.
unfoldable pub last_index : ℕ → Text → Option ℕ
last_index b [] = none
last_index b (c ∷ s) = elim (last_index b s) [
  | some i ↦ some (suc i)
  | none ↦ if c == b then some 0 else none
]

unfoldable pub has_prefix : Text → Text → Bool
has_prefix s [] = true
has_prefix [] (b ∷ p) = false
has_prefix (c ∷ s) (b ∷ p) = c == b && has_prefix s p

unfoldable pub contains : Text → Text → Bool
unfolding has_prefix
contains [] p = has_prefix [] p
contains (c ∷ s) p = has_prefix (c ∷ s) p || contains s p

-- The code points that `unicode.IsSpace` accepts, by the one, two or three bytes of their UTF-8.
unfoldable pub space_one : ℕ → Bool
space_one a = (leb 9 a && leb a 13) || a == 32

unfoldable pub space_two : ℕ → ℕ → Bool
space_two a b = a == 0xc2 && (b == 0x85 || b == 0xa0)

unfoldable pub space_three : ℕ → ℕ → ℕ → Bool
space_three a b c =
    (a == 0xe1 && (b == 0x9a && c == 0x80))
    || ((a == 0xe2
          && ((b == 0x80 && ((leb 0x80 c && leb c 0x8a) || (c == 0xa8 || (c == 0xa9 || c == 0xaf))))
              || (b == 0x81 && c == 0x9f)))
        || (a == 0xe3 && (b == 0x80 && c == 0x80)))

unfoldable pub trim_left : Text → Text
trim_left [] = []
trim_left (a ∷ []) = if space_one a then [] else a ∷ []
trim_left (a ∷ b ∷ []) =
    let one = trim_left (b ∷ []) in
    if space_one a then one else if space_two a b then [] else a ∷ b ∷ []
trim_left (a ∷ b ∷ c ∷ s) =
    let one = trim_left (b ∷ c ∷ s) in
    let two = trim_left (c ∷ s) in
    let three = trim_left s in
    if space_one a
    then one
    else if space_two a b
    then two
    else if space_three a b c
    then three
    else a ∷ b ∷ c ∷ s

-- The same from the end, over the reversed text.
unfoldable pub trim_reversed : Text → Text
trim_reversed [] = []
trim_reversed (a ∷ []) = if space_one a then [] else a ∷ []
trim_reversed (a ∷ b ∷ []) =
    let one = trim_reversed (b ∷ []) in
    if space_one a then one else if space_two b a then [] else a ∷ b ∷ []
trim_reversed (a ∷ b ∷ c ∷ s) =
    let one = trim_reversed (b ∷ c ∷ s) in
    let two = trim_reversed (c ∷ s) in
    let three = trim_reversed s in
    if space_one a
    then one
    else if space_two b a
    then two
    else if space_three c b a
    then three
    else a ∷ b ∷ c ∷ s

unfoldable pub trim_space : Text → Text
unfolding trim_left trim_reversed
trim_space s = reverse (trim_reversed (reverse (trim_left s)))
