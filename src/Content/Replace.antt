-- ===== src/Content/Replace.antt =====
-- `ReplaceAllString` and `ReplaceAllStringFunc` of package regexp, as far as generator.go uses them.
use Prim.Native.Nat.{pred}
use gospidertrap.Common.{
  ℕ, zero, suc, ◌+◌, ◌≡◌, refl, Bool, false, ◌&&◌, ◌||◌, Option, none, some, [], ◌∷◌, ◌++◌, arith,
  Text, codes, text_eq, ◌==◌, leb, if◌then◌else◌, take, get_elem?, Lacks,
}
use gospidertrap.Random.{Rand, ◌>>=◌, pure}
use gospidertrap.Content.Pattern.{Pattern, match_here}

-- A byte of the name behind a `$`: a letter, a digit or `_`, in ASCII.
abbrev is_word : ℕ → Bool
is_word c =
    (leb b'0' c && leb c b'9')
    || ((leb b'A' c && leb c b'Z') || ((leb b'a' c && leb c b'z') || c == b'_'))

abbrev word_length : Text → ℕ
word_length [] = 0
word_length (c ∷ s) = if is_word c then suc (word_length s) else 0

-- The reference at the start of a text behind `$`: its name, and the bytes that it takes.
abbrev extract_plain : Text → Option (Text × ℕ)
extract_plain s = let n = word_length s in if n == 0 then none else some (take n s, n)

abbrev closes : Option ℕ → Bool
closes none = false
closes (some c) = c == b'}'

abbrev extract_brace : Text → Option (Text × ℕ)
extract_brace s =
    let n = word_length s in
    if n == 0 then none else if closes (get_elem? s n) then some (take n s, n + 2) else none

abbrev extract : Text → Option (Text × ℕ)
extract [] = none
extract (c ∷ s) = if c == b'{' then extract_brace s else extract_plain (c ∷ s)

-- What a `$` stands for, and how many bytes behind it are used up. The patterns name no group, so
-- only `$0`, the whole match, is not empty.
abbrev dollar : Text → Text → Text × ℕ
dollar matched [] = (b'$' ∷ [], 0)
dollar matched (c ∷ s) = if c == b'$' then (b'$' ∷ [], 1) else elim (extract (c ∷ s)) [
  | none ↦ (b'$' ∷ [], 0)
  | some (name, n) ↦ (if text_eq name (codes "0") then matched else [], n)
]

-- The replacement text with its `$` references filled in. The number counts bytes still to skip.
unfoldable pub expand : Text → ℕ → Text → Text
expand matched skip [] = []
expand matched (suc k) (c ∷ s) = expand matched k s
expand matched zero (c ∷ s) =
    let filled = (dollar matched s).0 ++ expand matched (dollar matched s).1 s in
    let plain = c ∷ expand matched 0 s in if c == b'$' then filled else plain

-- `re.ReplaceAllString(s, repl)`, for a pattern with no empty match.
unfoldable pub replace_all_string : Pattern → Text → ℕ → Text → Text
replace_all_string p repl skip [] = []
replace_all_string p repl (suc k) (c ∷ s) = replace_all_string p repl k s
replace_all_string p repl zero (c ∷ s) = elim (match_here p (c ∷ s)) [
  | none ↦ c ∷ replace_all_string p repl 0 s
  | some n ↦ expand (take n (c ∷ s)) 0 repl ++ replace_all_string p repl (pred n) s
]

-- `re.ReplaceAllStringFunc(s, f)`, for a pattern with no empty match.
unfoldable pub replace_all_func : Pattern → (Text → Rand Text) → ℕ → Text → Rand Text
replace_all_func p f skip [] = pure []
replace_all_func p f (suc k) (c ∷ s) = replace_all_func p f k s
replace_all_func p f zero (c ∷ s) = elim (match_here p (c ∷ s)) [
  | none ↦ do rest ← replace_all_func p f 0 s; pure (c ∷ rest)
  | some n ↦ do
    replaced ← f (take n (c ∷ s))
    rest ← replace_all_func p f (pred n) s
    pure (replaced ++ rest)
]

-- A replacement with no `$` stands for itself.
pub expand_plain : (matched repl : Text) → Lacks b'$' repl → expand matched 0 repl ≡ repl
unfolding expand
expand_plain matched [] h = refl
expand_plain matched (c ∷ s) (ne, h) = ground (arith, expand_plain matched s h)

expand_reference : expand (codes "m") 0 (codes "x$ab/$0/$$/${c}d") ≡ codes "x/m/$/d"
unfolding expand text_eq
expand_reference = refl
