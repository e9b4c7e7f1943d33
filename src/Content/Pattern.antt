-- ===== src/Content/Pattern.antt =====
-- The two regular expressions of internal/content/generator.go, and the part of package regexp
-- that they use: a sequence of byte classes, each matched once or greedily repeated, where the
-- leftmost match wins and a repetition prefers more rounds.
use Prim.Native.Nat.{pred}
use gospidertrap.Common.{
  ℕ, suc, ◌≤◌, ◌≡◌, Bool, not, ◌||◌, Option, none, some, List, [], ◌∷◌, arith, Text, codes, ◌==◌,
  if◌then◌else◌, length,
}

pub data Item : Type 0 where
  one : (ℕ → Bool) → Item
  many : (ℕ → Bool) → Item

abbrev pub Pattern : Type 0
Pattern = List Item

-- `\s`, `["']`, `[^"']` and `[^>]`.
abbrev is_space : ℕ → Bool
is_space c = c == 9 || (c == 10 || (c == 12 || (c == 13 || c == 32)))

abbrev is_quote : ℕ → Bool
is_quote c = c == 34 || c == 39

abbrev literal : Text → Pattern → Pattern
literal [] p = p
literal (c ∷ s) p = one (λ x. x == c) ∷ literal s p

-- `href=["'][^"']*["']`
abbrev pub href_replacer : Pattern
href_replacer =
    literal (codes "href=") (one is_quote ∷ many (λ c. not (is_quote c)) ∷ one is_quote ∷ [])

-- `<a\s+[^>]*href=["']([^"']*)["'][^>]*>`
abbrev pub href_regex : Pattern
href_regex = literal (codes "<a") (
    one is_space
    ∷ many is_space
    ∷ many (λ c. not (c == b'>'))
    ∷ literal (codes "href=") (
        one is_quote
        ∷ many (λ c. not (is_quote c))
        ∷ one is_quote
        ∷ many (λ c. not (c == b'>'))
        ∷ one (λ c. c == b'>')
        ∷ []))

-- The first choice that succeeds.
abbrev or_else : Option ℕ → Option ℕ → Option ℕ
or_else none y = y
or_else (some n) y = some n

abbrev plus_one : Option ℕ → Option ℕ
plus_one none = none
plus_one (some n) = some (suc n)

-- The length of the match that begins where the text begins.
unfoldable pub match_here : Pattern → Text → Option ℕ
match_here [] s = some 0
match_here (one p ∷ r) [] = none
match_here (one p ∷ r) (c ∷ s) = if p c then plus_one (match_here r s) else none
match_here (many p ∷ r) [] = match_here r []
match_here (many p ∷ r) (c ∷ s) =
    let longer = plus_one (match_here (many p ∷ r) s) in
    let stop = match_here r (c ∷ s) in if p c then or_else longer stop else stop

-- A match lies within the text.
pub match_here_within : (p : Pattern) (s : Text) (n : ℕ) → match_here p s ≡ some n → n ≤ length s
unfolding match_here
match_here_within [] s n h = ground arith
match_here_within (one p ∷ r) [] n h = ground arith
match_here_within (one p ∷ r) (c ∷ s) n h = ground (arith, match_here_within r s (pred n))
match_here_within (many p ∷ r) [] n h = match_here_within r [] n h
match_here_within (many p ∷ r) (c ∷ s) n h =
    ground (arith, match_here_within (many p ∷ r) s (pred n), match_here_within r (c ∷ s) n)
