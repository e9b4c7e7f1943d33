-- ===== src/Admin/Markup.antt =====
-- The markup of a page: its angle brackets and quotes.
use gospidertrap.Common.{
  ℕ, suc, ◌≡◌, refl, Bool, ◌||◌, [], ◌∷◌, ◌++◌, arith, Text, ◌==◌, if◌then◌else◌, All,
}
use gospidertrap.Common.Int.{ℤ, pos, negsuc}
use gospidertrap.Strings.Number.{itoa, IsDigit, format_digits-IsDigit}
use gospidertrap.Content.Html.{escape_string, IsInert, escape_string-IsInert}

pub is_markup : ℕ → Bool
is_markup c = c == b'<' || c == b'>' || c == 34 || c == 39

-- The angle brackets and quotes of a text, in their order.
unfoldable pub markup : Text → Text
unfolding is_markup
markup [] = []
markup (c ∷ s) = let rest = markup s in if is_markup c then c ∷ rest else rest

pub markup-append : (s t : Text) → markup (s ++ t) ≡ markup s ++ markup t
unfolding markup
markup-append [] t = refl
markup-append (c ∷ s) t = ground (arith, markup-append s t)

markup_inert : (s : Text) → All IsInert s → markup s ≡ []
unfolding markup is_markup
markup_inert [] h = refl
markup_inert (c ∷ s) (p, h) = ground (arith, markup_inert s h)

pub markup-escape_string : (s : Text) → markup (escape_string s) ≡ []
markup-escape_string s = markup_inert (escape_string s) (escape_string-IsInert s)

markup_digits : (s : Text) → All IsDigit s → markup s ≡ []
unfolding markup is_markup
markup_digits [] h = refl
markup_digits (c ∷ s) (p, h) = ground (arith, markup_digits s h)

pub markup-itoa : (z : ℤ) → markup (itoa z) ≡ []
unfolding itoa
markup-itoa (pos n) = markup_digits _ (format_digits-IsDigit (suc n) n [] tt)
markup-itoa (negsuc n) =
    unfold markup is_markup in markup_digits _ (format_digits-IsDigit (suc (suc n)) (suc n) [] tt)
