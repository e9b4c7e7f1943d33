-- ===== src/Content/Html.antt =====
-- internal/content/html.go, and `html.EscapeString` of the standard library.
use Prim.Native.Nat.{ℕ}
use gospidertrap.Common.{
  ◌≢◌, [], ◌∷◌, ◌++◌, arith, Text, codes, ◌==◌, if◌then◌else◌, All, All-append,
}

-- `html.EscapeString`: the five characters that it replaces.
unfoldable pub escape_char : ℕ → Text
escape_char c =
    if c == b'&'
    then codes "&amp;"
    else if c == 39
    then codes "&#39;"
    else if c == b'<'
    then codes "&lt;"
    else if c == b'>'
    then codes "&gt;"
    else if c == 34
    then codes "&#34;"
    else c ∷ []

unfoldable pub escape_string : Text → Text
unfolding escape_char
escape_string [] = []
escape_string (c ∷ s) = escape_char c ++ escape_string s

-- What `WriteLink` appends to the builder.
unfoldable pub write_link : Text → Text → Text
write_link sb address =
    let escaped = escape_string address in
    sb ++ (codes "<a href=\"" ++ (escaped ++ (codes "\">" ++ (escaped ++ codes "</a><br>\n"))))

unfoldable pub write_form : Text → Text → Text
write_form sb endpoint =
    sb
    ++ (codes "<form action=\""
        ++ (escape_string endpoint
            ++ codes
                "\" method=\"get\">\n\t\t<input type=\"text\" name=\"param\">\n\t\t<button type=\"submit\">Submit</button>\n\t\t</form>"))

-- A byte that can neither end an attribute value in quotes nor begin or end a tag.
abbrev pub IsInert : ℕ → Type 0
IsInert c = (c ≢ b'<') × (c ≢ b'>') × (c ≢ 34) × (c ≢ 39)

escape_char-IsInert : (c : ℕ) → All IsInert (escape_char c)
unfolding escape_char
escape_char-IsInert c = ground arith

-- Escaped text holds no angle bracket and no quote, whatever the text was.
pub escape_string-IsInert : (s : Text) → All IsInert (escape_string s)
unfolding escape_string
escape_string-IsInert [] = tt
escape_string-IsInert (c ∷ s) =
    All-append IsInert (escape_char c) (escape_string s) (escape_char-IsInert c)
      (escape_string-IsInert s)
