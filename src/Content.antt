-- ===== src/Content.antt =====
-- internal/content/generator.go and constants.go: pages of random links.
pub mod Html
pub mod Pattern
pub mod Replace
pub mod Pages
pub mod Links
mod Tests
use gospidertrap.Common.{
  ℕ, zero, suc, ◌<◌, Bool, List, [], ◌∷◌, ◌++◌, Text, codes, text_eq, ltb, not, if◌then◌else◌,
  length,
}
use gospidertrap.Common.Int.{ℤ, pos, pos_part}
use gospidertrap.Random.{Device, Rand, Source, intn, random_int, rand_string, index, ◌>>=◌, pure}
use Html.{escape_string, write_link, write_form}
use Pattern.{href_regex, href_replacer}
use Replace.{replace_all_string, replace_all_func}

abbrev pub links_per_page_min : ℤ
links_per_page_min = pos 5

abbrev pub links_per_page_max : ℤ
links_per_page_max = pos 10

abbrev pub length_of_links_min : ℤ
length_of_links_min = pos 3

abbrev pub length_of_links_max : ℤ
length_of_links_max = pos 20

pub record Generator : Type 0 where
  pub webpages : List Text
  pub html_template : Text
  pub endpoint : Text
  pub random : Source

unfoldable pub new_generator : List Text → Text → Text → Source → Generator
new_generator webpages html_template endpoint random = record {
  webpages = webpages;
  html_template = html_template;
  endpoint = endpoint;
  random = random;
}

module _ (d : Device) (g : Generator) where
  unfoldable pub generate_random_link : Rand Text
  generate_random_link =
      if ltb 0 (length g.webpages)
      then (do idx ← intn d (pos (length g.webpages)); index g.webpages idx)
      else (do n ← random_int d length_of_links_min length_of_links_max; rand_string d g.random n)

  -- The loop that writes the links, by the rounds left.
  unfoldable pub write_links : ℕ → Text → Rand Text
  write_links zero sb = pure sb
  write_links (suc n) sb = do link ← generate_random_link; write_links n (write_link sb link)

  unfoldable pub generate_new_page : Rand Text
  generate_new_page = do
    num_links ← random_int d links_per_page_min links_per_page_max
    sb ← write_links (pos_part num_links) (codes "<html>\n<body>\n")
    pure (
        (if text_eq g.endpoint [] then sb else write_form sb g.endpoint)
        ++ codes "</body>\n</html>")

  -- The function that replaces one tag.
  unfoldable pub replace_tag : Text → Rand Text
  replace_tag tag = do
    link ← generate_random_link
    pure (
        replace_all_string href_replacer (codes "href=\"" ++ (escape_string link ++ codes "\"")) 0
          tag)

  unfoldable pub replace_links_in_html : Text → Rand Text
  replace_links_in_html template = replace_all_func href_regex replace_tag 0 template

  unfoldable pub generate_page : Rand Text
  generate_page =
      if text_eq g.html_template []
      then generate_new_page
      else replace_links_in_html g.html_template
