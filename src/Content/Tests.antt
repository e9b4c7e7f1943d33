-- ===== src/Content/Tests.antt =====
-- The theorems on pages at concrete inputs, and runs of the model.
use gospidertrap.Common.{
  ℕ, ◌%◌, ◌≤◌, ◌≡◌, refl, false, List, [], ◌∷◌, arith, Text, codes, text_eq, length, All,
}
use gospidertrap.Random.{Device, IsReliable, ok, read_word, intn}
use gospidertrap.Random.Bias.{char_space}
use gospidertrap.Content.{
  Generator, generate_random_link, generate_new_page, replace_tag, replace_links_in_html,
}
use gospidertrap.Content.Html.{escape_string}
use gospidertrap.Content.Pattern.{match_here}
use gospidertrap.Content.Replace.{expand, replace_all_string, replace_all_func}
use gospidertrap.Content.Pages.{
  IsLink, page_of, generate_random_link_total, generate_new_page_total,
}

abbrev counting : Device
counting = record { byte_at = λ i. i % 256; fails_at = λ i. false }

counting-IsReliable : IsReliable counting
counting-IsReliable = record { bytes = λ i. omega arith; never_fails = λ i. refl }

abbrev words : Generator
words = record {
  webpages = codes "a&b" ∷ codes "c" ∷ [];
  html_template = [];
  endpoint = [];
  random = record { chars = char_space };
}

abbrev no_words : Generator
no_words = record words { webpages = [] }

abbrev template : Text
template = codes "x<p><a  id=1 href='old'>y</a>"

generate_random_link_total_example :
    (link : Text) × (j : ℕ) × (generate_random_link counting no_words 0 ≡ ok (link, j))
    × IsLink no_words link
generate_random_link_total_example =
    generate_random_link_total counting counting-IsReliable no_words 0 (cc, omega arith)

generate_new_page_total_example :
    (ls : List Text) × (j : ℕ) × (generate_new_page counting words 0 ≡ ok (page_of words ls, j))
    × (5 ≤ length ls)
    × (length ls ≤ 10)
    × All (IsLink words) ls
generate_new_page_total_example =
    generate_new_page_total counting counting-IsReliable words 0 (cc, omega arith)

-- The link "a&b" stands escaped in the tag, and the rest of the template stays.
replace_runs :
    replace_links_in_html counting words template 1
    ≡ ok (codes "x<p><a  id=1 href=\"a&amp;b\">y</a>", 9)
unfolding replace_links_in_html replace_tag generate_random_link replace_all_func replace_all_string
    expand match_here escape_string intn read_word text_eq
replace_runs = refl
