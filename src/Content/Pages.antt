-- ===== src/Content/Pages.antt =====
-- What `GenerateRandomLink` and `GenerateNewPage` return.
use gospidertrap.Common.{
  ℕ, zero, suc, ◌+◌, ◌*◌, ◌≤◌, ◌<◌, ◌≡◌, ◌≢◌, refl, List, [], ◌∷◌, ◌++◌, arith, Text, codes,
  text_eq, if◌then◌else◌, length, get_elem?-total, All, append_assoc, append-nil, ◌⊎◌, inl, inr,
  Bool-cases,
}
use mathlib.Core.List.{cons-ne-nil}
use gospidertrap.Common.Int.{ℤ, pos, negsuc, pos_part, ◌≤ℤ◌, parts_zero}
use gospidertrap.Random.{Device, IsReliable, Source, ok, rand_string}
use gospidertrap.Random.Range.{intn_returns, random_int_in_range}
use gospidertrap.Random.Strings.{Occurs, rand_string_of_chars}
use gospidertrap.Content.{
  Generator, generate_random_link, write_links, generate_new_page, links_per_page_min,
  links_per_page_max, length_of_links_min, length_of_links_max,
}
use gospidertrap.Content.Html.{write_link, write_form}

-- A source that `RandString` can draw from: not empty, and ASCII as main.go's set is.
abbrev pub IsUsable : Source → Type 0
IsUsable s = (s.chars ≢ []) × All (λ c. c < 128) s.chars

-- A link that the generator may choose: an entry of the wordlist, or without one a string of 3 to
-- 20 characters of the source.
abbrev pub IsLink : Generator → Text → Type 0
IsLink g link =
    ((g.webpages ≢ []) × Occurs g.webpages link)
    ⊎ ((g.webpages ≡ [])
        × (3 ≤ length link)
        × (length link ≤ 20)
        × All (Occurs g.random.chars) link)

-- The line of one link, and the form behind the links.
abbrev pub link_lines : List Text → Text
link_lines [] = []
link_lines (l ∷ ls) = write_link [] l ++ link_lines ls

abbrev pub form_of : Text → Text
form_of endpoint = if text_eq endpoint [] then [] else write_form [] endpoint

abbrev pub page_of : Generator → List Text → Text
page_of g ls =
    codes "<html>\n<body>\n" ++ (link_lines ls ++ (form_of g.endpoint ++ codes "</body>\n</html>"))

write_link_split : (sb l rest : Text) → write_link sb l ++ rest ≡ sb ++ (write_link [] l ++ rest)
unfolding write_link
write_link_split sb l rest = simp append_assoc

form_split :
    (sb endpoint rest : Text)
    → (if text_eq endpoint [] then sb else write_form sb endpoint) ++ rest
      ≡ sb ++ (form_of endpoint ++ rest)
unfolding write_form
form_split sb endpoint rest = elim (Bool-cases (text_eq endpoint [])) [
  | inl e ↦ rw e
  | inr e ↦ rw e (simp append_assoc)
]

module _ (d : Device) (r : IsReliable d) where
  random_string_total :
      (s : Source) (z : ℤ) (i : ℕ)
      → IsUsable s
      → pos 3 ≤ℤ z
      → z ≤ℤ pos 20
      → (t : Text) × (rand_string d s z i ≡ ok (t, i + 8 * pos_part z))
        × (3 ≤ length t)
        × (length t ≤ 20)
        × All (Occurs s.chars) t
  random_string_total s (negsuc n) i u lo hi = absurd (omega arith)
  random_string_total s (pos n) i (filled, ascii) lo hi =
      let (t, run, size, all) = rand_string_of_chars d r s n i filled ascii in
      (t, run, omega arith, omega arith, all)

  -- Over the fields of the generator, to split on the wordlist.
  IsLink-total :
      (ws : List Text) (template endpoint : Text) (s : Source) (i : ℕ)
      → IsUsable s
      → let g : Generator = record {
        webpages = ws;
        html_template = template;
        endpoint = endpoint;
        random = s;
      } in
        (link : Text) × (j : ℕ) × (generate_random_link d g i ≡ ok (link, j)) × IsLink g link
  unfolding generate_random_link
  IsLink-total [] template endpoint s i u =
      let (z, size, lo, hi) =
        random_int_in_range d r length_of_links_min length_of_links_max i (omega arith)
          (omega arith) (omega arith) (omega arith) in
      let (t, run, least, most, all) = random_string_total s z (i + 8) u lo hi in
      (t, i + 8 + 8 * pos_part z, rw (size, run) refl, inr (refl, least, most, all))
  IsLink-total (w ∷ ws) template endpoint s i u =
      let (k, run, lt) = intn_returns d r (length ws) i in
      let (link, found) = get_elem?-total (w ∷ ws) k lt in
      (link, i + 8, ground (arith, run, found), inl (cons-ne-nil w ws, (k, found)))

  -- With a reliable device and a usable source `GenerateRandomLink` returns: an entry of the
  -- wordlist, or if there is none a string of 3 to 20 characters of the source.
  pub generate_random_link_total :
      (g : Generator) (i : ℕ)
      → IsUsable g.random
      → (link : Text) × (j : ℕ) × (generate_random_link d g i ≡ ok (link, j)) × IsLink g link
  generate_random_link_total g i u = IsLink-total g.webpages g.html_template g.endpoint g.random i u

  write_links_total :
      (g : Generator) (n : ℕ) (sb : Text) (i : ℕ)
      → IsUsable g.random
      → (ls : List Text) × (j : ℕ) × (write_links d g n sb i ≡ ok (sb ++ link_lines ls, j))
        × (length ls ≡ n)
        × All (IsLink g) ls
  unfolding write_links
  write_links_total g zero sb i u = ([], i, rw append-nil refl, refl, tt)
  write_links_total g (suc n) sb i u =
      let (l, j, run, chosen) = generate_random_link_total g i u in
      let (ls, k, runs, size, all) = write_links_total g n (write_link sb l) j u in
      (
        l ∷ ls,
        k,
        rw (run, runs, write_link_split sb l (link_lines ls)) refl,
        omega arith,
        (chosen, all),
      )

  -- With a reliable device and a usable source `GenerateNewPage` returns a page of 5 to 10 links,
  -- each of them chosen as `GenerateRandomLink` chooses, between the fixed text of the page, with
  -- the form exactly if there is an endpoint.
  pub generate_new_page_total :
      (g : Generator) (i : ℕ)
      → IsUsable g.random
      → (ls : List Text) × (j : ℕ) × (generate_new_page d g i ≡ ok (page_of g ls, j))
        × (5 ≤ length ls)
        × (length ls ≤ 10)
        × All (IsLink g) ls
  unfolding generate_new_page
  generate_new_page_total g i u =
      let (z, size, lo, hi) =
        random_int_in_range d r links_per_page_min links_per_page_max i (omega arith) (omega arith)
          (omega arith) (omega arith) in
      let (ls, j, run, count, all) =
        write_links_total g (pos_part z) (codes "<html>\n<body>\n") (i + 8) u in
      (
        ls,
        j,
        rw (size, run, form_split) (simp append_assoc),
        omega (arith, parts_zero z),
        omega (arith, parts_zero z),
        all,
      )
