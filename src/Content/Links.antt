-- ===== src/Content/Links.antt =====
-- `ReplaceLinksInHTML`: which parts of the template stay, and what stands in the links.
use gospidertrap.Common.{
  ℕ, zero, suc, ◌≡◌, ◌≢◌, refl, [], ◌∷◌, ◌++◌, none, some, arith, Text, codes, take, Option-cases,
  inl, inr, Bool,
}
use gospidertrap.Random.{Device, IsReliable, ok}
use gospidertrap.Content.{Generator, replace_tag, replace_links_in_html}
use gospidertrap.Content.Html.{escape_string}
use gospidertrap.Content.Pattern.{match_here, Pattern, one, href_regex, href_replacer}
use gospidertrap.Content.Replace.{replace_all_string, replace_all_func}
use gospidertrap.Content.Pages.{IsUsable, IsLink, generate_random_link_total}

-- The replacement that `ReplaceLinksInHTML` builds from a link.
abbrev pub href_of : Text → Text
href_of link = codes "href=\"" ++ (escape_string link ++ codes "\"")

-- `t` is `s` with the matches in every matched tag replaced, by a link that the generator may choose.
-- The number counts the bytes of a matched tag still to pass over.
pub data Rewritten (g : Generator) : ℕ → Text → Text → Type 0 where
  done : (k : ℕ) → Rewritten g k [] []
  pass : {k : ℕ} (c : ℕ) {s t : Text} → Rewritten g k s t → Rewritten g (suc k) (c ∷ s) t
  copy :
      (c : ℕ) {s t : Text}
      → match_here href_regex (c ∷ s) ≡ none
      → Rewritten g 0 s t
      → Rewritten g 0 (c ∷ s) (c ∷ t)
  tag :
      (c : ℕ) (n : ℕ) (link : Text) {s t : Text}
      → match_here href_regex (c ∷ s) ≡ some (suc n)
      → IsLink g link
      → Rewritten g n s t
      → Rewritten g 0
          (c ∷ s)
          (replace_all_string href_replacer (href_of link) 0 (take (suc n) (c ∷ s)) ++ t)

match_one-ne-zero :
    (p : ℕ → Bool) (rest : Pattern) (s : Text) → match_here (one p ∷ rest) s ≢ some 0
unfolding match_here
match_one-ne-zero p rest [] = cc
match_one-ne-zero p rest (c ∷ s) = ground arith

-- The pattern matches no empty text.
href_match_pos :
    (s : Text) (n : ℕ)
    → match_here href_regex s ≡ some n
    → (m : ℕ) × (match_here href_regex s ≡ some (suc m))
href_match_pos s zero e = absurd (match_one-ne-zero _ _ s e)
href_match_pos s (suc m) e = (m, e)

module _ (d : Device) (r : IsReliable d) (g : Generator) (u : IsUsable g.random) where
  replaced :
      (skip : ℕ) (s : Text) (i : ℕ)
      → (t : Text) × (j : ℕ) × (replace_all_func href_regex (replace_tag d g) skip s i ≡ ok (t, j))
        × Rewritten g skip s t
  unfolding replace_all_func replace_tag
  replaced skip [] i = ([], i, refl, done skip)
  replaced (suc k) (c ∷ s) i = let (t, j, run, w) = replaced k s i in (t, j, run, pass c w)
  replaced zero (c ∷ s) i = elim (Option-cases (match_here href_regex (c ∷ s))) [
    | inl e ↦
        let (t, j, run, w) = replaced 0 s i in
        (c ∷ t, j, rw (e, replace_all_func, run) refl, copy c e w)
    | inr (n, e) ↦
        let (m, e') = href_match_pos (c ∷ s) n e in
        let (link, j, chose, chosen) = generate_random_link_total d r g i u in
        let (t, k, run, w) = replaced m s j in
        (_, k, rw (e', replace_all_func, chose, run) refl, tag c m link e' chosen w)
  ]

  -- With a reliable device and a usable source `ReplaceLinksInHTML` returns for every template, and each
  -- of its loops makes progress. The text outside the tags that `hrefRegex` matches stays as it is, in
  -- its order; for each of these tags one link is chosen, as `GenerateRandomLink` chooses, and every
  -- match of `hrefReplacer` in the tag, which may also be the end of another attribute such as
  -- `data-href`, is replaced by the expansion of the replacement text with that link, in which `$`
  -- begins a reference.
  pub replace_links_in_html_rewrites :
      (template : Text) (i : ℕ)
      → (t : Text) × (j : ℕ) × (replace_links_in_html d g template i ≡ ok (t, j))
        × Rewritten g 0 template t
  unfolding replace_links_in_html
  replace_links_in_html_rewrites template i = replaced 0 template i
