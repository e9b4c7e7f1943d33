-- ===== src/Admin/Sections.antt =====
-- internal/admin/renderer.go: the markup of each part of the dashboard, for different data.
use gospidertrap.Common.{
  Bool-cases, inl, inr, ℕ, zero, suc, ◌≡◌, refl, Option, none, some, List, [], ◌∷◌, arith, Text,
  codes, length, length-take, take,
}
use gospidertrap.Common.Int.{ℤ}
use gospidertrap.Stats.{RequestInfo, Time}
use gospidertrap.Stats.Charts.{ChartData, Series}
use gospidertrap.Admin.Page.{
  Renderer, append?, count_rows, request_rows, is_empty, count_table, table_head, chart_box,
  ip_title, ua_title, ip_columns, ip_cell, ua_columns, ua_cell, display_count, write_stats_box,
  write_top_ips_section, write_top_uas_section, write_recent_requests_section, write_chart_script,
}
use gospidertrap.Admin.Markup.{markup, markup-append, markup-escape_string, markup-itoa}

-- Both texts are written, and they have the same markup.
abbrev pub SameMarkup : Option Text → Option Text → Type 0
SameMarkup (some s) (some t) = markup s ≡ markup t
SameMarkup _ _ = ⊥

pub append?-SameMarkup :
    (a b c d : Option Text)
    → SameMarkup a b
    → SameMarkup c d
    → SameMarkup (append? a c) (append? b d)
append?-SameMarkup (some a) (some b) (some c) (some d) h k =
    rw (markup-append a c, markup-append b d, h, k) refl
append?-SameMarkup none b c d h k = absurd h
append?-SameMarkup (some a) none c d h k = absurd h
append?-SameMarkup (some a) (some b) none d h k = absurd k
append?-SameMarkup (some a) (some b) (some c) none h k = absurd k

-- Fixed text before and behind makes no difference.
wrapped :
    (before behind : Text) (a b : Option Text)
    → SameMarkup a b
    → SameMarkup
        (append? (some before) (append? a (some behind)))
        (append? (some before) (append? b (some behind)))
wrapped before behind a b h =
    append?-SameMarkup (some before) (some before) (append? a (some behind))
      (append? b (some behind)) refl (append?-SameMarkup a b (some behind) (some behind) h refl)

-- A chart of `n` rows.
abbrev pub HasRows : ℕ → Series → Type 0
HasRows n series = (length series.labels ≡ n) × (length series.counts ≡ n)

count_rows-SameMarkup :
    (n : ℕ) (cell : Text) (ls ls' : List Text) (cs cs' : List ℕ)
    → length ls ≡ n
    → length cs ≡ n
    → length ls' ≡ n
    → length cs' ≡ n
    → SameMarkup (count_rows cell ls cs) (count_rows cell ls' cs')
unfolding count_rows
count_rows-SameMarkup n cell [] [] cs cs' p q p' q' = refl
count_rows-SameMarkup n cell [] (l ∷ ls') cs cs' p q p' q' = absurd (omega arith)
count_rows-SameMarkup n cell (l ∷ ls) [] cs cs' p q p' q' = absurd (omega arith)
count_rows-SameMarkup n cell (l ∷ ls) ls' [] cs' p q p' q' = absurd (omega arith)
count_rows-SameMarkup n cell (l ∷ ls) ls' cs [] p q p' q' = absurd (omega arith)
count_rows-SameMarkup zero cell (l ∷ ls) ls' cs cs' p q p' q' = absurd (omega arith)
count_rows-SameMarkup (suc n) cell (l ∷ ls) (l' ∷ ls') (c ∷ cs) (c' ∷ cs') p q p' q' =
    append?-SameMarkup (some _) (some _) (count_rows cell ls cs) (count_rows cell ls' cs')
      (simp (markup-append, markup-escape_string, markup-itoa))
      (count_rows-SameMarkup n cell ls ls' cs cs' (omega arith) (omega arith) (omega arith)
        (omega arith))

is_empty-length : {A : Type 0} (xs ys : List A) → length xs ≡ length ys → is_empty xs ≡ is_empty ys
is_empty-length [] [] h = refl
is_empty-length [] (y ∷ ys) h = absurd (omega arith)
is_empty-length (x ∷ xs) [] h = absurd (omega arith)
is_empty-length (x ∷ xs) (y ∷ ys) h = refl

count_table-SameMarkup :
    (n : ℕ) (title columns cell : Text) (s t : Series)
    → HasRows n s
    → HasRows n t
    → SameMarkup (count_table title columns cell s) (count_table title columns cell t)
count_table-SameMarkup n title columns cell s t hs ht =
    rw (is_empty-length s.labels t.labels (omega (arith, hs.0, ht.0)))
      (elim (Bool-cases (is_empty t.labels)) [
        | inl e ↦ rw e refl
        | inr e ↦ rw e (
            append?-SameMarkup (some (table_head title columns)) (some (table_head title columns)) _
              _ refl
              (append?-SameMarkup (count_rows cell s.labels s.counts)
                (count_rows cell t.labels t.counts) (some (codes "</table>\n</div>\n"))
                (some (codes "</table>\n</div>\n"))
                (count_rows-SameMarkup n cell s.labels t.labels s.counts t.counts hs.0 hs.1 ht.0
                  ht.1)
                refl))
      ])

request_rows-SameMarkup :
    (format_time : Time → Text) (rs rs' : List RequestInfo)
    → length rs ≡ length rs'
    → markup (request_rows format_time rs) ≡ markup (request_rows format_time rs')
unfolding request_rows
request_rows-SameMarkup format_time [] [] h = refl
request_rows-SameMarkup format_time [] (r ∷ rs') h = absurd (omega arith)
request_rows-SameMarkup format_time (r ∷ rs) [] h = absurd (omega arith)
request_rows-SameMarkup format_time (r ∷ rs) (r' ∷ rs') h =
    simp (
      markup-append,
      markup-escape_string,
      request_rows-SameMarkup format_time rs rs' (omega arith),
    )

pub write_recent_requests_section-SameMarkup :
    (format_time : Time → Text) (rs rs' : List RequestInfo) (max_display : ℤ)
    → length rs ≡ length rs'
    → markup (write_recent_requests_section format_time rs max_display)
      ≡ markup (write_recent_requests_section format_time rs' max_display)
unfolding write_recent_requests_section markup
write_recent_requests_section-SameMarkup format_time rs rs' max_display h =
    rw (is_empty-length rs rs' h) (elim (Bool-cases (is_empty rs')) [
      | inl e ↦ rw e refl
      | inr e ↦ rw e (
          simp (
            markup-append,
            request_rows-SameMarkup format_time (take (display_count max_display (length rs)) rs)
                (take (display_count max_display (length rs')) rs')
                (rw
                  (
                    length-take (display_count max_display (length rs)) rs,
                    length-take (display_count max_display (length rs')) rs',
                    h,
                  )
                  refl),
          ))
    ])

pub write_chart_script-SameMarkup :
    (r r' : Renderer) (nonce nonce' : Text)
    → is_empty nonce ≡ is_empty nonce'
    → markup (write_chart_script r nonce) ≡ markup (write_chart_script r' nonce')
unfolding write_chart_script markup
write_chart_script-SameMarkup r r' nonce nonce' h = rw h (elim (Bool-cases (is_empty nonce')) [
  | inl e ↦ rw e (simp (markup-append, markup-escape_string))
  | inr e ↦ rw e (simp (markup-append, markup-escape_string))
])

pub write_stats_box-SameMarkup :
    (duration_string : ℤ → Text) (uptime uptime' : ℤ) (a b c a' b' c' : ℕ)
    → markup (write_stats_box duration_string uptime a b c)
      ≡ markup (write_stats_box duration_string uptime' a' b' c')
unfolding write_stats_box markup
write_stats_box-SameMarkup duration_string uptime uptime' a b c a' b' c' =
    simp (markup-append, markup-escape_string, markup-itoa)

pub top_ips-SameMarkup :
    (n : ℕ) (c c' : ChartData)
    → HasRows n c.top_ips
    → HasRows n c'.top_ips
    → SameMarkup (write_top_ips_section c) (write_top_ips_section c')
unfolding write_top_ips_section
top_ips-SameMarkup n c c' h h' =
    wrapped (chart_box ip_title (codes "ipChart")) (codes "</div>\n")
      (count_table ip_title ip_columns ip_cell c.top_ips)
      (count_table ip_title ip_columns ip_cell c'.top_ips)
      (count_table-SameMarkup n ip_title ip_columns ip_cell c.top_ips c'.top_ips h h')

pub top_uas-SameMarkup :
    (n : ℕ) (c c' : ChartData)
    → HasRows n c.top_user_agents
    → HasRows n c'.top_user_agents
    → SameMarkup (write_top_uas_section c) (write_top_uas_section c')
unfolding write_top_uas_section
top_uas-SameMarkup n c c' h h' =
    wrapped (chart_box ua_title (codes "uaChart")) (codes "</div>\n")
      (count_table ua_title ua_columns ua_cell c.top_user_agents)
      (count_table ua_title ua_columns ua_cell c'.top_user_agents)
      (count_table-SameMarkup n ua_title ua_columns ua_cell c.top_user_agents c'.top_user_agents h
        h')
