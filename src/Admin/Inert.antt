-- ===== src/Admin/Inert.antt =====
-- internal/admin/renderer.go: the markup of the dashboard, for different data.
use gospidertrap.Common.{ℕ, ◌≡◌, refl, Option, none, some, List, ◌++◌, Text, codes, length}
use gospidertrap.Common.Int.{ℤ}
use gospidertrap.Stats.{RequestInfo, Time}
use gospidertrap.Stats.Charts.{ChartData}
use gospidertrap.Admin.Fixed.{html_header}
use gospidertrap.Admin.Page.{
  Renderer, append?, is_empty, write_stats_box, write_top_ips_section, write_top_uas_section,
  write_recent_requests_section, write_chart_script, render_admin_ui,
}
use gospidertrap.Admin.Markup.{markup, markup-append}
use gospidertrap.Admin.Sections.{
  append?-SameMarkup, write_recent_requests_section-SameMarkup, write_chart_script-SameMarkup,
  write_stats_box-SameMarkup, top_ips-SameMarkup, top_uas-SameMarkup, SameMarkup, HasRows,
}

-- For charts with the same numbers of rows, as many recent requests and a nonce in both cases or in
-- neither, the dashboard is written, and its angle brackets and quotes are the same, in the same
-- order, whatever the addresses, paths, user agents, times and counts are.
pub render_admin_ui-SameMarkup :
    (duration_string : ℤ → Text) (format_time : Time → Text) (r r' : Renderer) (c c' : ChartData)
    (uptime uptime' : ℤ) (requests ips uas requests' ips' uas' : ℕ) (rs rs' : List RequestInfo)
    (max_display : ℤ) (nonce nonce' : Text) (n m : ℕ)
    → HasRows n c.top_ips
    → HasRows n c'.top_ips
    → HasRows m c.top_user_agents
    → HasRows m c'.top_user_agents
    → length rs ≡ length rs'
    → is_empty nonce ≡ is_empty nonce'
    → SameMarkup
        (render_admin_ui duration_string format_time r c uptime requests ips uas rs max_display
          nonce)
        (render_admin_ui duration_string format_time r' c' uptime' requests' ips' uas' rs'
          max_display nonce')
unfolding render_admin_ui
render_admin_ui-SameMarkup duration_string format_time r r' c c' uptime uptime' requests ips uas
      requests' ips' uas' rs rs' max_display nonce nonce' n m hi hi' hu hu' hr hn =
    append?-SameMarkup
      (some (html_header ++ write_stats_box duration_string uptime requests ips uas))
      (some (html_header ++ write_stats_box duration_string uptime' requests' ips' uas'))
      (append? (write_top_ips_section c)
        (append? (write_top_uas_section c) (some (last r rs nonce))))
      (append? (write_top_ips_section c')
        (append? (write_top_uas_section c') (some (last r' rs' nonce'))))
      (rw
        (
          markup-append html_header (write_stats_box duration_string uptime requests ips uas),
          markup-append html_header (write_stats_box duration_string uptime' requests' ips' uas'),
          write_stats_box-SameMarkup duration_string uptime uptime' requests ips uas requests' ips'
              uas',
        )
        refl)
      (append?-SameMarkup (write_top_ips_section c) (write_top_ips_section c')
        (append? (write_top_uas_section c) (some (last r rs nonce)))
        (append? (write_top_uas_section c') (some (last r' rs' nonce')))
        (top_ips-SameMarkup n c c' hi hi')
        (append?-SameMarkup (write_top_uas_section c) (write_top_uas_section c')
          (some (last r rs nonce)) (some (last r' rs' nonce')) (top_uas-SameMarkup m c c' hu hu')
          last_same))
  where
    last : Renderer → List RequestInfo → Text → Text
    last r rs nonce =
        write_recent_requests_section format_time rs max_display
        ++ write_chart_script r nonce
        ++ codes "</body>\n</html>"

    last_same : markup (last r rs nonce) ≡ markup (last r' rs' nonce')
    last_same = simp (
      markup-append,
      write_recent_requests_section-SameMarkup format_time rs rs' max_display hr,
      write_chart_script-SameMarkup r r' nonce nonce' hn,
    )

SameMarkup-some : (a b : Option Text) → SameMarkup a b → (s : Text) × (a ≡ some s)
SameMarkup-some (some s) (some t) h = (s, refl)
SameMarkup-some none b h = absurd h
SameMarkup-some (some s) none h = absurd h

-- No index of a chart is out of range when its labels and counts are as many.
pub render_admin_ui_total :
    (duration_string : ℤ → Text) (format_time : Time → Text) (r : Renderer) (c : ChartData)
    (uptime : ℤ) (requests ips uas : ℕ) (rs : List RequestInfo) (max_display : ℤ) (nonce : Text)
    (n m : ℕ)
    → HasRows n c.top_ips
    → HasRows m c.top_user_agents
    → (page : Text) × (render_admin_ui duration_string format_time r c uptime requests ips uas rs
          max_display nonce
        ≡ some page)
render_admin_ui_total duration_string format_time r c uptime requests ips uas rs max_display nonce n
      m hi hu =
    let page =
      render_admin_ui duration_string format_time r c uptime requests ips uas rs max_display
        nonce in
    SameMarkup-some page page (
      render_admin_ui-SameMarkup duration_string format_time r r c c uptime uptime requests ips uas
        requests ips uas rs rs max_display nonce nonce n m hi hi hu hu refl refl)
