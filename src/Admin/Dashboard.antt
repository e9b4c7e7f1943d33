-- ===== src/Admin/Dashboard.antt =====
-- internal/admin/handler.go: the dashboard is written, and no handler panics.
use gospidertrap.Common.{
  ℕ, ◌≡◌, refl, Bool, true, false, not, Option, some, List, Text, codes, if◌then◌else◌, length,
}
use gospidertrap.Common.Int.{ℤ, pos}
use gospidertrap.Random.{Device}
use gospidertrap.Http.{Request}
use gospidertrap.Http.Writer.{ResponseWriter, write, set_header}
use gospidertrap.Stats.{RequestInfo, Time}
use gospidertrap.Stats.Charts.{ChartData}
use gospidertrap.Stats.Reports.{Reports}
use gospidertrap.Stats.Manager.{reports}
use gospidertrap.Stats.Manager.Total.{Answers}
use gospidertrap.Admin.Auth.{Authenticator, is_authenticated, set_cookie}
use gospidertrap.Admin.Page.{new_renderer, render_admin_ui}
use gospidertrap.Admin.Inert.{render_admin_ui_total}
use gospidertrap.Admin.Handler.{
  Context, handle_chart_data, handle_ui, serve_ui, serve_unless_done, content_type,
  set_security_headers, generate_nonce,
}

serve_ui_of :
    (duration_string : ℤ → Text) (format_time : Time → Text) (d : Device) (a : Authenticator)
    (reports : Reports) (i : ℕ) (w : ResponseWriter) (c : ChartData) (rs : List RequestInfo)
    (page : Text)
    → reports.get_chart_data (pos 10) (pos 50) ≡ some c
    → reports.get_recent_requests (pos 50) ≡ some rs
    → render_admin_ui duration_string format_time
        (new_renderer a.path)
        c
        reports.uptime
        reports.total_requests
        reports.unique_ips
        reports.unique_uas
        rs
        (pos 50)
        (generate_nonce d i).0
      ≡ some page
    → serve_ui duration_string format_time d a reports i w
      ≡ some (
        write page (
            set_header content_type
              (codes "text/html; charset=utf-8")
              (set_security_headers (generate_nonce d i).0 w)),
        (generate_nonce d i).1,
      )
unfolding serve_ui
serve_ui_of duration_string format_time d a reports i w c rs page h k p =
    rw (h, k, p, serve_ui) refl

pub serve_ui_total :
    (duration_string : ℤ → Text) (format_time : Time → Text) (d : Device) (a : Authenticator)
    (reports : Reports) (h : Answers reports) (i : ℕ) (w : ResponseWriter)
    → (page : Text) × (serve_ui duration_string format_time d a reports i w
        ≡ some (
          write page (
              set_header content_type
                (codes "text/html; charset=utf-8")
                (set_security_headers (generate_nonce d i).0 w)),
          (generate_nonce d i).1,
        ))
serve_ui_total duration_string format_time d a reports h i w =
    let (page, written) =
      render_admin_ui_total duration_string format_time (new_renderer a.path) h.charts
        reports.uptime reports.total_requests reports.unique_ips reports.unique_uas h.recent
        (pos 50) (generate_nonce d i).0 (length h.charts.top_ips.counts)
        (length h.charts.top_user_agents.counts) (h.paired_ips, refl) (h.paired_agents, refl) in
    (
      page,
      serve_ui_of duration_string format_time d a reports i w h.charts h.recent page h.charted
          h.listed written,
    )

abbrev pub Returns {ℓ} : {A : Type ℓ} → Option A → Type ℓ
Returns {A} o = (x : A) × (o ≡ some x)

if-Returns {ℓ} :
    {A : Type ℓ} (b : Bool) (x y : Option A) → Returns x → Returns y → Returns (if b then x else y)
if-Returns true x y h k = h
if-Returns false x y h k = k

module _ (a : Authenticator) (reports : Reports) (h : Answers reports) (ctx : Context)
    (r : Request) where
  pub handle_chart_data-Returns :
      (encode_json : ChartData → Text) (w : ResponseWriter)
      → Returns (handle_chart_data encode_json a reports ctx r w)
  unfolding handle_chart_data
  handle_chart_data-Returns encode_json w =
      rw (h.charted, handle_chart_data)
        (if-Returns (not (is_authenticated a r)) _ _ (_, refl)
          (if-Returns ctx.done_first _ _ (w, refl) (_, refl)))

  module _ (duration_string : ℤ → Text) (format_time : Time → Text) (d : Device) where
    serve_unless_done-Returns :
        (i : ℕ) (w : ResponseWriter)
        → Returns (serve_unless_done duration_string format_time d a reports ctx i w)
    unfolding serve_unless_done
    serve_unless_done-Returns i w =
        let (page, served) = serve_ui_total duration_string format_time d a reports h i w in
        if-Returns ctx.done_second (some (w, i)) _ ((w, i), refl) (_, served)

    pub handle_ui-Returns :
        (i : ℕ) (w : ResponseWriter)
        → Returns (handle_ui duration_string format_time d a reports ctx r i w)
    unfolding handle_ui
    handle_ui-Returns i w =
        if-Returns ctx.done_first (some (w, i)) _ ((w, i), refl)
          (if-Returns (is_authenticated a r) _ _ (serve_unless_done-Returns i w)
            (if-Returns _ _ _ (serve_unless_done-Returns i (set_cookie a w)) (_, refl)))
