-- ===== src/Admin/Access.antt =====
-- internal/admin/handler.go: who sees the statistics, and who does not.
use gospidertrap.Common.{
  ℕ, ◌≡◌, ◌≢◌, text_eq, text_eq_iff, ◌∙◌, refl, Bool, true, false, not, ◌&&◌, some, [], Text, codes,
  if◌then◌else◌, Bool-cases, inl, inr,
}
use gospidertrap.Common.Int.{ℤ}
use gospidertrap.Random.{Device}
use gospidertrap.Http.{Request, query_get}
use gospidertrap.Http.Writer.{
  ResponseWriter, status_of, fresh_writer, write, write_header, set_header,
}
use gospidertrap.Stats.{Time}
use gospidertrap.Stats.Charts.{ChartData}
use gospidertrap.Stats.Reports.{Reports}
use gospidertrap.Stats.Database.{Engine, Faults}
use gospidertrap.Stats.Manager.{Manager, reports}
use gospidertrap.Stats.Manager.Total.{reports_total}
use gospidertrap.Admin.Dashboard.{serve_ui_total}
use gospidertrap.Admin.Auth.{
  Authenticator, validate_token, get_token_from_request, is_authenticated,
}
use gospidertrap.Admin.Page.{is_empty}
use gospidertrap.Admin.Handler.{
  Context, handle_login, handle_chart_data, handle_ui, denied_ui, denied_data, content_type,
  set_security_headers, generate_nonce,
}
use gospidertrap.Admin.Cookies.{
  login_sent, authenticated_by_cookie, sent_cookie, sent_status, handle_ui_served, served_status,
  SendsCookiesOf,
}

and_false : (b : Bool) → (b && false) ≡ false
and_false true = refl
and_false false = refl

module _ (duration_string : ℤ → Text) (format_time : Time → Text) (encode_json : ChartData → Text)
    (d : Device) (a : Authenticator) where
  abbrev denied : ResponseWriter
  denied =
      write (denied_ui a)
        (set_header content_type (codes "text/html") (write_header 403 fresh_writer))

  abbrev no_data : ResponseWriter
  no_data = write denied_data (write_header 403 (set_security_headers [] fresh_writer))

  handle_ui_refused :
      (reports : Reports) (ctx : Context) (r : Request) (i : ℕ)
      → is_authenticated a r ≡ false
      → validate_token a (query_get r (codes "token")) ≡ false
      → handle_ui duration_string format_time d a reports ctx r i fresh_writer
        ≡ some (if ctx.done_first then fresh_writer else denied, i)
  unfolding handle_ui
  handle_ui_refused reports ctx r i h k = elim (Bool-cases ctx.done_first) [
    | inl e ↦ rw e refl
    | inr e ↦ rw (e, h, k, and_false (not (is_empty (query_get r (codes "token"))))) refl
  ]

  handle_chart_data_refused :
      (reports : Reports) (ctx : Context) (r : Request)
      → is_authenticated a r ≡ false
      → handle_chart_data encode_json a reports ctx r fresh_writer ≡ some no_data
  unfolding handle_chart_data
  handle_chart_data_refused reports ctx r h = rw h refl

  denied_status :
      (b : Bool) → status_of (if b then fresh_writer else denied) ≡ (if b then 0 else 403)
  unfolding write write_header set_header
  denied_status true = refl
  denied_status false = refl

  no_data_status : status_of no_data ≡ 403
  unfolding write write_header set_header set_security_headers
  no_data_status = refl

  pub denied_alike :
      (reports reports' : Reports) (ctx : Context) (r : Request) (i : ℕ)
      → is_authenticated a r ≡ false
      → validate_token a (query_get r (codes "token")) ≡ false
      → (ui data_writer : ResponseWriter) × (handle_ui duration_string format_time d a reports ctx r
            i fresh_writer
          ≡ some (ui, i))
        × (handle_ui duration_string format_time d a reports' ctx r i fresh_writer ≡ some (ui, i))
        × (handle_chart_data encode_json a reports ctx r fresh_writer ≡ some data_writer)
        × (handle_chart_data encode_json a reports' ctx r fresh_writer ≡ some data_writer)
        × (status_of ui ≡ (if ctx.done_first then 0 else 403))
        × (status_of data_writer ≡ 403)
  denied_alike reports reports' ctx r i h k = (
    if ctx.done_first then fresh_writer else denied,
    no_data,
    handle_ui_refused reports ctx r i h k,
    handle_ui_refused reports' ctx r i h k,
    handle_chart_data_refused reports ctx r h,
    handle_chart_data_refused reports' ctx r h,
    denied_status ctx.done_first,
    no_data_status,
  )

  not_the_token : (token : Text) → token ≢ a.token → validate_token a token ≡ false
  unfolding validate_token
  not_the_token token other = elim (Bool-cases (text_eq token a.token)) [
    | inl same ↦ absurd (other ((text_eq_iff token a.token).0 same))
    | inr differs ↦ differs
  ]

  -- A request whose cookie, or whose `token` if it has no cookie, differs from the token, and whose
  -- `token` differs from the token too, gets the same answers whatever the statistics are: from the
  -- dashboard nothing if the client is gone by the first test, and else the status 403; from the
  -- chart data the status 403. A part of the token opens nothing, nor a text that begins with it.
  pub refused_learns_nothing :
      (reports reports' : Reports) (ctx : Context) (r : Request) (i : ℕ)
      → get_token_from_request a r ≢ a.token
      → query_get r (codes "token") ≢ a.token
      → (ui data_writer : ResponseWriter) × (handle_ui duration_string format_time d a reports ctx r
            i fresh_writer
          ≡ some (ui, i))
        × (handle_ui duration_string format_time d a reports' ctx r i fresh_writer ≡ some (ui, i))
        × (handle_chart_data encode_json a reports ctx r fresh_writer ≡ some data_writer)
        × (handle_chart_data encode_json a reports' ctx r fresh_writer ≡ some data_writer)
        × (status_of ui ≡ (if ctx.done_first then 0 else 403))
        × (status_of data_writer ≡ 403)
  unfolding is_authenticated
  refused_learns_nothing reports reports' ctx r i no_cookie no_token =
      denied_alike reports reports' ctx r i (not_the_token _ no_cookie) (not_the_token _ no_token)

-- Whoever logs in with the token is sent on with the status 303, and a later request with the cookies of
-- that answer is served the dashboard, with the status 200, if the client is there at each test: with a
-- database, whichever of its calls fail, and without one, for every state of the statistics.
pub login_opens_dashboard :
    (duration_string : ℤ → Text) (format_time : Time → Text) (d : Device) (a : Authenticator)
    (engine : Engine) (fails : ℕ → Faults) (now : Time) (m : Manager) (ctx later : Context)
    (r r' : Request) (i : ℕ)
    → query_get r (codes "token") ≡ a.token
    → ctx.done_first ≡ false
    → later.done_first ≡ false
    → later.done_second ≡ false
    → SendsCookiesOf (handle_login a ctx r fresh_writer) r'
    → (status_of (handle_login a ctx r fresh_writer) ≡ 303)
      × (w : ResponseWriter) × (j : ℕ) × (handle_ui duration_string format_time d a
            (reports engine fails now m)
            later
            r'
            i
            fresh_writer
          ≡ some (w, j))
      × (status_of w ≡ 200)
login_opens_dashboard duration_string format_time d a engine fails now m ctx later r r' i h e f g
      back =
    let (headers, sent) = login_sent a ctx r h e in
    let cookie_back = sent_cookie a (handle_login a ctx r fresh_writer) headers r' sent back in
    let (page, served) =
      serve_ui_total duration_string format_time d a (reports engine fails now m)
        (reports_total engine fails now m) i fresh_writer in
    (
      sent_status a (handle_login a ctx r fresh_writer) headers sent,
      _,
      _,
      handle_ui_served duration_string format_time d a (reports engine fails now m) later r' i
            fresh_writer (authenticated_by_cookie a r' cookie_back) f g
          ∙ served,
      served_status page (generate_nonce d i).0,
    )
