-- ===== src/Main/Routes/Calm.antt =====
-- main.go: no handler panics if no map is nil, so that the recovery from panics has nothing to do.
use gospidertrap.Main.Routes.Isolation.{logged-manager}
use gospidertrap.Common.{
  ◌≡◌, refl, ap, ◌∙◌, false, codes, Bool-cases, Option-cases, inl, inr, if◌then◌else◌,
}
use gospidertrap.Random.{Device, IsReliable}
use gospidertrap.Http.Writer.{ResponseWriter, fresh_writer}
use gospidertrap.Content.{Generator}
use gospidertrap.Content.Pages.{IsUsable}
use gospidertrap.RateLimit.{RateLibrary, Limiter, allow_ip}
use gospidertrap.Stats.{RequestInfo}
use gospidertrap.Stats.Database.{Engine, Faults}
use gospidertrap.Stats.Manager.{reports, record_panics}
use gospidertrap.Stats.Manager.Total.{reports_total}
use gospidertrap.Admin.Handler.{Context}
use gospidertrap.Admin.Dashboard.{handle_chart_data-Returns, handle_ui-Returns}
use gospidertrap.Serve.{State, Served, http_error, handle, recover_panic, rate_limit, serve}
use gospidertrap.Serve.Answers.{generate_page_total}
use gospidertrap.Main.Routes.{
  Site, Visit, Route, login, chart_data, ui, page, route, info, logged, handle_request,
  handle_route, mux, client, http_handler,
}

handle_returns :
    (engine : Engine) (fails : Faults) (d : Device) (g : Generator) (ctx : Context)
    (req : RequestInfo) (s : State) (w : ResponseWriter)
    → IsReliable d
    → IsUsable g.random
    → record_panics s.manager ≡ false
    → (handle engine fails d g ctx req s w).panicked ≡ false
unfolding handle
handle_returns engine fails d g ctx req s w h u fine = elim (Bool-cases ctx.done_first) [
  | inl gone ↦ rw (fine, gone) refl
  | inr here ↦ elim (Bool-cases ctx.done_second) [
    | inl gone ↦ rw (fine, here, gone) refl
    | inr here' ↦
        let (shown, j, made) = generate_page_total d g s.offset h u in
        rw (fine, here, here', made, handle) refl
  ]
]

-- The answer of the middleware to a client that the limiter refuses.
abbrev pub refused : State → Served
refused s = record {
  writer = http_error (codes "Too Many Requests") 429 fresh_writer;
  state = s;
  panicked = false;
}

recover_returned : (a : Served) → a.panicked ≡ false → recover_panic a ≡ a
unfolding recover_panic
recover_returned a e = rw e refl

module _ (site : Site) (v : Visit) (s : State) (reliable : IsReliable site.device)
    (usable : IsUsable site.generator.random) (fine : record_panics s.manager ≡ false) where
  handle_route_returns : (to : Route) → (handle_route site to v s fresh_writer).panicked ≡ false
  unfolding handle_route handle_request
  handle_route_returns login = refl
  handle_route_returns chart_data =
      let (w, e) =
        handle_chart_data-Returns site.auth
          (reports site.engine v.report_faults v.shown_at s.manager)
          (reports_total site.engine v.report_faults v.shown_at s.manager) v.context v.request
          site.encode_json fresh_writer in
      rw e refl
  handle_route_returns ui =
      let (o, e) =
        handle_ui-Returns site.auth (reports site.engine v.report_faults v.shown_at s.manager)
          (reports_total site.engine v.report_faults v.shown_at s.manager) v.context v.request
          site.duration_string site.format_time site.device s.offset fresh_writer in
      rw e refl
  handle_route_returns page =
      handle_returns site.engine v.record_faults site.device site.generator v.context
        (info site v v.recorded_at s) (logged site v s) fresh_writer reliable usable
        (ap record_panics (logged-manager site v s) ∙ fine)

  mux_returns : (mux site v s fresh_writer).panicked ≡ false
  unfolding mux
  mux_returns = elim (Option-cases (site.moved v.request)) [
    | inl e ↦ rw (e, mux) (handle_route_returns (route site.auth.path v.request.path))
    | inr (answer, e) ↦ rw (e, mux) refl
  ]

  -- With a reliable device and a usable source no handler panics, for any path, with a database, whichever
  -- of its calls fail, and in file mode if neither map of the statistics is nil. So the answer to every request is that of its handler if
  -- the limiter lets it through, and else the status 429, with the statistics and the log unchanged.
  pub http_handler_returns :
      (lib : RateLibrary) (limiter : Limiter lib)
      → ((mux site v s fresh_writer).panicked ≡ false)
        × ((http_handler site lib v s limiter).0 ≡ (
            if (allow_ip lib limiter (client site v s) v.allowed_at).0
            then mux site v s fresh_writer
            else refused s))
  unfolding http_handler serve rate_limit
  http_handler_returns lib limiter = (
    mux_returns,
    elim (Bool-cases (allow_ip lib limiter (client site v s) v.allowed_at).0) [
      | inl e ↦ rw e (recover_returned (mux site v s fresh_writer) mux_returns)
      | inr e ↦ rw e (recover_returned (refused s) refl)
    ],
  )
