-- ===== src/Main/Routes/Kept.antt =====
-- main.go: no request makes a map of the statistics nil, and none mends it.
use gospidertrap.Common.{
  ℕ, Bool, ◌≡◌, refl, ap, ◌∙◌, Option, none, some, List, [], ◌∷◌, Bool-cases, Option-cases, inl,
  inr,
}
use gospidertrap.Http.Writer.{ResponseWriter, fresh_writer}
use gospidertrap.RateLimit.{RateLibrary, Limiter, allow_ip}
use gospidertrap.Stats.{RequestInfo}
use gospidertrap.Stats.Memory
use gospidertrap.Stats.Database.{Tables, Engine, Faults}
use gospidertrap.Stats.Manager.{Manager, record_request, record_panics}
use gospidertrap.Serve.{State, rate_limit, serve}
use gospidertrap.Main.Routes.{
  Site, Visit, Route, login, chart_data, ui, page, route, info, logged, handle_request,
  handle_route, mux, client, http_handler, serve_all, shown_or_panicked,
}
use gospidertrap.Main.Routes.Accounting.{
  recover_panic-state, returned_or_panicked-state, handle_state,
}
use gospidertrap.Main.Routes.Isolation.{logged-manager}

record_request_panics :
    (engine : Engine) (fails : Faults) (req : RequestInfo) (m : Manager)
    → record_panics (record_request engine fails req m).1 ≡ record_panics m
unfolding record_request record_panics
record_request_panics engine fails req m = by_mode m.db
  where
    by_mode :
        (db : Option Tables)
        → record_panics (record_request engine fails req (record m { db = db })).1
          ≡ record_panics (record m { db = db })
    by_mode none = Memory.record_panics-record_request m.stats req
    by_mode (some t) = refl

abbrev pub broken : State → Bool
broken s = record_panics s.manager

module _ (site : Site) (v : Visit) (s : State) where
  handle_route_panics :
      (to : Route) → broken (handle_route site to v s fresh_writer).state ≡ broken s
  unfolding handle_route handle_request
  handle_route_panics login = refl
  handle_route_panics chart_data = ap broken (returned_or_panicked-state s fresh_writer _)
  handle_route_panics ui = go _
    where
      go :
          (o : Option (ResponseWriter × ℕ))
          → broken (shown_or_panicked s fresh_writer o).state ≡ broken s
      go none = refl
      go (some (w, j)) = refl
  handle_route_panics page =
      let (j, ended) =
        handle_state site.engine v.record_faults site.device site.generator v.context
          (info site v v.recorded_at s) (logged site v s) fresh_writer in
      ap broken ended
      ∙ record_request_panics site.engine v.record_faults (info site v v.recorded_at s)
          (logged site v s).manager
      ∙ ap record_panics (logged-manager site v s)

  mux_panics : broken (mux site v s fresh_writer).state ≡ broken s
  unfolding mux
  mux_panics = elim (Option-cases (site.moved v.request)) [
    | inl e ↦ rw (e, mux) (handle_route_panics (route site.auth.path v.request.path))
    | inr (answer, e) ↦ rw (e, mux) refl
  ]

module _ (site : Site) (lib : RateLibrary) where
  http_handler_panics :
      (v : Visit) (s : State) (limiter : Limiter lib)
      → broken (http_handler site lib v s limiter).0.state ≡ broken s
  unfolding http_handler serve rate_limit
  http_handler_panics v s limiter =
      elim (Bool-cases (allow_ip lib limiter (client site v s) v.allowed_at).0) [
        | inl e ↦ rw e (ap broken (recover_panic-state _) ∙ mux_panics site v s)
        | inr e ↦ rw e (ap broken (recover_panic-state _))
      ]

  -- Whether `RecordRequest` panics is the same after any requests as before them.
  pub serve_all_panics :
      (vs : List Visit) (s : State) (limiter : Limiter lib)
      → broken (serve_all site lib vs s limiter).0 ≡ broken s
  serve_all_panics [] s limiter = refl
  serve_all_panics (v ∷ vs) s limiter =
      serve_all_panics vs (http_handler site lib v s limiter).0.state
        (http_handler site lib v s limiter).1
      ∙ http_handler_panics v s limiter
