-- ===== src/Main/Routes/Isolation.antt =====
-- main.go: what a client without the token can learn of the statistics.
use gospidertrap.Common.{
  ℕ, ◌≡◌, refl, sym, ◌∙◌, if◌then◌else◌, ap, Bool, true, false, Text, codes, Bool-cases,
  Option-cases, inl, inr,
}
use gospidertrap.Random.{Outcome, ok, panic}
use gospidertrap.Http.{Request, query_get}
use gospidertrap.Http.Writer.{ResponseWriter, fresh_writer}
use gospidertrap.Content.{generate_page}
use gospidertrap.RateLimit.{RateLibrary, Limiter, allow_ip}
use gospidertrap.Stats.{RequestInfo, Time}
use gospidertrap.Stats.Ip.{get_client_ip}
use gospidertrap.Stats.Manager.{reports, record_panics}
use gospidertrap.Admin.Auth.{is_authenticated, validate_token}
use gospidertrap.Admin.Access.{denied_alike}
use gospidertrap.Serve.{State, Served, http_error, handle, recover_panic, rate_limit, serve}
use gospidertrap.Main.Routes.{
  Site, Visit, Route, login, chart_data, ui, page, route, logged, handle_request, handle_route, mux,
  client, http_handler, info,
}

-- The request shows no token, neither as a cookie nor in the query.
pub record IsStranger (site : Site) (r : Request) : Type 0 where
  pub no_cookie : is_authenticated site.auth r ≡ false
  pub no_token : validate_token site.auth (query_get r (codes "token")) ≡ false

-- The same bytes for the client.
abbrev pub SameAnswer : Served → Served → Type 0
SameAnswer a b = (a.writer ≡ b.writer) × (a.panicked ≡ b.panicked)

recovered : ResponseWriter → Bool → ResponseWriter
unfolding http_error
recovered w panicked = if panicked then http_error (codes "Internal Server Error") 500 w else w

recover_panic_lem :
    (a : Served)
    → ((recover_panic a).writer ≡ recovered a.writer a.panicked)
      × ((recover_panic a).panicked ≡ false)
unfolding recover_panic recovered
recover_panic_lem a = go a.panicked
  where
    go :
        (p : Bool)
        → ((recover_panic (record a { panicked = p })).writer ≡ recovered a.writer p)
          × ((recover_panic (record a { panicked = p })).panicked ≡ false)
    go true = (refl, refl)
    go false = (refl, refl)

recover_panic-SameAnswer :
    (a b : Served) → SameAnswer a b → SameAnswer (recover_panic a) (recover_panic b)
recover_panic-SameAnswer a b (w, p) =
    let (wa, pa) = recover_panic_lem a in
    let (wb, pb) = recover_panic_lem b in
    (wa ∙ ap (λ x. recovered x a.panicked) w ∙ ap (recovered b.writer) p ∙ sym wb, pa ∙ sym pb)

serve-SameAnswer :
    (lib : RateLibrary) (limiter : Limiter lib) (ip ip' : Text) (now : Time)
    (next next' : ResponseWriter → Served) (s s' : State)
    → ip' ≡ ip
    → SameAnswer (next fresh_writer) (next' fresh_writer)
    → SameAnswer
        (serve lib limiter ip now next s fresh_writer).0
        (serve lib limiter ip' now next' s' fresh_writer).0
unfolding serve rate_limit
serve-SameAnswer lib limiter ip ip' now next next' s s' same_ip same =
    elim (Bool-cases (allow_ip lib limiter ip now).0) [
      | inl e ↦
          rw (same_ip, e) (recover_panic-SameAnswer (next fresh_writer) (next' fresh_writer) same)
      | inr e ↦ rw (same_ip, e) (unfold recover_panic in (refl, refl))
    ]

pub logged-manager : (site : Site) (v : Visit) (s : State) → (logged site v s).manager ≡ s.manager
unfolding logged
logged-manager site v s = elim (Bool-cases site.use_files) [ inl e ↦ rw e refl | inr e ↦ rw e refl ]

logged-offset : (site : Site) (v : Visit) (s : State) → (logged site v s).offset ≡ s.offset
unfolding logged
logged-offset site v s = elim (Bool-cases site.use_files) [ inl e ↦ rw e refl | inr e ↦ rw e refl ]

module _ (site : Site) (v : Visit) (s s' : State) (same_offset : s'.offset ≡ s.offset)
    (same_panics : record_panics s'.manager ≡ record_panics s.manager) where
  handle-SameAnswer :
      (req req' : RequestInfo) (t t' : State)
      → t'.offset ≡ t.offset
      → record_panics t'.manager ≡ record_panics t.manager
      → SameAnswer
          (handle site.engine v.record_faults site.device site.generator v.context req t
            fresh_writer)
          (handle site.engine v.record_faults site.device site.generator v.context req' t'
            fresh_writer)
  unfolding handle
  handle-SameAnswer req req' t t' e p = elim (Bool-cases (record_panics t.manager)) [
    | inl nil ↦ rw (p, nil) (refl, refl)
    | inr fine ↦ elim (Bool-cases v.context.done_first) [
      | inl gone ↦ rw (p, fine, gone) (refl, refl)
      | inr here ↦ elim (Bool-cases v.context.done_second) [
        | inl gone ↦ rw (p, fine, here, gone) (refl, refl)
        | inr here' ↦ go fine here here' (generate_page site.device site.generator t.offset) refl
      ]
    ]
  ]
    where
      go :
          record_panics t.manager ≡ false
          → v.context.done_first ≡ false
          → v.context.done_second ≡ false
          → (o : Outcome (Text × ℕ)) → generate_page site.device site.generator t.offset ≡ o
          → SameAnswer
              (handle site.engine v.record_faults site.device site.generator v.context req t
                fresh_writer)
              (handle site.engine v.record_faults site.device site.generator v.context req' t'
                fresh_writer)
      go fine here here' panic made = rw (p, fine, here, here', e, made, handle) (refl, refl)
      go fine here here' (ok (shown, j)) made =
          rw (p, fine, here, here', e, made, handle) (refl, refl)

  handle_route-SameAnswer :
      (to : Route)
      → IsStranger site v.request
      → SameAnswer (handle_route site to v s fresh_writer) (handle_route site to v s' fresh_writer)
  unfolding handle_route
  handle_route-SameAnswer login h = (refl, refl)
  handle_route-SameAnswer chart_data h =
      let (u, data_writer, eu, eu', ed, ed', denied, denied') =
        denied_alike site.duration_string site.format_time site.encode_json site.device site.auth
          (reports site.engine v.report_faults v.shown_at s.manager)
          (reports site.engine v.report_faults v.shown_at s'.manager) v.context v.request s.offset
          h.no_cookie h.no_token in
      rw (ed, ed') (refl, refl)
  handle_route-SameAnswer ui h =
      let (u, data_writer, eu, eu', ed, ed', denied, denied') =
        denied_alike site.duration_string site.format_time site.encode_json site.device site.auth
          (reports site.engine v.report_faults v.shown_at s.manager)
          (reports site.engine v.report_faults v.shown_at s'.manager) v.context v.request s.offset
          h.no_cookie h.no_token in
      rw (same_offset, eu, eu') (refl, refl)
  handle_route-SameAnswer page h =
      unfold handle_request in
      handle-SameAnswer (info site v v.recorded_at s) (info site v v.recorded_at s')
        (logged site v s) (logged site v s')
        (logged-offset site v s' ∙ same_offset ∙ sym (logged-offset site v s))
        (ap record_panics (logged-manager site v s')
          ∙ same_panics
          ∙ ap record_panics (sym (logged-manager site v s)))

  mux-SameAnswer :
      IsStranger site v.request
      → SameAnswer (mux site v s fresh_writer) (mux site v s' fresh_writer)
  unfolding mux
  mux-SameAnswer h = elim (Option-cases (site.moved v.request)) [
    | inl e ↦ rw (e, mux) (handle_route-SameAnswer (route site.auth.path v.request.path) h)
    | inr (answer, e) ↦ rw (e, mux) (refl, refl)
  ]

  -- A client that shows no token, neither as a cookie nor in the query, gets the same answer whatever
  -- the statistics and the log hold: the answers of two servers in which nothing else differs are the
  -- same, for every path, if `RecordRequest` panics at a nil map in both or in neither.
  pub stranger_learns_nothing :
      (lib : RateLibrary) (limiter : Limiter lib)
      → s'.manager.trust_proxy ≡ s.manager.trust_proxy
      → IsStranger site v.request
      → SameAnswer (http_handler site lib v s limiter).0 (http_handler site lib v s' limiter).0
  unfolding http_handler
  stranger_learns_nothing lib limiter same_proxy h =
      serve-SameAnswer lib limiter (client site v s) (client site v s') v.allowed_at (mux site v s)
        (mux site v s') s s' (ap (λ trust. get_client_ip site.parse_ip trust v.request) same_proxy)
        (mux-SameAnswer h)
