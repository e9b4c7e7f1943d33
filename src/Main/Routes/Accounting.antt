-- ===== src/Main/Routes/Accounting.antt =====
-- main.go: which requests the statistics and the log of the file mode hold.
use mathlib.Core.List.{map}
use gospidertrap.Common.{
  ℕ, ◌≡◌, refl, ◌∙◌, Bool, true, false, ◌&&◌, Option, none, some, List, [], ◌∷◌, Text, Bool-cases,
  Option-cases, inl, inr, if◌then◌else◌, All,
}
use gospidertrap.Random.{Device, Outcome, ok, panic}
use gospidertrap.Http.{Request}
use gospidertrap.Http.Writer.{ResponseWriter, fresh_writer}
use gospidertrap.Content.{Generator, generate_page}
use gospidertrap.RateLimit.{RateLibrary, Limiter, allow_ip}
use gospidertrap.Stats.{RequestInfo, Stats}
use gospidertrap.Stats.Ip.{get_client_ip}
use gospidertrap.Stats.Memory
use gospidertrap.Stats.Database.{Engine, Faults}
use gospidertrap.Stats.Manager.{request_info, record_request, record_panics, reports}
use gospidertrap.Admin.Handler.{Context, handle_ui}
use gospidertrap.Serve.{State, Served, handle, recover_panic, rate_limit, serve}
use gospidertrap.Main.RequestLog.{append_request_to_log, append_all}
use gospidertrap.Main.Routes.{
  Site, Visit, Route, login, chart_data, ui, page, route, logged, handle_request, handle_route, mux,
  http_handler, serve_all, returned_or_panicked, shown_or_panicked,
}

pub recover_panic-state : (a : Served) → (recover_panic a).state ≡ a.state
unfolding recover_panic
recover_panic-state a = go a.panicked
  where
    go : (p : Bool) → (recover_panic (record a { panicked = p })).state ≡ a.state
    go true = refl
    go false = refl

pub returned_or_panicked-state :
    (s : State) (w : ResponseWriter) (o : Option ResponseWriter)
    → (returned_or_panicked s w o).state ≡ s
returned_or_panicked-state s w none = refl
returned_or_panicked-state s w (some w') = refl

-- Whatever a page becomes, its request is given to the manager.
pub handle_state :
    (engine : Engine) (fails : Faults) (d : Device) (g : Generator) (ctx : Context)
    (req : RequestInfo) (s : State) (w : ResponseWriter)
    → (j : ℕ) × ((handle engine fails d g ctx req s w).state
        ≡ record s { manager = (record_request engine fails req s.manager).1; offset = j })
unfolding handle
handle_state engine fails d g ctx req s w = elim (Bool-cases (record_panics s.manager)) [
  | inl nil ↦ (s.offset, rw nil refl)
  | inr fine ↦ elim (Bool-cases ctx.done_first) [
    | inl gone ↦ (s.offset, rw (fine, gone) refl)
    | inr here ↦ elim (Bool-cases ctx.done_second) [
      | inl gone ↦ (s.offset, rw (fine, here, gone) refl)
      | inr here' ↦ go fine here here' (generate_page d g s.offset) refl
    ]
  ]
]
  where
    go :
        record_panics s.manager ≡ false
        → ctx.done_first ≡ false
        → ctx.done_second ≡ false
        → (o : Outcome (Text × ℕ)) → generate_page d g s.offset ≡ o
        → (j : ℕ) × ((handle engine fails d g ctx req s w).state
            ≡ record s { manager = (record_request engine fails req s.manager).1; offset = j })
    go fine here here' panic made = (s.offset, rw (fine, here, here', made, handle) refl)
    go fine here here' (ok (shown, j)) made = (j, rw (fine, here, here', made, handle) refl)

-- A state of the file mode.
abbrev pub in_files : Stats → Bool → Option Text → ℕ → State
in_files stats trust log i = record {
  manager = record { db = none; stats = stats; trust_proxy = trust };
  log = log;
  offset = i;
}

module _ (site : Site) (trust : Bool) where
  abbrev is_page : Route → Bool
  is_page login = false
  is_page chart_data = false
  is_page ui = false
  is_page page = true

  -- Whether a request goes to `handleRequest`.
  abbrev pub asks_page : Request → Bool
  asks_page r = elim (site.moved r) [
    | some answer ↦ false
    | none ↦ is_page (route site.auth.path r.path)
  ]

  abbrev pub recorded_info : Visit → RequestInfo
  recorded_info v = request_info site.parse_ip trust v.request v.recorded_at

  abbrev pub logged_info : Visit → RequestInfo
  logged_info v = request_info site.parse_ip trust v.request v.logged_at

  abbrev pub append : Option Text → RequestInfo → Option Text
  append = append_request_to_log site.encode_line false site.data_dir

  -- The state after a request, by whether it is counted.
  abbrev pub after : Bool → Visit → Stats → Option Text → ℕ → State
  after counted v stats log i =
      if counted
      then in_files (Memory.record_request stats (recorded_info v)) trust
          (append log (logged_info v)) i
      else in_files stats trust log i

  module _ (files : site.use_files ≡ true) (v : Visit) (written : v.write_fails ≡ false)
      (stats : Stats) (log : Option Text) (i : ℕ) where
    abbrev Ends : Served → Bool → Type 0
    Ends served counted = (j : ℕ) × (served.state ≡ after counted v stats log j)

    handle_request_state :
        Ends (handle_request site v (in_files stats trust log i) fresh_writer) true
    unfolding handle_request logged record_request
    handle_request_state =
        let (j, e) =
          handle_state site.engine v.record_faults site.device site.generator v.context
            (recorded_info v) (logged site v (in_files stats trust log i)) fresh_writer in
        (j, e ∙ rw (files, written, logged) refl)

    handle_route_state :
        (to : Route)
        → Ends (handle_route site to v (in_files stats trust log i) fresh_writer) (is_page to)
    unfolding handle_route
    handle_route_state login = (i, refl)
    handle_route_state chart_data = (i, returned_or_panicked-state _ _ _)
    handle_route_state ui = go (
        handle_ui site.duration_string site.format_time site.device site.auth
          (reports site.engine v.report_faults v.shown_at (in_files stats trust log i).manager)
          v.context v.request i fresh_writer)
      where
        go :
            (o : Option (ResponseWriter × ℕ))
            → (j : ℕ) × ((shown_or_panicked (in_files stats trust log i) fresh_writer o).state
                ≡ in_files stats trust log j)
        go none = (i, refl)
        go (some (w, j)) = (j, refl)
    handle_route_state page = handle_request_state

    mux_state : Ends (mux site v (in_files stats trust log i) fresh_writer) (asks_page v.request)
    unfolding mux
    mux_state = elim (Option-cases (site.moved v.request)) [
      | inl e ↦ rw (e, mux, asks_page) (handle_route_state (route site.auth.path v.request.path))
      | inr (answer, e) ↦ rw (e, mux, asks_page) (i, refl)
    ]

  module _ (lib : RateLibrary) where
    -- Whether the limiter lets a visit through, and the limiter afterwards.
    abbrev pub admitted : Visit → Limiter lib → Bool × Limiter lib
    admitted v limiter =
        allow_ip lib limiter (get_client_ip site.parse_ip trust v.request) v.allowed_at

    -- The visits of pages that the limiter lets through.
    abbrev pub counted : List Visit → Limiter lib → List Visit
    counted [] limiter = []
    counted (v ∷ vs) limiter =
        let (allowed, limiter') = admitted v limiter in
        let rest = counted vs limiter' in if allowed && asks_page v.request then v ∷ rest else rest

  module _ (files : site.use_files ≡ true) (lib : RateLibrary) where
    pub http_handler_state :
        (v : Visit) (stats : Stats) (log : Option Text) (i : ℕ) (limiter : Limiter lib)
        → v.write_fails ≡ false
        → (j : ℕ) × ((http_handler site lib v (in_files stats trust log i) limiter).0.state
            ≡ after ((admitted lib v limiter).0 && asks_page v.request) v stats log j)
          × ((http_handler site lib v (in_files stats trust log i) limiter).1
              ≡ (admitted lib v limiter).1)
    unfolding http_handler serve rate_limit
    http_handler_state v stats log i limiter written =
        elim (Bool-cases (admitted lib v limiter).0) [
          | inl e ↦
              let (j, m) = mux_state files v written stats log i in
              rw e (j, recover_panic-state _ ∙ m, refl)
          | inr e ↦ rw e (i, recover_panic-state _, refl)
        ]

    -- In file mode the statistics and the log hold the same requests: after any visits they are what
    -- they were, with those visits of pages that the limiter let through, in their order. Requests that
    -- the limiter refuses, requests of the admin pages and redirects are in neither. The writes to the
    -- log are taken to succeed. If a map is nil, what is recorded of a visit ends at the write to it.
    pub serve_all_counts :
        (vs : List Visit) (stats : Stats) (log : Option Text) (i : ℕ) (limiter : Limiter lib)
        → All (λ v. v.write_fails ≡ false) vs
        → (j : ℕ) × ((serve_all site lib vs (in_files stats trust log i) limiter).0
            ≡ in_files
                (Memory.record_all stats (map recorded_info (counted lib vs limiter)))
                trust
                (append_all site.encode_line site.data_dir log
                  (map logged_info (counted lib vs limiter)))
                j)
    unfolding append_all
    serve_all_counts [] stats log i limiter written = (i, refl)
    serve_all_counts (v ∷ vs) stats log i limiter (w, written) =
        let (j, ended, limiter_ended) = http_handler_state v stats log i limiter w in
        elim (Bool-cases ((admitted lib v limiter).0 && asks_page v.request)) [
          | inl e ↦
              let (k, rest) =
                serve_all_counts vs (Memory.record_request stats (recorded_info v))
                  (append log (logged_info v)) j (admitted lib v limiter).1 written in
              (k, rw (ended, limiter_ended, e, serve_all) rest)
          | inr e ↦
              let (k, rest) = serve_all_counts vs stats log j (admitted lib v limiter).1 written in
              (k, rw (ended, limiter_ended, e, serve_all) rest)
        ]
