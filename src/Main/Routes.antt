-- ===== src/Main/Routes.antt =====
-- main.go: the routes of the server, the wrapper that logs the requests of pages, and the whole
-- handler with its middleware.
pub mod Isolation
pub mod Accounting
pub mod Calm
pub mod Kept
pub mod Example
mod Tests
use gospidertrap.Common.{
  ℕ, Bool, true, false, ◌&&◌, Option, none, some, List, [], ◌∷◌, ◌++◌, Text, codes, text_eq,
  if◌then◌else◌,
}
use gospidertrap.Common.Int.{ℤ}
use gospidertrap.Random.{Device}
use gospidertrap.Http.{Request}
use gospidertrap.Http.Writer.{ResponseWriter, fresh_writer}
use gospidertrap.Content.{Generator}
use gospidertrap.RateLimit.{RateLibrary, Limiter}
use gospidertrap.Stats.{RequestInfo, Time}
use gospidertrap.Stats.Ip.{get_client_ip}
use gospidertrap.Stats.Charts.{ChartData}
use gospidertrap.Stats.Database.{Engine, Faults}
use gospidertrap.Stats.Manager.{request_info, reports}
use gospidertrap.Admin.Auth.{Authenticator}
use gospidertrap.Admin.Handler.{Context, handle_login, handle_chart_data, handle_ui}
use gospidertrap.Serve.{State, Served, handle, serve}
use gospidertrap.Main.RequestLog.{append_request_to_log}

-- What stays the same while the server runs. `moved` is what `ServeMux` itself answers to a path that
-- is not in its clean form; `encode_line` is the encoding of a request for the log.
pub record Site : Type 1 where
  pub engine : Engine
  pub parse_ip : Text → Bool
  pub device : Device
  pub generator : Generator
  pub auth : Authenticator
  pub encode_json : ChartData → Text
  pub duration_string : ℤ → Text
  pub format_time : Time → Text
  pub encode_line : RequestInfo → Option Text
  pub moved : Request → Option (ResponseWriter → ResponseWriter)
  pub data_dir : Text
  pub use_files : Bool

-- A request, and what its handling meets: the times that the clock shows, and which calls fail.
pub record Visit : Type 0 where
  pub request : Request
  pub context : Context
  pub allowed_at : Time
  pub logged_at : Time
  pub recorded_at : Time
  pub shown_at : Time
  pub record_faults : Faults
  pub report_faults : ℕ → Faults
  pub write_fails : Bool

pub data Route : Type 0 where
  login : Route
  chart_data : Route
  ui : Route
  page : Route

-- The patterns of `mux`. The path of the admin pages has no slash at its end.
unfoldable pub route : Text → Text → Route
route admin_path path =
    if text_eq path (admin_path ++ codes "/login")
    then login
    else if text_eq path (admin_path ++ codes "/data")
    then chart_data
    else if text_eq path admin_path
    then ui
    else page

abbrev pub returned : State → ResponseWriter → Served
returned s w = record { writer = w; state = s; panicked = false }

-- The panics of the admin handlers come before they write anything.
abbrev pub returned_or_panicked : State → ResponseWriter → Option ResponseWriter → Served
returned_or_panicked s w none = record { writer = w; state = s; panicked = true }
returned_or_panicked s w (some w') = returned s w'

abbrev pub shown_or_panicked : State → ResponseWriter → Option (ResponseWriter × ℕ) → Served
shown_or_panicked s w none = record { writer = w; state = s; panicked = true }
shown_or_panicked s w (some (w', j)) = returned (record s { offset = j }) w'

module _ (site : Site) where
  -- The description of a request that goes to the log or to the statistics.
  abbrev pub info : Visit → Time → State → RequestInfo
  info v now s = request_info site.parse_ip s.manager.trust_proxy v.request now

  -- The log in file mode, with one more request.
  unfoldable pub logged : Visit → State → State
  logged v s =
      if site.use_files
      then record s {
        log =
            append_request_to_log site.encode_line v.write_fails site.data_dir s.log
              (info v v.logged_at s);
      }
      else s

  -- `handleRequest`
  unfoldable pub handle_request : Visit → State → ResponseWriter → Served
  handle_request v s w =
      handle site.engine v.record_faults site.device site.generator v.context
        (info v v.recorded_at s) (logged v s) w

  unfoldable pub handle_route : Route → Visit → State → ResponseWriter → Served
  handle_route login v s w = returned s (handle_login site.auth v.context v.request w)
  handle_route chart_data v s w = returned_or_panicked s w (
      handle_chart_data site.encode_json site.auth
        (reports site.engine v.report_faults v.shown_at s.manager) v.context v.request w)
  handle_route ui v s w = shown_or_panicked s w (
      handle_ui site.duration_string site.format_time site.device site.auth
        (reports site.engine v.report_faults v.shown_at s.manager) v.context v.request s.offset w)
  handle_route page v s w = handle_request v s w

  -- `mux`
  unfoldable pub mux : Visit → State → ResponseWriter → Served
  mux v s w = elim (site.moved v.request) [
    | some answer ↦ returned s (answer w)
    | none ↦ handle_route (route site.auth.path v.request.path) v s w
  ]

  -- The client that the rate limiter counts the request for.
  abbrev pub client : Visit → State → Text
  client v s = get_client_ip site.parse_ip s.manager.trust_proxy v.request

  module _ (lib : RateLibrary) where
    -- `httpHandler`
    unfoldable pub http_handler : Visit → State → Limiter lib → Served × Limiter lib
    http_handler v s limiter = serve lib limiter (client v s) v.allowed_at (mux v s) s fresh_writer

    -- One request after another.
    abbrev pub serve_all : List Visit → State → Limiter lib → State × Limiter lib
    serve_all [] s limiter = (s, limiter)
    serve_all (v ∷ vs) s limiter =
        let (served, limiter') = http_handler v s limiter in serve_all vs served.state limiter'
