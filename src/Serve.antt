-- ===== src/Serve.antt =====
-- internal/handler/request.go and internal/middleware: a request on its way through the rate limiter
-- to the page that traps it, and the recovery from a panic.
pub mod Answers
pub mod Body
mod Tests
use gospidertrap.Common.{ℕ, Option, Bool, true, false, ◌++◌, Text, codes, if◌then◌else◌}
use gospidertrap.Random.{Device, ok, panic}
use gospidertrap.Http.Writer.{ResponseWriter, set_header, write_header, write}
use gospidertrap.Content.{Generator, generate_page}
use gospidertrap.RateLimit.{RateLibrary, Limiter, allow_ip}
use gospidertrap.Stats.{RequestInfo, Time}
use gospidertrap.Stats.Database.{Engine, Faults}
use gospidertrap.Stats.Manager.{Manager, record_request, record_panics}
use gospidertrap.Admin.Handler.{Context, content_type}

-- `http.Error(w, text, status)`
unfoldable pub http_error : Text → ℕ → ResponseWriter → ResponseWriter
http_error text status w = write (text ++ codes "\n") (
    write_header status (
      set_header (codes "X-Content-Type-Options") (codes "nosniff")
        (set_header content_type (codes "text/plain; charset=utf-8") w)))

-- What the handlers share: the manager, the log of requests if it is open, and the offset in the
-- device's stream.
pub record State : Type 0 where
  pub manager : Manager
  pub log : Option Text
  pub offset : ℕ

-- How a handler returns or panics.
pub record Served : Type 0 where
  pub writer : ResponseWriter
  pub state : State
  pub panicked : Bool

-- `RequestHandler.Handle`. The error of `RecordRequest` is only logged; `fails` are the faults that it
-- meets. The first test of the context is the `select`.
unfoldable pub handle :
    Engine → Faults → Device → Generator → Context → RequestInfo → State → ResponseWriter → Served
handle engine fails d g ctx req s w =
    let recorded : State = record s { manager = (record_request engine fails req s.manager).1 } in
    let gone : Served = record { writer = w; state = recorded; panicked = false } in
    let typed = set_header content_type (codes "text/html") w in
    if record_panics s.manager
    then record { writer = w; state = recorded; panicked = true }
    else if ctx.done_first
    then gone
    else if ctx.done_second
    then gone
    else elim (generate_page d g s.offset) [
      | panic ↦ record { writer = typed; state = recorded; panicked = true }
      | ok (page, j) ↦ record {
        writer = write page typed;
        state = record recorded { offset = j };
        panicked = false;
      }
    ]

-- `RecoverPanic`
unfoldable pub recover_panic : Served → Served
recover_panic served =
    if served.panicked
    then record served {
      writer = http_error (codes "Internal Server Error") 500 served.writer;
      panicked = false;
    }
    else served

module _ (lib : RateLibrary) where
  -- `RateLimit`, around a handler.
  unfoldable pub rate_limit :
      Limiter lib
      → Text
      → Time
      → (ResponseWriter → Served)
      → State
      → ResponseWriter
      → Served × Limiter lib
  rate_limit limiter ip now next s w =
      let (allowed, limiter') = allow_ip lib limiter ip now in
      if allowed then (next w, limiter') else (
        record {
          writer = http_error (codes "Too Many Requests") 429 w;
          state = s;
          panicked = false;
        },
        limiter',
      )

  -- The middleware of main.go around the handler `next`, for a request of the client `ip`.
  unfoldable pub serve :
      Limiter lib
      → Text
      → Time
      → (ResponseWriter → Served)
      → State
      → ResponseWriter
      → Served × Limiter lib
  serve limiter ip now next s w =
      let (served, limiter') = rate_limit limiter ip now next s w in
      (recover_panic served, limiter')
