-- ===== src/Serve/Answers.antt =====
-- internal/handler/request.go and internal/middleware: the answer to a request of a page.
use gospidertrap.Common.{
  ℕ, ◌≡◌, refl, Bool, true, false, Text, text_eq, [], if◌then◌else◌, Bool-cases, inl, inr,
}
use gospidertrap.Random.{Device, IsReliable, ok}
use gospidertrap.Http.Writer.{fresh_writer, set_header, write_header, write}
use gospidertrap.Content.{Generator, generate_page}
use gospidertrap.Content.Pages.{IsUsable, page_of, generate_new_page_total}
use gospidertrap.Content.Links.{replace_links_in_html_rewrites}
use gospidertrap.RateLimit.{RateLibrary, Limiter, allow_ip}
use gospidertrap.Stats.{RequestInfo, Time}
use gospidertrap.Stats.Database.{Engine, Faults}
use gospidertrap.Stats.Manager.{record_request, record_panics}
use gospidertrap.Http.Writer.{status_of}
use gospidertrap.Admin.Handler.{Context}
use gospidertrap.Serve.{State, Served, handle, http_error, recover_panic, rate_limit, serve}

pub generate_page_total :
    (d : Device) (g : Generator) (i : ℕ)
    → IsReliable d
    → IsUsable g.random
    → (page : Text) × (j : ℕ) × (generate_page d g i ≡ ok (page, j))
unfolding generate_page
generate_page_total d g i h u = elim (Bool-cases (text_eq g.html_template [])) [
  | inl e ↦
      let (ls, j, made, few, many, all) = generate_new_page_total d h g i u in
      (page_of g ls, j, rw e made)
  | inr e ↦
      let (page, j, made, rewritten) = replace_links_in_html_rewrites d h g u g.html_template i in
      (page, j, rw e made)
]

-- What becomes of a request: refused with 429 and not recorded, or recorded, and answered with 500 if
-- `RecordRequest` panics, and else with 200 unless the client is gone.
abbrev pub IsAnswered : Bool → Engine → Faults → Context → RequestInfo → State → Served → Type 0
IsAnswered allowed engine fails ctx req s served =
    (served.panicked ≡ false)
    × (served.state.manager
        ≡ (if allowed then (record_request engine fails req s.manager).1 else s.manager))
    × (served.state.log ≡ s.log)
    × (status_of served.writer ≡ (
        if allowed
        then (if record_panics s.manager
            then 500
            else if ctx.done_first
            then 0
            else if ctx.done_second
            then 0
            else 200)
        else 429))

module _ (engine : Engine) (fails : Faults) (d : Device) (g : Generator) (ctx : Context) where
  pub handle-IsAnswered :
      (req : RequestInfo) (s : State)
      → IsReliable d
      → IsUsable g.random
      → IsAnswered true engine fails ctx req s
          (recover_panic (handle engine fails d g ctx req s fresh_writer))
  unfolding handle recover_panic http_error write write_header set_header
  handle-IsAnswered req s h u =
      let (page, j, made) = generate_page_total d g s.offset h u in
      elim (Bool-cases (record_panics s.manager)) [
        | inl nil ↦ rw nil (refl, refl, refl, refl)
        | inr fine ↦ elim (Bool-cases ctx.done_first) [
          | inl e ↦ rw (fine, e) (refl, refl, refl, refl)
          | inr e ↦ elim (Bool-cases ctx.done_second) [
            | inl f ↦ rw (fine, e, f) (refl, refl, refl, refl)
            | inr f ↦ rw (fine, e, f, made, handle) (refl, refl, refl, refl)
          ]
        ]
      ]

  -- With a reliable device and a usable source every request of a page is answered, no panic leaves the
  -- middleware, whatever the limiter and the statistics are, and whichever calls of a database fail: if
  -- the limiter refuses it, with the status 429, and nothing is recorded; else it is given to the
  -- manager of the statistics, and answered with the status 500 if `RecordRequest` panics, which it
  -- does if there is no database and a map is nil, and else with the status 200 unless the client is
  -- gone.
  pub serve-IsAnswered :
      (lib : RateLibrary) (limiter : Limiter lib) (ip : Text) (now : Time) (req : RequestInfo)
      (s : State)
      → IsReliable d
      → IsUsable g.random
      → IsAnswered
          (allow_ip lib limiter ip now).0
          engine
          fails
          ctx
          req
          s
          (serve lib limiter ip now (handle engine fails d g ctx req s) s fresh_writer).0
  unfolding serve rate_limit
  serve-IsAnswered lib limiter ip now req s h u =
      elim (Bool-cases (allow_ip lib limiter ip now).0) [
        | inl e ↦ rw e (handle-IsAnswered req s h u)
        | inr e ↦ rw e (
            unfold recover_panic http_error write write_header set_header in
            (refl, refl, refl, refl))
      ]
