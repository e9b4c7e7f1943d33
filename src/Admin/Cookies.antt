-- ===== src/Admin/Cookies.antt =====
-- internal/admin/handler.go: what a login leaves with the client.
use gospidertrap.Common.{
  ℕ, ◌≡◌, refl, true, false, none, some, List, [], ◌∷◌, Text, codes, text_eq, text_eq_refl, All,
  Bool-cases, inl, inr,
}
use gospidertrap.Common.Int.{ℤ}
use gospidertrap.Random.{Device}
use gospidertrap.Http.{Request, query_get, cookie}
use gospidertrap.Http.Writer.{
  ResponseWriter, status_of, Head, fresh_writer, write, write_header, set_header, redirect,
  add_cookie,
}
use gospidertrap.Stats.{Time}
use gospidertrap.Stats.Reports.{Reports}
use gospidertrap.Stats.Manager.{reports}
use gospidertrap.Admin.Auth.{
  Authenticator, cookie_name, validate_token, is_authenticated, get_token_from_request,
  session_cookie, set_cookie,
}
use gospidertrap.Admin.Handler.{
  Context, handle_login, handle_ui, serve_ui, serve_unless_done, content_type, set_security_headers,
}

-- The client of the request has kept the cookies that went out with an answer.
abbrev pub SendsCookiesOf : ResponseWriter → Request → Type 0
SendsCookiesOf w r = elim w.sent [
  | none ↦ Unit
  | some head ↦ All (λ c. cookie r c.name ≡ some c.value) head.cookies
]

login_answer :
    (a : Authenticator) (ctx : Context) (r : Request)
    → query_get r (codes "token") ≡ a.token
    → ctx.done_first ≡ false
    → handle_login a ctx r fresh_writer
      ≡ redirect r a.path 303 (codes "See Other") (set_cookie a fresh_writer)
unfolding handle_login validate_token
login_answer a ctx r h e = rw (e, h, text_eq_refl a.token) refl

abbrev located : Authenticator → ResponseWriter
located a = set_header (codes "Location") a.path (set_cookie a fresh_writer)

abbrev typed : Authenticator → ResponseWriter
typed a = set_header content_type (codes "text/html; charset=utf-8") (located a)

abbrev redirected : Authenticator → Request → ResponseWriter
redirected a r = redirect r a.path 303 (codes "See Other") (set_cookie a fresh_writer)

abbrev login_head : Authenticator → List (Text × Text) → Head
login_head a headers = record { status = 303; headers = headers; cookies = session_cookie a ∷ [] }

redirected_sent :
    (a : Authenticator) (r : Request)
    → (headers : List (Text × Text)) × ((redirected a r).sent ≡ some (login_head a headers))
unfolding redirect set_cookie add_cookie write write_header set_header
redirected_sent a r = elim (Bool-cases (text_eq r.method (codes "GET"))) [
  | inl e ↦ ((typed a).headers, rw (e, redirect) refl)
  | inr e ↦ elim (Bool-cases (text_eq r.method (codes "HEAD"))) [
    | inl f ↦ ((typed a).headers, rw (e, f, redirect) refl)
    | inr f ↦ ((located a).headers, rw (e, f, redirect) refl)
  ]
]

pub login_sent :
    (a : Authenticator) (ctx : Context) (r : Request)
    → query_get r (codes "token") ≡ a.token
    → ctx.done_first ≡ false
    → (headers : List (Text × Text)) × ((handle_login a ctx r fresh_writer).sent
        ≡ some (login_head a headers))
login_sent a ctx r h e = rw (login_answer a ctx r h e) (redirected_sent a r)

token_of_cookie :
    (a : Authenticator) (r : Request)
    → cookie r cookie_name ≡ some a.token
    → get_token_from_request a r ≡ a.token
unfolding get_token_from_request
token_of_cookie a r h = rw (h, get_token_from_request) refl

pub authenticated_by_cookie :
    (a : Authenticator) (r : Request)
    → cookie r cookie_name ≡ some a.token
    → is_authenticated a r ≡ true
unfolding is_authenticated validate_token
authenticated_by_cookie a r h = rw (token_of_cookie a r h) (text_eq_refl a.token)

pub sent_cookie :
    (a : Authenticator) (w : ResponseWriter) (headers : List (Text × Text)) (r : Request)
    → w.sent ≡ some (login_head a headers)
    → SendsCookiesOf w r
    → cookie r cookie_name ≡ some a.token
sent_cookie a w headers r e h = (rw e at h).0

pub sent_status :
    (a : Authenticator) (w : ResponseWriter) (headers : List (Text × Text))
    → w.sent ≡ some (login_head a headers)
    → status_of w ≡ 303
sent_status a w headers e = rw e refl

pub handle_ui_served :
    (duration_string : ℤ → Text) (format_time : Time → Text) (d : Device) (a : Authenticator)
    (reports : Reports) (ctx : Context) (r : Request) (i : ℕ) (w : ResponseWriter)
    → is_authenticated a r ≡ true
    → ctx.done_first ≡ false
    → ctx.done_second ≡ false
    → handle_ui duration_string format_time d a reports ctx r i w
      ≡ serve_ui duration_string format_time d a reports i w
unfolding handle_ui serve_unless_done
handle_ui_served duration_string format_time d a reports ctx r i w h e f =
    rw (e, h, f, serve_unless_done) refl

pub served_status :
    (page nonce : Text)
    → status_of (
        write page (
          set_header content_type
            (codes "text/html; charset=utf-8")
            (set_security_headers nonce fresh_writer)))
      ≡ 200
unfolding write write_header set_header set_security_headers
served_status page nonce = refl
