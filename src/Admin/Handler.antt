-- ===== src/Admin/Handler.antt =====
-- internal/admin/handler.go: the three handlers of the admin pages, and their security headers.
-- `none` is a panic.
use gospidertrap.Common.{
  ℕ, ◌+◌, ◌*◌, ◌/◌, ◌%◌, Bool, not, ◌&&◌, Option, none, some, [], ◌∷◌, ◌++◌, Text, codes,
  if◌then◌else◌,
}
use gospidertrap.Common.Int.{ℤ, pos}
use gospidertrap.Random.{Device}
use gospidertrap.Http.{Request, query_get}
use gospidertrap.Http.Writer.{ResponseWriter, set_header, write_header, write, redirect}
use gospidertrap.Content.Html.{escape_string}
use gospidertrap.Stats.{Time}
use gospidertrap.Stats.Charts.{ChartData}
use gospidertrap.Stats.Reports.{Reports}
use gospidertrap.Admin.Auth.{
  Authenticator, sextet, read, validate_token, is_authenticated, set_cookie,
}
use gospidertrap.Admin.Page.{is_empty, new_renderer, render_admin_ui}

-- Whether the context of the request is done at the first and at the second test of a handler.
pub record Context : Type 0 where
  pub done_first : Bool
  pub done_second : Bool

-- `base64.StdEncoding.EncodeToString`
unfoldable pub encode_std : Text → Text
encode_std [] = []
encode_std (a ∷ []) = sextet b'+' b'/' (a / 4) ∷ sextet b'+' b'/' (a % 4 * 16) ∷ b'=' ∷ b'=' ∷ []
encode_std (a ∷ b ∷ []) =
    sextet b'+' b'/' (a / 4)
    ∷ sextet b'+' b'/' (a % 4 * 16 + b / 16)
    ∷ sextet b'+' b'/' (b % 16 * 4)
    ∷ b'='
    ∷ []
encode_std (a ∷ b ∷ c ∷ s) =
    sextet b'+' b'/' (a / 4)
    ∷ sextet b'+' b'/' (a % 4 * 16 + b / 16)
    ∷ sextet b'+' b'/' (b % 16 * 4 + c / 64)
    ∷ sextet b'+' b'/' (c % 64)
    ∷ encode_std s

-- The nonce, and the offset in the device's stream; empty if the device fails.
unfoldable pub generate_nonce : Device → ℕ → Text × ℕ
generate_nonce d i = elim (read d 16 i) [ none ↦ ([], i) | some (bytes, j) ↦ (encode_std bytes, j) ]

unfoldable pub set_security_headers : Text → ResponseWriter → ResponseWriter
set_security_headers nonce w =
    let script_src =
      codes "script-src 'self' https://cdn.jsdelivr.net"
      ++ (if is_empty nonce then [] else codes " 'nonce-" ++ nonce ++ codes "'") in
    let policy =
      codes "default-src 'self'; "
      ++ script_src
      ++ codes "; "
      ++ codes "style-src 'self' 'unsafe-inline'; "
      ++ codes "img-src 'self' data:; "
      ++ codes "connect-src 'self' https://cdn.jsdelivr.net; "
      ++ codes "frame-ancestors 'none'" in
    set_header (codes "X-XSS-Protection") (codes "1; mode=block") (
      set_header (codes "Referrer-Policy") (codes "no-referrer") (
        set_header (codes "X-Content-Type-Options") (codes "nosniff") (
          set_header (codes "X-Frame-Options") (codes "DENY")
            (set_header (codes "Content-Security-Policy") policy w))))

abbrev pub content_type : Text
content_type = codes "Content-Type"

abbrev pub denied_login : Text
denied_login =
    codes
      "<!DOCTYPE html>\n<html>\n<head><title>Access Denied</title></head>\n<body>\n<h1>403 Forbidden</h1>\n<p>Invalid or missing authentication token.</p>\n</body>\n</html>"

abbrev pub denied_ui : Authenticator → Text
denied_ui a =
    codes
      "<!DOCTYPE html>\n<html>\n<head><title>Access Denied</title></head>\n<body>\n<h1>403 Forbidden</h1>\n<p>Invalid or missing authentication token.</p>\n<p>Use: <a href=\""
    ++ escape_string a.path
    ++ codes "/login?token=YOUR_TOKEN\">Login</a></p>\n</body>\n</html>"

-- What `json.NewEncoder(w).Encode` writes for the error.
abbrev pub denied_data : Text
denied_data = codes "{\"error\":\"Invalid or missing authentication token\"}\n"

unfoldable pub handle_login : Authenticator → Context → Request → ResponseWriter → ResponseWriter
handle_login a ctx r w =
    if ctx.done_first
    then w
    else if not (validate_token a (query_get r (codes "token")))
    then write denied_login
        (set_header content_type (codes "text/html") (write_header 403 (set_security_headers [] w)))
    else redirect r a.path 303 (codes "See Other") (set_cookie a w)

-- `encode_json` is `json.NewEncoder(w).Encode` on chart data.
unfoldable pub handle_chart_data :
    (ChartData → Text)
    → Authenticator
    → Reports
    → Context
    → Request
    → ResponseWriter
    → Option ResponseWriter
handle_chart_data encode_json a reports ctx r w =
    if not (is_authenticated a r)
    then some (write denied_data (write_header 403 (set_security_headers [] w)))
    else if ctx.done_first
    then some w
    else elim (reports.get_chart_data (pos 10) (pos 50)) [
      | none ↦ none
      | some chart ↦ some (
          write (encode_json chart)
            (set_header content_type (codes "application/json") (set_security_headers [] w)))
    ]

module _ (duration_string : ℤ → Text) (format_time : Time → Text) (d : Device) where
  -- The dashboard itself, after the tests of the handler.
  unfoldable pub serve_ui :
      Authenticator → Reports → ℕ → ResponseWriter → Option (ResponseWriter × ℕ)
  serve_ui a reports i w = elim (reports.get_chart_data (pos 10) (pos 50)) [
    | none ↦ none
    | some chart ↦ elim (reports.get_recent_requests (pos 50)) [
      | none ↦ none
      | some recent ↦
          let (nonce, j) = generate_nonce d i in
          elim (render_admin_ui duration_string format_time (new_renderer a.path) chart
            reports.uptime reports.total_requests reports.unique_ips reports.unique_uas recent
            (pos 50) nonce) [
              | none ↦ none
              | some page ↦ some (
                write page (
                    set_header content_type (codes "text/html; charset=utf-8")
                      (set_security_headers nonce w)),
                j,
              )
            ]
    ]
  ]

  -- The second test of the context, and the dashboard.
  unfoldable pub serve_unless_done :
      Authenticator → Reports → Context → ℕ → ResponseWriter → Option (ResponseWriter × ℕ)
  serve_unless_done a reports ctx i w =
      if ctx.done_second then some (w, i) else serve_ui a reports i w

  unfoldable pub handle_ui :
      Authenticator → Reports → Context → Request → ℕ → ResponseWriter → Option (ResponseWriter × ℕ)
  handle_ui a reports ctx r i w =
      let token = query_get r (codes "token") in
      if ctx.done_first
      then some (w, i)
      else if is_authenticated a r
      then serve_unless_done a reports ctx i w
      else if not (is_empty token) && validate_token a token
      then serve_unless_done a reports ctx i (set_cookie a w)
      else some (
        write (denied_ui a) (set_header content_type (codes "text/html") (write_header 403 w)),
        i,
      )
