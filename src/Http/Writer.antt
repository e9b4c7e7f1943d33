-- ===== src/Http/Writer.antt =====
-- `http.ResponseWriter` of net/http, as it documents itself: headers go out with the first call of
-- `WriteHeader` or `Write`, and what is set after that has no effect.
use gospidertrap.Common.{
  ℕ, Option, none, some, List, [], ◌∷◌, ◌++◌, ◌||◌, Bool, Text, codes, text_eq, if◌then◌else◌,
}
use gospidertrap.Stats.Table.{insert}
use gospidertrap.Content.Html.{escape_string}
use gospidertrap.Http.{Request}

pub record Cookie : Type 0 where
  pub name : Text
  pub value : Text
  pub path : Text
  pub max_age : ℕ
  pub http_only : Bool
  pub same_site_strict : Bool
  pub secure : Bool

-- What goes out ahead of the body. The server adds headers of its own, which are left out.
pub record Head : Type 0 where
  pub status : ℕ
  pub headers : List (Text × Text)
  pub cookies : List Cookie

pub record ResponseWriter : Type 0 where
  pub headers : List (Text × Text)
  pub cookies : List Cookie
  pub sent : Option Head
  pub body : Text

-- The status that went out, 0 if nothing did.
abbrev pub status_of : ResponseWriter → ℕ
status_of w = elim w.sent [ none ↦ 0 | some head ↦ head.status ]

abbrev pub fresh_writer : ResponseWriter
fresh_writer = record { headers = []; cookies = []; sent = none; body = [] }

-- `w.Header().Set(name, value)`
unfoldable pub set_header : Text → Text → ResponseWriter → ResponseWriter
set_header name value w = record w { headers = insert name value w.headers }

-- `http.SetCookie(w, c)`
unfoldable pub add_cookie : Cookie → ResponseWriter → ResponseWriter
add_cookie c w = record w { cookies = w.cookies ++ (c ∷ []) }

unfoldable pub write_header : ℕ → ResponseWriter → ResponseWriter
write_header status w = elim w.sent [
  | none ↦ record w {
    sent = some (record { status = status; headers = w.headers; cookies = w.cookies });
  }
  | some head ↦ w
]

-- `io.WriteString(w, s)`
unfoldable pub write : Text → ResponseWriter → ResponseWriter
unfolding write_header
write s w = let w' = write_header 200 w in record w' { body = w'.body ++ s }

-- `http.Redirect` to a local path that is clean: it begins with a slash, and has no other slash and
-- no dot. The writer has no Content-Type yet.
unfoldable pub redirect : Request → Text → ℕ → Text → ResponseWriter → ResponseWriter
unfolding set_header write_header write
redirect r path status reason w =
    let is_get = text_eq r.method (codes "GET") in
    let located = set_header (codes "Location") path w in
    let typed =
      if is_get || text_eq r.method (codes "HEAD")
      then set_header (codes "Content-Type") (codes "text/html; charset=utf-8") located
      else located in
    let head = write_header status typed in
    if is_get
    then write
        (codes "<a href=\"" ++ escape_string path ++ codes "\">" ++ reason ++ codes "</a>.\n\n")
        head
    else head
