-- ===== src/Http.antt =====
-- The parts of net/http that the program uses: a request as the handlers read it.
pub mod Writer
use gospidertrap.Common.{Option, none, some, List, [], ◌∷◌, Text, text_eq, if◌then◌else◌}

pub record Request : Type 0 where
  pub method : Text
  pub path : Text
  pub remote_addr : Text
  pub headers : List (Text × Text)
  pub query : List (Text × Text)
  pub cookies : List (Text × Text)

-- The first value of a key; names are in their canonical form.
unfoldable pub first_value : Text → List (Text × Text) → Option Text
first_value k [] = none
first_value k ((j, v) ∷ l) = if text_eq j k then some v else first_value k l

abbrev or_empty : Option Text → Text
or_empty none = []
or_empty (some v) = v

-- `r.Header.Get(name)`
abbrev pub header_get : Request → Text → Text
header_get r name = or_empty (first_value name r.headers)

-- `r.URL.Query().Get(name)`
abbrev pub query_get : Request → Text → Text
query_get r name = or_empty (first_value name r.query)

-- `r.Cookie(name)`; `none` stands for the error.
abbrev pub cookie : Request → Text → Option Text
cookie r name = first_value name r.cookies
