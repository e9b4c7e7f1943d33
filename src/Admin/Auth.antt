-- ===== src/Admin/Auth.antt =====
-- internal/admin/auth.go: the token of the administrator, and the secret path.
use gospidertrap.Common.{
  ℕ, zero, suc, ◌+◌, ◌*◌, ◌/◌, ◌%◌, Bool, true, Option, none, some, [], ◌∷◌, ◌++◌, Text, codes,
  text_eq, ltb, if◌then◌else◌, length, take,
}
use gospidertrap.Random.{Device}
use gospidertrap.Http.{Request, query_get, cookie}
use gospidertrap.Http.Writer.{ResponseWriter, Cookie, add_cookie}

pub record Authenticator : Type 0 where
  pub token : Text
  pub path : Text
  pub use_https : Bool

abbrev pub admin_path_length : ℕ
admin_path_length = 32

abbrev pub admin_token_length : ℕ
admin_token_length = 32

abbrev pub cookie_name : Text
cookie_name = codes "gospidertrap_admin_token"

abbrev pub cookie_max_age : ℕ
cookie_max_age = 86400

-- The alphabet of base64, with the two characters that stand for 62 and 63.
unfoldable pub sextet : ℕ → ℕ → ℕ → ℕ
sextet c62 c63 n =
    if ltb n 26
    then b'A' + n
    else if ltb n 52
    then b'a' + (n % 26)
    else if ltb n 62
    then b'0' + (n % 52)
    else if ltb n 63
    then c62
    else c63

-- `base64.RawURLEncoding.EncodeToString`
unfoldable pub encode_raw_url : Text → Text
encode_raw_url [] = []
encode_raw_url (a ∷ []) = sextet b'-' b'_' (a / 4) ∷ sextet b'-' b'_' (a % 4 * 16) ∷ []
encode_raw_url (a ∷ b ∷ []) =
    sextet b'-' b'_' (a / 4)
    ∷ sextet b'-' b'_' (a % 4 * 16 + b / 16)
    ∷ sextet b'-' b'_' (b % 16 * 4)
    ∷ []
encode_raw_url (a ∷ b ∷ c ∷ s) =
    sextet b'-' b'_' (a / 4)
    ∷ sextet b'-' b'_' (a % 4 * 16 + b / 16)
    ∷ sextet b'-' b'_' (b % 16 * 4 + c / 64)
    ∷ sextet b'-' b'_' (c % 64)
    ∷ encode_raw_url s

-- `rand.Read` of `n` bytes, and their number; `none` is its error.
abbrev pub bytes_from : Device → ℕ → ℕ → Text
bytes_from d i zero = []
bytes_from d i (suc n) = d.byte_at i ∷ bytes_from d (i + 1) n

unfoldable pub read : Device → ℕ → ℕ → Option (Text × ℕ)
read d n i = if d.fails_at i then none else some (bytes_from d i n, i + n)

module _ (d : Device) where
  unfoldable pub generate_secure_random_string : ℕ → ℕ → Option (Text × ℕ)
  generate_secure_random_string len i =
      let three_quarters = len * 3 / 4 in
      let num_bytes = if ltb three_quarters len then len else three_quarters in
      elim (read d num_bytes i) [
        | none ↦ none
        | some (b, j) ↦
            let encoded = encode_raw_url b in
            some (if ltb len (length encoded) then take len encoded else encoded, j)
      ]

  unfoldable pub generate_admin_path : ℕ → Option (Text × ℕ)
  generate_admin_path i = elim (generate_secure_random_string admin_path_length i) [
    | none ↦ none
    | some (s, j) ↦ some (b'/' ∷ s, j)
  ]

  unfoldable pub new_authenticator : Bool → ℕ → Option (Authenticator × ℕ)
  new_authenticator use_https i = elim (generate_secure_random_string admin_token_length i) [
    | none ↦ none
    | some (token, j) ↦ elim (generate_admin_path j) [
      | none ↦ none
      | some (path, k) ↦ some (record { token = token; path = path; use_https = use_https }, k)
    ]
  ]

-- `subtle.ConstantTimeCompare` is 1 exactly for equal contents.
unfoldable pub validate_token : Authenticator → Text → Bool
validate_token a token = text_eq token a.token

unfoldable pub get_token_from_request : Authenticator → Request → Text
get_token_from_request a r = elim (cookie r cookie_name) [
  | some value ↦ value
  | none ↦ query_get r (codes "token")
]

abbrev pub session_cookie : Authenticator → Cookie
session_cookie a = record {
  name = cookie_name;
  value = a.token;
  path = codes "/";
  max_age = cookie_max_age;
  http_only = true;
  same_site_strict = true;
  secure = a.use_https;
}

unfoldable pub set_cookie : Authenticator → ResponseWriter → ResponseWriter
set_cookie a w = add_cookie (session_cookie a) w

unfoldable pub is_authenticated : Authenticator → Request → Bool
is_authenticated a r = validate_token a (get_token_from_request a r)

abbrev pub scheme : Authenticator → Text
scheme a = if a.use_https then codes "https" else codes "http"

unfoldable pub get_login_url : Authenticator → Text → Text
get_login_url a host = scheme a ++ codes "://" ++ host ++ a.path ++ codes "/login?token=" ++ a.token

unfoldable pub get_admin_url : Authenticator → Text → Text
get_admin_url a host = scheme a ++ codes "://" ++ host ++ a.path
