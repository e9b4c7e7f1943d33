-- ===== src/Serve/Body.antt =====
-- internal/middleware/bodysize.go: the limit on the body of a request, and the middleware of main.go with
-- it. The readers of bodies are those of net/http: a parameter.
use gospidertrap.Common.{ℕ, ◌≡◌, refl, Text}
use gospidertrap.Http.Writer.{ResponseWriter}
use gospidertrap.RateLimit.{RateLibrary, Limiter}
use gospidertrap.Stats.{Time}
use gospidertrap.Serve.{State, Served, recover_panic, rate_limit, serve}

-- `http.MaxBytesReader`
pub record BodyLibrary : Type 1 where
  pub Body : Type 0
  pub max_bytes_reader : ResponseWriter → Body → ℕ → Body

-- `maxRequestBodyBytes`
abbrev pub max_request_body_bytes : ℕ
max_request_body_bytes = 1048576

module _ (bodies : BodyLibrary) where
  open bodies use {Body, max_bytes_reader}

  -- `LimitRequestBody`, around a handler.
  unfoldable pub limit_request_body :
      {A : Type 0} → ℕ → (ResponseWriter → Body → A) → ResponseWriter → Body → A
  limit_request_body max_bytes next w body = next w (max_bytes_reader w body max_bytes)

  module _ (lib : RateLibrary) where
    -- The three middlewares of main.go, around a handler that does not read the body.
    unfoldable pub serve_body :
        Limiter lib
        → Text
        → Time
        → (ResponseWriter → Served)
        → State
        → ResponseWriter
        → Body
        → Served × Limiter lib
    serve_body limiter ip now next s w body =
        let (served, limiter') =
          limit_request_body max_request_body_bytes
            (λ w body. rate_limit lib limiter ip now next s w) w body in
        (recover_panic served, limiter')

    -- The limit has no effect on the answers.
    pub serve_body-serve :
        (limiter : Limiter lib) (ip : Text) (now : Time) (next : ResponseWriter → Served)
        (s : State) (w : ResponseWriter) (body : Body)
        → serve_body limiter ip now next s w body ≡ serve lib limiter ip now next s w
    unfolding serve_body serve limit_request_body
    serve_body-serve limiter ip now next s w body = refl
