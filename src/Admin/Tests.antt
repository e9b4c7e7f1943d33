-- ===== src/Admin/Tests.antt =====
-- Tests of the admin pages.
use gospidertrap.Common.{
  ℕ, ◌≡◌, ◌≢◌, refl, arith, true, false, text_eq, none, some, length, List, [], ◌∷◌, Text, codes,
}
use gospidertrap.Common.Int.{ℤ, pos, negsuc}
use gospidertrap.Stats.{Stats, RequestInfo, Time}
use gospidertrap.Stats.Table.{insert}
use gospidertrap.Stats.Database.{Engine, Faults}
use gospidertrap.Stats.Manager.{Manager, new_manager, reports}
use gospidertrap.Random.{Device, IsReliable}
use gospidertrap.Http.{Request, first_value, query_get}
use gospidertrap.Http.Writer.{
  ResponseWriter, fresh_writer, write, write_header, set_header, redirect, add_cookie,
}
use gospidertrap.Admin.Auth.{
  Authenticator, cookie_name, new_authenticator, get_token_from_request, validate_token, set_cookie,
}
use gospidertrap.Admin.Token.{IsSafeText, new_authenticator_total}
use gospidertrap.Admin.Handler.{Context, handle_login, handle_ui, handle_chart_data}
use gospidertrap.Http.Writer.{status_of}
use gospidertrap.Admin.Cookies.{SendsCookiesOf}
use gospidertrap.Admin.Access.{refused_learns_nothing, login_opens_dashboard}
use gospidertrap.Stats.Charts.{ChartData}
use gospidertrap.Strings.Number.{itoa, atoi, format_digits, parse_digits, parse_up_to}
use gospidertrap.Admin.Page.{new_renderer, render_admin_ui}
use gospidertrap.Admin.Sections.{SameMarkup}
use gospidertrap.Admin.Inert.{render_admin_ui-SameMarkup}

itoa_test : itoa (pos 1080) ≡ codes "1080"
unfolding itoa format_digits
itoa_test = refl

atoi_test : atoi (codes "-42") ≡ some (negsuc 41)
unfolding atoi parse_up_to parse_digits
atoi_test = refl

abbrev page_path : Text
page_path = codes "/k3-f"

abbrev seconds : ℤ → Text
seconds d = codes "7s"

abbrev noon : Time → Text
noon t = codes "2025-01-01 12:00:00"

abbrev honest : ChartData
honest = record {
  top_ips = record { labels = codes "10.0.0.1" ∷ []; counts = 3 ∷ [] };
  top_user_agents = record { labels = codes "curl" ∷ []; counts = 3 ∷ [] };
}

abbrev hostile : ChartData
hostile = record {
  top_ips = record { labels = codes "<b>" ∷ []; counts = 90 ∷ [] };
  top_user_agents = record { labels = codes "'><script>" ∷ []; counts = 12 ∷ [] };
}

abbrev visit : Text → List RequestInfo
visit agent =
    record { ip = codes "10.0.0.1"; user_agent = agent; path = codes "/"; timestamp = 5 } ∷ []

render_admin_ui-SameMarkup_example :
    SameMarkup
      (render_admin_ui seconds noon
        (new_renderer page_path)
        honest
        (pos 7)
        3
        1
        1
        (visit (codes "curl"))
        (pos 50)
        (codes "bm9uY2U="))
      (render_admin_ui seconds noon
        (new_renderer page_path)
        hostile
        (pos 9)
        90
        2
        8
        (visit (codes "\"<"))
        (pos 50)
        (codes "bm9uY2Ux"))
render_admin_ui-SameMarkup_example =
    render_admin_ui-SameMarkup seconds noon (new_renderer page_path) (new_renderer page_path) honest
      hostile (pos 7) (pos 9) 3 1 1 90 2 8 (visit (codes "curl")) (visit (codes "\"<")) (pos 50)
      (codes "bm9uY2U=") (codes "bm9uY2Ux") 1 1 (refl, refl) (refl, refl) (refl, refl) (refl, refl)
      refl refl

abbrev zeros : Device
zeros = record { byte_at = λ i. 0; fails_at = λ i. false }

abbrev zeros-IsReliable : IsReliable zeros
zeros-IsReliable = record { bytes = λ i. omega arith; never_fails = λ i. refl }

new_authenticator_total_example :
    (token path : Text) × (new_authenticator zeros true 0
      ≡ some (record { token = token; path = b'/' ∷ path; use_https = true }, 64))
    × IsSafeText 32 token
    × IsSafeText 32 path
new_authenticator_total_example = new_authenticator_total zeros true 0 zeros-IsReliable

abbrev keeper : Authenticator
keeper = record { token = codes "s3cret_-"; path = page_path; use_https = true }

abbrev asking : List (Text × Text) → List (Text × Text) → Request
asking query cookies = record {
  method = codes "GET";
  path = page_path;
  remote_addr = codes "10.0.0.1:999";
  headers = [];
  query = query;
  cookies = cookies;
}

abbrev present : Context
present = record { done_first = false; done_second = false }

abbrev no_stats : Stats
no_stats = record {
  ip_counts_nil = false;
  user_agents_nil = false;
  start_time = 3;
  total_requests = 0;
  ip_counts = [];
  user_agents = [];
  recent_requests = [];
  max_recent_requests = 100;
}

abbrev bytes_engine : Engine
bytes_engine = record { text_length = length; order_desc = λ key l. l }

abbrev no_faults : ℕ → Faults
no_faults n call = false

abbrev in_memory : Manager
in_memory = new_manager none no_stats false

abbrev json : ChartData → Text
json c = codes "{}"

refused_learns_nothing_example :
    (ui data_writer : ResponseWriter) × (handle_ui seconds noon zeros keeper
        (reports bytes_engine no_faults 9 in_memory)
        present
        (asking [] [])
        0
        fresh_writer
      ≡ some (ui, 0))
    × (handle_ui seconds noon zeros keeper
          (reports bytes_engine no_faults 7 in_memory)
          present
          (asking [] [])
          0
          fresh_writer
        ≡ some (ui, 0))
    × (handle_chart_data json keeper
          (reports bytes_engine no_faults 9 in_memory)
          present
          (asking [] [])
          fresh_writer
        ≡ some data_writer)
    × (handle_chart_data json keeper
          (reports bytes_engine no_faults 7 in_memory)
          present
          (asking [] [])
          fresh_writer
        ≡ some data_writer)
    × (status_of ui ≡ 403)
    × (status_of data_writer ≡ 403)
refused_learns_nothing_example =
    refused_learns_nothing seconds noon json zeros keeper
      (reports bytes_engine no_faults 9 in_memory) (reports bytes_engine no_faults 7 in_memory)
      present (asking [] []) 0 nobody unknown
  where
    nobody : get_token_from_request keeper (asking [] []) ≢ keeper.token
    nobody = unfold get_token_from_request first_value text_eq in (λ e. cc e)

    unknown : query_get (asking [] []) (codes "token") ≢ keeper.token
    unknown = unfold first_value text_eq in (λ e. cc e)

abbrev with_token : Request
with_token = asking ((codes "token", codes "s3cret_-") ∷ []) []

abbrev with_cookie : Request
with_cookie = asking [] ((cookie_name, codes "s3cret_-") ∷ [])

login_opens_dashboard_example :
    (status_of (handle_login keeper present with_token fresh_writer) ≡ 303)
    × (w : ResponseWriter) × (j : ℕ) × (handle_ui seconds noon zeros keeper
          (reports bytes_engine no_faults 9 in_memory)
          present
          with_cookie
          0
          fresh_writer
        ≡ some (w, j))
    × (status_of w ≡ 200)
login_opens_dashboard_example =
    login_opens_dashboard seconds noon zeros keeper bytes_engine no_faults 9 in_memory present
      present with_token with_cookie 0 (unfold first_value text_eq in refl) refl refl refl
      cookies_kept
  where
    cookies_kept : SendsCookiesOf (handle_login keeper present with_token fresh_writer) with_cookie
    cookies_kept =
        unfold handle_login validate_token first_value text_eq redirect set_cookie add_cookie write
          write_header set_header insert in
        (refl, tt)
