-- ===== src/Main/Routes/Tests.antt =====
-- Tests of the routes.
use gospidertrap.Common.{
  ℕ, ◌≡◌, ◌≢◌, refl, false, none, some, List, [], ◌∷◌, codes, text_eq, arith, if◌then◌else◌, map,
}
use gospidertrap.Http.{first_value}
use gospidertrap.Http.Writer.{fresh_writer}
use gospidertrap.RateLimit.{allow_ip}
use gospidertrap.Stats.{new_stats}
use gospidertrap.Stats.Memory
use gospidertrap.Stats.Database.{no_tables}
use gospidertrap.Stats.Manager.{new_manager, record_panics}
use gospidertrap.Admin.Auth.{is_authenticated, validate_token, get_token_from_request}
use gospidertrap.Serve.{State}
use gospidertrap.Main.RequestLog.{append_all}
use gospidertrap.Main.Routes.{Visit, ui, route, mux, client, http_handler, serve_all}
use gospidertrap.Main.Routes.Isolation.{IsStranger, SameAnswer, stranger_learns_nothing}
use gospidertrap.Main.Routes.Accounting.{
  in_files, recorded_info, logged_info, counted, serve_all_counts,
}
use gospidertrap.Main.Routes.Example.{dry, two_each, keeper, site, asking, started}
use gospidertrap.Main.Routes.Calm.{refused, http_handler_returns}

abbrev busy : State
busy = record { manager = new_manager (some no_tables) (new_stats 3) false; log = none; offset = 0 }

routes : route keeper.path (codes "/k3-f") ≡ ui
unfolding route text_eq
routes = refl

stranger : IsStranger site (asking (codes "/k3-f")).request
unfolding is_authenticated validate_token get_token_from_request first_value text_eq
stranger = record { no_cookie = refl; no_token = refl }

stranger_learns_nothing_example :
    SameAnswer
      (http_handler site dry (asking (codes "/k3-f")) started two_each).0
      (http_handler site dry (asking (codes "/k3-f")) busy two_each).0
unfolding new_manager
stranger_learns_nothing_example =
    stranger_learns_nothing site (asking (codes "/k3-f")) started busy refl
      (unfold record_panics Memory.record_panics new_stats in refl) dry two_each refl stranger

abbrev visits : List Visit
visits = asking (codes "/x") ∷ asking (codes "/k3-f") ∷ asking (codes "/y") ∷ []

serve_all_counts_example :
    (j : ℕ) × ((serve_all site dry visits started two_each).0
      ≡ in_files
          (Memory.record_all
            (new_stats 3)
            (map (recorded_info site false) (counted site false dry visits two_each)))
          false
          (append_all site.encode_line site.data_dir
            (some [])
            (map (logged_info site false) (counted site false dry visits two_each)))
          j)
serve_all_counts_example =
    serve_all_counts site false refl dry visits (new_stats 3) (some []) 0 two_each
      (refl, (refl, (refl, tt)))

http_handler_returns_example :
    ((mux site (asking (codes "/k3-f")) started fresh_writer).panicked ≡ false)
    × ((http_handler site dry (asking (codes "/k3-f")) started two_each).0 ≡ (
        if (allow_ip dry two_each (client site (asking (codes "/k3-f")) started) 4).0
        then mux site (asking (codes "/k3-f")) started fresh_writer
        else refused started))
http_handler_returns_example =
    http_handler_returns site (asking (codes "/k3-f")) started
      (record { bytes = λ i. omega arith; never_fails = λ i. refl })
      (ab, (omega arith, (omega arith, tt)))
      (unfold record_panics Memory.record_panics new_stats in refl) dry two_each
  where
    ab : codes "ab" ≢ []
    ab = ground arith
