-- ===== src/Stats/Manager.antt =====
-- internal/stats/manager.go: the manager, which keeps the statistics in a database, or in memory if
-- it has none.
pub mod Counts
pub mod Agreement
pub mod Total
pub mod Charted
pub mod Listed
mod Tests
use gospidertrap.Common.{
  ℕ, Bool, true, false, Option, none, some, List, [], ◌∷◌, map, Text, codes, text_eq, if◌then◌else◌,
  length,
}
use gospidertrap.Common.Int.{ℤ, pos, ◌-ℤ◌}
use gospidertrap.Http.{Request, header_get}
use gospidertrap.Stats.{Stats, RequestInfo, Time}
use gospidertrap.Stats.Ip.{get_client_ip}
use gospidertrap.Stats.Database.{
  Tables, Engine, Faults, get_stats, get_top_ips, get_top_user_agents,
}
use gospidertrap.Stats.Database
use gospidertrap.Stats.Memory
use gospidertrap.Stats.Charts.{Series, ChartData, display_all, chart_data_from_memory}
use gospidertrap.Stats.Reports.{Reports}

-- `Manager`. The database is its tables, `none` in file mode; the resolver of addresses is its flag.
pub record Manager : Type 0 where
  pub db : Option Tables
  pub stats : Stats
  pub trust_proxy : Bool

unfoldable pub new_manager : Option Tables → Stats → Bool → Manager
new_manager db stats trust_proxy = record { db = db; stats = stats; trust_proxy = trust_proxy }

-- What `RecordRequest` records, by the test of `net.ParseIP`.
unfoldable pub request_info : (Text → Bool) → Bool → Request → Time → RequestInfo
request_info parse_ip trust_proxy r now =
    let user_agent = header_get r (codes "User-Agent") in
    record {
      ip = get_client_ip parse_ip trust_proxy r;
      user_agent = if text_eq user_agent [] then codes "Unknown" else user_agent;
      path = r.path;
      timestamp = now;
    }

abbrev pub no_series : Series
no_series = record { labels = []; counts = [] }

-- The zero value of `ChartData`.
abbrev pub no_charts : ChartData
no_charts = record { top_ips = no_series; top_user_agents = no_series }

-- Whether `RecordRequest` panics: without a database, at the write to a nil map.
unfoldable pub record_panics : Manager → Bool
record_panics m = elim m.db [ none ↦ Memory.record_panics m.stats | some t ↦ false ]

module _ (engine : Engine) where
  -- `RecordRequest` from the request's description on: whether it returns an error, and the manager,
  -- also if it panics.
  unfoldable pub record_request : Faults → RequestInfo → Manager → Bool × Manager
  record_request fails req m = elim m.db [
    | none ↦ (false, record m { stats = Memory.record_request m.stats req })
    | some t ↦
        let (failed, t') = Database.record_request engine fails req t in
        (failed, record m { db = some t' })
  ]

  -- `GetChartData`; a failing query gives empty charts, and `none` is a panic.
  unfoldable pub get_chart_data : Faults → Faults → Manager → ℤ → ℤ → Option ChartData
  get_chart_data fails fails' m top_items max_length = elim m.db [
    | none ↦ chart_data_from_memory m.stats top_items max_length
    | some t ↦ elim (get_top_ips engine fails top_items t) [
      | none ↦ some no_charts
      | some ips ↦ elim (get_top_user_agents engine fails' top_items t) [
        | none ↦ some no_charts
        | some uas ↦ elim (display_all max_length uas) [
          | none ↦ none
          | some labels ↦ some (record {
            top_ips = record { labels = map (λ e. e.0) ips; counts = map (λ e. e.1) ips };
            top_user_agents = record { labels = labels; counts = map (λ e. e.1) uas };
          })
        ]
      ]
    ]
  ]

  -- `GetStats`, with the numbers of the maps' entries; zeros if a query fails.
  unfoldable pub get_totals : Faults → Time → Manager → ℤ × ℕ × ℕ × ℕ
  get_totals fails now m = elim m.db [
    | none ↦ (
      pos now -ℤ pos m.stats.start_time,
      m.stats.total_requests,
      length m.stats.ip_counts,
      length m.stats.user_agents,
    )
    | some t ↦ elim (get_stats engine fails t) [
      | none ↦ (pos 0, 0, 0, 0)
      | some s ↦
          (pos now -ℤ pos s.start_time, s.total_requests, length s.ip_counts, length s.user_agents)
    ]
  ]

  -- `GetRecentRequests`; `none` is a panic, and a failing query gives nothing.
  unfoldable pub get_recent : Faults → Manager → ℤ → Option (List RequestInfo)
  get_recent fails m limit = elim m.db [
    | none ↦ Memory.get_recent_requests m.stats limit
    | some t ↦ elim (Database.get_recent_requests engine fails limit t) [
      | none ↦ some []
      | some reqs ↦ some reqs
    ]
  ]

  -- What the manager answers to the admin pages; operation `n` meets the faults `fails n`.
  unfoldable pub reports : (ℕ → Faults) → Time → Manager → Reports
  reports fails now m =
      let (uptime, total, ips, uas) = get_totals (fails 0) now m in
      record {
        uptime = uptime;
        total_requests = total;
        unique_ips = ips;
        unique_uas = uas;
        get_chart_data = get_chart_data (fails 1) (fails 2) m;
        get_recent_requests = get_recent (fails 3) m;
      }
