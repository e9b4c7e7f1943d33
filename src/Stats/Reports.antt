-- ===== src/Stats/Reports.antt =====
-- internal/stats/manager.go: what a manager of statistics answers to the admin pages.
use gospidertrap.Common.{ℕ, Option, List}
use gospidertrap.Common.Int.{ℤ}
use gospidertrap.Stats.{RequestInfo}
use gospidertrap.Stats.Charts.{ChartData}

-- The answers of `GetStats`, `GetChartData` and `GetRecentRequests` at one time; `none` is a panic.
pub record Reports : Type 0 where
  pub uptime : ℤ
  pub total_requests : ℕ
  pub unique_ips : ℕ
  pub unique_uas : ℕ
  pub get_chart_data : ℤ → ℤ → Option ChartData
  pub get_recent_requests : ℤ → Option (List RequestInfo)
