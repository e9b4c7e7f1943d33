-- ===== src/Stats.antt =====
-- internal/stats/types.go: what the server records about requests.
pub mod Table
pub mod Tracking
pub mod Ip
pub mod Memory
pub mod Charts
pub mod Reports
pub mod Database
pub mod Migration
pub mod Manager
use gospidertrap.Common.{ℕ, Bool, false, List, [], Text}
use Table.{Counts}

-- A `time.Time` is the number of nanoseconds since a fixed instant.
abbrev pub Time : Type 0
Time = ℕ

pub record RequestInfo : Type 0 where
  pub ip : Text
  pub user_agent : Text
  pub path : Text
  pub timestamp : Time

-- `Stats`, without the lock: a method that holds it is one step. A nil map reads as an empty one; the
-- flags say which of the maps are nil.
pub record Stats : Type 0 where
  pub start_time : Time
  pub total_requests : ℕ
  pub ip_counts : Counts
  pub ip_counts_nil : Bool
  pub user_agents : Counts
  pub user_agents_nil : Bool
  pub recent_requests : List RequestInfo
  pub max_recent_requests : ℕ

unfoldable pub new_stats : Time → Stats
new_stats now = record {
  start_time = now;
  total_requests = 0;
  ip_counts = [];
  ip_counts_nil = false;
  user_agents = [];
  user_agents_nil = false;
  recent_requests = [];
  max_recent_requests = 100;
}
