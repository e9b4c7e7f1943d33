-- ===== src/Stats/Database/Ordered.antt =====
-- internal/stats/database.go: the queries with `ORDER BY`.
use mathlib.Core.List.{Perm}
use gospidertrap.Common.{ℕ, ◌≡◌, refl, false, some, List, map, take, length, Text}
use gospidertrap.Common.Int.{pos}
use gospidertrap.Common.Descending.{IsDescendingBy, sort_by, sort_by-IsDescendingBy, sort_by-perm}
use gospidertrap.Stats.Charts.Highest.{to_map, highest, highest_sorted}
use gospidertrap.Stats.Database.{
  Tables, CountRow, Engine, Faults, count_entries, top_counts, get_top_ips, get_top_user_agents,
  get_recent_requests,
}

-- What `ORDER BY ... DESC` promises: the same rows, in falling order of the key. Rows with the same
-- key come in any order.
pub record Sorts (engine : Engine) : Type 1 where
  pub permutes : {A : Type 0} (key : A → ℕ) (l : List A) → Perm (engine.order_desc key l) l
  pub falls : {A : Type 0} (key : A → ℕ) (l : List A) → IsDescendingBy key (engine.order_desc key l)

-- An engine that measures texts in bytes and sorts by insertion.
abbrev pub sorting_engine : Engine
sorting_engine = record { text_length = length; order_desc = λ key l. sort_by key l }

pub sorting_engine-Sorts : Sorts sorting_engine
sorting_engine-Sorts = record {
  permutes = λ key l. sort_by-perm key l;
  falls = λ key l. sort_by-IsDescendingBy key l;
}

module _ (engine : Engine) where
  pub top_counts-highest :
      Sorts engine
      → (n : ℕ) (rows : List (Text × CountRow))
      → map (λ e. e.1) (top_counts engine (pos n) rows) ≡ highest n (to_map (count_entries rows))
  top_counts-highest sorts n rows =
      highest_sorted n (engine.order_desc (λ e. e.1) (count_entries rows)) (count_entries rows)
        (sorts.falls (λ e. e.1) (count_entries rows))
        (sorts.permutes (λ e. e.1) (count_entries rows))

  module _ (fails : Faults) (h : (n : ℕ) → fails n ≡ false) where
    pub get_top_ips_lem :
        (n : ℕ) (t : Tables)
        → get_top_ips engine fails (pos n) t ≡ some (top_counts engine (pos n) t.ip_counts)
    unfolding get_top_ips
    get_top_ips_lem n t = rw (h 0, h 1, get_top_ips) refl

    pub get_top_user_agents_lem :
        (n : ℕ) (t : Tables)
        → get_top_user_agents engine fails (pos n) t
          ≡ some (top_counts engine (pos n) t.user_agent_counts)
    unfolding get_top_user_agents
    get_top_user_agents_lem n t = rw (h 0, h 1, get_top_user_agents) refl

    pub get_recent_requests_lem :
        (n : ℕ) (t : Tables)
        → get_recent_requests engine fails (pos n) t
          ≡ some (take n (engine.order_desc (λ req. req.timestamp) t.request_log))
    unfolding get_recent_requests
    get_recent_requests_lem n t = rw (h 0, h 1, get_recent_requests) refl
