-- ===== src/Stats/Manager/Charted.antt =====
-- internal/stats/manager.go: the charts of the two ways to keep the statistics.
use mathlib.Core.List.{Perm}
use mathlib.Core.List.Perm
use gospidertrap.Common.{
  ℕ, ◌≤◌, ◌<◌, ◌≡◌, refl, ap, sym, ◌∙◌, inl, inr, Bool, true, false, Option, none, some,
  Option-cases, List, map, take, Text, length, All,
}
use gospidertrap.Common.Int.{ℤ, pos}
use gospidertrap.Common.Descending.{
  HasDistinct, HasDistinct-Separates, Separates-Perm, descending_unique,
}
use gospidertrap.Stats.{Stats, RequestInfo, Time, new_stats}
use gospidertrap.Stats.Table.{Counts}
use gospidertrap.Stats.Charts.{
  Entry, ChartData, sort_by_count, top_entries, display_all, chart_data_from_memory,
}
use gospidertrap.Stats.Charts.Top.{sort_by_count-sorts}
use gospidertrap.Stats.Charts.Labels.{display_all_shows, chart_data_total}
use gospidertrap.Stats.Charts.Highest.{
  CountMap, to_map, highest, top_entries-take, top_entries-highest,
}
use gospidertrap.Stats.Database.{
  Tables, CountRow, Engine, Faults, no_tables, count_entries, top_counts, new_database,
}
use gospidertrap.Stats.Database.Accepted.{accepts}
use gospidertrap.Stats.Database.Ordered.{
  Sorts, top_counts-highest, get_top_ips_lem, get_top_user_agents_lem,
}
use gospidertrap.Stats.Memory.{max_tracked_ips, max_tracked_user_agents}
use gospidertrap.Stats.Memory
use gospidertrap.Stats.Manager.{Manager, new_manager, get_chart_data}
use gospidertrap.Stats.Manager.Agreement.{
  with_all, with_all-Matches, record_all, record_all_db, new_database-Matches,
}

-- The two columns of numbers in the charts, if there are charts.
abbrev pub chart_counts : Option ChartData → Option (List ℕ × List ℕ)
chart_counts none = none
chart_counts (some c) = some (c.top_ips.counts, c.top_user_agents.counts)

-- The counts of a manager, wherever it keeps them, as maps.
abbrev pub ip_map : Manager → CountMap
ip_map m = elim m.db [
  | none ↦ to_map m.stats.ip_counts
  | some t ↦ to_map (count_entries t.ip_counts)
]

abbrev pub agent_map : Manager → CountMap
agent_map m = elim m.db [
  | none ↦ to_map m.stats.user_agents
  | some t ↦ to_map (count_entries t.user_agent_counts)
]

-- The charts of these entries.
abbrev charts_shown : ℤ → List Entry → List Entry → Option ChartData
charts_shown max ips uas = elim (display_all max uas) [
  | none ↦ none
  | some labels ↦ some (record {
    top_ips = record { labels = map (λ e. e.0) ips; counts = map (λ e. e.1) ips };
    top_user_agents = record { labels = labels; counts = map (λ e. e.1) uas };
  })
]

module _ (engine : Engine) (sorts : Sorts engine) (fails : Faults)
    (h : (n : ℕ) → fails n ≡ false) where
  -- With a database or without one, the numbers in the charts are the highest counts of the maps, in
  -- falling order, as many as asked for or all: they depend neither on the order in which a loop visits
  -- a map nor on the order in which the database returns rows with the same count. The engine is taken
  -- to sort, no call of the driver to fail, and the labels to have 3 bytes or more.
  pub charts_refine :
      (m : Manager) (n max : ℕ)
      → 3 ≤ max
      → chart_counts (get_chart_data engine fails fails m (pos n) (pos max))
        ≡ some (highest n (ip_map m), highest n (agent_map m))
  unfolding get_chart_data
  charts_refine m n max long = elim (Option-cases m.db) [
    | inl e ↦
        let (labels, chart, shown) = chart_data_total m.stats (pos n) max long in
        rw
          (
            e,
            get_chart_data,
            ip_map,
            agent_map,
            chart,
            top_entries-highest n m.stats.ip_counts,
            top_entries-highest n m.stats.user_agents,
          )
          refl
    | inr (t, e) ↦
        let (labels, made, shown) =
          display_all_shows max (top_counts engine (pos n) t.user_agent_counts) long in
        rw
          (
            e,
            get_chart_data,
            ip_map,
            agent_map,
            get_top_ips_lem engine fails h n t,
            get_top_user_agents_lem engine fails h n t,
            made,
            top_counts-highest engine sorts n t.ip_counts,
            top_counts-highest engine sorts n t.user_agent_counts,
          )
          refl
  ]

  -- If no two entries have the same count, the order of the rows is determined.
  same_entries :
      (n : ℕ) (rows : List (Text × CountRow)) (l : Counts)
      → Perm l (count_entries rows)
      → HasDistinct (λ e. e.1) l
      → top_counts engine (pos n) rows ≡ top_entries (pos n) l
  same_entries n rows l p distinct =
      let (falls, sorted) = sort_by_count-sorts l in
      let same : sort_by_count l ≡ engine.order_desc (λ e. e.1) (count_entries rows) =
        descending_unique (λ e. e.1) (sort_by_count l)
          (engine.order_desc (λ e. e.1) (count_entries rows)) falls
          (sorts.falls (λ e. e.1) (count_entries rows))
          (Perm.trans sorted
            (Perm.trans p (Perm.symm (sorts.permutes (λ e. e.1) (count_entries rows)))))
          (Separates-Perm (λ e. e.1) (sort_by_count l) l sorted
            (HasDistinct-Separates (λ e. e.1) l (hlevel) distinct)) in
      sym (top_entries-take n l ∙ ap (take n) same)

  charts_from_database :
      (t : Tables) (s : Stats) (trust : Bool) (n : ℕ) (max : ℤ)
      → get_chart_data engine fails fails (new_manager (some t) s trust) (pos n) max
        ≡ charts_shown max
            (top_counts engine (pos n) t.ip_counts)
            (top_counts engine (pos n) t.user_agent_counts)
  unfolding get_chart_data new_manager
  charts_from_database t s trust n max =
      rw
        (
          get_top_ips_lem engine fails h n t,
          get_top_user_agents_lem engine fails h n t,
          get_chart_data,
        )
        refl

  same_charts :
      (t : Tables) (s s' : Stats) (trust : Bool) (n : ℕ) (max : ℤ)
      → Perm s.ip_counts (count_entries t.ip_counts)
      → Perm s.user_agents (count_entries t.user_agent_counts)
      → HasDistinct (λ e. e.1) s.ip_counts
      → HasDistinct (λ e. e.1) s.user_agents
      → get_chart_data engine fails fails (new_manager (some t) s' trust) (pos n) max
        ≡ get_chart_data engine fails fails (new_manager none s trust) (pos n) max
  unfolding get_chart_data new_manager chart_data_from_memory
  same_charts t s s' trust n max ips agents distinct_ips distinct_agents =
      charts_from_database t s' trust n max
      ∙ ap (λ es. charts_shown max es (top_counts engine (pos n) t.user_agent_counts))
          (same_entries n t.ip_counts s.ip_counts ips distinct_ips)
      ∙ ap (charts_shown max (top_entries (pos n) s.ip_counts))
          (same_entries n t.user_agent_counts s.user_agents agents distinct_agents)

  -- Two managers that start at the same time, one with a new database and one with none, report the
  -- same charts after the same requests, for every number of items and every length of labels, in
  -- whatever order a loop visits the maps in memory (`ips` and `agents`): if no two addresses and no
  -- two user agents have the same count, the engine sorts, no call of the driver fails, the tables
  -- accept the requests, and the maps in memory are not full.
  pub charts_agree :
      (now : Time) (t : Tables) (s : Stats) (trust : Bool) (reqs : List RequestInfo)
      (ips agents : Counts) (n : ℕ) (max : ℤ)
      → new_database fails now no_tables ≡ some t
      → All (λ req. accepts engine req ≡ true) reqs
      → length (Memory.record_all (new_stats now) reqs).ip_counts < max_tracked_ips
      → length (Memory.record_all (new_stats now) reqs).user_agents < max_tracked_user_agents
      → Perm ips (Memory.record_all (new_stats now) reqs).ip_counts
      → Perm agents (Memory.record_all (new_stats now) reqs).user_agents
      → HasDistinct (λ e. e.1) ips
      → HasDistinct (λ e. e.1) agents
      → get_chart_data engine fails fails
          (record_all engine fails reqs (new_manager (some t) s trust))
          (pos n)
          max
        ≡ get_chart_data engine fails fails
            (new_manager none
              (record (Memory.record_all (new_stats now) reqs) {
                ip_counts = ips;
                user_agents = agents;
              })
              trust)
            (pos n)
            max
  charts_agree now t s trust reqs ips agents n max made all few_ips few_agents same_ips same_agents
        distinct_ips distinct_agents =
      let m =
        with_all-Matches reqs t (new_stats now) (new_database-Matches engine fails h now t made)
          few_ips few_agents in
      rw (record_all_db engine fails h reqs t s trust all) (
        same_charts (with_all reqs t)
          (record (Memory.record_all (new_stats now) reqs) {
            ip_counts = ips;
            user_agents = agents;
          })
          s trust n max (rw (← m.same_ips) same_ips) (rw (← m.same_agents) same_agents) distinct_ips
          distinct_agents)
