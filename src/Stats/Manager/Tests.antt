-- ===== src/Stats/Manager/Tests.antt =====
-- Tests of the manager.
use mathlib.Core.List.{Perm}
use mathlib.Core.List.Perm
use gospidertrap.Common.{
  ◌<◌, ◌≡◌, refl, true, false, none, some, List, [], ◌∷◌, Text, codes, text_eq, length, arith,
}
use gospidertrap.Common.Int.{pos}
use gospidertrap.Stats.{Time, RequestInfo, Stats, new_stats}
use gospidertrap.Stats.Table.{Counts, lookup, insert, track}
use gospidertrap.Stats.Memory.{max_tracked_ips, max_tracked_user_agents}
use gospidertrap.Stats.Memory
use gospidertrap.Stats.Database.{Tables, Faults, no_tables, new_database, get_top_ips}
use gospidertrap.Stats.Manager.{Manager, new_manager, no_charts, get_totals, get_chart_data}
use gospidertrap.Stats.Database.Ordered.{sorting_engine, sorting_engine-Sorts}
use gospidertrap.Stats.Charts.Highest.{highest}
use gospidertrap.Stats.Manager.Charted.{
  chart_counts, ip_map, agent_map, charts_refine, charts_agree,
}
use gospidertrap.Stats.Manager.Agreement.{record_all, get_totals_agree}

abbrev no_fault : Faults
no_fault n = false

abbrev broken : Faults
broken n = true

abbrev visit : Text → Time → RequestInfo
visit ip at = record { ip = ip; user_agent = codes "curl"; path = codes "/a"; timestamp = at }

abbrev three_visits : List RequestInfo
three_visits =
    visit (codes "10.0.0.1") 9 ∷ visit (codes "10.0.0.2") 11 ∷ visit (codes "10.0.0.1") 12 ∷ []

abbrev started : Tables
started = record no_tables { stats = some (record { start_time = 5; total_requests = 0 }) }

abbrev after : Stats
after = Memory.record_all (new_stats 5) three_visits

abbrev with_database : Manager
with_database = new_manager (some started) (new_stats 5) false

abbrev in_memory : Manager
in_memory = new_manager none (new_stats 5) false

few_ips : length after.ip_counts < max_tracked_ips
unfolding Memory.record_request new_stats track lookup insert text_eq
few_ips = omega arith

few_agents : length after.user_agents < max_tracked_user_agents
unfolding Memory.record_request new_stats track lookup insert text_eq
few_agents = omega arith

get_totals_agree_example :
    get_totals sorting_engine no_fault 30
      (record_all sorting_engine no_fault three_visits with_database)
    ≡ get_totals sorting_engine no_fault 30
        (record_all sorting_engine no_fault three_visits in_memory)
get_totals_agree_example =
    get_totals_agree sorting_engine no_fault (λ n. refl) 5 30 started (new_stats 5) false
      three_visits (unfold new_database in refl) (refl, (refl, (refl, tt))) few_ips few_agents

charts_refine_example :
    chart_counts (
      get_chart_data sorting_engine no_fault no_fault
        (new_manager none after false)
        (pos 10)
        (pos 50))
    ≡ some (
      highest 10 (ip_map (new_manager none after false)),
      highest 10 (agent_map (new_manager none after false)),
    )
charts_refine_example =
    charts_refine sorting_engine sorting_engine-Sorts no_fault (λ n. refl)
      (new_manager none after false) 10 50 (omega arith)

-- The addresses, visited the other way round.
abbrev visited_ips : Counts
visited_ips = (codes "10.0.0.2", 1) ∷ (codes "10.0.0.1", 2) ∷ []

same_ips : Perm visited_ips after.ip_counts
unfolding Memory.record_request new_stats track lookup insert text_eq
same_ips = Perm.swap (codes "10.0.0.1", 2) (codes "10.0.0.2", 1) []

abbrev visited_agents : Counts
visited_agents = (codes "curl", 3) ∷ []

same_agents : Perm visited_agents after.user_agents
unfolding Memory.record_request new_stats track lookup insert text_eq
same_agents = Perm.refl visited_agents

charts_agree_example :
    get_chart_data sorting_engine no_fault no_fault
      (record_all sorting_engine no_fault three_visits with_database)
      (pos 10)
      (pos 50)
    ≡ get_chart_data sorting_engine no_fault no_fault
        (new_manager none
          (record after { ip_counts = visited_ips; user_agents = visited_agents })
          false)
        (pos 10)
        (pos 50)
charts_agree_example =
    charts_agree sorting_engine sorting_engine-Sorts no_fault (λ n. refl) 5 started (new_stats 5)
      false three_visits visited_ips visited_agents 10 (pos 50) (unfold new_database in refl)
      (refl, (refl, (refl, tt))) few_ips few_agents same_ips same_agents
      ((λ e. omega (arith, e), tt), (tt, tt)) (tt, tt)

broken_charts :
    get_chart_data sorting_engine broken no_fault with_database (pos 10) (pos 50) ≡ some no_charts
broken_charts = unfold get_chart_data new_manager get_top_ips in refl
