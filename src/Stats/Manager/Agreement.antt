-- ===== src/Stats/Manager/Agreement.antt =====
-- internal/stats/manager.go: the two ways to keep the statistics, side by side.
use gospidertrap.Common.{
  ℕ, ◌≤◌, ◌<◌, ◌≡◌, refl, ap, sym, ◌∙◌, inl, Bool, true, false, Option, none, some, List, [], ◌∷◌,
  arith, length, All,
}
use gospidertrap.Common.Int.{pos, ◌-ℤ◌}
use gospidertrap.Stats.{Stats, RequestInfo, Time, new_stats}
use gospidertrap.Stats.Table.{lookup, HasDistinctKeys, insert-HasDistinctKeys, track}
use gospidertrap.Stats.Database.{
  Tables, StatsRow, Engine, Faults, count_entries, no_tables, new_database, get_stats,
  get_recent_requests,
}
use gospidertrap.Stats.Database.Accepted.{accepts}
use gospidertrap.Stats.Database.Applied.{with_request, record_request_accepted}
use gospidertrap.Stats.Memory.{max_tracked_ips, max_tracked_user_agents}
use gospidertrap.Stats.Memory
use gospidertrap.Stats.Manager.Counts.{length-track, track-count_entries, fill_counts_lem}
use gospidertrap.Stats.Manager.{Manager, new_manager, record_request, get_totals}

-- The database holds what the memory holds, as long as no map is full.
pub record Matches (t : Tables) (s : Stats) : Type 0 where
  pub maps_made : Memory.HasMaps s
  pub row : t.stats ≡ some (record { start_time = s.start_time; total_requests = s.total_requests })
  pub same_ips : s.ip_counts ≡ count_entries t.ip_counts
  pub same_agents : s.user_agents ≡ count_entries t.user_agent_counts
  pub distinct_ips : HasDistinctKeys t.ip_counts
  pub distinct_agents : HasDistinctKeys t.user_agent_counts

abbrev pub with_all : List RequestInfo → Tables → Tables
with_all [] t = t
with_all (req ∷ reqs) t = with_all reqs (with_request req t)

record_all_grows :
    (reqs : List RequestInfo) (s : Stats)
    → Memory.HasMaps s
    → (length s.ip_counts ≤ length (Memory.record_all s reqs).ip_counts)
      × (length s.user_agents ≤ length (Memory.record_all s reqs).user_agents)
record_all_grows [] s h = (omega arith, omega arith)
record_all_grows (req ∷ reqs) s h =
    let returned = (Memory.record_request_returned s req h).1 in
    let (more_ips, more_agents) =
      record_all_grows reqs (Memory.record_request s req) (rw returned h) in
    (
      omega (
        arith,
        more_ips,
        ap (λ x. length x.ip_counts) returned,
        length-track max_tracked_ips req.ip s.ip_counts,
      ),
      omega (
        arith,
        more_agents,
        ap (λ x. length x.user_agents) returned,
        length-track max_tracked_user_agents req.user_agent s.user_agents,
      ),
    )

with_request-Matches :
    (req : RequestInfo) (t : Tables) (s : Stats)
    → Matches t s
    → length s.ip_counts < max_tracked_ips
    → length s.user_agents < max_tracked_user_agents
    → Matches (with_request req t) (Memory.record_request s req)
unfolding with_request
with_request-Matches req t s m few_ips few_agents =
    let ips : length (count_entries t.ip_counts) < max_tracked_ips = rw (← m.same_ips) few_ips in
    let agents : length (count_entries t.user_agent_counts) < max_tracked_user_agents =
      rw (← m.same_agents) few_agents in
    rw ((Memory.record_request_returned s req m.maps_made).1) (record {
      maps_made = m.maps_made;
      row = rw (m.row) refl;
      same_ips =
          ap (track max_tracked_ips req.ip) m.same_ips
          ∙ track-count_entries max_tracked_ips req.ip req.timestamp t.ip_counts
              (lookup req.ip t.ip_counts) refl ips;
      same_agents =
          ap (track max_tracked_user_agents req.user_agent) m.same_agents
          ∙ track-count_entries max_tracked_user_agents req.user_agent req.timestamp
              t.user_agent_counts (lookup req.user_agent t.user_agent_counts) refl agents;
      distinct_ips = insert-HasDistinctKeys req.ip _ t.ip_counts m.distinct_ips;
      distinct_agents =
          insert-HasDistinctKeys req.user_agent _ t.user_agent_counts m.distinct_agents;
    })

pub with_all-Matches :
    (reqs : List RequestInfo) (t : Tables) (s : Stats)
    → Matches t s
    → length (Memory.record_all s reqs).ip_counts < max_tracked_ips
    → length (Memory.record_all s reqs).user_agents < max_tracked_user_agents
    → Matches (with_all reqs t) (Memory.record_all s reqs)
with_all-Matches [] t s m few_ips few_agents = m
with_all-Matches (req ∷ reqs) t s m few_ips few_agents =
    let (more_ips, more_agents) = record_all_grows (req ∷ reqs) s m.maps_made in
    with_all-Matches reqs (with_request req t) (Memory.record_request s req)
      (with_request-Matches req t s m (omega (arith, more_ips, few_ips))
        (omega (arith, more_agents, few_agents)))
      few_ips few_agents

module _ (engine : Engine) (fails : Faults) where
  -- One request after another.
  abbrev pub record_all : List RequestInfo → Manager → Manager
  record_all [] m = m
  record_all (req ∷ reqs) m = record_all reqs (record_request engine fails req m).1

  pub record_all_memory :
      (reqs : List RequestInfo) (s : Stats) (trust : Bool)
      → record_all reqs (new_manager none s trust)
        ≡ new_manager none (Memory.record_all s reqs) trust
  unfolding record_request new_manager
  record_all_memory [] s trust = refl
  record_all_memory (req ∷ reqs) s trust =
      record_all_memory reqs (Memory.record_request s req) trust

  module _ (h : (n : ℕ) → fails n ≡ false) where
    pub record_all_db :
        (reqs : List RequestInfo) (t : Tables) (s : Stats) (trust : Bool)
        → All (λ req. accepts engine req ≡ true) reqs
        → record_all reqs (new_manager (some t) s trust)
          ≡ new_manager (some (with_all reqs t)) s trust
    unfolding record_request new_manager
    record_all_db [] t s trust all = refl
    record_all_db (req ∷ reqs) t s trust (a, all) =
        rw (record_request_accepted engine fails h req t a, record_request)
          (record_all_db reqs (with_request req t) s trust all)

    get_totals_db :
        (row : StatsRow) (t : Tables) (s : Stats) (trust : Bool) (later : Time)
        → HasDistinctKeys t.ip_counts
        → HasDistinctKeys t.user_agent_counts
        → get_totals engine fails later (new_manager (some (record t { stats = some row })) s trust)
          ≡ (
            pos later -ℤ pos row.start_time,
            row.total_requests,
            length (count_entries t.ip_counts),
            length (count_entries t.user_agent_counts),
          )
    unfolding get_totals get_stats get_recent_requests new_manager
    get_totals_db row t s trust later ips agents =
        rw
          (
            h 0,
            h 1,
            h 2,
            h 3,
            h 4,
            h 5,
            h 6,
            get_totals,
            fill_counts_lem engine t.ip_counts [] ips (λ k. inl (unfold lookup in refl)),
            fill_counts_lem engine t.user_agent_counts [] agents (λ k. inl (unfold lookup in refl)),
          )
          refl

    get_totals-Matches :
        (t : Tables) (s s' : Stats) (trust : Bool) (later : Time)
        → Matches t s
        → get_totals engine fails later (new_manager (some t) s' trust)
          ≡ get_totals engine fails later (new_manager none s trust)
    unfolding get_totals new_manager
    get_totals-Matches t s s' trust later m =
        let db : Option StatsRow → Manager =
          λ row. new_manager (some (record t { stats = row })) s' trust in
        ap (λ row. get_totals engine fails later (db row)) m.row
        ∙ get_totals_db (record { start_time = s.start_time; total_requests = s.total_requests }) t
            s' trust later m.distinct_ips m.distinct_agents
        ∙ rw (m.same_ips, m.same_agents) refl

    pub opened_tables :
        (now : Time) (t : Tables)
        → new_database fails now no_tables ≡ some t
        → record no_tables { stats = some (record { start_time = now; total_requests = 0 }) } ≡ t
    unfolding new_database
    opened_tables now t made =
        let started : Tables = record no_tables {
          stats = some (record { start_time = now; total_requests = 0 });
        } in
        let opened : new_database fails now no_tables ≡ some started =
          rw (h 0, h 1, h 2, h 3, h 4, h 5, new_database) refl in
        ap (λ o. elim o [ none ↦ started | some x ↦ x ]) (sym opened ∙ made)

    pub new_database-Matches :
        (now : Time) (t : Tables)
        → new_database fails now no_tables ≡ some t
        → Matches t (new_stats now)
    unfolding new_stats
    new_database-Matches now t made = rw (← opened_tables now t made) (record {
      maps_made = (refl, refl);
      row = refl;
      same_ips = refl;
      same_agents = refl;
      distinct_ips = tt;
      distinct_agents = tt;
    })

    -- Two managers that start at the same time, one with a new database and one with none, report the
    -- same uptime, total, and numbers of addresses and user agents after the same requests, if no call
    -- of the driver fails, the tables accept the requests, and the maps in memory are not full.
    pub get_totals_agree :
        (now later : Time) (t : Tables) (s : Stats) (trust : Bool) (reqs : List RequestInfo)
        → new_database fails now no_tables ≡ some t
        → All (λ req. accepts engine req ≡ true) reqs
        → length (Memory.record_all (new_stats now) reqs).ip_counts < max_tracked_ips
        → length (Memory.record_all (new_stats now) reqs).user_agents < max_tracked_user_agents
        → get_totals engine fails later (record_all reqs (new_manager (some t) s trust))
          ≡ get_totals engine fails later (record_all reqs (new_manager none (new_stats now) trust))
    get_totals_agree now later t s trust reqs made all few_ips few_agents =
        rw (record_all_memory reqs (new_stats now) trust, record_all_db reqs t s trust all)
          (get_totals-Matches (with_all reqs t) (Memory.record_all (new_stats now) reqs) s trust
            later
            (with_all-Matches reqs t (new_stats now) (new_database-Matches now t made) few_ips
              few_agents))
