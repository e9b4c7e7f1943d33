-- ===== src/Stats/Manager/Total.antt =====
-- internal/stats/manager.go: a manager answers the questions of the admin pages without a panic.
use gospidertrap.Common.{
  ℕ, ◌≡◌, refl, sym, ◌∙◌, take, Text, some, List, [], map, arith, length, length-map, Option-cases,
  inl, inr,
}
use gospidertrap.Common.Int.{ℤ, pos}
use gospidertrap.Stats.{RequestInfo, Time}
use gospidertrap.Stats.Charts.{Entry, Series, ChartData, top_entries}
use gospidertrap.Stats.Charts.Labels.{
  ShowsAll, display_all_shows, ShowsAll-length, chart_data_total,
}
use mathlib.Core.List.{reverse}
use gospidertrap.Stats.Memory.{recent_count}
use gospidertrap.Stats.Memory.Recent.{get_recent_requests-reverse}
use gospidertrap.Stats.Database.{Tables, Engine, Faults, get_top_ips, get_top_user_agents}
use gospidertrap.Stats.Database
use gospidertrap.Stats.Reports.{Reports}
use gospidertrap.Stats.Manager.{Manager, no_charts, get_chart_data, get_recent, reports}

-- Every label has its count.
abbrev pub IsPaired : Series → Type 0
IsPaired s = length s.labels ≡ length s.counts

-- What the dashboard needs to be written.
pub record Answers (r : Reports) : Type 0 where
  pub charts : ChartData
  pub charted : r.get_chart_data (pos 10) (pos 50) ≡ some charts
  pub paired_ips : IsPaired charts.top_ips
  pub paired_agents : IsPaired charts.top_user_agents
  pub recent : List RequestInfo
  pub listed : r.get_recent_requests (pos 50) ≡ some recent

-- The chart data of entries, with these labels for the user agents.
abbrev charts_of : List Entry → List Entry → List Text → ChartData
charts_of ips uas labels = record {
  top_ips = record { labels = map (λ e. e.0) ips; counts = map (λ e. e.1) ips };
  top_user_agents = record { labels = labels; counts = map (λ e. e.1) uas };
}

ips-IsPaired :
    (ips uas : List Entry) (labels : List Text) → IsPaired (charts_of ips uas labels).top_ips
ips-IsPaired ips uas labels = length-map (λ e. e.0) ips ∙ sym (length-map (λ e. e.1) ips)

agents-IsPaired :
    (ips uas : List Entry) (labels : List Text)
    → ShowsAll 50 uas labels
    → IsPaired (charts_of ips uas labels).top_user_agents
agents-IsPaired ips uas labels shown =
    ShowsAll-length 50 uas labels shown ∙ sym (length-map (λ e. e.1) uas)

module _ (engine : Engine) where
  get_recent_total :
      (fails : Faults) (m : Manager) (limit : ℤ)
      → (rs : List RequestInfo) × (get_recent engine fails m limit ≡ some rs)
  unfolding get_recent
  get_recent_total fails m limit = elim (Option-cases m.db) [
    | inl e ↦ (
      take (recent_count limit (length m.stats.recent_requests)) (reverse m.stats.recent_requests),
      rw (e, get_recent) (get_recent_requests-reverse m.stats limit),
    )
    | inr (t, e) ↦ elim (Option-cases (Database.get_recent_requests engine fails limit t)) [
      | inl f ↦ ([], rw (e, f, get_recent) refl)
      | inr (rs, f) ↦ (rs, rw (e, f, get_recent) refl)
    ]
  ]

  get_chart_data_total :
      (fails fails' : Faults) (m : Manager)
      → (c : ChartData) × (get_chart_data engine fails fails' m (pos 10) (pos 50) ≡ some c)
        × IsPaired c.top_ips
        × IsPaired c.top_user_agents
  unfolding get_chart_data
  get_chart_data_total fails fails' m = elim (Option-cases m.db) [
    | inl e ↦
        let (labels, chart, shown) = chart_data_total m.stats (pos 10) 50 (omega arith) in
        let ips = top_entries (pos 10) m.stats.ip_counts in
        let uas = top_entries (pos 10) m.stats.user_agents in
        (
          charts_of ips uas labels,
          rw (e, get_chart_data) chart,
          ips-IsPaired ips uas labels,
          agents-IsPaired ips uas labels shown,
        )
    | inr (t, e) ↦ elim (Option-cases (get_top_ips engine fails (pos 10) t)) [
      | inl f ↦ (no_charts, rw (e, f, get_chart_data) refl, refl, refl)
      | inr (ips, f) ↦ elim (Option-cases (get_top_user_agents engine fails' (pos 10) t)) [
        | inl g ↦ (no_charts, rw (e, f, g, get_chart_data) refl, refl, refl)
        | inr (uas, g) ↦
            let (labels, made, shown) = display_all_shows 50 uas (omega arith) in
            (
              charts_of ips uas labels,
              rw (e, f, g, made, get_chart_data) refl,
              ips-IsPaired ips uas labels,
              agents-IsPaired ips uas labels shown,
            )
      ]
    ]
  ]

  pub reports_total :
      (fails : ℕ → Faults) (now : Time) (m : Manager) → Answers (reports engine fails now m)
  unfolding reports
  reports_total fails now m =
      let (c, made, ips, agents) = get_chart_data_total (fails 1) (fails 2) m in
      let (rs, listed) = get_recent_total (fails 3) m (pos 50) in
      record {
        charts = c;
        charted = made;
        paired_ips = ips;
        paired_agents = agents;
        recent = rs;
        listed = listed;
      }
